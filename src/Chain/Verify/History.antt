-- ===== src/Chain/Verify/History.antt =====
-- `Verify` (internal/chain/chain.go) with the anchor of an earlier chain.
use aurvet.Prelude.{
  Bytes, List, Option, Option-cases, ap, arith, get_elem?, get_elem?-lt, get_elem?_total, get_last?,
  get_last?_at, get_last?-none, inl, inr, length, none, pos, some, suc, sym, zero, ℕ, ℤ, ◌+◌, ◌-◌,
  ◌<◌, ◌∙◌, ◌≡◌,
}
use aurvet.Baseline.Key.{PublicKey}
use aurvet.Baseline.Sign.{Crypto}
use aurvet.Chain.{Anchor, Record, genesis_prev, head_anchor}
use aurvet.Chain.Verify.{verify_chain}
use aurvet.Chain.Verify.Order.{Linked}
use aurvet.Chain.Verify.Spec.{verify_chain_iff}
use aurvet.Chain.Verify.Truncation.{head_anchor-last}
use mathlib.Core.Path.{subst}

-- Position `i` of both lists holds a record, with one digest.
pub record AgreeAt (rs ss : List Record) (i : ℕ) : Type 0 where
  pub left : Record
  pub right : Record
  pub left_at : get_elem? rs i ≡ some left
  pub right_at : get_elem? ss i ≡ some right
  pub same_hash : left.hash ≡ right.hash

-- Where the two lists have one digest at a position, the digest stands for one predecessor: a digest
-- determines the entry that was hashed.
abbrev pub DigestsBind : List Record → List Record → Type 0
DigestsBind rs ss =
    (i : ℕ) (r s : Record)
    → get_elem? rs i ≡ some r
    → get_elem? ss i ≡ some s
    → r.hash ≡ s.hash
    → r.entry.prev_hash ≡ s.entry.prev_hash

agree_before :
    (rs ss : List Record)
    → Linked genesis_prev rs
    → Linked genesis_prev ss
    → DigestsBind rs ss
    → (n : ℕ) → AgreeAt rs ss (suc n)
    → AgreeAt rs ss n
agree_before rs ss lr ls binds n a =
    let (p, p_at) =
      get_elem?_total rs n (let q = get_elem?-lt rs (suc n) a.left_at in omega arith) in
    let (q, q_at) =
      get_elem?_total ss n (let q = get_elem?-lt ss (suc n) a.right_at in omega arith) in
    record {
      left = p;
      right = q;
      left_at = p_at;
      right_at = q_at;
      same_hash =
          sym (lr.later n p a.left p_at a.left_at)
          ∙ binds (suc n) a.left a.right a.left_at a.right_at a.same_hash
          ∙ ls.later n q a.right q_at a.right_at;
    }

agree_below :
    (rs ss : List Record)
    → Linked genesis_prev rs
    → Linked genesis_prev ss
    → DigestsBind rs ss
    → (n k : ℕ) → AgreeAt rs ss (k + n)
    → AgreeAt rs ss n
agree_below rs ss lr ls binds n zero a = subst (AgreeAt rs ss) (omega arith) a
agree_below rs ss lr ls binds n (suc k) a =
    agree_below rs ss lr ls binds n k
      (agree_before rs ss lr ls binds (k + n) (subst (AgreeAt rs ss) (omega arith) a))

-- A chain that `Verify` accepts against the anchor of an earlier chain, also accepted, has the same
-- digest as that chain at each of its positions, provided that equal digests at a position stand for
-- one predecessor.
pub anchor_fixes_history :
    (C : Crypto) (parse_stamp : Bytes → Option ℤ) (fingerprint : PublicKey → Bytes)
    (trusted : List (Option PublicKey)) (rs ss : List Record) (i : ℕ)
    → DigestsBind rs ss
    → (verify_chain C parse_stamp fingerprint ss (record { trusted = trusted; anchor = none })).1
      ≡ none
    → (verify_chain C parse_stamp fingerprint rs
        (record { trusted = trusted; anchor = some (head_anchor ss) })).1
      ≡ none
    → i < length ss
    → AgreeAt rs ss i
anchor_fixes_history C parse_stamp fingerprint trusted rs ss i binds hs hr lt =
    elim (Option-cases (get_last? ss)) [
      | inl empty ↦ absurd (omega (arith, get_last?-none ss empty))
      | inr (last, at_last) ↦
          let (n, len, at) = get_last?_at ss at_last in
          let (cs, _) = (verify_chain_iff C parse_stamp fingerprint trusted ss none).0 hs in
          let (cr, reach) =
            (verify_chain_iff C parse_stamp fingerprint trusted rs (some (head_anchor ss))).0 hr in
          let anchor = head_anchor-last ss at_last in
          let (r, r_at, same) =
            reach.head_at n (ap (λ (a : Anchor). a.length) anchor ∙ ap pos len) in
          agree_below rs ss cr.linked cs.linked binds i (n - i) (
            subst (AgreeAt rs ss) (omega arith) (record {
              left = r;
              right = last;
              left_at = r_at;
              right_at = at;
              same_hash = same ∙ ap (λ (a : Anchor). a.head) anchor;
            }))
    ]
