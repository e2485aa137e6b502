-- ===== src/Chain/Verify/Spec.antt =====
-- `Verify` (internal/chain/chain.go) as a whole, and the notion of a chain.
use mathlib.Core.Path.{subst}
use aurvet.Prelude.{
  All, Bytes, List, Option, Option-cases, [], ap, arith, bytes_eq_iff, get_elem?, get_elem?-lt, inl,
  inr, length, negsuc, none, pos, pos_part, refl, some, suc, zero, ℕ, ℤ, ◌-◌, ◌↔◌, ◌∙◌, ◌≡◌, ◌≤ℤ◌,
}
use aurvet.Baseline.Key.{PublicKey}
use aurvet.Baseline.Sign.{Crypto}
use aurvet.Chain.{Anchor, Record, err_fork, err_replay, genesis_prev}
use aurvet.Chain.Verify.{anchor_check, structure_check, verify_chain}
use aurvet.Chain.Verify.Checks.{OnceEach, repeat_check_iff}
use aurvet.Chain.Verify.Order.{Linked, link_check_iff, sequence_check_iff}
use aurvet.Chain.Verify.Signed.{
  InOrder, IsAuthentic, or_else_none, signature_check_iff, time_check_iff,
}

-- The copy reaches the anchor's length, and has the anchor's digest there.
pub record Reaches (a : Anchor) (rs : List Record) : Type 0 where
  pub long_enough : a.length ≤ℤ pos (length rs)
  pub head_at :
      (n : ℕ)
      → a.length ≡ pos (suc n)
      → (r : Record) × (get_elem? rs n ≡ some r) × (r.hash ≡ a.head)

abbrev pub Covers : Option Anchor → List Record → Type 0
Covers none rs = Unit
Covers (some a) rs = Reaches a rs

anchor_at :
    (n : ℕ) (hd : Bytes) (rs : List Record)
    → (anchor_check (some (record { length = pos (suc n); head = hd })) rs ≡ none)
      ↔ ((r : Record) × (get_elem? rs n ≡ some r) × (r.hash ≡ hd))
unfolding anchor_check
anchor_at n hd rs =
    let e : suc n - 1 ≡ n = omega arith in
    rw e (elim (Option-cases (get_elem? rs n)) [
      | inl missing ↦ rw missing (λ h. absurd (ground arith), λ w. absurd (let q = w.1 in cc))
      | inr (x, at) ↦
          let inside = get_elem?-lt rs n at in
          rw at (
            λ h. (x, refl, ground (arith, bytes_eq_iff x.hash hd)),
            λ (r, at', same).
                let here : x ≡ r = cc in
                let q = (bytes_eq_iff x.hash hd).1 (ap (λ (y : Record). y.hash) here ∙ same) in
                rw q (ground arith),
          )
    ])

anchor_check-Reaches :
    (l : ℤ) (hd : Bytes) (rs : List Record)
    → (anchor_check (some (record { length = l; head = hd })) rs ≡ none)
      ↔ Reaches (record { length = l; head = hd }) rs
anchor_check-Reaches (pos zero) hd rs = (
  λ h. record { long_enough = omega arith; head_at = λ n e. absurd cc },
  λ h. unfold anchor_check in ground arith,
)
anchor_check-Reaches (negsuc k) hd rs = (
  λ h. record { long_enough = omega arith; head_at = λ n e. absurd cc },
  λ h. unfold anchor_check in ground arith,
)
anchor_check-Reaches (pos (suc n)) hd rs =
    let found = anchor_at n hd rs in
    (
      λ h. record {
        long_enough = let i = get_elem?-lt rs n (found.0 h).1 in omega arith;
        head_at = λ m e.
            let same : n ≡ m = omega (arith, ap pos_part e) in
            subst (λ k. (r : Record) × (get_elem? rs k ≡ some r) × (r.hash ≡ hd)) same (found.0 h);
      },
      λ h. found.1 (h.head_at n refl),
    )

pub anchor_check_iff :
    (a : Option Anchor) (rs : List Record) → (anchor_check a rs ≡ none) ↔ Covers a rs
anchor_check_iff none rs = (λ h. tt, λ h. unfold anchor_check in refl)
anchor_check_iff (some a) rs = anchor_check-Reaches a.length a.head rs

module _ (C : Crypto) (parse_stamp : Bytes → Option ℤ) (fingerprint : PublicKey → Bytes)
    (trusted : List (Option PublicKey)) where
  -- A chain: authentic records, each at its position, linked to the one before and not older, and no
  -- digest, predecessor or payload twice.
  pub record IsChain (rs : List Record) : Type 0 where
    pub authentic : All (IsAuthentic C parse_stamp fingerprint trusted) rs
    pub hash_once : OnceEach (λ r. r.hash) rs
    pub prev_once : OnceEach (λ r. r.entry.prev_hash) rs
    pub seq_at : (i : ℕ) (r : Record) → get_elem? rs i ≡ some r → r.entry.seq ≡ pos i
    pub linked : Linked genesis_prev rs
    pub payload_once : OnceEach (λ r. r.entry.payload.sha256) rs
    pub in_order :
        (j : ℕ) (p r : Record)
        → get_elem? rs j ≡ some p
        → get_elem? rs (suc j) ≡ some r
        → InOrder parse_stamp p r

  -- `Verify` returns no error exactly when the records are a chain and reach the anchor, if one is given.
  pub verify_chain_iff :
      (rs : List Record) (anchor : Option Anchor)
      → ((verify_chain C parse_stamp fingerprint rs
            (record { trusted = trusted; anchor = anchor })).1
          ≡ none)
        ↔ (IsChain rs × Covers anchor rs)
  unfolding verify_chain structure_check
  verify_chain_iff rs anchor =
      let sigs = signature_check_iff C parse_stamp fingerprint trusted [] rs in
      let hashes = repeat_check_iff (λ r. r.hash) err_replay rs in
      let prevs = repeat_check_iff (λ r. r.entry.prev_hash) err_fork rs in
      let seqs = sequence_check_iff 0 rs in
      let links = link_check_iff 0 genesis_prev rs in
      let payloads = repeat_check_iff (λ r. r.entry.payload.sha256) err_replay rs in
      let times = time_check_iff parse_stamp 0 rs in
      let anchored = anchor_check_iff anchor rs in
      (
        λ h.
            let (h0, r0) = (or_else_none _ _).0 h in
            let (h1, r1) = (or_else_none _ _).0 r0 in
            let (h2, r2) = (or_else_none _ _).0 r1 in
            let (h3, r3) = (or_else_none _ _).0 r2 in
            let (h4, r4) = (or_else_none _ _).0 r3 in
            let (h5, r5) = (or_else_none _ _).0 r4 in
            let (h6, h7) = (or_else_none _ _).0 r5 in
            (
              record {
                authentic = sigs.0 h0;
                hash_once = hashes.0 h1;
                prev_once = prevs.0 h2;
                seq_at = λ i r at. seqs.0 h3 i r at ∙ ap pos (omega arith);
                linked = links.0 h4;
                payload_once = payloads.0 h5;
                in_order = times.0 h6;
              },
              anchored.0 h7,
            ),
        λ (c, covers). (or_else_none _ _).1 (
          sigs.1 c.authentic,
          (or_else_none _ _).1 (
            hashes.1 c.hash_once,
            (or_else_none _ _).1 (
              prevs.1 c.prev_once,
              (or_else_none _ _).1 (
                seqs.1 (λ i r at. c.seq_at i r at ∙ ap pos (omega arith)),
                (or_else_none _ _).1 (
                  links.1 c.linked,
                  (or_else_none _ _).1 (
                    payloads.1 c.payload_once,
                    (or_else_none _ _).1 (times.1 c.in_order, anchored.1 covers),
                  ),
                ),
              ),
            ),
          ),
        ),
      )
