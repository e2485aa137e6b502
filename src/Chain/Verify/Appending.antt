-- ===== src/Chain/Verify/Appending.antt =====
-- `Verify` and `Link` (internal/chain/chain.go): appending a record.
use aurvet.Prelude.{
  All-snoc, Bytes, List, Option, [], ap, arith, false, get_elem?, get_elem?-append_left,
  get_elem?-lt, get_elem?_total, get_last?, get_last?_at, inl, inr, length, none, pos, some, suc,
  sym, zero, ℕ, ℤ, ◌++◌, ◌<◌, ◌^◌, ◌∙◌, ◌∷◌, ◌≡◌, ◌≢◌, ◌↔◌,
}
use aurvet.Baseline.Key.{PublicKey}
use aurvet.Baseline.Sign.{Crypto}
use aurvet.Chain.{Entry, Record, genesis_prev, is_zero, link, next_int64}
use aurvet.Chain.Verify.{verify_chain}
use aurvet.Chain.Verify.Signed.{InOrder, IsAuthentic}
use aurvet.Chain.Verify.Spec.{IsChain, verify_chain_iff}
use aurvet.Chain.Verify.Snoc.{All-snoc_last, OnceEach-snoc, get_elem?-snoc, snoc_cases, snoc_pairs}

link_at :
    (head : Record) (e : Entry)
    → is_zero head ≡ false
    → (n : ℕ) → head.entry.seq ≡ pos n
    → suc n < 2 ^ 63
    → link (some head) e ≡ record e { seq = pos (suc n); prev_hash = head.hash }
unfolding link next_int64
link_at head e nonzero n seq small =
    let next : next_int64 head.entry.seq ≡ pos (suc n) = rw seq (ground arith) in
    rw nonzero (ap (λ s. record e { seq = s; prev_hash = head.hash }) next)

entry_path :
    (e : Entry) {s : ℤ} {p : Bytes}
    → s ≡ e.seq
    → p ≡ e.prev_hash
    → record e { seq = s; prev_hash = p } ≡ e
entry_path e same same' = λ i. record e { seq = same i; prev_hash = same' i }

module _ (C : Crypto) (parse_stamp : Bytes → Option ℤ) (fingerprint : PublicKey → Bytes)
    (trusted : List (Option PublicKey)) where
  -- What a caller has to see to, beside the position that `Link` fills in: the record is signed and well
  -- formed, its digest and its payload are new, its time is not before the head's, and the head's digest
  -- is not the distinguished value of the first entry.
  pub record IsNew (rs : List Record) (head x : Record) : Type 0 where
    pub authentic : IsAuthentic C parse_stamp fingerprint trusted x
    pub new_hash : (i : ℕ) (r : Record) → get_elem? rs i ≡ some r → r.hash ≢ x.hash
    pub new_payload :
        (i : ℕ) (r : Record)
        → get_elem? rs i ≡ some r
        → r.entry.payload.sha256 ≢ x.entry.payload.sha256
    pub later : InOrder parse_stamp head x
    pub not_genesis : head.hash ≢ genesis_prev

  fresh_prev :
      (rs : List Record) (head x : Record)
      → get_last? rs ≡ some head
      → IsChain C parse_stamp fingerprint trusted rs
      → head.hash ≢ genesis_prev
      → x.entry.prev_hash ≡ head.hash
      → (i : ℕ) (r : Record) → get_elem? rs i ≡ some r
      → r.entry.prev_hash ≢ x.entry.prev_hash
  fresh_prev rs head x last c ne prev zero r at e = ne (sym prev ∙ sym e ∙ c.linked.first r at)
  fresh_prev rs head x last c ne prev (suc k) r at e =
      let (n, len, at_head) = get_last?_at rs last in
      let below = get_elem?-lt rs (suc k) at in
      let (p, p_at) = get_elem?_total rs k (omega arith) in
      let q = c.hash_once k n p head p_at at_head (sym (c.linked.later k p r p_at at) ∙ e ∙ prev) in
      omega arith

  append-IsChain :
      (rs : List Record) (head x : Record)
      → get_last? rs ≡ some head
      → IsChain C parse_stamp fingerprint trusted rs
      → IsNew rs head x
      → x.entry.seq ≡ pos (length rs)
      → x.entry.prev_hash ≡ head.hash
      → IsChain C parse_stamp fingerprint trusted (rs ++ x ∷ [])
  append-IsChain rs head x last c new seq prev =
      let (n, len, at_head) = get_last?_at rs last in
      record {
        authentic =
            All-snoc (IsAuthentic C parse_stamp fingerprint trusted) rs x c.authentic new.authentic;
        hash_once = OnceEach-snoc (λ r. r.hash) rs x c.hash_once new.new_hash;
        prev_once =
            OnceEach-snoc (λ r. r.entry.prev_hash) rs x c.prev_once
              (fresh_prev rs head x last c new.not_genesis prev);
        seq_at = λ i r at. elim (snoc_cases rs x i r at) [
          | inl old ↦ c.seq_at i r old
          | inr (e, same) ↦ ap (λ (q : Record). q.entry.seq) (sym same) ∙ seq ∙ ap pos (sym e)
        ];
        linked = record {
          first = λ r at. elim (snoc_cases rs x 0 r at) [
            | inl old ↦ c.linked.first r old
            | inr (e, same) ↦ absurd (omega arith)
          ];
          later = snoc_pairs (λ p r. r.entry.prev_hash ≡ p.hash) rs head x last c.linked.later prev;
        };
        payload_once =
            OnceEach-snoc (λ r. r.entry.payload.sha256) rs x c.payload_once new.new_payload;
        in_order = snoc_pairs (InOrder parse_stamp) rs head x last c.in_order new.later;
      }

  -- A record that a chain ends in is new behind the records before it.
  snoc-IsNew :
      (rs : List Record) (head x : Record)
      → get_last? rs ≡ some head
      → IsChain C parse_stamp fingerprint trusted (rs ++ x ∷ [])
      → IsNew rs head x
  snoc-IsNew rs head x last c =
      let (n, len, at_head) = get_last?_at rs last in
      let x_at = get_elem?-snoc rs x in
      let head_at = get_elem?-append_left rs (x ∷ []) n at_head in
      let x_next : get_elem? (rs ++ x ∷ []) (suc n) ≡ some x = rw len at x_at in
      let (first, first_at) = get_elem?_total rs 0 (omega arith) in
      let at_first = get_elem?-append_left rs (x ∷ []) 0 first_at in
      record {
        authentic = All-snoc_last (IsAuthentic C parse_stamp fingerprint trusted) rs x c.authentic;
        new_hash = λ i r at e.
            let below = get_elem?-lt rs i at in
            let same =
              c.hash_once i (length rs) r x (get_elem?-append_left rs (x ∷ []) i at) x_at e in
            omega arith;
        new_payload = λ i r at e.
            let below = get_elem?-lt rs i at in
            let same =
              c.payload_once i (length rs) r x (get_elem?-append_left rs (x ∷ []) i at) x_at e in
            omega arith;
        later = c.in_order n head x head_at x_next;
        not_genesis = λ e.
            let prev = c.linked.later n head x head_at x_next in
            let same =
              c.prev_once 0 (length rs) first x at_first x_at
                (c.linked.first first at_first ∙ sym e ∙ sym prev) in
            omega arith;
      }

  -- To an accepted chain of fewer than 2 ^ 63 records, whose head is not the empty record, a record is
  -- appended, without an anchor: `Verify` accepts the result exactly when the entry of
  -- the new record is positioned as `Link` does behind the head, the record is well formed and signed by
  -- a trusted key, its digest and its payload are none of those in the chain, its time is
  -- not before the head's, and the head's digest is not the distinguished one that the first entry names.
  pub verify_chain-link :
      (rs : List Record) (head x : Record)
      → get_last? rs ≡ some head
      → (verify_chain C parse_stamp fingerprint rs (record { trusted = trusted; anchor = none })).1
        ≡ none
      → is_zero head ≡ false
      → length rs < 2 ^ 63
      → ((verify_chain C parse_stamp fingerprint
            (rs ++ x ∷ [])
            (record { trusted = trusted; anchor = none })).1
          ≡ none)
        ↔ ((x.entry ≡ link (some head) x.entry) × IsNew rs head x)
  verify_chain-link rs head x last h nonzero small =
      let (c, _) = (verify_chain_iff C parse_stamp fingerprint trusted rs none).0 h in
      let (n, len, at_head) = get_last?_at rs last in
      let position = link_at head x.entry nonzero n (c.seq_at n head at_head) (omega arith) in
      let whole = verify_chain_iff C parse_stamp fingerprint trusted (rs ++ x ∷ []) none in
      (
        λ accepted.
            let (longer, _) = whole.0 accepted in
            let x_at = get_elem?-snoc rs x in
            let x_next : get_elem? (rs ++ x ∷ []) (suc n) ≡ some x = rw len at x_at in
            (
              sym (
                  position
                  ∙ entry_path x.entry (ap pos (sym len) ∙ sym (longer.seq_at _ x x_at)) (
                      sym (
                        longer.linked.later n head x (get_elem?-append_left rs (x ∷ []) n at_head)
                          x_next))),
              snoc-IsNew rs head x last longer,
            ),
        λ (linked, new).
            let placed = linked ∙ position in
            whole.1 (
              append-IsChain rs head x last c new
                  (ap (λ (y : Entry). y.seq) placed ∙ ap pos (sym len))
                  (ap (λ (y : Entry). y.prev_hash) placed),
              tt,
            ),
      )
