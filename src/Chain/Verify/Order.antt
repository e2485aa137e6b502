-- ===== src/Chain/Verify/Order.antt =====
-- The loops of `Verify` (internal/chain/chain.go) over positions and links.
use aurvet.Prelude.{
  Bool-cases, Bytes, List, [], ap, arith, bytes_eq, bytes_eq_iff, eq_ℤ, eq_ℤ_iff, get_elem?, inl,
  inr, none, pos, refl, some, suc, sym, zero, ℕ, ◌+◌, ◌↔◌, ◌∙◌, ◌∷◌, ◌≡◌,
}
use aurvet.Chain.{Record}
use aurvet.Chain.Verify.{link_check, sequence_check}

sequence_check-cons :
    (i : ℕ) (x : Record) (xs : List Record)
    → (sequence_check i (x ∷ xs) ≡ none)
      ↔ ((x.entry.seq ≡ pos i) × (sequence_check (suc i) xs ≡ none))
unfolding sequence_check
sequence_check-cons i x xs = elim (Bool-cases (eq_ℤ (pos i) x.entry.seq)) [
  | inl same ↦ let e = (eq_ℤ_iff (pos i) x.entry.seq).0 same in rw same (λ h. (sym e, h), λ h. h.1)
  | inr differ ↦
      rw differ
        (λ h. absurd (cc), λ h. absurd (let q = (eq_ℤ_iff (pos i) x.entry.seq).1 (sym h.0) in cc))
]

pub sequence_check_iff :
    (i : ℕ) (rs : List Record)
    → (sequence_check i rs ≡ none)
      ↔ ((j : ℕ) (r : Record) → get_elem? rs j ≡ some r → r.entry.seq ≡ pos (i + j))
sequence_check_iff i [] = (λ h j r at. absurd cc, λ h. unfold sequence_check in refl)
sequence_check_iff i (x ∷ xs) =
    let cons = sequence_check-cons i x xs in
    let rest = sequence_check_iff (suc i) xs in
    (
      λ h. at_index (cons.0 h).0 (rest.0 (cons.0 h).1),
      λ h. cons.1 (
        h zero x refl ∙ ap pos (omega arith),
        rest.1 (λ j r at. h (suc j) r at ∙ ap pos (omega arith)),
      ),
    )
  where
    at_index :
        x.entry.seq ≡ pos i
        → ((j : ℕ) (r : Record) → get_elem? xs j ≡ some r → r.entry.seq ≡ pos (suc i + j))
        → (j : ℕ) (r : Record) → get_elem? (x ∷ xs) j ≡ some r
        → r.entry.seq ≡ pos (i + j)
    at_index e rest zero r at =
        let here : x ≡ r = cc in
        ap (λ (q : Record). q.entry.seq) (sym here) ∙ e ∙ ap pos (omega arith)
    at_index e rest (suc j) r at = rest j r at ∙ ap pos (omega arith)

-- The first record names `want`, and each later one the digest of the record before it.
pub record Linked (want : Bytes) (rs : List Record) : Type 0 where
  pub first : (r : Record) → get_elem? rs 0 ≡ some r → r.entry.prev_hash ≡ want
  pub later :
      (j : ℕ) (p r : Record)
      → get_elem? rs j ≡ some p
      → get_elem? rs (suc j) ≡ some r
      → r.entry.prev_hash ≡ p.hash

link_check-cons :
    (i : ℕ) (want : Bytes) (x : Record) (xs : List Record)
    → (link_check i want (x ∷ xs) ≡ none)
      ↔ ((x.entry.prev_hash ≡ want) × (link_check (suc i) x.hash xs ≡ none))
unfolding link_check
link_check-cons i want x xs = elim (Bool-cases (bytes_eq x.entry.prev_hash want)) [
  | inl same ↦
      let e = (bytes_eq_iff x.entry.prev_hash want).0 same in rw same (λ h. (e, h), λ h. h.1)
  | inr differ ↦
      rw differ
        (λ h. absurd (cc), λ h. absurd (let q = (bytes_eq_iff x.entry.prev_hash want).1 h.0 in cc))
]

pub link_check_iff :
    (i : ℕ) (want : Bytes) (rs : List Record) → (link_check i want rs ≡ none) ↔ Linked want rs
link_check_iff i want [] = (
  λ h. record { first = λ r at. absurd cc; later = λ j p r at at'. absurd cc },
  λ h. unfold link_check in refl,
)
link_check_iff i want (x ∷ xs) =
    let cons = link_check-cons i want x xs in
    let rest = link_check_iff (suc i) x.hash xs in
    (
      λ h. record {
        first = λ r at.
            let here : x ≡ r = cc in
            ap (λ (q : Record). q.entry.prev_hash) (sym here) ∙ (cons.0 h).0;
        later = later_index (rest.0 (cons.0 h).1);
      },
      λ h. cons.1 (
        h.first x refl,
        rest.1 (record {
          first = λ r at. h.later zero x r refl at;
          later = λ j p r at at'. h.later (suc j) p r at at';
        }),
      ),
    )
  where
    later_index :
        Linked x.hash xs
        → (j : ℕ) (p r : Record) → get_elem? (x ∷ xs) j ≡ some p
        → get_elem? xs j ≡ some r
        → r.entry.prev_hash ≡ p.hash
    later_index l zero p r at at' =
        let here : x ≡ p = cc in l.first r at' ∙ ap (λ (q : Record). q.hash) here
    later_index l (suc j) p r at at' = l.later j p r at at'
