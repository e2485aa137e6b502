-- ===== src/Chain/Verify/Checks.antt =====
-- The loops of `Verify` (internal/chain/chain.go) that look for a key twice.
use aurvet.Prelude.{
  All, All-get_elem?, All-×, All-map, All-of_get_elem?, Bool-cases, Bytes, List, Option-cases, [],
  ap, arith, bytes_eq, bytes_eq_iff, get_elem?, inl, inr, none, refl, some, suc, sym, zero, ℕ, ◌↔◌,
  ◌∙◌, ◌∷◌, ◌≡◌, ◌≢◌,
}
use aurvet.Chain.{ChainError, Record}
use aurvet.Chain.Verify.{index_of, repeat_check}

-- No two positions of the list have the same key.
abbrev pub OnceEach : (Record → Bytes) → List Record → Type 0
OnceEach key rs =
    (i j : ℕ) (r s : Record)
    → get_elem? rs i ≡ some r
    → get_elem? rs j ≡ some s
    → key r ≡ key s
    → i ≡ j

NotSeen : List (Bytes × ℕ) → Bytes → Type 0
NotSeen seen k = All (λ (p : Bytes × ℕ). p.0 ≢ k) seen

Distinct : (Record → Bytes) → List Record → Type 0
Distinct key [] = Unit
Distinct key (r ∷ rs) = All (λ s. key r ≢ key s) rs × Distinct key rs

index_of-none : (k : Bytes) (seen : List (Bytes × ℕ)) → index_of k seen ≡ none → NotSeen seen k
unfolding index_of NotSeen
index_of-none k [] h = tt
index_of-none k ((j, i) ∷ seen) h = elim (Bool-cases (bytes_eq j k)) [
  | inl same ↦ absurd (let q : some i ≡ none = rw same at h in cc)
  | inr differ ↦
      ((λ e. let q = (bytes_eq_iff j k).1 e in cc), index_of-none k seen (rw differ at h))
]

index_of-NotSeen : (k : Bytes) (seen : List (Bytes × ℕ)) → NotSeen seen k → index_of k seen ≡ none
unfolding index_of NotSeen
index_of-NotSeen k [] h = refl
index_of-NotSeen k ((j, i) ∷ seen) h = elim (Bool-cases (bytes_eq j k)) [
  | inl same ↦ absurd (h.0 ((bytes_eq_iff j k).0 same))
  | inr differ ↦ rw differ (index_of-NotSeen k seen h.1)
]

module _ (key : Record → Bytes) (fault : ℕ → ℕ → ChainError) where
  repeat_check-none :
      (i : ℕ) (seen : List (Bytes × ℕ)) (rs : List Record)
      → repeat_check key fault i seen rs ≡ none
      → All (λ r. NotSeen seen (key r)) rs × Distinct key rs
  unfolding repeat_check NotSeen Distinct
  repeat_check-none i seen [] h = (tt, tt)
  repeat_check-none i seen (r ∷ rs) h = elim (Option-cases (index_of (key r) seen)) [
    | inr (j, e) ↦ absurd (let q = rw (e, repeat_check) at h in cc)
    | inl e ↦
        let (new, rest) =
          repeat_check-none (suc i) ((key r, i) ∷ seen) rs (rw (e, repeat_check) at h) in
        (
          (index_of-none (key r) seen e, All-map _ _ rs (λ s p. p.1) new),
          (All-map _ _ rs (λ s p. p.0) new, rest),
        )
  ]

  repeat_check-Distinct :
      (i : ℕ) (seen : List (Bytes × ℕ)) (rs : List Record)
      → All (λ r. NotSeen seen (key r)) rs
      → Distinct key rs
      → repeat_check key fault i seen rs ≡ none
  unfolding repeat_check NotSeen Distinct
  repeat_check-Distinct i seen [] new once = refl
  repeat_check-Distinct i seen (r ∷ rs) new once =
      rw (index_of-NotSeen (key r) seen new.0, repeat_check)
        (repeat_check-Distinct (suc i) ((key r, i) ∷ seen) rs (All-× _ _ rs once.0 new.1) once.1)

  Distinct-OnceEach : (rs : List Record) → Distinct key rs → OnceEach key rs
  unfolding Distinct
  Distinct-OnceEach [] h i j r s at at' e = absurd cc
  Distinct-OnceEach (x ∷ xs) h zero zero r s at at' e = refl
  Distinct-OnceEach (x ∷ xs) h zero (suc j) r s at at' e =
      let here : x ≡ r = cc in
      absurd (All-get_elem? (λ s. key x ≢ key s) xs j h.0 at' (ap key here ∙ e))
  Distinct-OnceEach (x ∷ xs) h (suc i) zero r s at at' e =
      let here : x ≡ s = cc in
      absurd (All-get_elem? (λ s. key x ≢ key s) xs i h.0 at (ap key here ∙ sym e))
  Distinct-OnceEach (x ∷ xs) h (suc i) (suc j) r s at at' e =
      ap suc (Distinct-OnceEach xs h.1 i j r s at at' e)

  OnceEach-Distinct : (rs : List Record) → OnceEach key rs → Distinct key rs
  unfolding Distinct
  OnceEach-Distinct [] h = tt
  OnceEach-Distinct (x ∷ xs) h = (
    All-of_get_elem? (λ s. key x ≢ key s) xs
        (λ i s at e. let q = h zero (suc i) x s refl at e in absurd (omega arith)),
    OnceEach-Distinct xs
        (λ i j r s at at' e. let q = h (suc i) (suc j) r s at at' e in omega arith),
  )

  NotSeen-nil : (rs : List Record) → All (λ r. NotSeen [] (key r)) rs
  unfolding NotSeen
  NotSeen-nil [] = tt
  NotSeen-nil (r ∷ rs) = (tt, NotSeen-nil rs)

  pub repeat_check_iff :
      (rs : List Record) → (repeat_check key fault 0 [] rs ≡ none) ↔ OnceEach key rs
  repeat_check_iff rs = (
    λ h. Distinct-OnceEach rs (repeat_check-none 0 [] rs h).1,
    λ h. repeat_check-Distinct 0 [] rs (NotSeen-nil rs) (OnceEach-Distinct rs h),
  )
