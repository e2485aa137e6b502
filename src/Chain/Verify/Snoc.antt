-- ===== src/Chain/Verify/Snoc.antt =====
-- Lists of records with one more at the end, for `Verify` and `Link` of internal/chain/chain.go.
use mathlib.Core.Path.{subst₂}
use aurvet.Prelude.{
  All, Bytes, List, [], ap, arith, get_elem?, get_elem?-lt, get_last?, get_last?_at, inl, inr,
  length, refl, some, suc, sym, zero, ℕ, ◌++◌, ◌∙◌, ◌∷◌, ◌≡◌, ◌≢◌, ◌⊎◌,
}
use aurvet.Chain.{Record}
use aurvet.Chain.Verify.Checks.{OnceEach}

-- Every position of the longer list is one of the shorter, or the last.
pub snoc_cases :
    (rs : List Record) (x : Record) (i : ℕ) (r : Record)
    → get_elem? (rs ++ x ∷ []) i ≡ some r
    → (get_elem? rs i ≡ some r) ⊎ ((i ≡ length rs) × (x ≡ r))
snoc_cases [] x zero r at = inr (refl, cc)
snoc_cases [] x (suc i) r at = absurd cc
snoc_cases (y ∷ rs) x zero r at = inl at
snoc_cases (y ∷ rs) x (suc i) r at = elim (snoc_cases rs x i r at) [
  | inl old ↦ inl old
  | inr (e, same) ↦ inr (ap suc e, same)
]

pub get_elem?-snoc : (rs : List Record) (x : Record) → get_elem? (rs ++ x ∷ []) (length rs) ≡ some x
get_elem?-snoc [] x = refl
get_elem?-snoc (y ∷ rs) x = get_elem?-snoc rs x

pub All-snoc_last :
    (P : Record → Type 0) (rs : List Record) (x : Record) → All P (rs ++ x ∷ []) → P x
All-snoc_last P [] x h = h.0
All-snoc_last P (y ∷ rs) x h = All-snoc_last P rs x h.1

pub OnceEach-snoc :
    (key : Record → Bytes) (rs : List Record) (x : Record)
    → OnceEach key rs
    → ((i : ℕ) (r : Record) → get_elem? rs i ≡ some r → key r ≢ key x)
    → OnceEach key (rs ++ x ∷ [])
OnceEach-snoc key rs x once new i j r s at at' e = elim (snoc_cases rs x i r at) [
  | inl old ↦ elim (snoc_cases rs x j s at') [
    | inl old' ↦ once i j r s old old' e
    | inr (last', same') ↦ absurd (new i r old (e ∙ sym (ap key same')))
  ]
  | inr (last, same) ↦ elim (snoc_cases rs x j s at') [
    | inl old' ↦ absurd (new j s old' (sym (ap key same ∙ e)))
    | inr (last', same') ↦ last ∙ sym last'
  ]
]

-- What relates neighbours of the list, and its last record to the new one, relates all neighbours.
pub snoc_pairs :
    (R : Record → Record → Type 0) (rs : List Record) (head x : Record)
    → get_last? rs ≡ some head
    → ((j : ℕ) (p r : Record) → get_elem? rs j ≡ some p → get_elem? rs (suc j) ≡ some r → R p r)
    → R head x
    → (j : ℕ) (p r : Record) → get_elem? (rs ++ x ∷ []) j ≡ some p
    → get_elem? (rs ++ x ∷ []) (suc j) ≡ some r
    → R p r
snoc_pairs R rs head x last old new j p r at at' =
    let (n, len, at_head) = get_last?_at rs last in
    elim (snoc_cases rs x j p at) [
      | inr (e, same) ↦ elim (snoc_cases rs x (suc j) r at') [
        | inl r_at ↦ absurd (omega (arith, get_elem?-lt rs (suc j) r_at))
        | inr (e', same') ↦ absurd (omega arith)
      ]
      | inl p_at ↦ elim (snoc_cases rs x (suc j) r at') [
        | inl r_at ↦ old j p r p_at r_at
        | inr (e', same') ↦
            let j_last : j ≡ n = omega arith in
            let here : some p ≡ some head = sym p_at ∙ ap (get_elem? rs) j_last ∙ at_head in
            let same_head : head ≡ p = cc here in subst₂ R same_head same' new
      ]
    ]
