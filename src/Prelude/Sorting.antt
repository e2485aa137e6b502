-- ===== src/Prelude/Sorting.antt =====
-- `sort.SliceStable` with a test for "stands before", as insertion from the end of the list. Of
-- `sort.Slice`, which leaves the order of equal elements open, it is one outcome.
use Prim.Native.Nat.{ℕ, zero, suc, ◌≤◌}
use mathlib.Core.Path.{◌≡◌, refl, sym, ap, ◌∙◌}
use mathlib.Core.Logic.{inl, inr}
use mathlib.Core.Bool.{Bool, true, false}
use mathlib.Core.List.{List, [], ◌∷◌, ◌++◌}
use mathlib.Core.Option.{some}
use native.Mathlib.Omega.{arith}
use aurvet.Prelude.Lists.{All, get_elem?, get_elem?-append_left, length}
use aurvet.Prelude.Tests.{Bool-cases, if◌then◌else◌}

module _ {ℓ} {A : Type ℓ} where
  unfoldable pub insert_by : (A → A → Bool) → A → List A → List A
  insert_by before x [] = x ∷ []
  insert_by before x (y ∷ ys) = if before y x then y ∷ insert_by before x ys else x ∷ y ∷ ys

  unfoldable pub sort_by : (A → A → Bool) → List A → List A
  unfolding insert_by
  sort_by before [] = []
  sort_by before (x ∷ xs) = insert_by before x (sort_by before xs)

  -- The elements that pass a test, in their order.
  abbrev pub select : (A → Bool) → List A → List A
  select p [] = []
  select p (x ∷ xs) = if p x then x ∷ select p xs else select p xs

  -- An element that fails a test does not disturb those that pass it.
  select-insert_by_skip :
      (p : A → Bool) (before : A → A → Bool) (x : A) (ys : List A)
      → p x ≡ false
      → select p (insert_by before x ys) ≡ select p ys
  unfolding insert_by
  select-insert_by_skip p before x [] h = rw h
  select-insert_by_skip p before x (y ∷ ys) h =
      let rest = select-insert_by_skip p before x ys h in
      elim (Bool-cases (before y x)) [
        | inl e ↦ rw e (ap (λ l. if p y then y ∷ l else l) rest)
        | inr e ↦ rw (e, h)
      ]

  -- Where no element passes the test, the one that is inserted is the only one.
  select-insert_by_alone :
      (p : A → Bool) (before : A → A → Bool) (x : A) (ys : List A)
      → p x ≡ true
      → select p ys ≡ []
      → select p (insert_by before x ys) ≡ x ∷ []
  unfolding insert_by
  select-insert_by_alone p before x [] h none_yet = rw h
  select-insert_by_alone p before x (y ∷ ys) h none_yet = elim (Bool-cases (p y)) [
    | inl e ↦ let bad = rw e at none_yet in absurd (cc)
    | inr e ↦
        let rest = select-insert_by_alone p before x ys h (rw e at none_yet) in
        elim (Bool-cases (before y x)) [
          | inl b ↦ rw (b, e) rest
          | inr b ↦ rw (b, h, e) (ap (λ l. x ∷ l) (rw e at none_yet))
        ]
  ]

  length_zero : (xs : List A) → length xs ≤ 0 → xs ≡ []
  length_zero [] h = refl
  length_zero (x ∷ xs) h = absurd (omega arith)

  -- Sorting keeps what passes a test that at most one element passes.
  pub select-sort_by :
      (p : A → Bool) (before : A → A → Bool) (xs : List A)
      → length (select p xs) ≤ 1
      → select p (sort_by before xs) ≡ select p xs
  unfolding sort_by
  select-sort_by p before [] h = refl
  select-sort_by p before (x ∷ xs) h = elim (Bool-cases (p x)) [
    | inl e ↦
        let alone = length_zero (select p xs) (let k = rw e at h in omega (arith, k)) in
        let rest = select-sort_by p before xs (rw alone (omega arith)) in
        rw e (
          select-insert_by_alone p before x (sort_by before xs) e (rest ∙ alone)
          ∙ ap (λ l. x ∷ l) (sym alone))
    | inr e ↦
        let rest = select-sort_by p before xs (rw e at h) in
        rw e (select-insert_by_skip p before x (sort_by before xs) e ∙ rest)
  ]

  count-insert_by :
      (p : A → Bool) (before : A → A → Bool) (x : A) (ys : List A)
      → length (select p (insert_by before x ys)) ≡ length (select p (x ∷ ys))
  unfolding insert_by
  count-insert_by p before x [] = refl
  count-insert_by p before x (y ∷ ys) =
      let rest = count-insert_by p before x ys in ground (arith, rest)

  -- Sorting keeps every element, as often as it occurs.
  pub count-sort_by :
      (p : A → Bool) (before : A → A → Bool) (xs : List A)
      → length (select p (sort_by before xs)) ≡ length (select p xs)
  unfolding sort_by
  count-sort_by p before [] = refl
  count-sort_by p before (x ∷ xs) =
      let rest = count-sort_by p before xs in
      count-insert_by p before x (sort_by before xs) ∙ ground (arith, rest)

module _ {ℓ κ} {A : Type ℓ} (P : A → Type κ) where
  All-insert_by :
      (before : A → A → Bool) (x : A) (ys : List A) → P x → All P ys → All P (insert_by before x ys)
  unfolding insert_by
  All-insert_by before x [] h k = (h, tt)
  All-insert_by before x (y ∷ ys) h k = elim (Bool-cases (before y x)) [
    | inl e ↦ rw e (k.0, All-insert_by before x ys h k.1)
    | inr e ↦ rw e (h, k)
  ]

  pub All-sort_by : (before : A → A → Bool) (xs : List A) → All P xs → All P (sort_by before xs)
  unfolding sort_by
  All-sort_by before [] h = tt
  All-sort_by before (x ∷ xs) h =
      All-insert_by before x (sort_by before xs) h.0 (All-sort_by before xs h.1)

-- An element of a list, by its place.
abbrev pub Has {ℓ} : {A : Type ℓ} → A → List A → Type ℓ
Has x xs = (k : ℕ) × (get_elem? xs k ≡ some x)

module _ {ℓ} {A : Type ℓ} where
  pub Has-cons : (y : A) (xs : List A) {x : A} → Has x xs → Has x (y ∷ xs)
  Has-cons y xs (k, e) = (suc k, e)

  pub Has-append_left : (xs ys : List A) {x : A} → Has x xs → Has x (xs ++ ys)
  Has-append_left xs ys (k, e) = (k, get_elem?-append_left xs ys k e)

  pub Has-append_right : (xs ys : List A) {x : A} → Has x ys → Has x (xs ++ ys)
  Has-append_right [] ys h = h
  Has-append_right (y ∷ xs) ys h = Has-cons y (xs ++ ys) (Has-append_right xs ys h)

  Has-swap : (y z : A) (xs : List A) {x : A} → Has x (y ∷ z ∷ xs) → Has x (z ∷ y ∷ xs)
  Has-swap y z xs (zero, e) = (1, e)
  Has-swap y z xs (suc zero, e) = (0, e)
  Has-swap y z xs (suc (suc k), e) = (suc (suc k), e)

  Has-under :
      (y : A) (xs ys : List A) {x : A} → (Has x xs → Has x ys) → Has x (y ∷ xs) → Has x (y ∷ ys)
  Has-under y xs ys f (zero, e) = (0, e)
  Has-under y xs ys f (suc k, e) = Has-cons y ys (f (k, e))

  Has-insert_by :
      (before : A → A → Bool) (y : A) (xs : List A) {x : A}
      → Has x (y ∷ xs)
      → Has x (insert_by before y xs)
  unfolding insert_by
  Has-insert_by before y [] h = h
  Has-insert_by before y (z ∷ xs) {x = x} h = elim (Bool-cases (before z y)) [
    | inl e ↦ rw e (
        Has-under z (y ∷ xs) (insert_by before y xs) {x = x} (Has-insert_by before y xs {x = x})
          (Has-swap y z xs {x = x} h))
    | inr e ↦ rw e h
  ]

  pub Has-sort_by :
      (before : A → A → Bool) (xs : List A) {x : A} → Has x xs → Has x (sort_by before xs)
  unfolding sort_by
  Has-sort_by before [] h = h
  Has-sort_by before (y ∷ xs) {x = x} h =
      Has-insert_by before y (sort_by before xs) {x = x}
        (Has-under y xs (sort_by before xs) {x = x} (Has-sort_by before xs {x = x}) h)
