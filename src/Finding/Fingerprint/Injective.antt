-- ===== src/Finding/Fingerprint/Injective.antt =====
-- The encoding behind `Fingerprint` of internal/finding/finding.go.
use mathlib.Core.List.{tail}
use aurvet.Prelude.{
  All, Bool-cases, Bytes, List, [], ap, append_assoc, arith, drop-append_left, inl, inr, length,
  ltb, ltb→lt, refl, suc, sym, take-append_left, zero, ℕ, ◌%◌, ◌*◌, ◌++◌, ◌+◌, ◌-◌, ◌/◌, ◌<◌, ◌∙◌,
  ◌∷◌, ◌≡◌, ◌≤◌,
}
use mathlib.Core.List.{flat_map}
use aurvet.Finding.Fingerprint.{hex, hex_digit, decimal_fuel, decimal, encode_field, encode_fields}

-- The number that a run of digits stands for, after `acc`.
value : ℕ → Bytes → ℕ
value acc [] = acc
value acc (c ∷ cs) = value (acc * 10 + (c - 48)) cs

value-append : (acc : ℕ) (xs ys : Bytes) → value acc (xs ++ ys) ≡ value (value acc xs) ys
unfolding value
value-append acc [] ys = refl
value-append acc (c ∷ cs) ys = value-append (acc * 10 + (c - 48)) cs ys

abbrev IsDigits : Bytes → Type 0
IsDigits = All (λ c. (48 ≤ c) × (c < 58))

IsDigits-append : (xs ys : Bytes) → IsDigits xs → IsDigits ys → IsDigits (xs ++ ys)
IsDigits-append [] ys hx hy = hy
IsDigits-append (x ∷ xs) ys hx hy = (hx.0, IsDigits-append xs ys hx.1 hy)

decimal_fuel-IsDigits : (f n : ℕ) → IsDigits (decimal_fuel f n)
unfolding decimal_fuel
decimal_fuel-IsDigits zero n = tt
decimal_fuel-IsDigits (suc f) n = elim (Bool-cases (ltb n 10)) [
  | inl small ↦ rw small ((omega arith, omega (arith, ltb→lt n 10)), tt)
  | inr large ↦ rw large (
      IsDigits-append (decimal_fuel f (n / 10)) ((48 + n % 10) ∷ [])
        (decimal_fuel-IsDigits f (n / 10)) ((omega arith, omega arith), tt))
]

value-decimal_fuel : (f n : ℕ) → n < f → value 0 (decimal_fuel f n) ≡ n
unfolding decimal_fuel value
value-decimal_fuel zero n h = elim h [ ]
value-decimal_fuel (suc f) n h = elim (Bool-cases (ltb n 10)) [
  | inl small ↦ rw small (omega arith)
  | inr large ↦ rw large (
      value-append 0 (decimal_fuel f (n / 10)) ((48 + n % 10) ∷ [])
      ∙ ground (arith, value-decimal_fuel f (n / 10)))
]

decimal_injective : (m n : ℕ) → decimal m ≡ decimal n → m ≡ n
unfolding decimal
decimal_injective m n h =
    sym (value-decimal_fuel (suc m) m (omega arith))
    ∙ ap (value 0) h
    ∙ value-decimal_fuel (suc n) n (omega arith)

split_colon :
    (a b r s : Bytes)
    → IsDigits a
    → IsDigits b
    → a ++ (b':' ∷ r) ≡ b ++ (b':' ∷ s)
    → (a ≡ b) × (r ≡ s)
split_colon [] [] r s ha hb h = (refl, cc)
split_colon [] (d ∷ b) r s ha hb h = absurd (ground arith)
split_colon (c ∷ a) [] r s ha hb h = absurd (ground arith)
split_colon (c ∷ a) (d ∷ b) r s ha hb h = ground (arith, split_colon a b r s ha.1 hb.1 (ap tail h))

pub append_cancel : (a b x y : Bytes) → length a ≡ length b → a ++ x ≡ b ++ y → (a ≡ b) × (x ≡ y)
append_cancel a b x y e h = (
  sym (take-append_left a x) ∙ cc (e, h) ∙ take-append_left b y,
  sym (drop-append_left a x) ∙ cc (e, h) ∙ drop-append_left b y,
)

pub encode_field_injective :
    (a b x y : Bytes) → encode_field a ++ x ≡ encode_field b ++ y → (a ≡ b) × (x ≡ y)
unfolding encode_field decimal
encode_field_injective a b x y h =
    let (lengths, rest) =
      split_colon (decimal (length a)) (decimal (length b)) (a ++ x) (b ++ y)
        (decimal_fuel-IsDigits (suc (length a)) (length a))
        (decimal_fuel-IsDigits (suc (length b)) (length b))
        (sym (append_assoc (decimal (length a)) (b':' ∷ a) x)
          ∙ h
          ∙ append_assoc (decimal (length b)) (b':' ∷ b) y) in
    append_cancel a b x y (decimal_injective (length a) (length b) lengths) rest

-- Two lists of as many fields with one encoding are the same list: no byte can move over a field's
-- boundary.
pub encode_fields_injective :
    (fs gs : List Bytes) → length fs ≡ length gs → encode_fields fs ≡ encode_fields gs → fs ≡ gs
unfolding encode_fields
encode_fields_injective [] [] n h = refl
encode_fields_injective [] (g ∷ gs) n h = absurd (omega arith)
encode_fields_injective (f ∷ fs) [] n h = absurd (omega arith)
encode_fields_injective (f ∷ fs) (g ∷ gs) n h =
    let (same, rest) = encode_field_injective f g (encode_fields fs) (encode_fields gs) h in
    cc (same, encode_fields_injective fs gs (omega arith) rest)

head_eq : {a b : ℕ} {s t : Bytes} → a ∷ s ≡ b ∷ t → a ≡ b
head_eq h = cc

hex_digit_injective : (a b : ℕ) → hex_digit a ≡ hex_digit b → a ≡ b
unfolding hex_digit
hex_digit_injective a b h = ground arith

-- No two byte strings have one hexadecimal text.
pub hex_injective : (s t : Bytes) → hex s ≡ hex t → s ≡ t
unfolding hex flat_map
hex_injective [] [] h = refl
hex_injective [] (d ∷ t) h = absurd (cc)
hex_injective (c ∷ s) [] h = absurd (cc)
hex_injective (c ∷ s) (d ∷ t) h =
    let high = hex_digit_injective (c / 16) (d / 16) (head_eq h) in
    let low = hex_digit_injective (c % 16) (d % 16) (head_eq (ap tail h)) in
    let same : c ≡ d = omega (arith, high, low) in
    cc (same, hex_injective s t (ap tail (ap tail h)))
