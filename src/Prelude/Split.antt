-- ===== src/Prelude/Split.antt =====
-- Cutting of byte strings: `strings.Split`, `strings.Cut` and `strings.TrimRight` on single bytes.
use Prim.Native.Nat.{ℕ}
use mathlib.Core.Path.{◌≡◌, refl}
use mathlib.Core.Bool.{Bool, false, ◌||◌}
use mathlib.Core.Option.{Option, none, some}
use mathlib.Core.List.{List, [], ◌∷◌}
use aurvet.Prelude.ByteText.{Bytes, codes}
use aurvet.Prelude.Tests.{◌==◌, if◌then◌else◌}

-- A byte put in front of the first part.
onto_first : ℕ → List Bytes → List Bytes
onto_first c [] = (c ∷ []) ∷ []
onto_first c (p ∷ ps) = (c ∷ p) ∷ ps

-- `strings.Split(s, sep)` for a separator of one byte: there is always a part.
unfoldable pub split_on : ℕ → Bytes → List Bytes
unfolding onto_first
split_on sep [] = [] ∷ []
split_on sep (c ∷ s) =
    let rest = split_on sep s in if c == sep then [] ∷ rest else onto_first c rest

cut_step : ℕ → Option (Bytes × Bytes) → Option (Bytes × Bytes)
cut_step c none = none
cut_step c (some (before, after)) = some (c ∷ before, after)

-- `strings.Cut`: what stands before and after the first separator, if there is one.
unfoldable pub cut : ℕ → Bytes → Option (Bytes × Bytes)
unfolding cut_step
cut sep [] = none
cut sep (c ∷ s) = let rest = cut sep s in if c == sep then some ([], s) else cut_step c rest

-- `strings.TrimRight` with a test for the bytes to remove.
unfoldable pub trim_right : (ℕ → Bool) → Bytes → Bytes
trim_right p [] = []
trim_right p (c ∷ s) = elim (trim_right p s) [ [] ↦ if p c then [] else c ∷ [] | d ∷ t ↦ c ∷ d ∷ t ]

-- `strings.IndexByte(s, b) >= 0`, for bytes that pass a test.
unfoldable pub has_byte : (ℕ → Bool) → Bytes → Bool
has_byte p [] = false
has_byte p (c ∷ s) = p c || has_byte p s

split_test : split_on b'/' (codes "a//b") ≡ codes "a" ∷ [] ∷ codes "b" ∷ []
unfolding split_on
split_test = refl

trim_right_test : trim_right (λ c. c == 32) (codes " a b  ") ≡ codes " a b"
unfolding trim_right
trim_right_test = refl
