-- ===== src/Prelude/Text.antt =====
-- `strings.TrimSpace` and `strings.ToLower` on byte strings.
use Prim.Native.Nat.{ℕ, zero, suc, ◌+◌}
use mathlib.Core.Bool.{Bool, ◌&&◌, ◌||◌}
use mathlib.Core.List.{[], ◌∷◌, reverse}
use mathlib.Core.Path.{◌≡◌, refl}
use aurvet.Prelude.ByteText.{Bytes, codes, bytes_eq}
use aurvet.Prelude.Lists.{length, drop}
use aurvet.Prelude.Tests.{leb, ◌==◌, if◌then◌else◌}

unfoldable pub within : ℕ → ℕ → ℕ → Bool
within lo hi c = leb lo c && leb c hi

-- The white space of one byte: tab to carriage return, and blank.
is_space1 : ℕ → Bool
unfolding within
is_space1 c = within 9 13 c || c == 32

-- U+0085 and U+00A0 in UTF-8.
is_space2 : ℕ → ℕ → Bool
is_space2 a b = a == 0xc2 && (b == 0x85 || b == 0xa0)

-- U+1680, U+2000 to U+200A, U+2028, U+2029, U+202F, U+205F and U+3000 in UTF-8.
is_space3 : ℕ → ℕ → ℕ → Bool
unfolding within
is_space3 a b c =
    (a == 0xe1 && b == 0x9a && c == 0x80)
    || (a == 0xe2 && b == 0x80 && (within 0x80 0x8a c || c == 0xa8 || c == 0xa9 || c == 0xaf))
    || (a == 0xe2 && b == 0x81 && c == 0x9f)
    || (a == 0xe3 && b == 0x80 && c == 0x80)

-- The number of bytes of the white space that stands at the front, 0 if none does.
unfoldable pub space_at : Bytes → ℕ
unfolding is_space1 is_space2 is_space3
space_at [] = 0
space_at (a ∷ []) = if is_space1 a then 1 else 0
space_at (a ∷ b ∷ []) = if is_space1 a then 1 else if is_space2 a b then 2 else 0
space_at (a ∷ b ∷ c ∷ s) =
    if is_space1 a then 1 else if is_space2 a b then 2 else if is_space3 a b c then 3 else 0

-- The same for the reversed text.
space_at_end : Bytes → ℕ
unfolding is_space1 is_space2 is_space3
space_at_end [] = 0
space_at_end (a ∷ []) = if is_space1 a then 1 else 0
space_at_end (a ∷ b ∷ []) = if is_space1 a then 1 else if is_space2 b a then 2 else 0
space_at_end (a ∷ b ∷ c ∷ s) =
    if is_space1 a then 1 else if is_space2 b a then 2 else if is_space3 c b a then 3 else 0

-- Each round removes a byte at least, so the length is enough fuel.
trim_by : (Bytes → ℕ) → ℕ → Bytes → Bytes
trim_by at zero s = s
trim_by at (suc f) s = elim (at s) [ zero ↦ s | suc n ↦ trim_by at f (drop (suc n) s) ]

unfoldable pub trim_space : Bytes → Bytes
unfolding trim_by space_at space_at_end
trim_space s =
    let t = trim_by space_at (length s) s in reverse (trim_by space_at_end (length t) (reverse t))

-- `strings.TrimSpace(s) == ""`.
abbrev pub is_blank : Bytes → Bool
is_blank s = bytes_eq (trim_space s) []

lower1 : ℕ → ℕ
unfolding within
lower1 c = if within b'A' b'Z' c then c + 32 else c

-- `strings.ToLower` up to the runes outside ASCII whose lower case is outside it too: they are kept,
-- and no text that the program compares with holds one. U+0130 goes to `i`, and U+212A to `k`.
unfoldable pub to_lower : Bytes → Bytes
unfolding lower1
to_lower [] = []
to_lower (a ∷ []) = lower1 a ∷ []
to_lower (a ∷ b ∷ []) = if a == 0xc4 && b == 0xb0 then b'i' ∷ [] else lower1 a ∷ lower1 b ∷ []
to_lower (a ∷ b ∷ c ∷ s) =
    let plain = lower1 a ∷ to_lower (b ∷ c ∷ s) in
    let dotted = b'i' ∷ to_lower (c ∷ s) in
    let kelvin = b'k' ∷ to_lower s in
    if a == 0xc4 && b == 0xb0
    then dotted
    else if a == 0xe2 && b == 0x84 && c == 0xaa
    then kelvin
    else plain

trim_space_test : trim_space (codes "  a b \t\n") ≡ codes "a b"
unfolding trim_space
trim_space_test = refl

trim_space_unicode_test : trim_space (0xc2 ∷ 0xa0 ∷ 97 ∷ 0xe3 ∷ 0x80 ∷ 0x80 ∷ []) ≡ 97 ∷ []
unfolding trim_space
trim_space_unicode_test = refl
