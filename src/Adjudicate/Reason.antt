-- ===== src/Adjudicate/Reason.antt =====
-- `validReason` of internal/adjudicate/adjudicate.go: a reason with enough content.
use aurvet.Prelude.Text.{trim_space}
use aurvet.Prelude.{
  Bool, Bytes, [], bytes_eq, codes, drop, false, if◌then◌else◌, length, ltb, not, refl, suc, true,
  zero, ℕ, ◌&&◌, ◌==◌, ◌||◌, ◌∷◌, ◌≡◌,
}
use aurvet.Prelude.Text.{space_at, trim_space, within}

abbrev pub min_reason_runes : ℕ
min_reason_runes = 12

abbrev pub max_reason_runes : ℕ
max_reason_runes = 2000

continuation : ℕ → Bool
continuation b = within 0x80 0xbf b

pair_width : ℕ → ℕ → ℕ
pair_width a b = if within 0xc2 0xdf a && continuation b then 2 else 1

triple_start : ℕ → ℕ → Bool
triple_start a b =
    (a == 0xe0 && within 0xa0 0xbf b)
    || (a == 0xed && within 0x80 0x9f b)
    || ((within 0xe1 0xec a || within 0xee 0xef a) && continuation b)

quad_start : ℕ → ℕ → Bool
quad_start a b =
    (a == 0xf0 && within 0x90 0xbf b)
    || (a == 0xf4 && within 0x80 0x8f b)
    || (within 0xf1 0xf3 a && continuation b)

-- The bytes of the rune at the front; one that is not valid UTF-8 stands for itself.
unfoldable pub rune_width : Bytes → ℕ
unfolding continuation pair_width triple_start quad_start within
rune_width [] = 0
rune_width (a ∷ []) = 1
rune_width (a ∷ b ∷ []) = pair_width a b
rune_width (a ∷ b ∷ c ∷ []) = if triple_start a b && continuation c then 3 else pair_width a b
rune_width (a ∷ b ∷ c ∷ d ∷ s) =
    if quad_start a b && continuation c && continuation d
    then 4
    else if triple_start a b && continuation c
    then 3
    else pair_width a b

-- The runes that are not white space; each round passes a byte at least, so the length is enough fuel.
unfoldable pub content_runes : ℕ → Bytes → ℕ
unfolding rune_width space_at
content_runes zero s = 0
content_runes (suc f) [] = 0
content_runes (suc f) (c ∷ s) = elim (space_at (c ∷ s)) [
  | zero ↦ suc (content_runes f (drop (rune_width (c ∷ s)) (c ∷ s)))
  | suc n ↦ content_runes f (drop (suc n) (c ∷ s))
]

unfoldable pub reason_accepted : Bytes → Bool
reason_accepted reason =
    let trimmed = trim_space reason in
    let content = content_runes (length trimmed) trimmed in
    not (bytes_eq trimmed [])
    && bytes_eq trimmed reason
    && not (ltb content min_reason_runes)
    && not (ltb max_reason_runes content)

short_reason_test : reason_accepted (codes "it is fine") ≡ false
unfolding reason_accepted content_runes trim_space bytes_eq
short_reason_test = refl

good_reason_test : reason_accepted (codes "checked the diff by hand") ≡ true
unfolding reason_accepted content_runes trim_space bytes_eq
good_reason_test = refl
