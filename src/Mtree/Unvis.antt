-- ===== src/Mtree/Unvis.antt =====
-- internal/mtree/unvis.go. The decoding loop runs on fuel: each round takes a byte at least, so the length of
-- the text is enough.
pub mod RoundTrip
pub mod Fuel
use aurvet.Prelude.{
  Bool, Bytes, Fallible, Option, [], drop, err, false, if◌then◌else◌, leb, length, ltb, none, ok,
  refuse_if, some, suc, true, zero, ℕ, ◌%◌, ◌&&◌, ◌*◌, ◌+◌, ◌-◌, ◌==◌, ◌>>=◌, ◌>>◌, ◌||◌, ◌∷◌,
}
use aurvet.Prelude.Split.{has_byte}
use aurvet.Mtree.{MtreeError, err_vis_escape, out_of_fuel}

pub simple_escape : ℕ → Option ℕ
simple_escape c =
    if c == b'\\'
    then some b'\\'
    else if c == b'a'
    then some 7
    else if c == b'b'
    then some 8
    else if c == b'E'
    then some 27
    else if c == b'f'
    then some 12
    else if c == b'n'
    then some 10
    else if c == b'r'
    then some 13
    else if c == b's'
    then some 32
    else if c == b't'
    then some 9
    else if c == b'v'
    then some 11
    else none

abbrev pub is_octal : ℕ → Bool
is_octal c = leb b'0' c && leb c b'7'

-- The loop over at most `k` more digits: the value and the number of bytes taken.
pub octal_run : (k value taken : ℕ) → Bytes → ℕ × ℕ
octal_run zero v n s = (v, n)
octal_run (suc k) v n [] = (v, n)
octal_run (suc k) v n (c ∷ s) =
    let rest = octal_run k (v * 8 + (c - b'0')) (suc n) s in if is_octal c then rest else (v, n)

-- `decodeCtrl`, on the text from the named character on.
pub decode_ctrl : Bytes → Fallible MtreeError ℕ
decode_ctrl [] = err err_vis_escape
decode_ctrl (c ∷ s) =
    if c == b'?' then ok 127 else if leb 64 c && leb c 95 then ok (c % 32) else err err_vis_escape

-- The `\M` forms, on the text behind the `M`.
pub decode_meta : Bytes → Fallible MtreeError (Option ℕ × ℕ)
unfolding decode_ctrl
decode_meta [] = err err_vis_escape
decode_meta (k ∷ []) = err err_vis_escape
decode_meta (k ∷ c ∷ s) =
    if k == b'-'
    then (if ltb c 32 || ltb 126 c then err err_vis_escape else ok (some (c + 128), 4))
    else if k == b'^'
    then (do b ← decode_ctrl (c ∷ s); ok (some (b + 128), 4))
    else err err_vis_escape

-- The octal form, from its first digit on.
pub decode_octal : Bytes → Fallible MtreeError (Option ℕ × ℕ)
unfolding octal_run
decode_octal s =
    let d = octal_run 3 0 1 s in refuse_if (ltb 255 (d.0)) err_vis_escape >> ok (some (d.0), d.1)

-- `decodeEscape` behind the table: the switch.
pub decode_known : Option ℕ → ℕ → Bytes → Fallible MtreeError (Option ℕ × ℕ)
unfolding decode_octal decode_ctrl decode_meta
decode_known (some b) c s = ok (some b, 2)
decode_known none c s =
    if c == b'$'
    then ok (none, 2)
    else if is_octal c
    then decode_octal (c ∷ s)
    else if c == b'^'
    then (do b ← decode_ctrl s; ok (some b, 3))
    else if c == b'M'
    then decode_meta s
    else err err_vis_escape

-- `decodeEscape`, on the text behind the backslash: the byte, if one is emitted, and the number of bytes that
-- the sequence takes, its backslash included.
pub decode_escape : Bytes → Fallible MtreeError (Option ℕ × ℕ)
unfolding simple_escape decode_known
decode_escape [] = err err_vis_escape
decode_escape (c ∷ s) = decode_known (simple_escape c) c s

pub emitted : Option ℕ → Bytes → Bytes
emitted none r = r
emitted (some b) r = b ∷ r

pub unvis_from : ℕ → Bytes → Fallible MtreeError Bytes
unfolding decode_escape emitted
unvis_from f [] = ok []
unvis_from zero (c ∷ s) = err out_of_fuel
unvis_from (suc f) (c ∷ s) = elim (c == b'\\') [
  | false ↦ unvis_from f s >>= λ r. ok (c ∷ r)
  | true ↦ decode_escape s >>= λ d. unvis_from f (drop (d.1) (c ∷ s)) >>= λ r. ok (emitted (d.0) r)
]

-- `Unvis`.
unfoldable pub unvis : Bytes → Fallible MtreeError Bytes
unfolding unvis_from
unvis s = if has_byte (λ c. c == b'\\') s then unvis_from (length s) s else ok s
