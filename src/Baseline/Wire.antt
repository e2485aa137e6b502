-- ===== src/Baseline/Wire.antt =====
-- `sshWriter` and `sshReader` of internal/baseline/keys.go. A writer is the bytes that it wrote; a reader
-- is what is left of its buffer, `buf[off:]`.
use aurvet.Prelude.{
  Bytes, Fallible, [], ap, append_assoc, arith, drop, drop-append_left, err, false, if◌then◌else◌,
  length, length-append, ltb, ok, sym, take, take-append_left, ℕ, ◌%◌, ◌*◌, ◌++◌, ◌+◌, ◌/◌, ◌<◌,
  ◌>>=◌, ◌∙◌, ◌∷◌, ◌≡◌,
}

pub data WireError : Type 0 where
  truncated length_exceeds trailing : WireError

-- Big endian; the conversion of a length to `uint32` wraps.
unfoldable pub write_uint32 : ℕ → Bytes
write_uint32 v = v / 16777216 % 256 ∷ v / 65536 % 256 ∷ v / 256 % 256 ∷ v % 256 ∷ []

unfoldable pub write_string : Bytes → Bytes
write_string b = write_uint32 (length b) ++ b

unfoldable pub read_uint32 : Bytes → Fallible WireError (ℕ × Bytes)
read_uint32 (a ∷ b ∷ c ∷ d ∷ rest) = ok (a * 16777216 + b * 65536 + c * 256 + d, rest)
read_uint32 _ = err truncated

unfoldable pub read_string : Bytes → Fallible WireError (Bytes × Bytes)
read_string buf = do
  (n, rest) ← read_uint32 buf
  if ltb (length rest) n then err length_exceeds else ok (take n rest, drop n rest)

unfoldable pub read_byte : Bytes → Fallible WireError (ℕ × Bytes)
read_byte [] = err truncated
read_byte (b ∷ rest) = ok (b, rest)

unfoldable pub at_end : Bytes → Fallible WireError (Unit {0})
at_end [] = ok tt
at_end (b ∷ rest) = err trailing

-- A length that the four bytes can hold.
abbrev pub Fits : Bytes → Type 0
Fits b = length b < 4294967296

pub read_uint32-write_uint32 :
    (v : ℕ) (rest : Bytes) → v < 4294967296 → read_uint32 (write_uint32 v ++ rest) ≡ ok (v, rest)
unfolding read_uint32 write_uint32
read_uint32-write_uint32 v rest h = ground arith

pub read_string-write_string :
    (b rest : Bytes) → Fits b → read_string (write_string b ++ rest) ≡ ok (b, rest)
unfolding read_string write_string
read_string-write_string b rest h = rw append_assoc (
    rw (read_uint32-write_uint32 (length b) (b ++ rest) h, length-append b rest)
      (rw (no_less (length b) (length rest), take-append_left b rest, drop-append_left b rest)))
  where
    no_less : (m n : ℕ) → ltb (m + n) m ≡ false
    no_less m n = ground arith

pub length-write_string : (b : Bytes) → length (write_string b) ≡ 4 + length b
unfolding write_string write_uint32
length-write_string b = omega arith

-- Two buffers that begin with length-prefixed strings are equal only if the strings and what follows
-- them are, where the lengths fit the prefix.
pub write_string_cancel :
    (a b x y : Bytes)
    → Fits a
    → Fits b
    → write_string a ++ x ≡ write_string b ++ y
    → (a ≡ b) × (x ≡ y)
write_string_cancel a b x y ha hb h =
    let same : ◌≡◌ {A = Fallible WireError (Bytes × Bytes)} (ok (a, x)) (ok (b, y)) =
      sym (read_string-write_string a x ha) ∙ ap read_string h ∙ read_string-write_string b y hb in
    (cc same, cc same)
