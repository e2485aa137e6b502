-- ===== src/Mtree/Keywords.antt =====
-- The keywords of internal/mtree/parse.go: `keywords`, `set`, `apply`, `unset` and `checkHex`.
pub mod Typed
use aurvet.Prelude.{
  Bool, Bytes, Fallible, List, Option, [], bytes_eq, codes, err, if◌then◌else◌, leb, length, ltb,
  none, not, ok, refuse_if, some, true, zero, ℕ, ◌&&◌, ◌*◌, ◌+◌, ◌-◌, ◌==◌, ◌>>=◌, ◌>>◌, ◌^◌, ◌||◌,
  ◌∷◌,
}
use aurvet.Prelude.Split.{cut}
use aurvet.Mtree.{MtreeError, err_syntax}
use aurvet.Mtree.Unvis.{unvis}

pub record Keywords : Type 0 where
  pub typ : Bytes
  pub size : ℕ
  pub mode : ℕ
  pub time : ℕ
  pub sha256 : Bytes
  pub md5 : Bytes
  pub link : Bytes

-- `keywords{}`: the bits of the float 0 are 0.
abbrev pub no_keywords : Keywords
no_keywords = record { typ = []; size = 0; mode = 0; time = 0; sha256 = []; md5 = []; link = [] }

-- The value of digits in a base, most significant first, unless one is not a digit of it.
pub digits_value : (base value : ℕ) → Bytes → Option ℕ
digits_value base v [] = some v
digits_value base v (c ∷ s) =
    let rest = digits_value base (v * base + (c - b'0')) s in
    if leb b'0' c && ltb c (b'0' + base) then rest else none

-- A value that fits into the bits.
pub in_bits : ℕ → Option ℕ → Option ℕ
in_bits bits none = none
in_bits bits (some v) = if ltb v (2 ^ bits) then some v else none

-- `strconv.ParseUint` with a bit size.
pub parse_uint : (base bits : ℕ) → Bytes → Option ℕ
unfolding digits_value in_bits
parse_uint base bits [] = none
parse_uint base bits (c ∷ s) = in_bits bits (digits_value base 0 (c ∷ s))

pub only_zero : Option ℕ → Option ℕ
only_zero (some zero) = some 0
only_zero _ = none

-- `strconv.ParseInt(val, 10, 64)` where a negative result is an error too: a minus leaves only zero.
pub parse_size : Bytes → Option ℕ
unfolding parse_uint only_zero
parse_size [] = none
parse_size (c ∷ s) =
    if c == b'+'
    then parse_uint 10 63 s
    else if c == b'-'
    then only_zero (parse_uint 10 63 s)
    else parse_uint 10 63 (c ∷ s)

-- A lowercase hex digit.
abbrev pub is_hex : ℕ → Bool
is_hex c = (leb b'0' c && leb c b'9') || (leb b'a' c && leb c b'f')

pub all_hex : Bytes → Bool
all_hex [] = true
all_hex (c ∷ s) = is_hex c && all_hex s

pub check_hex : Bytes → ℕ → Fallible MtreeError (Unit {0})
unfolding all_hex
check_hex val n = do
  refuse_if (not (length val == n)) err_syntax
  refuse_if (not (all_hex val)) err_syntax

abbrev pub or_syntax {ℓ} : {A : Type ℓ} → Option A → Fallible MtreeError A
or_syntax none = err err_syntax
or_syntax (some a) = ok a

pub mode_of : Bytes → Fallible MtreeError ℕ
unfolding parse_uint
mode_of val = do n ← or_syntax (parse_uint 8 32 val); refuse_if (ltb 4095 n) err_syntax; ok n

-- `unset` on one name.
pub unset_name : Keywords → Bytes → Keywords
unset_name kw n =
    if bytes_eq n (codes "all")
    then no_keywords
    else if bytes_eq n (codes "type")
    then record kw { typ = [] }
    else if bytes_eq n (codes "size")
    then record kw { size = 0 }
    else if bytes_eq n (codes "mode")
    then record kw { mode = 0 }
    else if bytes_eq n (codes "time")
    then record kw { time = 0 }
    else if bytes_eq n (codes "sha256digest") || bytes_eq n (codes "sha256")
    then record kw { sha256 = [] }
    else if bytes_eq n (codes "md5digest") || bytes_eq n (codes "md5")
    then record kw { md5 = [] }
    else if bytes_eq n (codes "link")
    then record kw { link = [] }
    else kw

pub unset_names : Keywords → List Bytes → Keywords
unfolding unset_name
unset_names kw [] = kw
unset_names kw (n ∷ ns) = unset_names (unset_name kw n) ns

unfoldable pub unset : Keywords → List Bytes → Fallible MtreeError Keywords
unfolding unset_names
unset kw [] = err err_syntax
unset kw (n ∷ ns) = ok (unset_names kw (n ∷ ns))

module _ (parse_float : Bytes → Option ℕ) where
  unfoldable pub apply : Keywords → Bytes → Bytes → Fallible MtreeError Keywords
  unfolding parse_size mode_of check_hex
  apply kw key val =
      if bytes_eq key (codes "type")
      then ok (record kw { typ = val })
      else if bytes_eq key (codes "size")
      then (do n ← or_syntax (parse_size val); ok (record kw { size = n }))
      else if bytes_eq key (codes "mode")
      then (do n ← mode_of val; ok (record kw { mode = n }))
      else if bytes_eq key (codes "time")
      then (do f ← or_syntax (parse_float val); ok (record kw { time = f }))
      else if bytes_eq key (codes "sha256digest") || bytes_eq key (codes "sha256")
      then (do check_hex val 64; ok (record kw { sha256 = val }))
      else if bytes_eq key (codes "md5digest") || bytes_eq key (codes "md5")
      then (do check_hex val 32; ok (record kw { md5 = val }))
      else if bytes_eq key (codes "link")
      then (do s ← unvis val; ok (record kw { link = s }))
      else ok kw

  unfoldable pub set_pairs : Keywords → List Bytes → Fallible MtreeError Keywords
  unfolding apply
  set_pairs kw [] = ok kw
  set_pairs kw (p ∷ ps) =
      or_syntax (cut b'=' p) >>= λ kv. apply kw (kv.0) (kv.1) >>= λ next. set_pairs next ps
