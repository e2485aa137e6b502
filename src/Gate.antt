-- ===== src/Gate.antt =====
-- internal/gate: the identity and digest of a recipe, the store of approvals (approve.go) and the review
-- of the upstream commits since an approval (vcsdelta.go).
pub mod Recipe
pub mod Approvals
pub mod Delta
use aurvet.Prelude.{
  Bool, Bytes, [], bytes_eq, codes, false, if◌then◌else◌, leb, not, true, ℕ, ℤ, ◌&&◌, ◌==◌, ◌||◌,
  ◌∷◌, length, ltb,
}

-- The upstream position of an approval.
pub record Anchor : Type 0 where
  pub commit : Bytes
  pub remote : Bytes

pub record RecipeFile : Type 0 where
  pub name : Bytes
  pub sha256 : Bytes
  pub size : ℤ

abbrev pub max_pkg_base_bytes : ℕ
max_pkg_base_bytes = 128

-- The package-name charset.
is_name_byte : ℕ → Bool
is_name_byte c =
    (leb b'a' c && leb c b'z')
    || ((leb b'A' c && leb c b'Z')
        || ((leb b'0' c && leb c b'9')
            || (c == b'@' || (c == b'.' || (c == b'_' || (c == b'+' || c == b'-'))))))

all_name_bytes : Bytes → Bool
unfolding is_name_byte
all_name_bytes [] = true
all_name_bytes (c ∷ s) = is_name_byte c && all_name_bytes s

bad_start : Bytes → Bool
bad_start [] = true
bad_start (c ∷ s) = c == b'-' || c == b'.'

-- `ValidPkgBase` gives no error.
unfoldable pub valid_pkg_base : Bytes → Bool
unfolding all_name_bytes bad_start
valid_pkg_base s =
    if bad_start s
    then false
    else if ltb max_pkg_base_bytes (length s)
    then false
    else all_name_bytes s
