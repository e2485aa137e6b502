-- ===== src/Gate/Recipe.antt =====
-- `DigestRecipe` of internal/gate/approve.go. What `fsx.OpenConfined` and `fsx.Digest` answer for a path
-- is a parameter, as are `path.Join` and SHA-256.
pub mod Bound
use aurvet.Prelude.{
  Bool, Bytes, Fallible, List, Option, [], bytes_eq, bytes_lt, codes, err, false, has_prefix,
  if◌then◌else◌, ltb, none, not, ok, refuse_if, some, true, ℕ, ℤ, ◌&&◌, ◌++◌, ◌==◌, ◌>>=◌, ◌>>◌,
  ◌||◌, ◌∷◌,
}
use aurvet.Prelude.Sorting.{sort_by}
use aurvet.Prelude.Split.{has_byte, split_on}
use aurvet.Finding.Fingerprint.{encode_field, hex}
use aurvet.Gate.{RecipeFile, valid_pkg_base}

pub record RecipeRequest : Type 0 where
  pub pkg_base : Bytes
  pub dir : Bytes
  pub aux : List Bytes

pub record Recipe : Type 0 where
  pub pkg_base : Bytes
  pub files : List RecipeFile
  pub digest : Bytes

-- The sentinels `ErrBadPkgBase` and `ErrRecipeUnreadable`.
pub data RecipeError : Type 0 where
  err_bad_pkg_base err_recipe_unreadable : RecipeError

-- What opening a path gives: nothing, or a size and the digest of what is read, with its length.
pub data Opened : Type 0 where
  not_opened : Opened
  opened : (size : ℕ) → Option (Bytes × ℤ) → Opened

abbrev pub max_recipe_file_bytes : ℕ
max_recipe_file_bytes = 67108864

abbrev pub pkgbuild : Bytes
pkgbuild = codes "PKGBUILD"

abbrev pub digest_prefix : Bytes
digest_prefix = codes "aurvet-recipe-v1\n"

-- An empty, `.` or `..` component.
pub bad_component : List Bytes → Bool
bad_component [] = false
bad_component (c ∷ cs) =
    (bytes_eq c [] || (bytes_eq c (codes ".") || bytes_eq c (codes ".."))) || bad_component cs

-- `strings.TrimPrefix(rel, "./")`.
trim_dot : Bytes → Bytes
trim_dot [] = []
trim_dot (c ∷ []) = c ∷ []
trim_dot (c ∷ d ∷ s) = if c == b'.' && d == b'/' then s else c ∷ d ∷ s

pub safe_rel : Bytes → Fallible RecipeError Bytes
unfolding bad_component trim_dot
safe_rel rel =
    if bytes_eq rel [] || bytes_eq rel (codes ".")
    then ok (codes ".")
    else if has_prefix rel (codes "/") || has_byte (λ c. c == 0) rel
    then err err_recipe_unreadable
    else if bad_component (split_on b'/' (trim_dot rel))
    then err err_recipe_unreadable
    else ok (trim_dot rel)

-- `safeName` gives no error.
unfoldable pub safe_name : Bytes → Bool
unfolding bad_component
safe_name name =
    if bytes_eq name [] || (has_byte (λ c. c == 0) name || has_prefix name (codes "/"))
    then false
    else not (bad_component (split_on b'/' name))

pub is_seen : Bytes → List Bytes → Bool
is_seen n [] = false
is_seen n (m ∷ ms) = bytes_eq m n || is_seen n ms

-- The loop over `Aux`: the names that are new.
pub new_names : List Bytes → List Bytes → List Bytes
unfolding is_seen
new_names seen [] = []
new_names seen (n ∷ ns) =
    let skip = new_names seen ns in
    let keep = n ∷ new_names (n ∷ seen) ns in if is_seen n seen then skip else keep

pub name_before : RecipeFile → RecipeFile → Bool
name_before a b = bytes_lt a.name b.name

pkgbuild_first : RecipeFile → RecipeFile → Bool
pkgbuild_first a b = bytes_eq a.name pkgbuild && not (bytes_eq b.name pkgbuild)

-- What is hashed behind the prefix.
pub encode_files : List RecipeFile → Bytes
encode_files [] = []
encode_files (f ∷ fs) = encode_field f.name ++ (encode_field f.sha256 ++ encode_files fs)

module _ (sha256 : Bytes → Bytes) (path_join : Bytes → Bytes → Bytes)
    (open_confined : Bytes → Opened) where
  digest_opened : Bytes → Opened → Fallible RecipeError RecipeFile
  digest_opened name not_opened = err err_recipe_unreadable
  digest_opened name (opened size none) = err err_recipe_unreadable
  digest_opened name (opened size (some (sum, n))) =
      if ltb max_recipe_file_bytes size
      then err err_recipe_unreadable
      else ok (record { name = name; sha256 = sum; size = n })

  -- The loop over the names.
  pub digest_all : Bytes → List Bytes → Fallible RecipeError (List RecipeFile)
  unfolding digest_opened
  digest_all dir [] = ok []
  digest_all dir (n ∷ ns) = do
    refuse_if (not (safe_name n)) err_recipe_unreadable
    f ← digest_opened n (open_confined (path_join dir n))
    fs ← digest_all dir ns
    ok (f ∷ fs)

  -- `DigestRecipe`.
  unfoldable pub digest_recipe : RecipeRequest → Fallible RecipeError Recipe
  unfolding safe_rel new_names digest_all name_before pkgbuild_first encode_files
  digest_recipe req = do
    refuse_if (not (valid_pkg_base req.pkg_base)) err_bad_pkg_base
    dir ← safe_rel req.dir
    files ← digest_all dir (pkgbuild ∷ new_names (pkgbuild ∷ []) req.aux)
    let sorted = sort_by name_before files
    ok (record {
      pkg_base = req.pkg_base;
      files = sort_by pkgbuild_first sorted;
      digest = hex (sha256 (digest_prefix ++ encode_files sorted));
    })
