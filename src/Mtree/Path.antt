-- ===== src/Mtree/Path.antt =====
-- `ValidatePath` of internal/mtree/limits.go.
pub mod Inside
use aurvet.Prelude.{
  Bytes, Fallible, List, Option, [], bytes_eq, codes, err, if◌then◌else◌, none, ok, refuse_if, some,
  ◌==◌, ◌>>◌, ◌∷◌,
}
use aurvet.Prelude.Split.{has_byte, split_on}
use aurvet.Mtree.{MtreeError, err_path}

-- `strings.CutPrefix`.
unfoldable pub cut_prefix : Bytes → Bytes → Option Bytes
cut_prefix [] s = some s
cut_prefix (d ∷ p) [] = none
cut_prefix (d ∷ p) (c ∷ s) = let rest = cut_prefix p s in if c == d then rest else none

-- `strings.TrimSuffix(s, "/")`.
pub trim_slash : Bytes → Bytes
trim_slash [] = []
trim_slash (c ∷ []) = if c == b'/' then [] else c ∷ []
trim_slash (c ∷ d ∷ s) = c ∷ trim_slash (d ∷ s)

pub check_components : List Bytes → Fallible MtreeError (Unit {0})
check_components [] = ok tt
check_components (c ∷ cs) =
    refuse_if (bytes_eq c (codes "..")) err_path
    >> (refuse_if (bytes_eq c []) err_path >> check_components cs)

unfoldable pub validate_path : Bytes → Fallible MtreeError (Unit {0})
unfolding trim_slash check_components
validate_path p = elim (cut_prefix (codes "./") p) [
  | none ↦ err err_path
  | some rest ↦ do
    refuse_if (bytes_eq rest []) err_path
    refuse_if (has_byte (λ c. c == 0) p) err_path
    check_components (split_on b'/' (trim_slash rest))
]
