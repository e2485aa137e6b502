-- ===== src/Mtree/Path/Inside.antt =====
-- `ValidatePath` of internal/mtree/limits.go: what a path that it lets through looks like.
use aurvet.Prelude.{
  ==_iff, All, Bytes, List, Option-cases, [], ap, arith, bytes_differ, bytes_eq, codes, false, inl,
  inr, ok, refuse_if-eq-ok, some, true, ◌++◌, ◌==◌, ◌∷◌, ◌≡◌, ◌≢◌,
}
use aurvet.Prelude.Split.{has_byte, split_on}
use aurvet.Mtree.{err_path}
use aurvet.Mtree.Path.{check_components, cut_prefix, trim_slash, validate_path}

-- Below the package's root: `./` and components of which none is empty or `..`, one slash at the end aside.
pub record IsInside (p : Bytes) : Type 0 where
  pub rest : Bytes
  pub rooted : p ≡ codes "./" ++ rest
  pub names : rest ≢ []
  pub no_nul : has_byte (λ c. c == 0) p ≡ false
  pub components : All (λ c. (c ≢ []) × (c ≢ codes "..")) (split_on b'/' (trim_slash rest))

cut_prefix_lem : (q s : Bytes) {rest : Bytes} → cut_prefix q s ≡ some rest → s ≡ q ++ rest
unfolding cut_prefix
cut_prefix_lem [] s h = cc
cut_prefix_lem (d ∷ q) [] h = absurd cc
cut_prefix_lem (d ∷ q) (c ∷ s) {rest} h =
    let same : (c == d) ≡ true = ground (arith, h) in
    let tail = cut_prefix_lem q s {rest = rest} (ground (arith, h)) in
    let this = (==_iff c d).0 same in rw this (ap (λ t. d ∷ t) tail)

check_components-All :
    (cs : List Bytes) → check_components cs ≡ ok tt → All (λ c. (c ≢ []) × (c ≢ codes "..")) cs
unfolding check_components
check_components-All [] h = tt
check_components-All (c ∷ cs) h =
    let (a, h1) = refuse_if-eq-ok (bytes_eq c (codes "..")) err_path _ h in
    let (b, h2) = refuse_if-eq-ok (bytes_eq c []) err_path _ h1 in
    ((bytes_differ c [] b, bytes_differ c (codes "..") a), check_components-All cs h2)

pub validate_path-IsInside : (p : Bytes) → validate_path p ≡ ok tt → IsInside p
unfolding validate_path
validate_path-IsInside p h = elim (Option-cases (cut_prefix (codes "./") p)) [
  | inl outside ↦ absurd (let q = rw (outside, validate_path) at h in cc)
  | inr (rest, found) ↦
      let h0 = rw (found, validate_path) at h in
      let (a, h1) = refuse_if-eq-ok (bytes_eq rest []) err_path _ h0 in
      let (b, h2) = refuse_if-eq-ok (has_byte (λ c. c == 0) p) err_path _ h1 in
      record {
        rest = rest;
        rooted = cut_prefix_lem (codes "./") p found;
        names = bytes_differ rest [] a;
        no_nul = b;
        components = check_components-All (split_on b'/' (trim_slash rest)) h2;
      }
]
