-- ===== src/Bundle/Roots.antt =====
-- internal/bundle/roots.go: the threshold set of root keys.
use aurvet.Prelude.Text.{trim_space}
use aurvet.Prelude.{
  Bool, Bytes, Fallible, List, Option, [], bytes_eq, codes, err, fail_as, false, has_prefix,
  if◌then◌else◌, length, ltb_ℤ, map, none, not, ok, pos, refl, refuse_if, some, suc, true, ℕ, ℤ,
  ◌++◌, ◌==◌, ◌>>=◌, ◌>>◌, ◌||◌, ◌∷◌, ◌≡◌,
}
use aurvet.Prelude.Split.{split_on}
use aurvet.Baseline.Key.{PublicKey, same_key}
use aurvet.Baseline.KeyLine.{hardware_backed, key_fingerprint, parse_public_key}
use aurvet.Baseline.Sign.{Crypto}
use aurvet.Bundle.{BundleError, err_no_root_keys, err_root_set}

pub record RootSet : Type 0 where
  pub generation : ℤ
  pub threshold : ℤ
  pub keys : List PublicKey

abbrev pub root_threshold : ℤ
root_threshold = pos 2

abbrev pub root_set_size : ℕ
root_set_size = 3

-- The set is empty in this build.
abbrev pub embedded_root_keys : Bytes
embedded_root_keys = []

holds_key : PublicKey → List PublicKey → Bool
holds_key k [] = false
holds_key k (p ∷ ps) = same_key p k || holds_key k ps

-- The loop of `NewRootSet`; `seen` are the keys so far.
pub collect_keys : List PublicKey → List (Option PublicKey) → Fallible BundleError (List PublicKey)
unfolding holds_key
collect_keys seen [] = ok seen
collect_keys seen (none ∷ ks) = err err_root_set
collect_keys seen (some k ∷ ks) =
    let rest = collect_keys (seen ++ k ∷ []) ks in
    if holds_key k seen then err err_root_set else rest

unfoldable pub new_root_set : ℤ → ℤ → List (Option PublicKey) → Fallible BundleError RootSet
unfolding collect_keys
new_root_set generation threshold keys = do
  refuse_if (ltb_ℤ generation (pos 1)) err_root_set
  refuse_if (ltb_ℤ threshold (pos 2)) err_root_set
  refuse_if (ltb_ℤ (pos (length keys)) threshold) err_root_set
  seen ← collect_keys [] keys
  ok (record { generation = generation; threshold = threshold; keys = seen })

no_keys : List PublicKey → Bool
no_keys [] = true
no_keys (k ∷ ks) = false

-- `Empty`.
unfoldable pub is_empty : RootSet → Bool
unfolding no_keys
is_empty r = no_keys r.keys || ltb_ℤ r.threshold (pos 2)

-- The position of a key from index `i`.
index_from : ℕ → PublicKey → List PublicKey → Option ℕ
index_from i k [] = none
index_from i k (p ∷ ps) = if same_key p k then some i else index_from (suc i) k ps

unfoldable pub index : RootSet → PublicKey → Option ℕ
unfolding index_from
index r k = index_from 0 k r.keys

unfoldable pub key_slice : RootSet → List (Option PublicKey)
key_slice r = map some r.keys

fingerprints_of : Crypto → List PublicKey → List Bytes
fingerprints_of C [] = []
fingerprints_of C (k ∷ ks) = key_fingerprint C k ∷ fingerprints_of C ks

unfoldable pub fingerprints : Crypto → RootSet → List Bytes
unfolding fingerprints_of
fingerprints C r = fingerprints_of C r.keys

software_of : Crypto → List PublicKey → List Bytes
software_of C [] = []
software_of C (k ∷ ks) =
    let rest = software_of C ks in if hardware_backed k then rest else key_fingerprint C k ∷ rest

unfoldable pub software_keys : Crypto → RootSet → List Bytes
unfolding software_of
software_keys C r = software_of C r.keys

module _ (base64_decode : Bytes → Option Bytes) where
  root_line : Bytes → Fallible BundleError PublicKey
  root_line line = do
    k ← fail_as err_root_set (parse_public_key base64_decode line)
    refuse_if (not (hardware_backed k)) err_root_set
    ok k

  root_lines : List Bytes → Fallible BundleError (List (Option PublicKey))
  unfolding root_line
  root_lines [] = ok []
  root_lines (l ∷ ls) =
      let line = trim_space l in
      let rest = root_lines ls in
      if bytes_eq line [] || has_prefix line (codes "#")
      then rest
      else (do k ← root_line line; ks ← rest; ok (some k ∷ ks))

  unfoldable pub parse_root_set : ℤ → ℤ → Bytes → Fallible BundleError RootSet
  unfolding root_lines
  parse_root_set generation threshold content = do
    keys ← root_lines (split_on b'\n' content)
    refuse_if (length keys == 0) err_no_root_keys
    refuse_if (not (length keys == root_set_size)) err_root_set
    new_root_set generation threshold keys

  unfoldable pub embedded_roots : Fallible BundleError RootSet
  embedded_roots = parse_root_set (pos 1) root_threshold embedded_root_keys

no_embedded_roots :
    (base64_decode : Bytes → Option Bytes) → embedded_roots base64_decode ≡ err err_no_root_keys
unfolding embedded_roots parse_root_set split_on trim_space bytes_eq
no_embedded_roots base64_decode = refl
