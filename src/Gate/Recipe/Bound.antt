-- ===== src/Gate/Recipe/Bound.antt =====
-- What the digest of a recipe binds: internal/gate/approve.go.
use aurvet.Prelude.{
  Bool, Bool-cases, Bytes, List, [], ap, arith, bytes_eq, inl, inr, map, not, ok, refl,
  refuse_if-eq-ok, sym, >>=-eq-ok, ◌&&◌, ◌++◌, ◌∙◌, ◌∷◌, ◌≡◌, ◌≢◌, ◌⊎◌, bytes_differ, bytes_eq_iff,
  length, length-append,
}
use aurvet.Prelude.Sorting.{insert_by, sort_by}
use aurvet.Finding.Fingerprint.{decimal, encode_field, hex}
use aurvet.Finding.Fingerprint.Injective.{append_cancel, encode_field_injective, hex_injective}
use aurvet.Gate.{RecipeFile, valid_pkg_base}
use aurvet.Gate.Recipe.{
  Opened, Recipe, RecipeRequest, digest_all, digest_prefix, digest_recipe, encode_files,
  err_bad_pkg_base, name_before, new_names, pkgbuild, pkgbuild_first, safe_rel,
}

-- What the digest is taken over: the name and the digest of a file.
pub record Entry : Type 0 where
  pub name : Bytes
  pub sha256 : Bytes

abbrev pub entry : RecipeFile → Entry
entry f = record { name = f.name; sha256 = f.sha256 }

field_not_empty : (a x : Bytes) → encode_field a ++ x ≢ []
unfolding encode_field
field_not_empty a x h =
    let outer = length-append (encode_field a) x in
    let inner = length-append (decimal (length a)) (b':' ∷ a) in
    absurd (omega (arith, outer, inner, ap length h))

encode_files_injective :
    (fs gs : List RecipeFile) → encode_files fs ≡ encode_files gs → map entry fs ≡ map entry gs
unfolding encode_files
encode_files_injective [] [] h = refl
encode_files_injective [] (g ∷ gs) h = absurd (field_not_empty g.name _ (sym h))
encode_files_injective (f ∷ fs) [] h = absurd (field_not_empty f.name _ h)
encode_files_injective (f ∷ fs) (g ∷ gs) h =
    let (names, rest) = encode_field_injective f.name g.name _ _ h in
    let (digests, more) = encode_field_injective f.sha256 g.sha256 _ _ rest in
    cc (names, digests, encode_files_injective fs gs more)

-- The order of the report looks at names alone.
abbrev entry_first : Entry → Entry → Bool
entry_first a b = bytes_eq a.name pkgbuild && not (bytes_eq b.name pkgbuild)

entries-insert :
    (f : RecipeFile) (fs : List RecipeFile)
    → map entry (insert_by pkgbuild_first f fs) ≡ insert_by entry_first (entry f) (map entry fs)
unfolding insert_by pkgbuild_first
entries-insert f [] = refl
entries-insert f (g ∷ fs) = elim (Bool-cases (entry_first (entry g) (entry f))) [
  | inl e ↦ rw e (ap (λ l. entry g ∷ l) (entries-insert f fs))
  | inr e ↦ rw e
]

entries-sort :
    (fs : List RecipeFile)
    → map entry (sort_by pkgbuild_first fs) ≡ sort_by entry_first (map entry fs)
unfolding sort_by
entries-sort [] = refl
entries-sort (f ∷ fs) =
    entries-insert f (sort_by pkgbuild_first fs)
    ∙ ap (insert_by entry_first (entry f)) (entries-sort fs)

-- The text that is hashed for a request, on what the files answer.
abbrev pub HashedText :
    (sha256 : Bytes → Bytes) (path_join : Bytes → Bytes → Bytes) (files : Bytes → Opened)
    → RecipeRequest
    → Bytes
    → Type 0
HashedText sha256 path_join files req x =
    (dir : Bytes) × (fs : List RecipeFile) × (safe_rel req.dir ≡ ok dir)
    × (digest_all sha256 path_join files dir (pkgbuild ∷ new_names (pkgbuild ∷ []) req.aux) ≡ ok fs)
    × (x ≡ digest_prefix ++ encode_files (sort_by name_before fs))

module _ (sha256 : Bytes → Bytes) (path_join : Bytes → Bytes → Bytes) where
  digest_recipe-HashedText :
      (files : Bytes → Opened) (req : RecipeRequest) {r : Recipe}
      → digest_recipe sha256 path_join files req ≡ ok r
      → (fs : List RecipeFile) × (r.files ≡ sort_by pkgbuild_first fs)
        × (r.digest ≡ hex (sha256 (digest_prefix ++ encode_files fs)))
        × HashedText sha256 path_join files req (digest_prefix ++ encode_files fs)
  unfolding digest_recipe
  digest_recipe-HashedText files req h =
      let (_, h1) = refuse_if-eq-ok (not (valid_pkg_base req.pkg_base)) err_bad_pkg_base _ h in
      let (dir, in_dir, h2) = >>=-eq-ok (safe_rel req.dir) _ h1 in
      let (fs, read, h3) =
        >>=-eq-ok
          (digest_all sha256 path_join files dir (pkgbuild ∷ new_names (pkgbuild ∷ []) req.aux)) _
          h2 in
      (sort_by name_before fs, cc, cc, (dir, fs, in_dir, read, refl))

  -- Two recipes that are read from two states of the file system and have one digest have the same
  -- files, by name and by digest, in the same order, or the texts that were hashed for the two
  -- requests differ and share a SHA-256.
  pub digest_recipe-binds :
      (before after : Bytes → Opened) (req req' : RecipeRequest) {r r' : Recipe}
      → digest_recipe sha256 path_join before req ≡ ok r
      → digest_recipe sha256 path_join after req' ≡ ok r'
      → r.digest ≡ r'.digest
      → (map entry r.files ≡ map entry r'.files)
        ⊎ ((x y : Bytes) × HashedText sha256 path_join before req x
            × HashedText sha256 path_join after req' y
            × (x ≢ y)
            × (sha256 x ≡ sha256 y))
  digest_recipe-binds before after req req' h h' same =
      let (fs, files, digest, hashed) = digest_recipe-HashedText before req h in
      let (gs, files', digest', hashed') = digest_recipe-HashedText after req' h' in
      let x = digest_prefix ++ encode_files fs in
      let y = digest_prefix ++ encode_files gs in
      elim (Bool-cases (bytes_eq x y)) [
        | inr differ ↦ inr (
          x,
          y,
          hashed,
          hashed',
          bytes_differ x y differ,
          hex_injective _ _ (sym digest ∙ same ∙ digest'),
        )
        | inl equal ↦
            let bodies =
              append_cancel digest_prefix digest_prefix _ _ refl ((bytes_eq_iff x y).0 equal) in
            inl (
              ap (map entry) files
              ∙ entries-sort fs
              ∙ ap (sort_by entry_first) (encode_files_injective fs gs bodies.1)
              ∙ sym (entries-sort gs)
              ∙ sym (ap (map entry) files'))
      ]
