-- ===== src/Tests/Gated.antt =====
-- A recipe, a store of approvals and a clone, at which the theorems of Gate are applied.
use aurvet.Prelude.{
  Bytes, List, Option, [], bytes_eq, bytes_lt, codes, false, has_prefix, if◌then◌else◌, length, map,
  none, ok, pos, refl, some, true, ◌++◌, ◌≡◌, ◌≢◌, ◌⊎◌, ◌∷◌, ◌↔◌, ltb, replicate,
}
use mathlib.Core.List.{flat_map}
use aurvet.Prelude.Sorting.{sort_by}
use aurvet.Prelude.Split.{has_byte, split_on}
use aurvet.Finding.Fingerprint.{decimal, encode_field, hex}
use aurvet.Bundle.Floor.{enoent}
use aurvet.Gate.{valid_pkg_base}
use aurvet.Gate.Recipe.{Opened, Recipe, RecipeRequest, digest_recipe, not_opened, opened, safe_name}
use aurvet.Gate.Recipe.Bound.{HashedText, digest_recipe-binds, entry}
use aurvet.Gate.Approvals.{
  Approval, ApproveOptions, Disk, Store, WriteEnd, absent, approval_of, approve, check_dir_safe,
  is_silent, lookup, read_decision, removed, ensured, max_record_bytes, made_dir,
}
use aurvet.Gate.Approvals.Refines.{lookup-refines}
use aurvet.Gate.Approvals.Settled.{approve-lookup}
use aurvet.Gate.Approvals.Written.{Ledger, Operation, answer, approving, revoking, run}
use aurvet.Gate.Delta.{
  Clone, Request, delta_findings, is_commit_hash, log_done, review_delta, up_to_date,
}
use aurvet.Gate.Delta.Silent.{IsCurrent, SameRemote, bound_of, review_delta-silent}

-- A digest of these checks is the text itself.
abbrev same_text : Bytes → Bytes
same_text s = s

abbrev joined : Bytes → Bytes → Bytes
joined dir name = dir ++ b'/' ∷ name

-- The files before: each holds its own path.
abbrev holds_path : Bytes → Opened
holds_path path = opened (length path) (some (path, pos (length path)))

abbrev patched : RecipeRequest
patched = record { pkg_base = codes "vi"; dir = codes "."; aux = codes "fix.patch" ∷ [] }

abbrev patched_twice : RecipeRequest
patched_twice = record patched {
  dir = codes "vi";
  aux = codes "fix.patch" ∷ codes "PKGBUILD" ∷ codes "fix.patch" ∷ [];
}

abbrev vi_recipe : Recipe
vi_recipe = record {
  pkg_base = codes "vi";
  files =
      record { name = codes "PKGBUILD"; sha256 = codes "./PKGBUILD"; size = pos 10 }
      ∷ record { name = codes "fix.patch"; sha256 = codes "./fix.patch"; size = pos 11 }
      ∷ [];
  digest = hex (codes "aurvet-recipe-v1\n8:PKGBUILD10:./PKGBUILD9:fix.patch11:./fix.patch");
}

patched_digests : digest_recipe same_text joined holds_path patched ≡ ok vi_recipe
unfolding digest_recipe valid_pkg_base safe_name split_on has_byte has_prefix bytes_eq bytes_lt
    encode_field decimal sort_by
patched_digests = refl

-- The files after: the recipe stands in another directory, and its files, of the same digests, have
-- other sizes.
abbrev holds_copies : Bytes → Opened
holds_copies path =
    if bytes_eq path (codes "vi/PKGBUILD")
    then opened 20 (some (codes "./PKGBUILD", pos 20))
    else if bytes_eq path (codes "vi/fix.patch")
    then opened 21 (some (codes "./fix.patch", pos 21))
    else not_opened

abbrev moved_recipe : Recipe
moved_recipe = record {
  pkg_base = codes "vi";
  files =
      record { name = codes "PKGBUILD"; sha256 = codes "./PKGBUILD"; size = pos 20 }
      ∷ record { name = codes "fix.patch"; sha256 = codes "./fix.patch"; size = pos 21 }
      ∷ [];
  digest = hex (codes "aurvet-recipe-v1\n8:PKGBUILD10:./PKGBUILD9:fix.patch11:./fix.patch");
}

patched_twice_digests : digest_recipe same_text joined holds_copies patched_twice ≡ ok moved_recipe
unfolding digest_recipe valid_pkg_base safe_name split_on has_byte has_prefix bytes_eq bytes_lt
    encode_field decimal sort_by
patched_twice_digests = refl

digest_recipe-binds_example :
    (map entry vi_recipe.files ≡ map entry moved_recipe.files)
    ⊎ ((x y : Bytes) × HashedText same_text joined holds_path patched x
        × HashedText same_text joined holds_copies patched_twice y
        × (x ≢ y)
        × (same_text x ≡ same_text y))
digest_recipe-binds_example =
    digest_recipe-binds same_text joined holds_path holds_copies patched patched_twice
      patched_digests patched_twice_digests refl

abbrev own_store : Store
own_store = record { is_offline = false; euid = 1000 }

abbrev no_store : Disk
no_store = record { dir = enoent; can_list = true; slots = λ q. absent }

abbrev reviewed : ApproveOptions
reviewed = record { by = codes "me"; note = []; vcs = none; now = some (pos 7) }

abbrev completed : WriteEnd
completed = record { mkdir_done = true; temporary_written = true; renamed = true }

abbrev vi_approval : Approval
vi_approval = record {
  format_version = pos 1;
  pkg_base = codes "vi";
  digest = vi_recipe.digest;
  files = vi_recipe.files;
  approved_at = pos 7;
  by = codes "me";
  note = [];
  vcs = none;
}

-- One record has an encoding.
abbrev vi_encode : Approval → Option Bytes
vi_encode a = some (codes "vi")

abbrev vi_decode : Bytes → Option Approval
vi_decode raw = some vi_approval

some_bytes : {a b : Bytes} → some a ≡ some b → a ≡ b
some_bytes h = cc

abbrev vi_history : List Operation
vi_history =
    approving vi_recipe reviewed completed
    ∷ revoking (codes "vi") removed
    ∷ approving vi_recipe reviewed completed
    ∷ []

vi_valid : valid_pkg_base (codes "vi") ≡ true
unfolding valid_pkg_base
vi_valid = refl

vi_fits :
    (body : Bytes)
    → some (codes "vi") ≡ some body
    → (vi_decode (body ++ b'\n' ∷ [])
        ≡ some (approval_of same_text vi_encode vi_decode (pos 0) vi_recipe reviewed))
      × (ltb max_record_bytes (length (body ++ b'\n' ∷ [])) ≡ false)
unfolding approval_of
vi_fits body h = (refl, rw (← some_bytes h) refl)

abbrev vi_end : Disk × Ledger
vi_end = run same_text vi_encode vi_decode (pos 0) own_store (no_store, λ q. none) vi_history

lookup-refines_example :
    (check_dir_safe own_store (vi_end.0) ≡ ok tt
      → lookup same_text vi_encode vi_decode
          (pos 0)
          own_store
          (vi_end.0)
          (codes "vi")
          vi_recipe.digest
        ≡ read_decision same_text vi_encode vi_decode
            (pos 0)
            (codes "vi")
            vi_recipe.digest
            (answer (vi_end.1 (codes "vi"))))
    × ((is_silent (
            lookup same_text vi_encode vi_decode
              (pos 0)
              own_store
              (vi_end.0)
              (codes "vi")
              vi_recipe.digest)
          ≡ true)
        ↔ ((check_dir_safe own_store (vi_end.0) ≡ ok tt)
            × ((a : Approval) × (vi_end.1 (codes "vi") ≡ some a) × (a.digest ≡ vi_recipe.digest))))
lookup-refines_example =
    lookup-refines same_text vi_encode vi_decode (pos 0) own_store no_store (λ q. refl) vi_history
      (vi_fits, (tt, (vi_fits, tt))) (codes "vi") vi_recipe.digest
      ((λ e. refl), ((λ e. refl), ((λ e. refl), tt))) vi_valid

vi_made :
    check_dir_safe own_store (ensured same_text vi_encode vi_decode (pos 0) own_store no_store)
    ≡ ok tt
unfolding check_dir_safe ensured made_dir
vi_made = refl

vi_digest_given : bytes_eq vi_recipe.digest [] ≡ false
unfolding bytes_eq hex flat_map
vi_digest_given = refl

approve-lookup_example :
    ((approve same_text vi_encode vi_decode
        (pos 0)
        own_store
        no_store
        vi_recipe
        reviewed
        completed).1
      ≡ ok (approval_of same_text vi_encode vi_decode (pos 0) vi_recipe reviewed))
    × (is_silent (
          lookup same_text vi_encode vi_decode
            (pos 0)
            own_store
            (approve same_text vi_encode vi_decode
              (pos 0)
              own_store
              no_store
              vi_recipe
              reviewed
              completed).0
            (codes "vi")
            vi_recipe.digest)
        ≡ true)
approve-lookup_example =
    approve-lookup same_text vi_encode vi_decode (pos 0) own_store no_store vi_recipe reviewed
      completed (codes "vi") refl vi_valid vi_digest_given refl refl refl vi_made refl vi_fits

abbrev anchored : Request
anchored = record {
  pkg_base = codes "vi";
  dir = codes "/clone";
  anchor = record { commit = replicate 40 b'a'; remote = codes "u" };
  max = pos 0;
}

-- HEAD is another commit, but the walk sees none before the anchor.
abbrev unmoved : Clone
unmoved = record {
  head = some (replicate 40 b'b');
  remote = some (codes "u");
  log_since = λ at max. record { commits = []; reached = true; end = log_done };
  gaps_before = [];
  gaps_after = [];
}

unmoved_findings : delta_findings (review_delta anchored (some unmoved)) ≡ []
unfolding delta_findings review_delta bytes_eq is_commit_hash
unmoved_findings = refl

unmoved_gaps : (review_delta anchored (some unmoved)).gaps ≡ []
unfolding delta_findings review_delta bytes_eq is_commit_hash
unmoved_gaps = refl

review_delta-silent_example :
    (clone : Clone) × (head : Bytes) × (some unmoved ≡ some clone)
    × (clone.head ≡ some head)
    × ((review_delta anchored (some unmoved)).status ≡ up_to_date)
    × (is_commit_hash anchored.anchor.commit ≡ true)
    × IsCurrent clone head (bound_of anchored) anchored.anchor.commit
    × SameRemote anchored.anchor clone
review_delta-silent_example =
    review_delta-silent anchored (some unmoved) unmoved_findings unmoved_gaps
