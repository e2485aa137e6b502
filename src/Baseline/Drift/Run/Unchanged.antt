-- ===== src/Baseline/Drift/Run/Unchanged.antt =====
-- `Drift` of internal/baseline/drift.go on a host that is as `BuildManifest` recorded it.
use aurvet.Prelude.{
  Bool-cases, Bytes, Fallible, List, Option, [], ap, arith, bytes_eq, bytes_eq_refl, inl, inr,
  length, map, none, ok, refl, some, sym, ℤ, ◌∙◌, ◌∷◌, ◌≡◌, ◌≤◌,
}
use aurvet.Prelude.Sorting.{select, select-sort_by, sort_by}
use aurvet.Baseline.{Error}
use aurvet.Baseline.Manifest.{
  Manifest, ManifestInput, Package, assembled, build_manifest, package_before,
}
use aurvet.Baseline.Manifest.Built.{
  build_manifest-assembled, named, take_packages-once, build_manifest-IsBuilt,
}
use aurvet.Baseline.Drift.{DriftInput, ObservedPackage, observed_as}
use aurvet.Baseline.Drift.Classify.{DriftItem}
use aurvet.Baseline.Drift.Run.{DriftReport, drift}
use aurvet.Baseline.Drift.Run.Compared.{
  about, base_as, change_of, compare_states, difference, observed_state, recorded_state,
}
use aurvet.Baseline.Drift.Run.Refines.{drift-refines}

-- A package as it is observed when it is what the input of the manifest says.
abbrev pub observe : (Package → Option ℤ) → Package → ObservedPackage
observe date p = record {
  name = p.name;
  version = p.version;
  mtree_sha256 = p.mtree_sha256;
  mtree_unread = p.mtree_unread;
  install_date = date p;
}

abbrev observe_found : (Package → Option ℤ) → Option Package → Option ObservedPackage
observe_found date none = none
observe_found date (some p) = some (observe date p)

observed_as-observe :
    (date : Package → Option ℤ) (n : Bytes) (ps : List Package)
    → observed_as n (map (observe date) ps) ≡ observe_found date (base_as n ps)
unfolding observed_as
observed_as-observe date n [] = refl
observed_as-observe date n (p ∷ ps) = elim (Bool-cases (named n p)) [
  | inl e ↦ rw e
  | inr e ↦ rw e (observed_as-observe date n ps)
]

abbrev first_of : List Package → Option Package
first_of [] = none
first_of (p ∷ ps) = some p

base_as-select : (n : Bytes) (ps : List Package) → base_as n ps ≡ first_of (select (named n) ps)
base_as-select n [] = refl
base_as-select n (p ∷ ps) = elim (Bool-cases (named n p)) [
  | inl e ↦ rw e
  | inr e ↦ rw e (base_as-select n ps)
]

-- Sorting does not change which package has a name, if no two have it.
base_as-sort_by :
    (n : Bytes) (ps : List Package)
    → length (select (named n) ps) ≤ 1
    → base_as n (sort_by package_before ps) ≡ base_as n ps
base_as-sort_by n ps one =
    base_as-select n (sort_by package_before ps)
    ∙ ap first_of (select-sort_by (named n) package_before ps one)
    ∙ sym (base_as-select n ps)

same_state :
    (date : Package → Option ℤ) (o : Option Package)
    → compare_states (recorded_state o) (observed_state (observe_found date o)) ≡ []
same_state date none = refl
same_state date (some p) = elim (Bool-cases (bytes_eq p.mtree_unread [])) [
  | inl e ↦ rw e (rw (bytes_eq_refl p.version, bytes_eq_refl p.mtree_sha256) (ground arith))
  | inr e ↦ rw e
]

no_items :
    (its : List DriftItem)
    → ((n : Bytes) → map difference (select (about n) (map change_of its)) ≡ [])
    → its ≡ []
no_items [] h = refl
no_items (it ∷ its) h =
    let here = h it.change.pkg in absurd (let k = rw (bytes_eq_refl it.change.pkg) at here in cc)

module _ (summary : DriftItem → Bytes) (evidence : DriftItem → List Bytes) (limits : Bytes)
    (time_parse : Bytes → Bytes → Option ℤ) (marshal : Manifest → Fallible Error Bytes)
    (unknown_reason bounded_reason : Bytes) where
  -- A report on the manifest that was built from some packages, where the same packages are observed,
  -- in any state of the log and with any install dates, holds no change.
  pub drift-build_manifest :
      (made : ManifestInput) (q : DriftInput) (date : Package → Option ℤ)
      → build_manifest time_parse marshal unknown_reason bounded_reason made ≡ ok q.manifest
      → q.observed ≡ map (observe date) made.packages
      → {rep : DriftReport} → drift summary evidence limits time_parse q ≡ ok rep
      → rep.items ≡ []
  unfolding assembled
  drift-build_manifest made q date built seen {rep} h =
      let (unread, _, taken, is_built) =
        build_manifest-assembled time_parse marshal unknown_reason bounded_reason made built in
      let packages : q.manifest.packages ≡ sort_by package_before made.packages =
        ap (λ d. d.packages) is_built in
      let (shape, _) =
        build_manifest-IsBuilt time_parse marshal unknown_reason bounded_reason made built in
      no_items rep.items λ n.
        drift-refines summary evidence limits time_parse q h shape.once n
        ∙ ap
            (λ l.
              compare_states (recorded_state (base_as n l))
                (observed_state (observed_as n q.observed)))
            packages
        ∙ ap (λ o. compare_states (recorded_state o) (observed_state (observed_as n q.observed)))
            (base_as-sort_by n made.packages (take_packages-once n [] made.packages taken).1)
        ∙ ap
            (λ l.
              compare_states (recorded_state (base_as n made.packages))
                (observed_state (observed_as n l)))
            seen
        ∙ ap (λ o. compare_states (recorded_state (base_as n made.packages)) (observed_state o))
            (observed_as-observe date n made.packages)
        ∙ same_state date (base_as n made.packages)
