-- ===== src/Baseline/Drift/Run/Compared.antt =====
-- The comparison of the recorded with the observed state of one package, for `Drift` of
-- internal/baseline/drift.go, and the two parts that its loops give for a name.
use aurvet.Prelude.{
  Bool, Bool-cases, Bytes, List, Option, [], arith, bytes_eq, false, if◌then◌else◌, inl, inr,
  length, none, not, refl, some, ◌&&◌, ◌++◌, ◌∷◌, ◌≡◌, ◌≤◌, map,
}
use aurvet.Baseline.Manifest.{Package}
use aurvet.Baseline.Manifest.Built.{named}
use aurvet.Baseline.Drift.{
  Change, ChangeKind, ObservedPackage, added, base_step, changes_in, mtree, observed_step, removed,
  version,
}
use aurvet.Baseline.Drift.Classify.{DriftItem}

-- What is known of the package of a name.
pub data State : Type 0 where
  absent unread : State
  present : (version digest : Bytes) → State

pub record Difference : Type 0 where
  pub kind : ChangeKind
  pub from_value : Bytes
  pub to_value : Bytes

-- The abstract comparison. A blank digest of the baseline is not known.
abbrev pub compare_states : State → State → List Difference
compare_states absent absent = []
compare_states absent unread = []
compare_states absent (present v d) = record { kind = added; from_value = []; to_value = v } ∷ []
compare_states unread _ = []
compare_states (present v d) absent = record { kind = removed; from_value = v; to_value = [] } ∷ []
compare_states (present v d) unread = []
compare_states (present v d) (present w e) =
    if not (bytes_eq w v)
    then record { kind = version; from_value = v; to_value = w } ∷ []
    else if not (bytes_eq d []) && not (bytes_eq e d)
    then record { kind = mtree; from_value = d; to_value = e } ∷ []
    else []

abbrev pub base_as : Bytes → List Package → Option Package
base_as n [] = none
base_as n (p ∷ ps) = if named n p then some p else base_as n ps

-- The two maps.
abbrev pub recorded_state : Option Package → State
recorded_state none = absent
recorded_state (some p) = present p.version p.mtree_sha256

abbrev pub observed_state : Option ObservedPackage → State
observed_state none = absent
observed_state (some p) =
    if bytes_eq p.mtree_unread [] then present p.version p.mtree_sha256 else unread

abbrev pub about : Bytes → Change → Bool
about n c = bytes_eq c.pkg n

abbrev pub difference : Change → Difference
difference c = record { kind = c.kind; from_value = c.from_value; to_value = c.to_value }

abbrev pub change_of : DriftItem → Change
change_of it = it.change

-- What one package of the baseline gives.
abbrev pub base_delta : Package → Option ObservedPackage → List Change
base_delta p o = changes_in (base_step p o ∷ [])

abbrev pub observed_delta : Bool → ObservedPackage → List Change
observed_delta known p = changes_in (observed_step known p ∷ [])

abbrev pub base_part : Option Package → Option ObservedPackage → List Change
base_part none o = []
base_part (some p) o = base_delta p o

abbrev pub observed_part : Option Package → Option ObservedPackage → List Change
observed_part b none = []
observed_part none (some p) = observed_delta false p
observed_part (some b) (some p) = []

-- The two parts of one name never both hold a change, and give what the comparison gives.
abbrev pub both_parts : Option Package → Option ObservedPackage → List Change
both_parts b o = base_part b o ++ observed_part b o

pub both_parts-le : (b : Option Package) (o : Option ObservedPackage) → length (both_parts b o) ≤ 1
unfolding base_step observed_step changes_in
both_parts-le none none = omega arith
both_parts-le none (some o) = ground arith
both_parts-le (some b) none = omega arith
both_parts-le (some b) (some o) = ground arith

pub both_parts-compare :
    (b : Option Package) (o : Option ObservedPackage)
    → map difference (both_parts b o) ≡ compare_states (recorded_state b) (observed_state o)
unfolding base_step observed_step changes_in
both_parts-compare none none = refl
both_parts-compare none (some o) = elim (Bool-cases (bytes_eq o.mtree_unread [])) [
  | inl e ↦ rw e
  | inr e ↦ rw e
]
both_parts-compare (some b) none = refl
both_parts-compare (some b) (some o) = elim (Bool-cases (bytes_eq o.mtree_unread [])) [
  | inl e ↦ rw e (ground arith)
  | inr e ↦ rw e
]
