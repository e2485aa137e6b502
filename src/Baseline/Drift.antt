-- ===== src/Baseline/Drift.antt =====
-- internal/baseline/drift.go: the changes between a signed baseline and the packages observed now. A
-- `time.Time` is an instant, and `none` is the zero time. The texts of details, evidence, gaps and notes
-- are modelled by the case that they name.
pub mod Classify
pub mod Run
use aurvet.Prelude.{
  Bool, Bytes, Fallible, List, Option, [], bytes_eq, bytes_lt, codes, err, if◌then◌else◌, none, not,
  ok, refuse_if, some, ℤ, ◌&&◌, ◌++◌, ◌>>=◌, ◌>>◌, ◌∷◌,
}
use aurvet.Baseline.Manifest.{Manifest, Package, seen_name}

pub data Bucket : Type 0 where
  corroborated adjudicated unexplained log_coverage_gap : Bucket

pub data ChangeKind : Type 0 where
  added removed version mtree : ChangeKind

-- The strings of the kinds, by which they are sorted.
abbrev pub kind_name : ChangeKind → Bytes
kind_name added = codes "added"
kind_name removed = codes "removed"
kind_name version = codes "version"
kind_name mtree = codes "mtree"

pub record ObservedPackage : Type 0 where
  pub name : Bytes
  pub version : Bytes
  pub mtree_sha256 : Bytes
  pub mtree_unread : Bytes
  pub install_date : Option ℤ

pub record LogTransaction : Type 0 where
  pub time : ℤ
  pub op : Bytes
  pub pkg : Bytes
  pub version : Bytes

pub record LogObservation : Type 0 where
  pub earliest : Option ℤ
  pub latest : Option ℤ
  pub bounded : Bool
  pub transactions : List LogTransaction

pub record DriftAdjudication : Type 0 where
  pub rule_id : Bytes
  pub subject : Bytes
  pub scope : Bytes
  pub reason : Bytes
  pub expires_at : Bytes

pub record DriftInput : Type 0 where
  pub manifest : Manifest
  pub observed : List ObservedPackage
  pub log : LogObservation
  pub adjudications : List DriftAdjudication
  pub now : Option ℤ

-- The cases of `ErrDrift`.
pub data DriftError : Type 0 where
  no_now bad_created other_schema unnamed_observed : DriftError
  observed_twice blank_observed : Bytes → DriftError

-- A `DriftItem` before it is classified.
pub record Change : Type 0 where
  pub kind : ChangeKind
  pub pkg : Bytes
  pub from_value : Bytes
  pub to_value : Bytes
  pub version : Bytes

-- Why a record of an adjudication cannot be used.
pub data Fault : Type 0 where
  other_rule no_reason unknown_scope no_subject expired : Fault

-- The gaps that a classification adds.
pub data DriftGap : Type 0 where
  unread_mtree unread_added : (name reason : Bytes) → DriftGap
  unusable : DriftAdjudication → Fault → DriftGap
  shortfall_gap bounded_gap : DriftGap

-- What the loops say of one package.
pub data Outcome : Type 0 where
  same : Outcome
  gap : DriftGap → Outcome
  change : Change → Outcome

-- The loop that fills `obs`: what it refuses.
pub check_observed : List Bytes → List ObservedPackage → Fallible DriftError (Unit {0})
check_observed seen [] = ok tt
check_observed seen (p ∷ ps) = do
  refuse_if (bytes_eq p.name []) unnamed_observed
  refuse_if (seen_name p.name seen) (observed_twice p.name)
  refuse_if (bytes_eq p.mtree_sha256 [] && bytes_eq p.mtree_unread []) (blank_observed p.name)
  check_observed (p.name ∷ seen) ps

-- `obs[name]`.
pub observed_as : Bytes → List ObservedPackage → Option ObservedPackage
observed_as name [] = none
observed_as name (p ∷ ps) = if bytes_eq p.name name then some p else observed_as name ps

-- The body of the loop over the packages of the baseline.
pub base_step : Package → Option ObservedPackage → Outcome
base_step base none = change (record {
  kind = removed;
  pkg = base.name;
  from_value = base.version;
  to_value = [];
  version = base.version;
})
base_step base (some cur) =
    if not (bytes_eq cur.mtree_unread [])
    then gap (unread_mtree base.name cur.mtree_unread)
    else if not (bytes_eq cur.version base.version)
    then change (record {
      kind = version;
      pkg = base.name;
      from_value = base.version;
      to_value = cur.version;
      version = cur.version;
    })
    else if not (bytes_eq base.mtree_sha256 []) && not (bytes_eq cur.mtree_sha256 base.mtree_sha256)
    then change (record {
      kind = mtree;
      pkg = base.name;
      from_value = base.mtree_sha256;
      to_value = cur.mtree_sha256;
      version = cur.version;
    })
    else same

-- `baseNames[name]`.
pub in_baseline : Bytes → List Package → Bool
in_baseline name [] = Bool.false
in_baseline name (p ∷ ps) = if bytes_eq p.name name then Bool.true else in_baseline name ps

-- The body of the loop over the packages observed.
pub observed_step : Bool → ObservedPackage → Outcome
observed_step known p =
    if known
    then same
    else if not (bytes_eq p.mtree_unread [])
    then gap (unread_added p.name p.mtree_unread)
    else change (record {
      kind = added;
      pkg = p.name;
      from_value = [];
      to_value = p.version;
      version = p.version;
    })

pub base_steps : List ObservedPackage → List Package → List Outcome
unfolding base_step observed_as
base_steps obs [] = []
base_steps obs (p ∷ ps) = base_step p (observed_as p.name obs) ∷ base_steps obs ps

pub observed_steps : List Package → List ObservedPackage → List Outcome
unfolding observed_step in_baseline
observed_steps base [] = []
observed_steps base (p ∷ ps) = observed_step (in_baseline p.name base) p ∷ observed_steps base ps

pub changes_in : List Outcome → List Change
changes_in [] = []
changes_in (change c ∷ os) = c ∷ changes_in os
changes_in (gap g ∷ os) = changes_in os
changes_in (same ∷ os) = changes_in os

pub gaps_in : List Outcome → List DriftGap
gaps_in [] = []
gaps_in (gap g ∷ os) = g ∷ gaps_in os
gaps_in (change c ∷ os) = gaps_in os
gaps_in (same ∷ os) = gaps_in os

-- The order of the report.
pub change_before : Change → Change → Bool
change_before a b =
    if not (bytes_eq a.pkg b.pkg)
    then bytes_lt a.pkg b.pkg
    else bytes_lt (kind_name a.kind) (kind_name b.kind)

-- What the two loops give, in their order.
pub outcomes : DriftInput → List Outcome
unfolding base_steps observed_steps
outcomes q =
    base_steps q.observed q.manifest.packages ++ observed_steps q.manifest.packages q.observed
