-- ===== src/Baseline/Drift/Classify.antt =====
-- `classify` of internal/baseline/drift.go, with `corroborate`, `coverageShortfall` and
-- `indexAdjudications`.
pub mod Justified
pub mod Buckets
pub mod Shorter
use aurvet.Prelude.{
  Bool, Bytes, List, Option, [], bytes_eq, codes, false, if◌then◌else◌, ltb_ℤ, none, not, some,
  true, ℤ, ◌&&◌, ◌||◌, ◌∷◌,
}
use aurvet.Prelude.Text.{is_blank}
use aurvet.Finding.{Severity, sev_critical, sev_info}
use aurvet.Baseline.Stamp.{parse_stamp}
use aurvet.Baseline.Drift.{
  Bucket, Change, ChangeKind, DriftAdjudication, DriftGap, DriftInput, Fault, LogTransaction,
  ObservedPackage, added, adjudicated, corroborated, expired, log_coverage_gap, mtree, no_reason,
  no_subject, observed_as, other_rule, removed, unexplained, unknown_scope, unusable, version,
}

abbrev pub drift_rule : Bytes
drift_rule = codes "baseline-drift"

-- What the detail and the evidence of an item say.
pub data Why : Type 0 where
  explained_by : LogTransaction → Why
  judged_by : DriftAdjudication → Why
  installed_before_window installed_before_log : (installed earliest : ℤ) → Why
  nothing_read : Why
  begins_after : (earliest created : ℤ) → Why
  nothing_explains : (truncated : Bool) → Why

pub record DriftItem : Type 0 where
  pub change : Change
  pub bucket : Bucket
  pub severity : Severity
  pub why : Why

abbrev pub after_zero : Option ℤ → ℤ → Bool
after_zero none t = false
after_zero (some e) t = ltb_ℤ t e

pub is_op : Bytes → List Bytes → Bool
is_op op [] = false
is_op op (o ∷ os) = bytes_eq op o || is_op op os

-- `opExplains`.
pub op_explains : ChangeKind → Bytes → Bool
unfolding is_op
op_explains added op = is_op op (codes "installed" ∷ codes "reinstalled" ∷ codes "upgraded" ∷ [])
op_explains removed op = is_op op (codes "removed" ∷ [])
op_explains version op =
    is_op op (codes "upgraded" ∷ codes "downgraded" ∷ codes "installed" ∷ codes "reinstalled" ∷ [])
op_explains mtree op =
    is_op op (codes "reinstalled" ∷ codes "upgraded" ∷ codes "downgraded" ∷ codes "installed" ∷ [])

-- The switch on the kind of a change: whether a transaction left another version.
pub other_version : ChangeKind → Change → LogTransaction → Bool
other_version added c tx = not (bytes_eq tx.version []) && not (bytes_eq tx.version c.to_value)
other_version version c tx = not (bytes_eq tx.version []) && not (bytes_eq tx.version c.to_value)
other_version mtree c tx =
    not (bytes_eq tx.version [])
    && (not (bytes_eq c.version []) && not (bytes_eq tx.version c.version))
other_version removed c tx = false

-- The guards of the loop of `corroborate`.
pub explains : Change → ℤ → LogTransaction → Bool
unfolding op_explains other_version
explains c created tx =
    if not (bytes_eq tx.pkg c.pkg) || ltb_ℤ tx.time created
    then false
    else if not (op_explains c.kind tx.op)
    then false
    else not (other_version c.kind c tx)

pub later : Option LogTransaction → LogTransaction → Bool
later none tx = true
later (some best) tx = ltb_ℤ best.time tx.time

-- The loop of `corroborate`, with the best transaction so far.
pub corroborate_from :
    Option LogTransaction → Change → List LogTransaction → ℤ → Option LogTransaction
unfolding explains later
corroborate_from best c [] created = best
corroborate_from best c (tx ∷ txs) created =
    corroborate_from (if explains c created tx && later best tx then some tx else best) c txs
      created

pub corroborate : Change → List LogTransaction → ℤ → Option LogTransaction
unfolding corroborate_from
corroborate c txs created = corroborate_from none c txs created

-- The first half of `coverageShortfall`, on a known install date.
pub installed_early : ℤ → Option ℤ → Option ℤ → Option Why
installed_early installed (some recorded) log_earliest =
    if ltb_ℤ installed recorded then some (installed_before_window installed recorded) else none
installed_early installed none none = none
installed_early installed none (some e) =
    if ltb_ℤ installed e then some (installed_before_log installed e) else none

-- The second half: no signed window.
pub no_window : ℤ → Option ℤ → Option ℤ → Option Why
no_window created (some recorded) log_earliest = none
no_window created none none = some nothing_read
no_window created none (some e) = if ltb_ℤ created e then some (begins_after e created) else none

pub install_date_of : Option ObservedPackage → Option ℤ
install_date_of none = none
install_date_of (some p) = p.install_date

-- `coverageShortfall`; `recorded` is the signed window, if there is one.
pub coverage_shortfall :
    Change → DriftInput → (created : ℤ) → (recorded : Option ℤ) → (truncated : Bool) → Option Why
unfolding installed_early no_window install_date_of
coverage_shortfall c q created recorded truncated =
    if truncated then none else elim (install_date_of (observed_as c.pkg q.observed)) [
      | none ↦ no_window created recorded q.log.earliest
      | some t ↦ elim (installed_early t recorded q.log.earliest) [
        | some w ↦ some w
        | none ↦ no_window created recorded q.log.earliest
      ]
    ]

-- `adj[name]`, where the newest record stands first.
pub adjudication_for : Bytes → List DriftAdjudication → Option DriftAdjudication
adjudication_for name [] = none
adjudication_for name (r ∷ rs) =
    if bytes_eq r.subject name then some r else adjudication_for name rs

-- `classify`.
unfoldable pub classify :
    Change
    → DriftInput
    → (created : ℤ) → (recorded : Option ℤ) → (truncated : Bool) → List DriftAdjudication
    → DriftItem
unfolding corroborate adjudication_for coverage_shortfall
classify c q created recorded truncated adj = elim (corroborate c q.log.transactions created) [
  | some tx ↦ record {
    change = c;
    bucket = corroborated;
    severity = sev_info;
    why = explained_by tx;
  }
  | none ↦ elim (adjudication_for c.pkg adj) [
    | some r ↦ record { change = c; bucket = adjudicated; severity = sev_info; why = judged_by r }
    | none ↦ elim (coverage_shortfall c q created recorded truncated) [
      | some w ↦ record { change = c; bucket = log_coverage_gap; severity = sev_info; why = w }
      | none ↦ record {
        change = c;
        bucket = unexplained;
        severity = sev_critical;
        why = nothing_explains truncated;
      }
    ]
  ]
]

module _ (time_parse : Bytes → Bytes → Option ℤ) where
  -- `expired`.
  is_expired : Bytes → ℤ → Bool
  is_expired expires_at now = elim (parse_stamp time_parse expires_at) [
    | none ↦ true
    | some t ↦ not (ltb_ℤ now t)
  ]

  -- The switch of `indexAdjudications`: why a record cannot be used.
  pub fault_of : DriftAdjudication → ℤ → Option Fault
  unfolding is_expired
  fault_of r now =
      if not (bytes_eq r.rule_id []) && not (bytes_eq r.rule_id drift_rule)
      then some other_rule
      else if is_blank r.reason
      then some no_reason
      else if not (bytes_eq r.scope (codes "pin"))
          && (not (bytes_eq r.scope (codes "subject")) && not (bytes_eq r.scope (codes "rule")))
      then some unknown_scope
      else if not (bytes_eq r.scope (codes "rule")) && is_blank r.subject
      then some no_subject
      else if not (bytes_eq r.expires_at []) && not (is_expired r.expires_at now)
      then none
      else if bytes_eq r.expires_at []
      then none
      else some expired

  -- The loop of `indexAdjudications`: the records that can be used, the newest first.
  unfoldable pub usable_from :
      List DriftAdjudication → List DriftAdjudication → ℤ → List DriftAdjudication
  unfolding fault_of
  usable_from out [] now = out
  usable_from out (r ∷ rs) now =
      usable_from (elim (fault_of r now) [ none ↦ r ∷ out | some f ↦ out ]) rs now

  unfoldable pub adjudication_gaps : List DriftAdjudication → ℤ → List DriftGap
  unfolding fault_of
  adjudication_gaps [] now = []
  adjudication_gaps (r ∷ rs) now =
      let rest = adjudication_gaps rs now in
      elim (fault_of r now) [ none ↦ rest | some f ↦ unusable r f ∷ rest ]
