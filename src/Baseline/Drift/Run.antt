-- ===== src/Baseline/Drift/Run.antt =====
-- `Drift` of internal/baseline/drift.go: the classification of every change, and the report. The
-- texts of findings are parameters.
pub mod Compared
pub mod Named
pub mod Refines
pub mod Items
pub mod Shortened
pub mod Unchanged
use aurvet.Prelude.{
  Bool, Bytes, Fallible, List, Option, [], bytes_eq, codes, err, false, if◌then◌else◌, ltb_ℤ, none,
  not, ok, refuse_if, some, suc, true, ℕ, ℤ, ◌&&◌, ◌++◌, ◌==◌, ◌>>=◌, ◌>>◌, ◌∷◌, eq_ℤ,
}
use aurvet.Prelude.Sorting.{sort_by}
use aurvet.Finding.{Finding}
use aurvet.Baseline.Manifest.{Manifest, manifest_schema}
use aurvet.Baseline.Stamp.{parse_stamp}
use aurvet.Baseline.Drift.{
  Bucket, Change, DriftError, DriftGap, DriftInput, LogObservation, adjudicated, bad_created,
  bounded_gap, change_before, changes_in, check_observed, corroborated, gaps_in, log_coverage_gap,
  no_now, other_schema, outcomes, shortfall_gap, unexplained,
}
use aurvet.Baseline.Drift.Classify.{
  DriftItem, adjudication_gaps, after_zero, classify, drift_rule, usable_from,
}

pub record Counts : Type 0 where
  pub corroborated_count : ℕ
  pub adjudicated_count : ℕ
  pub unexplained_count : ℕ
  pub gap_count : ℕ

-- `rep.Counts[bucket]++`.
count_bucket : Bucket → Counts → Counts
count_bucket corroborated n = record n { corroborated_count = suc n.corroborated_count }
count_bucket adjudicated n = record n { adjudicated_count = suc n.adjudicated_count }
count_bucket unexplained n = record n { unexplained_count = suc n.unexplained_count }
count_bucket log_coverage_gap n = record n { gap_count = suc n.gap_count }

pub data Note : Type 0 where
  no_recorded_window log_missing : Note
  log_ends_early : (latest now : ℤ) → Note

pub record DriftReport : Type 0 where
  pub items : List DriftItem
  pub counts : Counts
  pub findings : List Finding
  pub gaps : List DriftGap
  pub truncated : Bool
  pub window_covered : Bool
  pub notes : List Note

-- The window that the baseline recorded, if it names an instant.
unfoldable pub recorded_window : (Bytes → Bytes → Option ℤ) → Manifest → Option ℤ
recorded_window time_parse m =
    if bytes_eq m.log.earliest [] then none else parse_stamp time_parse m.log.earliest

-- The switch on truncation.
unfoldable pub is_truncated : Option ℤ → Option ℤ → Bool
is_truncated none log_earliest = false
is_truncated (some recorded) none = true
is_truncated (some recorded) (some e) = ltb_ℤ recorded e

window_notes : Option ℤ → Option ℤ → List Note
window_notes none log_earliest = no_recorded_window ∷ []
window_notes (some recorded) none = log_missing ∷ []
window_notes (some recorded) (some e) = []

covers : Option ℤ → ℤ → Bool
covers none created = false
covers (some e) created = not (ltb_ℤ created e)

end_notes : Option ℤ → ℤ → List Note
end_notes none now = []
end_notes (some latest) now = if ltb_ℤ latest now then log_ends_early latest now ∷ [] else []

is_gap : Bucket → Bool
is_gap log_coverage_gap = true
is_gap corroborated = false
is_gap adjudicated = false
is_gap unexplained = false

counts_of : List DriftItem → Counts
unfolding count_bucket
counts_of [] = record {
  corroborated_count = 0;
  adjudicated_count = 0;
  unexplained_count = 0;
  gap_count = 0;
}
counts_of (it ∷ its) = count_bucket it.bucket (counts_of its)

module _ (time_parse : Bytes → Bytes → Option ℤ) where
  pub classify_all :
      DriftInput
      → (created : ℤ) → (recorded : Option ℤ) → (truncated : Bool) → (now : ℤ) → List Change
      → List DriftItem
  unfolding usable_from
  classify_all q created recorded truncated now [] = []
  classify_all q created recorded truncated now (c ∷ cs) =
      classify c q created recorded truncated (usable_from time_parse [] q.adjudications now)
      ∷ classify_all q created recorded truncated now cs

module _ (summary : DriftItem → Bytes) (evidence : DriftItem → List Bytes) (limits : Bytes) where
  pub finding_of : DriftItem → Finding
  finding_of it = record {
    rule_id = drift_rule;
    subject_kind = codes "package";
    subject = it.change.pkg;
    severity = it.severity;
    summary = summary it;
    evidence = evidence it;
    limits = limits;
  }

  -- `driftFinding`: nothing for a change that the log explains.
  pub drift_finding : Bucket → DriftItem → List Finding
  unfolding finding_of
  drift_finding corroborated it = []
  drift_finding adjudicated it = finding_of it ∷ []
  drift_finding unexplained it = finding_of it ∷ []
  drift_finding log_coverage_gap it = finding_of it ∷ []

  pub findings_of : List DriftItem → List Finding
  unfolding drift_finding
  findings_of [] = []
  findings_of (it ∷ its) = drift_finding it.bucket it ++ findings_of its

  module _ (time_parse : Bytes → Bytes → Option ℤ) where
    -- The report on input that is not refused.
    pub report_of : DriftInput → (created now : ℤ) → DriftReport
    unfolding classify_all counts_of findings_of window_notes covers end_notes outcomes changes_in
        gaps_in change_before adjudication_gaps recorded_window is_truncated
    report_of q created now =
        let recorded = recorded_window time_parse q.manifest in
        let truncated = is_truncated recorded q.log.earliest in
        let items =
          classify_all time_parse q created recorded truncated now
            (sort_by change_before (changes_in (outcomes q))) in
        record {
          items = items;
          counts = counts_of items;
          findings = findings_of items;
          gaps =
              gaps_in (outcomes q)
              ++ (adjudication_gaps time_parse q.adjudications now
                  ++ ((if (counts_of items).gap_count == 0 then [] else shortfall_gap ∷ [])
                      ++ (if q.log.bounded then bounded_gap ∷ [] else [])));
          truncated = truncated;
          window_covered = covers q.log.earliest created;
          notes = window_notes recorded q.log.earliest ++ end_notes q.log.latest now;
        }

    -- `Drift`.
    unfoldable pub drift : DriftInput → Fallible DriftError DriftReport
    unfolding report_of check_observed
    drift q = elim q.now [
      | none ↦ err no_now
      | some now ↦ elim (parse_stamp time_parse q.manifest.created_at) [
        | none ↦ err bad_created
        | some created ↦ do
          refuse_if (not (eq_ℤ q.manifest.schema manifest_schema)) other_schema
          check_observed [] q.observed
          ok (report_of q created now)
      ]
    ]
