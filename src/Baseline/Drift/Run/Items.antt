-- ===== src/Baseline/Drift/Run/Items.antt =====
-- The items and findings of a report of `Drift` of internal/baseline/drift.go.
use aurvet.Prelude.{
  All, All-map, Bool, Bytes, List, Option, [], ap, ok, refl, some, sym, ℤ, ◌≡◌, ◌≢◌, ◌∷◌,
}
use mathlib.Core.Path.{subst}
use aurvet.Prelude.Sorting.{Has, Has-append_left, Has-append_right, sort_by}
use aurvet.Baseline.Stamp.{parse_stamp}
use aurvet.Baseline.Drift.{
  Bucket, Change, DriftInput, adjudicated, change_before, changes_in, corroborated,
  log_coverage_gap, outcomes, unexplained,
}
use aurvet.Baseline.Drift.Classify.{DriftItem}
use aurvet.Baseline.Drift.Classify.Buckets.{IsJustified, classify-IsJustified}
use aurvet.Baseline.Drift.Run.{
  DriftReport, classify_all, drift, drift_finding, finding_of, findings_of, is_truncated,
  recorded_window, report_of,
}
use aurvet.Baseline.Drift.Run.Refines.{drift-accepted}

module _ (summary : DriftItem → Bytes) (evidence : DriftItem → List Bytes) (limits : Bytes)
    (time_parse : Bytes → Bytes → Option ℤ) where
  classify_all-IsJustified :
      (q : DriftInput) (created : ℤ) (recorded : Option ℤ) (truncated : Bool) (now : ℤ)
      (cs : List Change)
      → All
          (IsJustified time_parse q created recorded truncated now)
          (classify_all time_parse q created recorded truncated now cs)
  unfolding classify_all
  classify_all-IsJustified q created recorded truncated now [] = tt
  classify_all-IsJustified q created recorded truncated now (c ∷ cs) = (
    (classify-IsJustified time_parse c q created recorded truncated now).0,
    classify_all-IsJustified q created recorded truncated now cs,
  )

  -- Whatever the log does not explain is among the findings.
  abbrev pub IsFound : DriftReport → DriftItem → Type 0
  IsFound rep it =
      it.bucket ≢ corroborated → Has (finding_of summary evidence limits it) rep.findings

  found_in :
      (b : Bucket) (it : DriftItem)
      → b ≢ corroborated
      → Has (finding_of summary evidence limits it) (drift_finding summary evidence limits b it)
  unfolding drift_finding
  found_in corroborated it h = absurd (h refl)
  found_in adjudicated it h = (0, refl)
  found_in unexplained it h = (0, refl)
  found_in log_coverage_gap it h = (0, refl)

  abbrev FoundAmong : List DriftItem → DriftItem → Type 0
  FoundAmong its it =
      it.bucket ≢ corroborated
      → Has (finding_of summary evidence limits it) (findings_of summary evidence limits its)

  findings_of-All : (its : List DriftItem) → All (FoundAmong its) its
  unfolding findings_of
  findings_of-All [] = tt
  findings_of-All (it ∷ its) = (
    λ h.
        Has-append_left (drift_finding summary evidence limits it.bucket it)
          (findings_of summary evidence limits its) {x = finding_of summary evidence limits it}
          (found_in it.bucket it h),
    All-map (FoundAmong its) (FoundAmong (it ∷ its)) its
        (λ d f h.
          Has-append_right (drift_finding summary evidence limits it.bucket it)
            (findings_of summary evidence limits its) {x = finding_of summary evidence limits d}
            (f h))
        (findings_of-All its),
  )

  -- In a report, an item is called corroborated only with a transaction of the log that explains it;
  -- adjudicated only if none does and a record that can be used is about its package; a log-coverage
  -- gap only if neither holds, the log is not truncated, and the baseline recorded no window or the
  -- package was installed before it; and all others are critical. Each item but the corroborated ones
  -- has its finding.
  pub drift-IsJustified :
      (q : DriftInput) {rep : DriftReport}
      → drift summary evidence limits time_parse q ≡ ok rep
      → (created now : ℤ) × (parse_stamp time_parse q.manifest.created_at ≡ some created)
        × (q.now ≡ some now)
        × All
            (IsJustified time_parse q created
              (recorded_window time_parse q.manifest)
              rep.truncated
              now)
            rep.items
        × (rep.truncated ≡ is_truncated (recorded_window time_parse q.manifest) q.log.earliest)
        × All (IsFound rep) rep.items
  unfolding report_of
  drift-IsJustified q {rep} h =
      let (created, now, _, at, stamp, is_rep) =
        drift-accepted summary evidence limits time_parse q h in
      let r = report_of summary evidence limits time_parse q created now in
      (
        created,
        now,
        stamp,
        at,
        subst
            (λ d.
              All
                (IsJustified time_parse q created (recorded_window time_parse q.manifest)
                  d.truncated now)
                d.items)
            (sym is_rep)
            (classify_all-IsJustified q created (recorded_window time_parse q.manifest) r.truncated
              now (sort_by change_before (changes_in (outcomes q)))),
        ap (λ d. d.truncated) is_rep,
        subst (λ d. All (IsFound d) d.items) (sym is_rep) (findings_of-All r.items),
      )
