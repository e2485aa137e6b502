-- ===== src/Baseline/Drift/Run/Refines.antt =====
-- The changes that `Drift` of internal/baseline/drift.go reports, against a comparison of two maps from
-- names to states.
use aurvet.Prelude.{
  Bool, Bytes, List, Option, Option-cases, [], ap, inl, inr, length, not, ok, refl, some, ℤ, ◌++◌,
  ◌∙◌, ◌∷◌, ◌≡◌, ◌≤◌, map, refuse_if-eq-ok, >>=-eq-ok, eq_ℤ,
}
use aurvet.Prelude.Sorting.{select, select-sort_by}
use aurvet.Baseline.Manifest.{manifest_schema}
use aurvet.Baseline.Manifest.Built.{named}
use aurvet.Baseline.Stamp.{parse_stamp}
use aurvet.Baseline.Drift.{
  other_schema, Change, DriftInput, base_steps, change_before, changes_in, check_observed,
  observed_as, observed_steps, outcomes,
}
use aurvet.Baseline.Drift.Classify.{DriftItem}
use aurvet.Baseline.Drift.Classify.Buckets.{classify-IsJustified}
use aurvet.Baseline.Drift.Run.{DriftReport, classify_all, drift, report_of}
use aurvet.Baseline.Drift.Run.Compared.{
  compare_states, base_as, recorded_state, observed_state, about, difference, change_of, base_part,
  both_parts, both_parts-le, both_parts-compare,
}
use aurvet.Baseline.Drift.Run.Named.{
  changes_in-append, select-append, base_steps-about, observed_steps-about, check_observed-once,
}

module _ (summary : DriftItem → Bytes) (evidence : DriftItem → List Bytes) (limits : Bytes)
    (time_parse : Bytes → Bytes → Option ℤ) where
  classify_all-changes :
      (q : DriftInput) (created : ℤ) (recorded : Option ℤ) (truncated : Bool) (now : ℤ)
      (cs : List Change)
      → map change_of (classify_all time_parse q created recorded truncated now cs) ≡ cs
  unfolding classify_all
  classify_all-changes q created recorded truncated now [] = refl
  classify_all-changes q created recorded truncated now (c ∷ cs) =
      let rest = classify_all-changes q created recorded truncated now cs in
      ap (λ d. d ∷ map change_of (classify_all time_parse q created recorded truncated now cs))
        (classify-IsJustified time_parse c q created recorded truncated now).1
      ∙ ap (λ l. c ∷ l) rest

  -- Input that is not refused.
  pub drift-accepted :
      (q : DriftInput) {rep : DriftReport}
      → drift summary evidence limits time_parse q ≡ ok rep
      → (created now : ℤ) × (check_observed [] q.observed ≡ ok tt)
        × (q.now ≡ some now)
        × (parse_stamp time_parse q.manifest.created_at ≡ some created)
        × (rep ≡ report_of summary evidence limits time_parse q created now)
  unfolding drift
  drift-accepted q h = elim (Option-cases q.now) [
    | inl e ↦ absurd (let k = rw (e, drift) at h in cc)
    | inr (now, e) ↦ elim (Option-cases (parse_stamp time_parse q.manifest.created_at)) [
      | inl f ↦ absurd (let k = rw (e, f, drift) at h in cc)
      | inr (created, f) ↦
          let k = rw (e, f, drift) at h in
          let (_, h1) =
            refuse_if-eq-ok (not (eq_ℤ q.manifest.schema manifest_schema)) other_schema _ k in
          let (_, checked, end) = >>=-eq-ok (check_observed [] q.observed) _ h1 in
          (created, now, checked, e, f, cc)
    ]
  ]

  -- Where no two packages of the baseline bear one name: at each name, the changes of the report are
  -- those that the comparison of the recorded with the observed state gives, at most one. Order,
  -- repeated passes and the classification do not add to them or take from them.
  pub drift-refines :
      (q : DriftInput) {rep : DriftReport}
      → drift summary evidence limits time_parse q ≡ ok rep
      → ((n : Bytes) → length (select (named n) q.manifest.packages) ≤ 1)
      → (n : Bytes)
      → map difference (select (about n) (map change_of rep.items))
        ≡ compare_states
            (recorded_state (base_as n q.manifest.packages))
            (observed_state (observed_as n q.observed))
  unfolding report_of outcomes
  drift-refines q h once n =
      let (created, now, checked, _, _, is_rep) = drift-accepted q h in
      let cs = changes_in (outcomes q) in
      let b = base_as n q.manifest.packages in
      let o = observed_as n q.observed in
      let at_name : select (about n) cs ≡ both_parts b o =
        ap (select (about n)) (changes_in-append (base_steps q.observed q.manifest.packages) _)
        ∙ select-append (about n) (changes_in (base_steps q.observed q.manifest.packages)) _
        ∙ ap
            (λ l.
              l ++ select (about n) (changes_in (observed_steps q.manifest.packages q.observed)))
            (base_steps-about n q.observed q.manifest.packages (once n))
        ∙ ap (λ l. base_part b o ++ l)
            (observed_steps-about n q.manifest.packages q.observed
              (check_observed-once n [] q.observed checked).1) in
      ap (λ r. map difference (select (about n) (map change_of r.items))) is_rep
      ∙ ap (λ l. map difference (select (about n) l)) (classify_all-changes q created _ _ now _)
      ∙ ap (map difference)
          (select-sort_by (about n) change_before cs (rw at_name (both_parts-le b o)) ∙ at_name)
      ∙ both_parts-compare b o
