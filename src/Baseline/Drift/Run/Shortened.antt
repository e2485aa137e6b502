-- ===== src/Baseline/Drift/Run/Shortened.antt =====
-- A shorter log against `Drift` of internal/baseline/drift.go.
use aurvet.Prelude.{
  Bool, Bytes, List, Option, [], arith, none, ok, refl, some, sym, true, ℤ, ◌∙◌, ◌≡◌, ◌∷◌,
}
use aurvet.Prelude.Sorting.{sort_by}
use aurvet.Baseline.Drift.{
  Change, DriftInput, LogObservation, change_before, changes_in, outcomes, unexplained,
}
use aurvet.Baseline.Drift.Classify.{DriftItem, classify, usable_from}
use aurvet.Baseline.Drift.Classify.Buckets.{classify-IsJustified}
use aurvet.Baseline.Drift.Classify.Shorter.{
  IsShorter, NotEarlier, classify-unexplained, corroborate-shorter, coverage_shortfall_mono,
}
use aurvet.Baseline.Drift.Run.{
  DriftReport, classify_all, drift, is_truncated, recorded_window, report_of,
}
use aurvet.Baseline.Drift.Run.Refines.{drift-accepted}

-- The same changes, and what was unexplained still is.
abbrev pub StaysCritical : List DriftItem → List DriftItem → Type 0
StaysCritical [] [] = Unit
StaysCritical [] (b ∷ bs) = ⊥
StaysCritical (a ∷ as_given) [] = ⊥
StaysCritical (a ∷ as_given) (b ∷ bs) =
    (a.change ≡ b.change)
    × (a.bucket ≡ unexplained → b.bucket ≡ unexplained)
    × StaysCritical as_given bs

is_truncated_mono :
    (start : ℤ) (e f : Option ℤ)
    → NotEarlier e f
    → is_truncated (some start) e ≡ true
    → is_truncated (some start) f ≡ true
unfolding is_truncated
is_truncated_mono start e none h t = refl
is_truncated_mono start none (some b) h t = absurd h
is_truncated_mono start (some a) (some b) h t = ground arith

module _ (summary : DriftItem → Bytes) (evidence : DriftItem → List Bytes) (limits : Bytes)
    (time_parse : Bytes → Bytes → Option ℤ) (q : DriftInput) (less : LogObservation) where
  abbrev with_less : DriftInput
  with_less = record q { log = less }

  classify_all-shorter :
      IsShorter q.log less
      → (created start now : ℤ) (t u : Bool) → (t ≡ true → u ≡ true)
      → (cs : List Change)
      → StaysCritical
          (classify_all time_parse q created (some start) t now cs)
          (classify_all time_parse with_less created (some start) u now cs)
  unfolding classify_all classify
  classify_all-shorter s created start now t u more [] = tt
  classify_all-shorter s created start now t u more (c ∷ cs) =
      let adj = usable_from time_parse [] q.adjudications now in
      (
        (classify-IsJustified time_parse c q created (some start) t now).1
            ∙ sym (classify-IsJustified time_parse c with_less created (some start) u now).1,
        λ h.
            let (e, f, g) = classify-unexplained c q created (some start) t adj h in
            rw (
              corroborate-shorter q less s c created e,
              f,
              coverage_shortfall_mono c q less created start t u more g,
              classify,
            ),
        classify_all-shorter s created start now t u more cs,
      )

  -- Against a baseline that recorded a window of the log: whatever was unexplained stays unexplained
  -- when lines are taken from the log, so that it starts later, lacks transactions, or is empty. No
  -- change is lost, and none is added.
  pub drift_shortened :
      (start : ℤ)
      → recorded_window time_parse q.manifest ≡ some start
      → IsShorter q.log less
      → {rep rep' : DriftReport} → drift summary evidence limits time_parse q ≡ ok rep
      → drift summary evidence limits time_parse with_less ≡ ok rep'
      → StaysCritical rep.items rep'.items
  unfolding report_of outcomes
  drift_shortened start window s h k =
      let (created, now, _, at, stamp, is_rep) =
        drift-accepted summary evidence limits time_parse q h in
      let (created', now', _, at', stamp', is_rep') =
        drift-accepted summary evidence limits time_parse with_less k in
      let same_created : created' ≡ created = cc in
      let same_now : now' ≡ now = cc in
      let cs = sort_by change_before (changes_in (outcomes q)) in
      let stays =
        classify_all-shorter s created start now (is_truncated (some start) q.log.earliest)
          (is_truncated (some start) less.earliest)
          (is_truncated_mono start q.log.earliest less.earliest s.starts) cs in
      rw (is_rep, is_rep', same_created, same_now, window) stays
