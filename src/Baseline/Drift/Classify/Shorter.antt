-- ===== src/Baseline/Drift/Classify/Shorter.antt =====
-- A change that `classify` of internal/baseline/drift.go calls unexplained, and a log that lacks lines.
use aurvet.Prelude.{
  Bool, List, Option, Option-cases, false, inl, inr, none, refl, some, true, ℤ, ◌≡◌, ◌≤ℤ◌,
  All-get_elem?,
}
use aurvet.Prelude.Sorting.{Has}
use aurvet.Baseline.Drift.{
  Change, DriftAdjudication, DriftInput, LogObservation, LogTransaction, unexplained,
}
use aurvet.Baseline.Drift.Classify.{
  adjudication_for, classify, corroborate, coverage_shortfall, installed_early, no_window,
}
use aurvet.Baseline.Drift.Classify.Justified.{
  Explains, corroborate_from-none, corroborate_from-some, explains_iff,
}

-- The first line of the second log is no earlier than that of the first; a log may have none.
abbrev pub NotEarlier : Option ℤ → Option ℤ → Type 0
NotEarlier e none = Unit
NotEarlier none (some b) = ⊥
NotEarlier (some a) (some b) = a ≤ℤ b

-- What is left of a log.
pub record IsShorter (log less : LogObservation) : Type 0 where
  pub starts : NotEarlier log.earliest less.earliest
  pub kept : (tx : LogTransaction) → Has tx less.transactions → Has tx log.transactions

pub classify-unexplained :
    (c : Change) (q : DriftInput) (created : ℤ) (recorded : Option ℤ) (truncated : Bool)
    (adj : List DriftAdjudication)
    → (classify c q created recorded truncated adj).bucket ≡ unexplained
    → (corroborate c q.log.transactions created ≡ none)
      × (adjudication_for c.pkg adj ≡ none)
      × (coverage_shortfall c q created recorded truncated ≡ none)
unfolding classify
classify-unexplained c q created recorded truncated adj h =
    elim (Option-cases (corroborate c q.log.transactions created)) [
      | inr (tx, e) ↦ absurd (let k = rw (e, classify) at h in cc)
      | inl e ↦ elim (Option-cases (adjudication_for c.pkg adj)) [
        | inr (r, f) ↦ absurd (let k = rw (e, f, classify) at h in cc)
        | inl f ↦ elim (Option-cases (coverage_shortfall c q created recorded truncated)) [
          | inr (w, g) ↦ absurd (let k = rw (e, f, g, classify) at h in cc)
          | inl g ↦ (e, f, g)
        ]
      ]
    ]

pub coverage_shortfall_mono :
    (c : Change) (q : DriftInput) (less : LogObservation) (created start : ℤ) (t u : Bool)
    → (t ≡ true → u ≡ true)
    → coverage_shortfall c q created (some start) t ≡ none
    → coverage_shortfall c (record q { log = less }) created (some start) u ≡ none
unfolding coverage_shortfall no_window installed_early
coverage_shortfall_mono c q less created start t true more h = refl
coverage_shortfall_mono c q less created start true false more h = absurd (let k = more refl in cc)
coverage_shortfall_mono c q less created start false false more h = h

pub corroborate-shorter :
    (q : DriftInput) (less : LogObservation)
    → IsShorter q.log less
    → (c : Change) (created : ℤ) → corroborate c q.log.transactions created ≡ none
    → corroborate c less.transactions created ≡ none
unfolding corroborate
corroborate-shorter q less s c created h =
    let (_, silent) = corroborate_from-none none c q.log.transactions created h in
    elim (Option-cases (corroborate c less.transactions created)) [
      | inl e ↦ e
      | inr (tx, e) ↦ elim (corroborate_from-some none c less.transactions created e) [
        | inl bad ↦ absurd (cc)
        | inr (at, good) ↦
            let (k, place) = s.kept tx at in
            absurd (
              All-get_elem? (λ t. ¬ (Explains c created t)) q.log.transactions k silent place
                ((explains_iff c created tx).0 good))
      ]
    ]
