-- ===== src/Baseline/Drift/Classify/Buckets.antt =====
-- Every change falls into one bucket of `classify` of internal/baseline/drift.go, for a reason that
-- holds.
use aurvet.Prelude.{
  All, Bool, Bytes, List, Option, Option-cases, [], arith, false, inl, inr, none, refl, some, true,
  ℤ, ◌≡◌, ◌≢◌, ◌⊎◌, pos_part, neg_part, ◌+◌, ◌<◌,
}
use aurvet.Prelude.Sorting.{Has}
use aurvet.Finding.{Severity, sev_critical, sev_info}
use aurvet.Baseline.Drift.{
  Bucket, Change, DriftAdjudication, DriftInput, LogTransaction, adjudicated, corroborated,
  log_coverage_gap, observed_as, unexplained,
}
use aurvet.Baseline.Drift.Classify.{
  DriftItem, Why, adjudication_for, classify, corroborate, coverage_shortfall, install_date_of,
  installed_early, no_window, usable_from,
}
use aurvet.Baseline.Drift.Classify.Justified.{
  Explains, IsUsable, adjudication_for-none, adjudication_for-some, corroborate_from-none,
  corroborate_from-some, explains_iff, usable_from-All, usable_from-Has,
}

infix 50 ◌<ℤ◌
abbrev pub ◌<ℤ◌ : ℤ → ℤ → Type 0
a <ℤ b = pos_part a + neg_part b < pos_part b + neg_part a

-- The log cannot have covered a change: the baseline recorded no window, or the package was installed
-- before the window that it recorded.
abbrev pub IsBeyondLog : Change → DriftInput → Option ℤ → Type 0
IsBeyondLog c q recorded =
    (recorded ≡ none)
    ⊎ ((start installed : ℤ) × (recorded ≡ some start)
        × (install_date_of (observed_as c.pkg q.observed) ≡ some installed)
        × (installed <ℤ start))

installed_early-lt :
    (t start : ℤ) (e : Option ℤ) {w : Why} → installed_early t (some start) e ≡ some w → t <ℤ start
unfolding installed_early
installed_early-lt t start e h = ground arith

coverage_shortfall-IsBeyondLog :
    (c : Change) (q : DriftInput) (created : ℤ) (recorded : Option ℤ) (truncated : Bool) {w : Why}
    → coverage_shortfall c q created recorded truncated ≡ some w
    → (truncated ≡ false) × IsBeyondLog c q recorded
unfolding coverage_shortfall no_window
coverage_shortfall-IsBeyondLog c q created recorded true h = absurd cc
coverage_shortfall-IsBeyondLog c q created none false h = (refl, inl refl)
coverage_shortfall-IsBeyondLog c q created (some start) false h =
    elim (Option-cases (install_date_of (observed_as c.pkg q.observed))) [
      | inl e ↦ absurd (let k = rw (e, coverage_shortfall) at h in cc)
      | inr (t, e) ↦
          let k = rw (e, coverage_shortfall) at h in
          elim (Option-cases (installed_early t (some start) q.log.earliest)) [
            | inl f ↦ absurd (let l = rw f at k in cc)
            | inr (u, f) ↦
                (refl, inr (start, t, refl, e, installed_early-lt t start q.log.earliest f))
          ]
    ]

-- Nothing in the log explains the change.
abbrev pub IsSilent : Change → DriftInput → ℤ → Type 0
IsSilent c q created = All (λ tx. ¬ (Explains c created tx)) q.log.transactions

module _ (time_parse : Bytes → Bytes → Option ℤ) where
  -- No record that can be used is about the package of the change.
  abbrev pub IsUnjudged : Change → DriftInput → ℤ → Type 0
  IsUnjudged c q now = All (λ r. IsUsable time_parse now r → r.subject ≢ c.pkg) q.adjudications

  -- What stands behind each bucket.
  abbrev pub Holds :
      Bucket
      → Severity
      → Change
      → DriftInput
      → (created : ℤ) → (recorded : Option ℤ) → Bool
      → ℤ
      → Type 0
  Holds corroborated s c q created recorded truncated now =
      (s ≡ sev_info) × ((tx : LogTransaction) × Has tx q.log.transactions × Explains c created tx)
  Holds adjudicated s c q created recorded truncated now =
      (s ≡ sev_info)
      × IsSilent c q created
      × ((r : DriftAdjudication) × Has r q.adjudications
          × IsUsable time_parse now r
          × (r.subject ≡ c.pkg))
  Holds log_coverage_gap s c q created recorded truncated now =
      (s ≡ sev_info)
      × IsSilent c q created
      × IsUnjudged c q now
      × (truncated ≡ false)
      × IsBeyondLog c q recorded
  Holds unexplained s c q created recorded truncated now =
      (s ≡ sev_critical) × IsSilent c q created × IsUnjudged c q now

  abbrev pub IsJustified : DriftInput → (created : ℤ) → Option ℤ → Bool → ℤ → DriftItem → Type 0
  IsJustified q created recorded truncated now it =
      Holds it.bucket it.severity it.change q created recorded truncated now

  module _ (c : Change) (q : DriftInput) (created : ℤ) (recorded : Option ℤ) (truncated : Bool)
      (now : ℤ) where
    abbrev usable : List DriftAdjudication
    usable = usable_from time_parse [] q.adjudications now

    judged :
        {r : DriftAdjudication}
        → adjudication_for c.pkg usable ≡ some r
        → (s : DriftAdjudication) × Has s q.adjudications
          × IsUsable time_parse now s
          × (s.subject ≡ c.pkg)
    judged {r} e =
        let (at, sub) = adjudication_for-some c.pkg usable e in
        elim (usable_from-Has time_parse [] q.adjudications now {r = r} at) [
          | inl (k, nowhere) ↦ absurd (cc)
          | inr (place, good) ↦ (r, place, good, sub)
        ]

    unjudged : adjudication_for c.pkg usable ≡ none → IsUnjudged c q now
    unjudged e =
        (usable_from-All time_parse (λ r. r.subject ≢ c.pkg) [] q.adjudications now
          (adjudication_for-none c.pkg usable e)).1

    pub classify-IsJustified :
        IsJustified q created recorded truncated now
          (classify c q created recorded truncated usable)
        × ((classify c q created recorded truncated usable).change ≡ c)
    unfolding classify corroborate
    classify-IsJustified = elim (Option-cases (corroborate c q.log.transactions created)) [
      | inr (tx, e) ↦ elim (corroborate_from-some none c q.log.transactions created e) [
        | inl bad ↦ absurd (cc)
        | inr (at, good) ↦
            rw (e, classify) ((refl, (tx, at, (explains_iff c created tx).0 good)), refl)
      ]
      | inl e ↦
          let (_, silent) = corroborate_from-none none c q.log.transactions created e in
          elim (Option-cases (adjudication_for c.pkg usable)) [
            | inr (r, f) ↦ rw (e, f, classify) ((refl, silent, judged f), refl)
            | inl f ↦ elim (Option-cases (coverage_shortfall c q created recorded truncated)) [
              | inr (w, g) ↦
                  let (whole, beyond) =
                    coverage_shortfall-IsBeyondLog c q created recorded truncated g in
                  rw (e, f, g, classify) ((refl, silent, unjudged f, whole, beyond), refl)
              | inl g ↦ rw (e, f, g, classify) ((refl, silent, unjudged f), refl)
            ]
          ]
    ]
