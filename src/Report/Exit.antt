-- ===== src/Report/Exit.antt =====
-- `ExitCode` of internal/report/exit.go and `MaxSeverity`.
use aurvet.Prelude.{
  All, Bool-cases, List, [], arith, if◌then◌else◌, inl, inr, ltb_ℤ, not, pos, refl, true, ◌-ℤ◌, ◌∷◌,
  ◌≡◌, ◌≤ℤ◌, ◌⊎◌,
}
use aurvet.Finding.Severities.{max_severity_upper, max_severity_least}
use aurvet.Finding.{Severity, sev_info, Finding, Result, complete, max_severity}
use aurvet.Report.{exit_code, exit_of_findings, exit_clean, exit_findings, exit_incomplete}

exit_of_findings_quiet :
    (fs : List Finding) (b min : Severity)
    → All (λ f. f.severity ≤ℤ b) fs
    → ltb_ℤ b min ≡ true
    → exit_of_findings fs min ≡ exit_clean
unfolding exit_of_findings
exit_of_findings_quiet [] b min h lt = refl
exit_of_findings_quiet (f ∷ fs) b min h lt = ground (arith, exit_of_findings_quiet fs b min h.1 lt)

exit_of_findings_bound :
    (fs : List Finding) (min : Severity)
    → exit_of_findings fs min ≡ exit_clean
    → All (λ f. ltb_ℤ f.severity min ≡ true) fs
unfolding exit_of_findings
exit_of_findings_bound [] min h = tt
exit_of_findings_bound (f ∷ fs) min h = elim (Bool-cases (ltb_ℤ f.severity min)) [
  | inl below ↦ (below, exit_of_findings_bound fs min (rw below at h))
  | inr above ↦ absurd (omega (arith, rw above at h))
]

exit_of_findings_cases :
    (fs : List Finding) (min : Severity)
    → (exit_of_findings fs min ≡ exit_clean) ⊎ (exit_of_findings fs min ≡ exit_findings)
unfolding exit_of_findings
exit_of_findings_cases [] min = inl refl
exit_of_findings_cases (f ∷ fs) min = ground (arith, exit_of_findings_cases fs min)

-- With a floor above `info`, the exit code is a function of completeness and of the largest severity: 3
-- with any gap, whatever was found, and else 1 exactly when the largest severity reaches the floor.
pub exit_code-eq-max_severity :
    (r : Result) (min : Severity)
    → ltb_ℤ sev_info min ≡ true
    → exit_code r min ≡ (
        if not (complete r)
        then exit_incomplete
        else if ltb_ℤ (max_severity r) min
        then exit_clean
        else exit_findings)
unfolding exit_code
exit_code-eq-max_severity r min floor = elim (Bool-cases (complete r)) [
  | inr gaps ↦ rw gaps
  | inl done ↦ rw done (elim (Bool-cases (ltb_ℤ (max_severity r) min)) [
    | inl below ↦
        rw below
          (exit_of_findings_quiet r.findings (max_severity r) min (max_severity_upper r) below)
    | inr above ↦ rw above (elim (exit_of_findings_cases r.findings min) [
      | inr found ↦ found
      | inl clean ↦ absurd (
          let bound =
            max_severity_least r (min -ℤ pos 1) (ground arith)
              (below_pred r.findings min (exit_of_findings_bound r.findings min clean)) in
          ground arith)
    ])
  ])
]
  where
    pred_of_lt : (a b : Severity) → ltb_ℤ a b ≡ true → a ≤ℤ b -ℤ pos 1
    pred_of_lt a b h = ground arith

    below_pred :
        (fs : List Finding) (m : Severity)
        → All (λ f. ltb_ℤ f.severity m ≡ true) fs
        → All (λ f. f.severity ≤ℤ m -ℤ pos 1) fs
    below_pred [] m h = tt
    below_pred (f ∷ fs) m h = (pred_of_lt f.severity m h.0, below_pred fs m h.1)
