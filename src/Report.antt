-- ===== src/Report.antt =====
-- internal/report: exit.go and since.go, and `Diff` of store.go.
pub mod Exit
pub mod Since
use aurvet.Finding.{Severity, sev_info, sev_suspicious, sev_critical, Finding, Result, complete}
use aurvet.Prelude.{
  Bytes, List, Option, [], bytes_eq, codes, if◌then◌else◌, ltb_ℤ, none, not, refl, some, ℕ, ◌∷◌,
  ◌≡◌,
}
use aurvet.Prelude.Text.{trim_space, to_lower}

abbrev pub exit_clean : ℕ
exit_clean = 0

abbrev pub exit_findings : ℕ
exit_findings = 1

abbrev pub exit_incomplete : ℕ
exit_incomplete = 3

-- The loop of `ExitCode`.
exit_of_findings : List Finding → Severity → ℕ
exit_of_findings [] min = exit_clean
exit_of_findings (f ∷ fs) min =
    if ltb_ℤ f.severity min then exit_of_findings fs min else exit_findings

unfoldable pub exit_code : Result → Severity → ℕ
unfolding exit_of_findings
exit_code r min = if not (complete r) then exit_incomplete else exit_of_findings r.findings min

unfoldable pub parse_severity : Bytes → Option Severity
unfolding bytes_eq to_lower trim_space
parse_severity s =
    let name = to_lower (trim_space s) in
    if bytes_eq name (codes "info")
    then some sev_info
    else if bytes_eq name (codes "suspicious")
    then some sev_suspicious
    else if bytes_eq name (codes "critical")
    then some sev_critical
    else none

parse_severity_test : parse_severity (codes " Critical\n") ≡ some sev_critical
unfolding parse_severity
parse_severity_test = refl
