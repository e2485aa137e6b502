-- ===== src/Tests/Reports.antt =====
-- Findings, exit codes and the narrowed listing on two small runs.
use aurvet.Prelude.{Bytes, [], codes, if◌then◌else◌, ltb_ℤ, not, refl, true, ◌&&◌, ◌∷◌, ◌≡◌}
use aurvet.Finding.{
  Finding, Result, Severity, complete, max_severity, sev_critical, sev_info, sev_suspicious,
}
use aurvet.Finding.Fingerprint.Injective.{encode_fields_injective}
use aurvet.Report.{exit_clean, exit_code, exit_findings, exit_incomplete}
use aurvet.Report.Exit.{exit_code-eq-max_severity}
use aurvet.Report.Since.{has_id, since_last_view}
use aurvet.Report.Since.Shown.{since_last_view_hides_nothing_new}

abbrev toy_finding : Severity → Bytes → Finding
toy_finding severity subject = record {
  rule_id = codes "rule";
  subject_kind = codes "unit";
  subject = subject;
  severity = severity;
  summary = [];
  evidence = [];
  limits = [];
}

abbrev toy_run : Result
toy_run = record {
  findings =
      toy_finding sev_info (codes "a")
      ∷ toy_finding sev_critical (codes "b")
      ∷ toy_finding sev_suspicious (codes "c")
      ∷ [];
  gaps = [];
}

abbrev earlier_run : Result
earlier_run = record { findings = toy_finding sev_info (codes "a") ∷ []; gaps = [] }

exit_code-eq-max_severity_example : exit_code toy_run sev_suspicious ≡ (
    if not (complete toy_run)
    then exit_incomplete
    else if ltb_ℤ (max_severity toy_run) sev_suspicious
    then exit_clean
    else exit_findings)
exit_code-eq-max_severity_example = exit_code-eq-max_severity toy_run sev_suspicious refl

encode_fields_injective_example : (codes "a" ∷ [] ∷ []) ≡ (codes "a" ∷ [] ∷ [])
encode_fields_injective_example =
    encode_fields_injective (codes "a" ∷ [] ∷ []) (codes "a" ∷ [] ∷ []) refl refl

abbrev toy_digest : Bytes → Bytes
toy_digest text = text

since_last_view_hides_nothing_new_example :
    ((since_last_view toy_digest earlier_run true toy_run).verdict ≡ toy_run)
    × ((since_last_view toy_digest earlier_run true toy_run).display.gaps ≡ toy_run.gaps)
    × (has_id toy_digest
          (codes "x")
          (since_last_view toy_digest earlier_run true toy_run).display.findings
        ≡ (has_id toy_digest (codes "x") toy_run.findings
            && not (true && has_id toy_digest (codes "x") earlier_run.findings)))
since_last_view_hides_nothing_new_example =
    since_last_view_hides_nothing_new toy_digest earlier_run toy_run true (codes "x")
