-- ===== src/Finding.antt =====
-- internal/finding/finding.go: severities, findings, coverage gaps and the result of a run.
pub mod Fingerprint
pub mod Severities
use aurvet.Prelude.{
  Bool, Bytes, List, [], codes, eq_ℤ, false, if◌then◌else◌, ltb_ℤ, pos, true, ℤ, ◌∷◌,
}

-- `type Severity int`: any integer, with three named values.
abbrev pub Severity : Type 0
Severity = ℤ

abbrev pub sev_info : Severity
sev_info = pos 0

abbrev pub sev_suspicious : Severity
sev_suspicious = pos 1

abbrev pub sev_critical : Severity
sev_critical = pos 2

-- `Severity.String`.
unfoldable pub severity_name : Severity → Bytes
severity_name s =
    if eq_ℤ s sev_info
    then codes "info"
    else if eq_ℤ s sev_suspicious
    then codes "suspicious"
    else if eq_ℤ s sev_critical
    then codes "critical"
    else codes "unknown"

pub record Finding : Type 0 where
  pub rule_id : Bytes
  pub subject_kind : Bytes
  pub subject : Bytes
  pub severity : Severity
  pub summary : Bytes
  pub evidence : List Bytes
  pub limits : Bytes

pub record Gap : Type 0 where
  pub rule_id : Bytes
  pub subject : Bytes
  pub reason : Bytes

pub record Result : Type 0 where
  pub findings : List Finding
  pub gaps : List Gap

no_gaps : List Gap → Bool
no_gaps [] = true
no_gaps (g ∷ gs) = false

-- `Complete`: `len(r.Gaps) == 0`.
unfoldable pub complete : Result → Bool
unfolding no_gaps
complete r = no_gaps r.gaps

-- The loop of `MaxSeverity`, from the largest severity so far.
max_from : Severity → List Finding → Severity
max_from max [] = max
max_from max (f ∷ fs) = max_from (if ltb_ℤ max f.severity then f.severity else max) fs

unfoldable pub max_severity : Result → Severity
unfolding max_from
max_severity r = max_from sev_info r.findings
