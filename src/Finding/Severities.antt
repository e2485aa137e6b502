-- ===== src/Finding/Severities.antt =====
-- `MaxSeverity` of internal/finding/finding.go.
use aurvet.Prelude.{All, All-map, List, [], arith, if◌then◌else◌, ltb_ℤ, ◌↔◌, ◌∷◌, ◌≤ℤ◌}
use aurvet.Finding.{Finding, Result, Severity, max_from, max_severity, sev_info}

step_bounds :
    (m s : Severity) → (m ≤ℤ (if ltb_ℤ m s then s else m)) × (s ≤ℤ (if ltb_ℤ m s then s else m))
step_bounds m s = ground arith

max_from_ge : (m : Severity) (fs : List Finding) → m ≤ℤ max_from m fs
unfolding max_from
max_from_ge m [] = omega arith
max_from_ge m (f ∷ fs) =
    let next = if ltb_ℤ m f.severity then f.severity else m in
    omega (arith, step_bounds m f.severity, max_from_ge next fs)

max_from_bound : (m : Severity) (fs : List Finding) → All (λ f. f.severity ≤ℤ max_from m fs) fs
unfolding max_from
max_from_bound m [] = tt
max_from_bound m (f ∷ fs) =
    let next = if ltb_ℤ m f.severity then f.severity else m in
    (omega (arith, step_bounds m f.severity, max_from_ge next fs), max_from_bound next fs)

max_from_least :
    (m b : Severity) (fs : List Finding)
    → m ≤ℤ b
    → All (λ f. f.severity ≤ℤ b) fs
    → max_from m fs ≤ℤ b
unfolding max_from
max_from_least m b [] h hs = h
max_from_least m b (f ∷ fs) h hs =
    max_from_least (if ltb_ℤ m f.severity then f.severity else m) b fs (ground arith) hs.1

pub max_severity_upper : (r : Result) → All (λ f. f.severity ≤ℤ max_severity r) r.findings
unfolding max_severity
max_severity_upper r = max_from_bound sev_info r.findings

pub info-le-max_severity : (r : Result) → sev_info ≤ℤ max_severity r
unfolding max_severity
info-le-max_severity r = max_from_ge sev_info r.findings

pub max_severity_least :
    (r : Result) (b : Severity)
    → sev_info ≤ℤ b
    → All (λ f. f.severity ≤ℤ b) r.findings
    → max_severity r ≤ℤ b
unfolding max_severity
max_severity_least r b = max_from_least sev_info b r.findings

-- A severity bounds `MaxSeverity` exactly when it is `SevInfo` at least and bounds the severity of every
-- finding.
pub max_severity_iff :
    (r : Result) (b : Severity)
    → (max_severity r ≤ℤ b) ↔ ((sev_info ≤ℤ b) × All (λ f. f.severity ≤ℤ b) r.findings)
max_severity_iff r b = (
  λ h. (
    omega (arith, info-le-max_severity r),
    All-map (λ f. f.severity ≤ℤ max_severity r) (λ f. f.severity ≤ℤ b) r.findings
        (λ f g. omega (arith, g)) (max_severity_upper r),
  ),
  λ (low, bounds). max_severity_least r b low bounds,
)
