-- ===== src/Adjudicate/Apply/Partition.antt =====
-- `ApplyWith` of internal/adjudicate/apply.go: findings and gaps in and out.
use aurvet.Prelude.{
  Bool, Bytes, List, Option-cases, [], append-nil, append_assoc, arith, false, if◌then◌else◌, inl,
  inr, refl, suc, sym, true, ℕ, ℤ, ◌++◌, ◌+◌, ◌∙◌, ◌∷◌, ◌≡◌,
}
use aurvet.Finding.{Finding, Gap, Result}
use aurvet.Adjudicate.{Host, Record, Registry}
use aurvet.Adjudicate.Apply.{
  Gathered, Set, Suppression, apply_with, evaluate, gather, gathered, is_invalid, owner_at,
  record_gap, split,
}

-- How many findings pass a test.
abbrev pub count : (Finding → Bool) → List Finding → ℕ
count p [] = 0
count p (f ∷ fs) = (if p f then 1 else 0) + count p fs

abbrev pub findings_of : List Suppression → List Finding
findings_of [] = []
findings_of (s ∷ ss) = s.finding ∷ findings_of ss

with_gap :
    (b : Bool) (x : Gap) (gs more : List Gap)
    → (all : List Gap) × ((if b then gs ++ x ∷ [] else gs) ++ more ≡ gs ++ all)
with_gap true x gs more = (x ∷ more, append_assoc gs (x ∷ []) more)
with_gap false x gs more = (more, refl)

module _ (H : Host) (gap_reason : Record → Bytes) (fault_suffix : Bytes) where
  split-count :
      (p : Finding → Bool) (owners : List (ℕ × Record)) (i : ℕ) (fs : List Finding)
      → count p (split H gap_reason fault_suffix owners i fs).0
          + count p (findings_of (split H gap_reason fault_suffix owners i fs).1)
        ≡ count p fs
  unfolding split
  split-count p owners i [] = omega arith
  split-count p owners i (f ∷ fs) =
      let rest = split-count p owners (suc i) fs in
      elim (Option-cases (owner_at i owners)) [
        | inl free ↦ rw (free, split) (omega (arith, rest))
        | inr (r, taken) ↦ rw (taken, split) (omega (arith, rest))
      ]

  -- Only gaps are added.
  gather-gaps :
      (reg : Registry) (source : Bytes) (fs : List Finding) (now : ℤ) (i : ℕ) (rs : List Record)
      (g : Gathered)
      → (more : List Gap) × ((gather H gap_reason fault_suffix reg source fs now i rs g).gaps
          ≡ g.gaps ++ more)
  unfolding gather
  gather-gaps reg source fs now i [] g = ([], sym (append-nil g.gaps))
  gather-gaps reg source fs now i (r ∷ rs) g =
      let (more, e) = gather-gaps reg source fs now (suc i) rs _ in
      let (all, e') =
        with_gap (is_invalid (evaluate H reg r fs now).status.state)
          (record_gap H gap_reason fault_suffix source i r) g.gaps more in
      (all, e ∙ e')

  -- Every finding of a run is either kept or suppressed by `ApplyWith`, each as often as it occurs, and
  -- all gaps of the run stay, in front of those of unusable records.
  pub apply_with_partition :
      (reg : Registry) (set : Set) (res : Result) (now : ℤ)
      → ((p : Finding → Bool)
          → count p (apply_with H gap_reason fault_suffix reg set res now).kept.findings
              + count p
                  (findings_of (apply_with H gap_reason fault_suffix reg set res now).suppressed)
            ≡ count p res.findings)
        × ((more : List Gap) × ((apply_with H gap_reason fault_suffix reg set res now).kept.gaps
              ≡ res.gaps ++ more))
  unfolding apply_with gathered
  apply_with_partition reg set res now =
      let (more, e) = gather-gaps reg _ res.findings now 0 set.records _ in
      (λ p. split-count p _ 0 res.findings, (_, e ∙ append_assoc res.gaps _ more))
