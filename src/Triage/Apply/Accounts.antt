-- ===== src/Triage/Apply/Accounts.antt =====
-- `ApplyWith` of internal/triage/apply.go: nothing is lost.
use aurvet.Prelude.{
  All, All-append, All-map, Bool, Bool-cases, Bytes, List, Option-cases, [], ap, append-nil,
  append_assoc, arith, get_elem?, inl, inr, refl, some, suc, sym, ℕ, ℤ, ◌++◌, ◌+◌, ◌==◌, ◌∙◌, ◌∷◌,
  ◌≡◌,
}
use aurvet.Finding.{Finding, Gap, Result}
use aurvet.Adjudicate.{Host, Registry}
use aurvet.Adjudicate.Apply.{owner_at}
use aurvet.Adjudicate.Apply.Partition.{count}
use aurvet.Triage.{Record}
use aurvet.Triage.Apply.{
  Annotation, Evaluated, Gathered, Set, State, Suppression, active, annotated, annotations,
  apply_triage, dead, expired, gather_one, invalid, spent, stale, triage_evaluate, triage_gather,
  triage_gathered, triage_split,
}

abbrev pub hidden_findings : List Suppression → List Finding
hidden_findings [] = []
hidden_findings (s ∷ ss) = s.finding ∷ hidden_findings ss

-- The finding of an annotation is among those that are kept.
abbrev pub IsKept : List Finding → Annotation → Type 0
IsKept fs a = (k : ℕ) × (get_elem? fs k ≡ some a.finding)

annotations-IsKept :
    (i : ℕ) (f : Finding) (notes : List (ℕ × Record)) (fs : List Finding)
    → All (IsKept (f ∷ fs)) (annotations i f notes)
unfolding annotations
annotations-IsKept i f [] fs = tt
annotations-IsKept i f ((j, r) ∷ m) fs =
    let rest = annotations-IsKept i f m fs in
    elim (Bool-cases (j == i)) [
      | inl same ↦ rw (same, annotations) ((0, refl), rest)
      | inr other ↦ rw (other, annotations) rest
    ]

-- The gaps only grow.
abbrev Extends : List Gap → List Gap → Type 0
Extends before after = (more : List Gap) × (after ≡ before ++ more)

Extends-trans : (a : List Gap) {b c : List Gap} → Extends a b → Extends b c → Extends a c
Extends-trans a (m, p) (n, q) = (m ++ n, q ∙ ap (λ x. x ++ n) p ∙ append_assoc a m n)

module _ (H : Host) (gap_reason : Record → Bytes) (fault_suffix : Bytes) where
  gather_one-Extends :
      (source : Bytes) (i : ℕ) (ev : Evaluated) (r : Record) (st : State) (g : Gathered)
      → Extends g.gaps (gather_one H gap_reason fault_suffix source i ev r st g).gaps
  unfolding gather_one
  gather_one-Extends source i ev r invalid g = (_, refl)
  gather_one-Extends source i ev r active g = ([], sym (append-nil g.gaps))
  gather_one-Extends source i ev r annotated g = ([], sym (append-nil g.gaps))
  gather_one-Extends source i ev r stale g = ([], sym (append-nil g.gaps))
  gather_one-Extends source i ev r expired g = ([], sym (append-nil g.gaps))
  gather_one-Extends source i ev r spent g = ([], sym (append-nil g.gaps))
  gather_one-Extends source i ev r dead g = ([], sym (append-nil g.gaps))

  triage_gather-Extends :
      (reg : Registry) (source : Bytes) (fs : List Finding) (now : ℤ) (i : ℕ) (rs : List Record)
      (g : Gathered)
      → Extends g.gaps (triage_gather H gap_reason fault_suffix reg source fs now i rs g).gaps
  unfolding triage_gather
  triage_gather-Extends reg source fs now i [] g = ([], sym (append-nil g.gaps))
  triage_gather-Extends reg source fs now i (r ∷ rs) g =
      let ev = triage_evaluate H reg r fs now in
      Extends-trans g.gaps (gather_one-Extends source i ev r ev.status.state g)
        (triage_gather-Extends reg source fs now (suc i) rs _)

  triage_split-count :
      (p : Finding → Bool) (g : Gathered) (i : ℕ) (fs : List Finding)
      → count p (triage_split H gap_reason fault_suffix g i fs).0
          + count p (hidden_findings (triage_split H gap_reason fault_suffix g i fs).1.0)
        ≡ count p fs
  unfolding triage_split
  triage_split-count p g i [] = omega arith
  triage_split-count p g i (f ∷ fs) =
      let rest = triage_split-count p g (suc i) fs in
      elim (Option-cases (owner_at i g.owners)) [
        | inl free ↦ rw (free, triage_split) (omega (arith, rest))
        | inr (r, taken) ↦ rw (taken, triage_split) (omega (arith, rest))
      ]

  triage_split-IsKept :
      (g : Gathered) (i : ℕ) (fs : List Finding)
      → All
          (IsKept (triage_split H gap_reason fault_suffix g i fs).0)
          (triage_split H gap_reason fault_suffix g i fs).1.1
  unfolding triage_split
  triage_split-IsKept g i [] = tt
  triage_split-IsKept g i (f ∷ fs) =
      let s = triage_split H gap_reason fault_suffix g (suc i) fs in
      let rest = triage_split-IsKept g (suc i) fs in
      elim (Option-cases (owner_at i g.owners)) [
        | inl free ↦
            rw (free, triage_split)
              (All-append (IsKept (f ∷ s.0)) (annotations i f g.notes) (s.1.1)
                (annotations-IsKept i f g.notes (s.0))
                (All-map (IsKept (s.0)) (IsKept (f ∷ s.0)) (s.1.1) (λ a k. (suc (k.0), k.1)) rest))
        | inr (r, taken) ↦ rw (taken, triage_split) rest
      ]

triage_gathered-Extends :
    (H : Host) (gap_reason : Record → Bytes) (fault_suffix : Bytes) (reg : Registry) (set : Set)
    (res : Result) (now : ℤ)
    → Extends res.gaps (triage_gathered H gap_reason fault_suffix reg set res now).gaps
unfolding triage_gathered
triage_gathered-Extends H gap_reason fault_suffix reg set res now =
    Extends-trans res.gaps (_, refl)
      (triage_gather-Extends H gap_reason fault_suffix reg _ res.findings now 0 set.records _)

-- Every finding of a run is either kept or hidden by `ApplyWith`, each as often as it occurs, whatever a note is
-- attached to is kept, and all gaps of the run stay, in front of those that the store adds.
pub apply_triage_accounts :
    (H : Host) (gap_reason : Record → Bytes) (fault_suffix : Bytes) (reg : Registry) (set : Set)
    (res : Result) (now : ℤ)
    → ((p : Finding → Bool)
        → count p (apply_triage H gap_reason fault_suffix reg set res now).kept.findings
            + count p (
                hidden_findings (apply_triage H gap_reason fault_suffix reg set res now).suppressed)
          ≡ count p res.findings)
      × All
          (IsKept (apply_triage H gap_reason fault_suffix reg set res now).kept.findings)
          (apply_triage H gap_reason fault_suffix reg set res now).annotated_by
      × ((more : List Gap) × ((apply_triage H gap_reason fault_suffix reg set res now).kept.gaps
            ≡ res.gaps ++ more))
unfolding apply_triage
apply_triage_accounts H gap_reason fault_suffix reg set res now =
    let g = triage_gathered H gap_reason fault_suffix reg set res now in
    (
      λ p. triage_split-count H gap_reason fault_suffix p g 0 res.findings,
      triage_split-IsKept H gap_reason fault_suffix g 0 res.findings,
      triage_gathered-Extends H gap_reason fault_suffix reg set res now,
    )
