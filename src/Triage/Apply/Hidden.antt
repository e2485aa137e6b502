-- ===== src/Triage/Apply/Hidden.antt =====
-- `ApplyWith` of internal/triage/apply.go: what is hidden, and by what.
use mathlib.Core.Path.{subst}
use aurvet.Prelude.{
  All, All-map, Bool, Bool-cases, Bytes, Fallible-cases, List, Option-cases, [], arith, bytes_eq,
  false, get_elem?, inl, inr, ltb_ℤ, not, ok, refl, refuse_if-eq-ok, some, suc, sym, true, ℕ, ℤ,
  ◌+◌, ◌∙◌, ◌∷◌, ◌≡◌,
}
use aurvet.Finding.{Finding, Result}
use aurvet.Adjudicate.{Host, Registry}
use aurvet.Adjudicate.Apply.{owner_at}
use aurvet.Adjudicate.Apply.Justified.{claim-All, owner_at-All}
use aurvet.Triage.{
  Record, Verb, err_triage, triage_current, triage_matches, triage_stamp, valid_verb,
  validate_triage, verb_note, verb_suppresses,
}
use aurvet.Triage.Apply.{
  Gathered, Set, State, Suppression, active, annotated, apply_triage, dead, expired, gather_one,
  invalid, spent, stale, triage_covered, triage_evaluate, triage_gather, triage_gathered,
  triage_judge, triage_split,
}

-- At time `now` the record may hide findings: it validates, it is an `ack` or a `snooze`, it is current, and it has
-- not expired.
pub record MayHide (H : Host) (reg : Registry) (now : ℤ) (r : Record) : Type 0 where
  pub valid : validate_triage H r ≡ ok tt
  pub verb_hides : verb_suppresses r.verb ≡ true
  pub bound : triage_current H reg r ≡ true
  pub exp : ℤ
  pub expires : triage_stamp H r.expires_at ≡ ok exp
  pub unexpired : ltb_ℤ now exp ≡ true

validate_triage-valid_verb :
    (H : Host) (r : Record) → validate_triage H r ≡ ok tt → valid_verb r.verb ≡ true
unfolding validate_triage
validate_triage-valid_verb H r h =
    let (a, _) = refuse_if-eq-ok (not (valid_verb r.verb)) err_triage _ h in ground arith

verb_suppresses_unless_note :
    (v : Verb) → valid_verb v ≡ true → bytes_eq v verb_note ≡ false → verb_suppresses v ≡ true
unfolding valid_verb verb_suppresses
verb_suppresses_unless_note v h k = ground arith

module _ (H : Host) (P : ℕ → Type 0) (r : Record) where
  triage_covered-indices :
      (i : ℕ) (fs : List Finding)
      → ((j : ℕ) (f : Finding)
          → get_elem? fs j ≡ some f
          → triage_matches H r f ≡ (true, true)
          → P (i + j))
      → All P (triage_covered H r i fs).indices
  unfolding triage_covered
  triage_covered-indices i [] hit = tt
  triage_covered-indices i (f ∷ fs) hit =
      let rest =
        triage_covered-indices (suc i) fs
          (λ j g at m. subst P (omega arith) (hit (suc j) g at m)) in
      by_match (triage_matches H r f) refl rest
    where
      by_match :
          (m : Bool × Bool)
          → triage_matches H r f ≡ m
          → All P (triage_covered H r (suc i) fs).indices
          → All P (triage_covered H r i (f ∷ fs)).indices
      by_match (false, e) is rest = rw is rest
      by_match (true, false) is rest = rw is rest
      by_match (true, true) is rest = rw is (subst P (omega arith) (hit 0 f refl is), rest)

module _ (H : Host) (reg : Registry) (now : ℤ) (r : Record) (fs : List Finding) where
  -- A record whose state is `active` may hide, and claims what it covers.
  triage_evaluate-MayHide :
      (triage_evaluate H reg r fs now).status.state ≡ active
      → MayHide H reg now r
        × ((triage_evaluate H reg r fs now).indices ≡ (triage_covered H r 0 fs).indices)
  unfolding triage_evaluate triage_judge
  triage_evaluate-MayHide h = elim (Fallible-cases (validate_triage H r)) [
    | inr (e, bad) ↦ absurd (let q = rw (bad, triage_evaluate) at h in cc)
    | inl (tt, good) ↦ elim (Bool-cases (triage_current H reg r)) [
      | inr old ↦ absurd (ground arith)
      | inl bound ↦ elim (Fallible-cases (triage_stamp H r.expires_at)) [
        | inr (e, bad) ↦ absurd (ground arith)
        | inl (exp, expires) ↦ elim (Bool-cases (ltb_ℤ now exp)) [
          | inr over ↦ absurd (ground arith)
          | inl unexpired ↦ elim (Bool-cases (bytes_eq r.verb verb_note)) [
            | inl note ↦ absurd (ground arith)
            | inr other ↦ (
              record {
                valid = good;
                verb_hides =
                    verb_suppresses_unless_note r.verb (validate_triage-valid_verb H r good) other;
                bound = bound;
                exp = exp;
                expires = expires;
                unexpired = unexpired;
              },
              ground arith,
            )
          ]
        ]
      ]
    ]
  ]

-- The claims: each index stands for a finding that its record covers, and the record may hide it.
abbrev IsClaim : (H : Host) → Registry → ℤ → List Record → List Finding → ℕ × Record → Type 0
IsClaim H reg now rs fs (i, r) =
    ((k : ℕ) × (get_elem? rs k ≡ some r))
    × MayHide H reg now r
    × ((f : Finding) → get_elem? fs i ≡ some f → triage_matches H r f ≡ (true, true))

triage_covered-IsClaim :
    (H : Host) (r : Record) (fs : List Finding)
    → All
        (λ i. (f : Finding) → get_elem? fs i ≡ some f → triage_matches H r f ≡ (true, true))
        (triage_covered H r 0 fs).indices
triage_covered-IsClaim H r fs =
    triage_covered-indices H
      (λ i. (f : Finding) → get_elem? fs i ≡ some f → triage_matches H r f ≡ (true, true)) r 0 fs
      (λ j f at m g at'.
        let same : f ≡ g =
          let here : 0 + j ≡ j = omega arith in let q = sym at ∙ (rw here at at') in cc in
        subst (λ x. triage_matches H r x ≡ (true, true)) same m)

-- A suppression: its record is one of the set, may hide findings, and covers this one.
pub record IsHidden (H : Host) (reg : Registry) (now : ℤ) (all : List Record) (s : Suppression)
    : Type 0 where
  pub among : (k : ℕ) × (get_elem? all k ≡ some s.by_record)
  pub may_hide : MayHide H reg now s.by_record
  pub covers : triage_matches H s.by_record s.finding ≡ (true, true)

module _ (H : Host) (gap_reason : Record → Bytes) (fault_suffix : Bytes) (reg : Registry) (now : ℤ)
    (all : List Record) (fs : List Finding) where
  gather_one-IsClaim :
      (source : Bytes) (i : ℕ) (r : Record) (g : Gathered) (st : State)
      → (triage_evaluate H reg r fs now).status.state ≡ st
      → ((k : ℕ) × (get_elem? all k ≡ some r))
      → All (IsClaim H reg now all fs) g.owners
      → All
          (IsClaim H reg now all fs)
          (gather_one H gap_reason fault_suffix source i
            (triage_evaluate H reg r fs now)
            r
            st
            g).owners
  unfolding gather_one
  gather_one-IsClaim source i r g invalid e among h = h
  gather_one-IsClaim source i r g annotated e among h = h
  gather_one-IsClaim source i r g stale e among h = h
  gather_one-IsClaim source i r g expired e among h = h
  gather_one-IsClaim source i r g spent e among h = h
  gather_one-IsClaim source i r g dead e among h = h
  gather_one-IsClaim source i r g active e among h =
      let (hides, same) = triage_evaluate-MayHide H reg now r fs e in
      rw same (
        claim-All (IsClaim H reg now all fs) r _ g.owners
          (All-map
            (λ i. (f : Finding) → get_elem? fs i ≡ some f → triage_matches H r f ≡ (true, true))
            (λ i. IsClaim H reg now all fs (i, r)) (triage_covered H r 0 fs).indices
            (λ i m. (among, hides, m)) (triage_covered-IsClaim H r fs))
          h)

  triage_gather-IsClaim :
      (source : Bytes) (i : ℕ) (rs : List Record) (g : Gathered)
      → ((k : ℕ) (r : Record) → get_elem? rs k ≡ some r → (n : ℕ) × (get_elem? all n ≡ some r))
      → All (IsClaim H reg now all fs) g.owners
      → All
          (IsClaim H reg now all fs)
          (triage_gather H gap_reason fault_suffix reg source fs now i rs g).owners
  unfolding triage_gather
  triage_gather-IsClaim source i [] g among h = h
  triage_gather-IsClaim source i (r ∷ rs) g among h =
      triage_gather-IsClaim source (suc i) rs _ (λ k x at. among (suc k) x at)
        (gather_one-IsClaim source i r g _ refl (among 0 r refl) h)

  triage_split-IsHidden :
      (g : Gathered) (i : ℕ) (gs : List Finding)
      → ((j : ℕ) (f : Finding) → get_elem? gs j ≡ some f → get_elem? fs (i + j) ≡ some f)
      → All (IsClaim H reg now all fs) g.owners
      → All (IsHidden H reg now all) (triage_split H gap_reason fault_suffix g i gs).1.0
  unfolding triage_split
  triage_split-IsHidden g i [] inside h = tt
  triage_split-IsHidden g i (f ∷ gs) inside h =
      let rest =
        triage_split-IsHidden g (suc i) gs
          (λ j x at. let e : i + suc j ≡ suc i + j = omega arith in rw e at (inside (suc j) x at))
          h in
      elim (Option-cases (owner_at i g.owners)) [
        | inl free ↦ rw (free, triage_split, All) rest
        | inr (r, taken) ↦
            let (among, hides, covers) =
              owner_at-All (IsClaim H reg now all fs) i g.owners h taken in
            let e : i + 0 ≡ i = omega arith in
            rw (taken, triage_split, All)
              (
                record {
                  among = among;
                  may_hide = hides;
                  covers = covers f (rw e at (inside 0 f refl));
                },
                rest,
              )
      ]

triage_gathered-IsClaim :
    (H : Host) (gap_reason : Record → Bytes) (fault_suffix : Bytes) (reg : Registry) (set : Set)
    (res : Result) (now : ℤ)
    → All
        (IsClaim H reg now set.records res.findings)
        (triage_gathered H gap_reason fault_suffix reg set res now).owners
unfolding triage_gathered
triage_gathered-IsClaim H gap_reason fault_suffix reg set res now =
    triage_gather-IsClaim H gap_reason fault_suffix reg now set.records res.findings _ 0 set.records
      _ (λ k r at. (k, at)) tt

-- Whatever `ApplyWith` hides is covered by a record of the set that validates, is an `ack` or a `snooze` and
-- no `note`, is current, and has not expired at the time given.
pub apply_triage-IsHidden :
    (H : Host) (gap_reason : Record → Bytes) (fault_suffix : Bytes) (reg : Registry) (set : Set)
    (res : Result) (now : ℤ)
    → All
        (IsHidden H reg now set.records)
        (apply_triage H gap_reason fault_suffix reg set res now).suppressed
unfolding apply_triage
apply_triage-IsHidden H gap_reason fault_suffix reg set res now =
    triage_split-IsHidden H gap_reason fault_suffix reg now set.records res.findings
      (triage_gathered H gap_reason fault_suffix reg set res now) 0 res.findings
      (λ j f at. let e : 0 + j ≡ j = omega arith in rw e at)
      (triage_gathered-IsClaim H gap_reason fault_suffix reg set res now)
