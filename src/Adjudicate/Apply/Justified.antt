-- ===== src/Adjudicate/Apply/Justified.antt =====
-- `ApplyWith` of internal/adjudicate/apply.go: what is suppressed.
use mathlib.Core.Path.{subst}
use aurvet.Prelude.{
  All, All-map, Bool, Bool-cases, Bytes, Fallible-cases, List, Option-cases, [], arith, false,
  get_elem?, inl, inr, ltb_ℤ, ok, refl, some, suc, sym, true, ℕ, ℤ, ◌+◌, ◌==◌, ◌∙◌, ◌∷◌, ◌≡◌,
}
use aurvet.Finding.{Finding, Result}
use aurvet.Adjudicate.{Host, Record, Registry}
use aurvet.Adjudicate.Judging.{current, expiry_of, matches, validate}
use aurvet.Adjudicate.Apply.{
  Gathered, Set, Suppression, apply_with, claim, covered, evaluate, gather, gathered, is_active,
  judge, owner_at, split,
}

-- At time `now` the record may suppress findings: it validates, it is bound to the semantics in force,
-- and it has not expired.
pub record InForce (H : Host) (reg : Registry) (now : ℤ) (r : Record) : Type 0 where
  pub valid : validate H r ≡ ok tt
  pub bound : current H reg r ≡ true
  pub exp : ℤ
  pub expires : expiry_of H r ≡ ok exp
  pub unexpired : ltb_ℤ now exp ≡ true

module _ (H : Host) (P : ℕ → Type 0) (r : Record) where
  covered-indices :
      (i : ℕ) (fs : List Finding)
      → ((j : ℕ) (f : Finding) → get_elem? fs j ≡ some f → matches H r f ≡ (true, true) → P (i + j))
      → All P (covered H r i fs).indices
  unfolding covered
  covered-indices i [] hit = tt
  covered-indices i (f ∷ fs) hit =
      let rest =
        covered-indices (suc i) fs (λ j g at m. subst P (omega arith) (hit (suc j) g at m)) in
      by_match (matches H r f) refl rest
    where
      by_match :
          (m : Bool × Bool)
          → matches H r f ≡ m
          → All P (covered H r (suc i) fs).indices
          → All P (covered H r i (f ∷ fs)).indices
      by_match (false, e) is rest = rw is rest
      by_match (true, false) is rest = rw is rest
      by_match (true, true) is rest = rw is (subst P (omega arith) (hit 0 f refl is), rest)

module _ (H : Host) (reg : Registry) (now : ℤ) (r : Record) (fs : List Finding) where
  -- A record whose state is `active` is in force, and claims what it covers.
  pub evaluate-InForce :
      is_active (evaluate H reg r fs now).status.state ≡ true
      → InForce H reg now r × ((evaluate H reg r fs now).indices ≡ (covered H r 0 fs).indices)
  unfolding evaluate judge is_active
  evaluate-InForce h = elim (Fallible-cases (validate H r)) [
    | inr (e, bad) ↦ absurd (let q = rw (bad, evaluate) at h in cc)
    | inl (tt, good) ↦ elim (Bool-cases (current H reg r)) [
      | inr old ↦ absurd (ground arith)
      | inl bound ↦ elim (Fallible-cases (expiry_of H r)) [
        | inr (e, bad) ↦ absurd (ground arith)
        | inl (exp, expires) ↦ elim (Bool-cases (ltb_ℤ now exp)) [
          | inr over ↦ absurd (ground arith)
          | inl unexpired ↦ (
            record {
              valid = good;
              bound = bound;
              exp = exp;
              expires = expires;
              unexpired = unexpired;
            },
            ground arith,
          )
        ]
      ]
    ]
  ]

-- The claims: each index stands for a finding that its record covers, and the record is in force.
abbrev pub IsClaim : (H : Host) → Registry → ℤ → List Record → List Finding → ℕ × Record → Type 0
IsClaim H reg now rs fs (i, r) =
    ((k : ℕ) × (get_elem? rs k ≡ some r))
    × InForce H reg now r
    × ((f : Finding) → get_elem? fs i ≡ some f → matches H r f ≡ (true, true))

pub claim-All :
    {A : Type 0} (Q : ℕ × A → Type 0) (r : A) (is : List ℕ) (m : List (ℕ × A))
    → All (λ i. Q (i, r)) is
    → All Q m
    → All Q (claim r is m)
unfolding claim
claim-All Q r [] m hs h = h
claim-All Q r (i ∷ is) m hs h = claim-All Q r is _ hs.1 (elim (Option-cases (owner_at i m)) [
  | inl free ↦ rw free (hs.0, h)
  | inr (t, taken) ↦ rw taken h
])

pub owner_at-All :
    {A : Type 0} (Q : ℕ × A → Type 0) (i : ℕ) (m : List (ℕ × A)) {r : A}
    → All Q m
    → owner_at i m ≡ some r
    → Q (i, r)
unfolding owner_at
owner_at-All Q i [] h e = absurd cc
owner_at-All {A = A} Q i ((j, s) ∷ m) {r = r} h e = elim (Bool-cases (j == i)) [
  | inl same ↦
      let here : s ≡ r = ground arith in
      let there : j ≡ i = ground arith in subst Q (pair_path there here) h.0
  | inr differ ↦ owner_at-All Q i m h.1 (ground arith)
]
  where
    pair_path : {a b : ℕ} {x y : A} → a ≡ b → x ≡ y → ◌≡◌ {A = ℕ × A} (a, x) (b, y)
    pair_path p q = rw (p, q) refl

covered-IsClaim :
    (H : Host) (r : Record) (fs : List Finding)
    → All
        (λ i. (f : Finding) → get_elem? fs i ≡ some f → matches H r f ≡ (true, true))
        (covered H r 0 fs).indices
covered-IsClaim H r fs =
    covered-indices H (λ i. (f : Finding) → get_elem? fs i ≡ some f → matches H r f ≡ (true, true))
      r 0 fs
      (λ j f at m g at'.
        let same : f ≡ g =
          let here : 0 + j ≡ j = omega arith in let q = sym at ∙ (rw here at at') in cc in
        subst (λ x. matches H r x ≡ (true, true)) same m)

-- A suppression: its finding is covered by its record, which is one of the set and in force.
pub record IsJustified (H : Host) (reg : Registry) (now : ℤ) (all : List Record) (s : Suppression)
    : Type 0 where
  pub among : (k : ℕ) × (get_elem? all k ≡ some s.by_record)
  pub in_force : InForce H reg now s.by_record
  pub covers : matches H s.by_record s.finding ≡ (true, true)

module _ (H : Host) (gap_reason : Record → Bytes) (fault_suffix : Bytes) (reg : Registry) (now : ℤ)
    (all : List Record) (fs : List Finding) where
  gather-IsClaim :
      (source : Bytes) (i : ℕ) (rs : List Record) (g : Gathered)
      → ((k : ℕ) (r : Record) → get_elem? rs k ≡ some r → (n : ℕ) × (get_elem? all n ≡ some r))
      → All (IsClaim H reg now all fs) g.owners
      → All
          (IsClaim H reg now all fs)
          (gather H gap_reason fault_suffix reg source fs now i rs g).owners
  unfolding gather
  gather-IsClaim source i [] g among h = h
  gather-IsClaim source i (r ∷ rs) g among h =
      gather-IsClaim source (suc i) rs _ (λ k x at. among (suc k) x at)
        (elim (Bool-cases (is_active (evaluate H reg r fs now).status.state)) [
          | inr idle ↦ rw idle h
          | inl on ↦
              let (force, same) = evaluate-InForce H reg now r fs on in
              rw on (
                rw same (
                  claim-All (IsClaim H reg now all fs) r _ g.owners
                    (All-map
                      (λ i. (f : Finding) → get_elem? fs i ≡ some f → matches H r f ≡ (true, true))
                      (λ i. IsClaim H reg now all fs (i, r)) (covered H r 0 fs).indices
                      (λ i m. (among 0 r refl, force, m)) (covered-IsClaim H r fs))
                    h))
        ])

  split-IsJustified :
      (owners : List (ℕ × Record)) (i : ℕ) (gs : List Finding)
      → ((j : ℕ) (f : Finding) → get_elem? gs j ≡ some f → get_elem? fs (i + j) ≡ some f)
      → All (IsClaim H reg now all fs) owners
      → All (IsJustified H reg now all) (split H gap_reason fault_suffix owners i gs).1
  unfolding split
  split-IsJustified owners i [] inside h = tt
  split-IsJustified owners i (f ∷ gs) inside h =
      let rest =
        split-IsJustified owners (suc i) gs
          (λ j g at. let e : i + suc j ≡ suc i + j = omega arith in rw e at (inside (suc j) g at))
          h in
      elim (Option-cases (owner_at i owners)) [
        | inl free ↦ rw (free, split, All) rest
        | inr (r, taken) ↦
            let (among, force, covers) = owner_at-All (IsClaim H reg now all fs) i owners h taken in
            let e : i + 0 ≡ i = omega arith in
            rw (taken, split, All)
              (
                record {
                  among = among;
                  in_force = force;
                  covers = covers f (rw e at (inside 0 f refl));
                },
                rest,
              )
      ]

-- Whatever `ApplyWith` suppresses is covered by a record of the set that validates, is bound to the
-- semantics in force and has not expired at the time given.
pub apply_with-IsJustified :
    (H : Host) (gap_reason : Record → Bytes) (fault_suffix : Bytes) (reg : Registry) (set : Set)
    (res : Result) (now : ℤ)
    → All
        (IsJustified H reg now set.records)
        (apply_with H gap_reason fault_suffix reg set res now).suppressed
unfolding apply_with gathered
apply_with-IsJustified H gap_reason fault_suffix reg set res now =
    split-IsJustified H gap_reason fault_suffix reg now set.records res.findings _ 0 res.findings
      (λ j f at. let e : 0 + j ≡ j = omega arith in rw e at)
      (gather-IsClaim H gap_reason fault_suffix reg now set.records res.findings _ 0 set.records _
        (λ k r at. (k, at)) tt)
