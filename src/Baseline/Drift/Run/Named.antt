-- ===== src/Baseline/Drift/Run/Named.antt =====
-- The two loops of `Drift` of internal/baseline/drift.go, seen at one name.
use aurvet.Prelude.{
  Bool, Bool-cases, Bytes, List, Option, [], ap, append-nil, arith, bytes_eq, bytes_eq_iff, false,
  if◌then◌else◌, inl, inr, length, none, ok, refl, some, sym, true, ◌&&◌, ◌++◌, ◌∙◌, ◌∷◌, ◌≡◌, ◌≤◌,
  refuse_if-eq-ok,
}
use aurvet.Prelude.Sorting.{select}
use aurvet.Baseline.Manifest.{Package, seen_name}
use aurvet.Baseline.Manifest.Built.{named, seen_name-cons, seen_name-cons_later}
use aurvet.Baseline.Drift.{
  unnamed_observed, observed_twice, blank_observed, Change, ObservedPackage, Outcome, base_step,
  base_steps, change, changes_in, check_observed, gap, in_baseline, observed_as, observed_step,
  observed_steps, same,
}
use aurvet.Baseline.Drift.Run.Compared.{
  base_as, about, base_delta, observed_delta, base_part, observed_part,
}

changes_in-cons :
    (o : Outcome) (os : List Outcome) → changes_in (o ∷ os) ≡ changes_in (o ∷ []) ++ changes_in os
unfolding changes_in
changes_in-cons same os = refl
changes_in-cons (gap g) os = refl
changes_in-cons (change c) os = refl

pub changes_in-append :
    (os more : List Outcome) → changes_in (os ++ more) ≡ changes_in os ++ changes_in more
unfolding changes_in
changes_in-append [] more = refl
changes_in-append (same ∷ os) more = changes_in-append os more
changes_in-append (gap g ∷ os) more = changes_in-append os more
changes_in-append (change c ∷ os) more = ap (λ l. c ∷ l) (changes_in-append os more)

pub select-append :
    (p : Change → Bool) (xs ys : List Change) → select p (xs ++ ys) ≡ select p xs ++ select p ys
select-append p [] ys = refl
select-append p (x ∷ xs) ys = let rest = select-append p xs ys in ground (arith, rest)

-- The changes of a package bear its name.
base_delta-about :
    (n : Bytes) (p : Package) (o : Option ObservedPackage)
    → select (about n) (base_delta p o) ≡ (if named n p then base_delta p o else [])
unfolding base_step changes_in
base_delta-about n p none = ground arith
base_delta-about n p (some o) = ground arith

observed_delta-about :
    (n : Bytes) (known : Bool) (p : ObservedPackage)
    → select (about n) (observed_delta known p)
      ≡ (if bytes_eq p.name n then observed_delta known p else [])
unfolding observed_step changes_in
observed_delta-about n true p = ground arith
observed_delta-about n false p = ground arith

abbrev base_select : Bytes → List Package → List Package
base_select n ps = select (named n) ps

base_as-none : (n : Bytes) (ps : List Package) → length (base_select n ps) ≤ 0 → base_as n ps ≡ none
base_as-none n [] h = refl
base_as-none n (p ∷ ps) h = elim (Bool-cases (named n p)) [
  | inl e ↦ absurd (let k = rw e at h in omega (arith, k))
  | inr e ↦ rw e (base_as-none n ps (rw e at h))
]

-- The loop over the baseline, seen at one name.
pub base_steps-about :
    (n : Bytes) (obs : List ObservedPackage) (ps : List Package)
    → length (base_select n ps) ≤ 1
    → select (about n) (changes_in (base_steps obs ps))
      ≡ base_part (base_as n ps) (observed_as n obs)
unfolding base_steps changes_in
base_steps-about n obs [] h = refl
base_steps-about n obs (p ∷ ps) h =
    let o = observed_as p.name obs in
    let here = base_delta-about n p o in
    let whole =
      ap (select (about n)) (changes_in-cons (base_step p o) (base_steps obs ps))
      ∙ select-append (about n) (base_delta p o) (changes_in (base_steps obs ps)) in
    elim (Bool-cases (named n p)) [
      | inl e ↦
          let rest : length (base_select n ps) ≤ 0 = let k = rw e at h in omega (arith, k) in
          let after = base_steps-about n obs ps (omega (arith, rest)) in
          let nothing =
            after ∙ ap (λ b. base_part b (observed_as n obs)) (base_as-none n ps rest) in
          let name : p.name ≡ n = (bytes_eq_iff p.name n).0 e in
          whole
          ∙ ap (λ l. l ++ select (about n) (changes_in (base_steps obs ps))) (rw e at here)
          ∙ ap (λ l. base_delta p o ++ l) nothing
          ∙ append-nil (base_delta p o)
          ∙ rw (e, name) refl
      | inr e ↦
          whole
          ∙ ap (λ l. l ++ select (about n) (changes_in (base_steps obs ps))) (rw e at here)
          ∙ base_steps-about n obs ps (rw e at h)
          ∙ rw e refl
    ]

abbrev observed_named : Bytes → ObservedPackage → Bool
observed_named n p = bytes_eq p.name n

observed_as-none :
    (n : Bytes) (ps : List ObservedPackage)
    → length (select (observed_named n) ps) ≤ 0
    → observed_as n ps ≡ none
unfolding observed_as
observed_as-none n [] h = refl
observed_as-none n (p ∷ ps) h = elim (Bool-cases (observed_named n p)) [
  | inl e ↦ absurd (let k = rw e at h in omega (arith, k))
  | inr e ↦ rw e (observed_as-none n ps (rw e at h))
]

in_baseline-base_as :
    (n : Bytes) (ps : List Package) (p : ObservedPackage)
    → observed_delta (in_baseline n ps) p ≡ observed_part (base_as n ps) (some p)
unfolding in_baseline observed_step changes_in
in_baseline-base_as n [] p = refl
in_baseline-base_as n (b ∷ ps) p = elim (Bool-cases (named n b)) [
  | inl e ↦ rw e
  | inr e ↦ rw e (in_baseline-base_as n ps p)
]

observed_part-none : (b : Option Package) → observed_part b none ≡ []
observed_part-none none = refl
observed_part-none (some b) = refl

-- The loop over what is observed, seen at one name.
pub observed_steps-about :
    (n : Bytes) (base : List Package) (ps : List ObservedPackage)
    → length (select (observed_named n) ps) ≤ 1
    → select (about n) (changes_in (observed_steps base ps))
      ≡ observed_part (base_as n base) (observed_as n ps)
unfolding observed_steps changes_in observed_as
observed_steps-about n base [] h = sym (observed_part-none (base_as n base))
observed_steps-about n base (p ∷ ps) h =
    let known = in_baseline p.name base in
    let here = observed_delta-about n known p in
    let whole =
      ap (select (about n)) (changes_in-cons (observed_step known p) (observed_steps base ps))
      ∙ select-append (about n) (observed_delta known p) (changes_in (observed_steps base ps)) in
    elim (Bool-cases (observed_named n p)) [
      | inl e ↦
          let rest : length (select (observed_named n) ps) ≤ 0 =
            let k = rw e at h in omega (arith, k) in
          let after = observed_steps-about n base ps (omega (arith, rest)) in
          let nothing =
            after
            ∙ ap (observed_part (base_as n base)) (observed_as-none n ps rest)
            ∙ observed_part-none (base_as n base) in
          let name : p.name ≡ n = (bytes_eq_iff p.name n).0 e in
          whole
          ∙ ap (λ l. l ++ select (about n) (changes_in (observed_steps base ps))) (rw e at here)
          ∙ ap (λ l. observed_delta known p ++ l) nothing
          ∙ append-nil (observed_delta known p)
          ∙ ap (λ m. observed_delta (in_baseline m base) p) name
          ∙ in_baseline-base_as n base p
          ∙ rw e refl
      | inr e ↦
          whole
          ∙ ap (λ l. l ++ select (about n) (changes_in (observed_steps base ps))) (rw e at here)
          ∙ observed_steps-about n base ps (rw e at h)
          ∙ rw e refl
    ]

pub check_observed-once :
    (n : Bytes) (seen : List Bytes) (ps : List ObservedPackage)
    → check_observed seen ps ≡ ok tt
    → (seen_name n seen ≡ true → length (select (observed_named n) ps) ≡ 0)
      × (length (select (observed_named n) ps) ≤ 1)
unfolding check_observed
check_observed-once n seen [] h = (λ _. refl, omega arith)
check_observed-once n seen (p ∷ ps) h =
    let (_, h1) = refuse_if-eq-ok (bytes_eq p.name []) unnamed_observed _ h in
    let (new, h2) = refuse_if-eq-ok (seen_name p.name seen) (observed_twice p.name) _ h1 in
    let (_, h3) =
      refuse_if-eq-ok (bytes_eq p.mtree_sha256 [] && bytes_eq p.mtree_unread [])
        (blank_observed p.name) (check_observed (p.name ∷ seen) ps) h2 in
    let (none_seen, one) = check_observed-once n (p.name ∷ seen) ps h3 in
    elim (Bool-cases (observed_named n p)) [
      | inl e ↦
          let same = (bytes_eq_iff p.name n).0 e in
          let zero_more = none_seen (seen_name-cons n p.name seen e) in
          rw e (λ s. absurd (let k = rw same at new in cc), rw zero_more (omega arith))
      | inr e ↦ rw e (λ s. none_seen (seen_name-cons_later n p.name seen s), one)
    ]
