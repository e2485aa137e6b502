-- ===== src/Baseline/Drift/Classify/Justified.antt =====
-- The bucket that `classify` of internal/baseline/drift.go gives to a change, and what justifies it.
use mathlib.Core.Path.{subst}
use aurvet.Prelude.{
  ap, zero, suc, bytes_eq, bytes_eq_iff, bytes_differ, ◌⊎◌, ◌↔◌, All, Bool-cases, Bytes, List,
  Option, Option-cases, [], arith, false, if◌then◌else◌, inl, inr, none, refl, some, true, ℤ, ◌&&◌,
  ◌≡◌, ◌∷◌, ◌≤ℤ◌, ◌≢◌,
}
use aurvet.Prelude.Sorting.{Has, Has-cons}
use aurvet.Baseline.Drift.{
  Change, ChangeKind, added, removed, version, mtree, DriftAdjudication, LogTransaction,
}
use aurvet.Baseline.Drift.Classify.{
  adjudication_for, corroborate_from, explains, later, fault_of, usable_from, op_explains,
  other_version,
}

-- The version that a transaction left behind, where the kind of the change has one.
abbrev pub Left : ChangeKind → Change → LogTransaction → Type 0
Left added c tx = (tx.version ≡ []) ⊎ (tx.version ≡ c.to_value)
Left removed c tx = Unit
Left version c tx = (tx.version ≡ []) ⊎ (tx.version ≡ c.to_value)
Left mtree c tx = (tx.version ≡ []) ⊎ ((c.version ≡ []) ⊎ (tx.version ≡ c.version))

-- A transaction on the package of a change, not before the baseline, of an operation that makes such
-- changes, and that left what is there now.
pub record Explains (c : Change) (created : ℤ) (tx : LogTransaction) : Type 0 where
  pub on_package : tx.pkg ≡ c.pkg
  pub since : created ≤ℤ tx.time
  pub operation : op_explains c.kind tx.op ≡ true
  pub left : Left c.kind c tx

other_version-Left :
    (k : ChangeKind) (c : Change) (tx : LogTransaction) → other_version k c tx ≡ false → Left k c tx
unfolding other_version
other_version-Left added c tx h =
    ground (arith, bytes_eq_iff tx.version [], bytes_eq_iff tx.version c.to_value)
other_version-Left removed c tx h = tt
other_version-Left version c tx h =
    ground (arith, bytes_eq_iff tx.version [], bytes_eq_iff tx.version c.to_value)
other_version-Left mtree c tx h = ground (
  arith,
  bytes_eq_iff tx.version [],
  bytes_eq_iff c.version [],
  bytes_eq_iff tx.version c.version,
)

Left-other_version :
    (k : ChangeKind) (c : Change) (tx : LogTransaction) → Left k c tx → other_version k c tx ≡ false
unfolding other_version
Left-other_version added c tx h =
    ground (arith, bytes_eq_iff tx.version [], bytes_eq_iff tx.version c.to_value)
Left-other_version removed c tx h = refl
Left-other_version version c tx h =
    ground (arith, bytes_eq_iff tx.version [], bytes_eq_iff tx.version c.to_value)
Left-other_version mtree c tx h = ground (
  arith,
  bytes_eq_iff tx.version [],
  bytes_eq_iff c.version [],
  bytes_eq_iff tx.version c.version,
)

pub explains_iff :
    (c : Change) (created : ℤ) (tx : LogTransaction)
    → (explains c created tx ≡ true) ↔ Explains c created tx
unfolding explains
explains_iff c created tx = (
  λ h. record {
    on_package = ground (arith, bytes_eq_iff tx.pkg c.pkg);
    since = ground arith;
    operation = ground arith;
    left = other_version-Left c.kind c tx (ground arith);
  },
  λ x.
      let v = Left-other_version c.kind c tx x.left in
      ground (arith, v, x.operation, x.since, x.on_package, bytes_eq_iff tx.pkg c.pkg),
)

abbrev better : Change → ℤ → LogTransaction → Option LogTransaction → Option LogTransaction
better c created t best = if explains c created t && later best t then some t else best

pub corroborate_from-some :
    (best : Option LogTransaction) (c : Change) (txs : List LogTransaction) (created : ℤ)
    {tx : LogTransaction}
    → corroborate_from best c txs created ≡ some tx
    → (best ≡ some tx) ⊎ (Has tx txs × (explains c created tx ≡ true))
unfolding corroborate_from
corroborate_from-some best c [] created h = inl h
corroborate_from-some best c (t ∷ txs) created {tx} h =
    elim (corroborate_from-some (better c created t best) c txs created h) [
      | inr (at, good) ↦ inr (Has-cons t txs {x = tx} at, good)
      | inl e ↦ elim (Bool-cases (explains c created t && later best t)) [
        | inl taken ↦
            let same : t ≡ tx = let k = rw taken at e in cc in
            inr ((0, ap some same), subst (λ u. explains c created u ≡ true) same (ground arith))
        | inr left ↦ inl (rw left at e)
      ]
    ]

pub corroborate_from-none :
    (best : Option LogTransaction) (c : Change) (txs : List LogTransaction) (created : ℤ)
    → corroborate_from best c txs created ≡ none
    → (best ≡ none) × All (λ t. ¬ (Explains c created t)) txs
unfolding corroborate_from later
corroborate_from-none best c [] created h = (h, tt)
corroborate_from-none best c (t ∷ txs) created h =
    let (now, rest) = corroborate_from-none (better c created t best) c txs created h in
    elim (Bool-cases (explains c created t && later best t)) [
      | inl taken ↦ absurd (let k = rw taken at now in cc)
      | inr left ↦
          let free : best ≡ none = rw left at now in
          (
            free,
            (
              λ x.
                  let yes_it = (explains_iff c created t).1 x in
                  let bad = rw (yes_it, free) at left in absurd (cc),
              rest,
            ),
          )
    ]

pub adjudication_for-some :
    (name : Bytes) (rs : List DriftAdjudication) {r : DriftAdjudication}
    → adjudication_for name rs ≡ some r
    → Has r rs × (r.subject ≡ name)
unfolding adjudication_for
adjudication_for-some name [] h = absurd cc
adjudication_for-some name (s ∷ rs) {r} h = elim (Bool-cases (bytes_eq s.subject name)) [
  | inl e ↦
      let same : s ≡ r = let k = rw e at h in cc in
      ((0, ap some same), subst (λ u. u.subject ≡ name) same ((bytes_eq_iff s.subject name).0 e))
  | inr e ↦
      let (at, sub) = adjudication_for-some name rs (rw e at h) in (Has-cons s rs {x = r} at, sub)
]

pub adjudication_for-none :
    (name : Bytes) (rs : List DriftAdjudication)
    → adjudication_for name rs ≡ none
    → All (λ r. r.subject ≢ name) rs
unfolding adjudication_for
adjudication_for-none name [] h = tt
adjudication_for-none name (s ∷ rs) h = elim (Bool-cases (bytes_eq s.subject name)) [
  | inl e ↦ absurd (let k = rw e at h in cc)
  | inr e ↦ (bytes_differ s.subject name e, adjudication_for-none name rs (rw e at h))
]

module _ (time_parse : Bytes → Bytes → Option ℤ) where
  -- A record that `indexAdjudications` takes.
  abbrev pub IsUsable : ℤ → DriftAdjudication → Type 0
  IsUsable now r = fault_of time_parse r now ≡ none

  pub usable_from-Has :
      (out rs : List DriftAdjudication) (now : ℤ) {r : DriftAdjudication}
      → Has r (usable_from time_parse out rs now)
      → Has r out ⊎ (Has r rs × IsUsable now r)
  unfolding usable_from
  usable_from-Has out [] now h = inl h
  usable_from-Has out (s ∷ rs) now {r} h = elim (Option-cases (fault_of time_parse s now)) [
    | inl fine ↦ elim (usable_from-Has (s ∷ out) rs now {r = r} (rw (fine, usable_from) at h)) [
      | inl (zero, e) ↦
          let same : s ≡ r = cc in inr ((0, ap some same), subst (λ u. IsUsable now u) same fine)
      | inl (suc k, e) ↦ inl (k, e)
      | inr (at, good) ↦ inr (Has-cons s rs {x = r} at, good)
    ]
    | inr (f, faulty) ↦ elim (usable_from-Has out rs now {r = r} (rw (faulty, usable_from) at h)) [
      | inl at ↦ inl at
      | inr (at, good) ↦ inr (Has-cons s rs {x = r} at, good)
    ]
  ]

  pub usable_from-All :
      (P : DriftAdjudication → Type 0) (out rs : List DriftAdjudication) (now : ℤ)
      → All P (usable_from time_parse out rs now)
      → All P out × All (λ r. IsUsable now r → P r) rs
  unfolding usable_from
  usable_from-All P out [] now h = (h, tt)
  usable_from-All P out (s ∷ rs) now h = elim (Option-cases (fault_of time_parse s now)) [
    | inl fine ↦
        let (front, rest) = usable_from-All P (s ∷ out) rs now (rw (fine, usable_from) at h) in
        (front.1, (λ _. front.0, rest))
    | inr (f, faulty) ↦
        let (front, rest) = usable_from-All P out rs now (rw (faulty, usable_from) at h) in
        (front, (λ fine. absurd (cc), rest))
  ]
