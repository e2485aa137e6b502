-- ===== src/Adjudicate/Lapse.antt =====
-- `evaluate` of internal/adjudicate/apply.go and the longest expiry.
use aurvet.Prelude.Time.{time_sub}
use aurvet.Prelude.{
  Bool-cases, Fallible-cases, List, arith, false, inl, inr, ok, ℤ, ◌+ℤ◌, ◌≡◌, ◌≤ℤ◌,
}
use aurvet.Finding.{Finding}
use aurvet.Adjudicate.{Host, Record, Registry, max_expiry}
use aurvet.Adjudicate.Judging.{expiry_of, scope_rules, stamp_of, times_valid, validate}
use aurvet.Adjudicate.Apply.{evaluate, is_active}
use aurvet.Adjudicate.Apply.Justified.{evaluate-InForce}

module _ (H : Host) where
  validate-times : (r : Record) → validate H r ≡ ok tt → times_valid H r ≡ ok tt
  unfolding validate
  validate-times r h = elim (Fallible-cases (scope_rules H r)) [
    | inr (e, bad) ↦ absurd (ground arith)
    | inl (tt, good) ↦ ground arith
  ]

  -- The expiry of a record that validates is after its time, by the longest expiry at most.
  times_valid-bound :
      (r : Record) (at exp : ℤ)
      → times_valid H r ≡ ok tt
      → stamp_of H r.at ≡ ok at
      → expiry_of H r ≡ ok exp
      → exp ≤ℤ at +ℤ max_expiry
  unfolding times_valid expiry_of time_sub
  times_valid-bound r at exp h a e = ground arith

  -- A record is not active once the longest expiry has passed since its time, whatever the findings and
  -- the registry are.
  pub evaluate_lapses :
      (reg : Registry) (r : Record) (fs : List Finding) (at now : ℤ)
      → stamp_of H r.at ≡ ok at
      → at +ℤ max_expiry ≤ℤ now
      → is_active (evaluate H reg r fs now).status.state ≡ false
  evaluate_lapses reg r fs at now a late =
      elim (Bool-cases (is_active (evaluate H reg r fs now).status.state)) [
        | inr idle ↦ idle
        | inl on ↦
            let (force, _) = evaluate-InForce H reg now r fs on in
            let bound =
              times_valid-bound r at force.exp (validate-times r force.valid) a force.expires in
            let before = force.unexpired in absurd (ground arith)
      ]
