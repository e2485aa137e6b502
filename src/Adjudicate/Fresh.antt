-- ===== src/Adjudicate/Fresh.antt =====
-- `New` of internal/adjudicate/adjudicate.go.
use mathlib.Core.Path.{subst}
use aurvet.Prelude.{
  Bool-cases, Bytes, Fallible-cases, Option-cases, [], arith, bytes_eq, bytes_eq_refl, eq_ℤ,
  eq_ℤ_iff, if◌then◌else◌, inl, inr, ok, pos, refl, sym, true, ℤ, ◌≡◌,
}
use aurvet.Adjudicate.{
  Host, Record, Registry, Request, Semantics, breadth, default_expiry, evidence_digest_of, lookup,
  scope_pin, scope_rule, scope_subject, semantics_digest_of, valid_scope,
}
use aurvet.Adjudicate.Judging.{
  assembled, current, decision_time, declared, matches, new, requested_evidence, validate,
}

-- What `New` found on its way to a record.
record IsAssembled (H : Host) (reg : Registry) (q : Request) (r : Record) : Type 0 where
  sem : Semantics
  digest : Bytes
  ev : Bytes
  now : ℤ
  expiry : ℤ
  scoped : valid_scope q.scope ≡ true
  found : declared H q.finding.rule_id reg ≡ ok sem
  digested : semantics_digest_of H sem ≡ ok digest
  requested : requested_evidence H q ≡ ok ev
  filled : r ≡ assembled H q sem digest ev now expiry
  valid : validate H r ≡ ok tt

module _ (H : Host) (reg : Registry) (q : Request) (r : Record) where
  new-IsAssembled : new H reg q ≡ ok r → IsAssembled H reg q r
  unfolding new
  new-IsAssembled h = elim (Fallible-cases (decision_time H q.now)) [
    | inr (e, bad) ↦ absurd (ground arith)
    | inl (now, decided) ↦ elim (Fallible-cases (declared H q.finding.rule_id reg)) [
      | inr (e, bad) ↦ absurd (ground arith)
      | inl (sem, found) ↦ elim (Fallible-cases (semantics_digest_of H sem)) [
        | inr (e, bad) ↦ absurd (ground arith)
        | inl (digest, digested) ↦ elim (Fallible-cases (requested_evidence H q)) [
          | inr (e, bad) ↦ absurd (ground arith)
          | inl (ev, requested) ↦
              let expiry = if eq_ℤ q.expiry (pos 0) then default_expiry else q.expiry in
              let a = assembled H q sem digest ev now expiry in
              elim (Fallible-cases (validate H a)) [
                | inr (e, bad) ↦ absurd (ground arith)
                | inl (tt, good) ↦
                    let filled : r ≡ a = ground arith in
                    record {
                      sem = sem;
                      digest = digest;
                      ev = ev;
                      now = now;
                      expiry = expiry;
                      scoped = ground arith;
                      found = found;
                      digested = digested;
                      requested = requested;
                      filled = filled;
                      valid = subst (λ x. validate H x ≡ ok tt) (sym filled) good;
                    }
              ]
        ]
      ]
    ]
  ]

module _ (H : Host) (reg : Registry) (q : Request) (sem : Semantics) (digest ev : Bytes)
    (now expiry : ℤ) where
  assembled-current :
      declared H q.finding.rule_id reg ≡ ok sem
      → semantics_digest_of H sem ≡ ok digest
      → current H reg (assembled H q sem digest ev now expiry) ≡ true
  unfolding current declared assembled
  assembled-current found digested = elim (Option-cases (lookup q.finding.rule_id reg)) [
    | inl missing ↦ absurd (ground arith)
    | inr (s, here) ↦
        let same : s ≡ sem = ground arith in
        ground
          (arith, same, here, digested, bytes_eq_refl digest, (eq_ℤ_iff sem.epoch sem.epoch).1 refl)
  ]

  assembled-matches :
      valid_scope q.scope ≡ true
      → q.evidence_digest ≡ []
      → requested_evidence H q ≡ ok ev
      → matches H (assembled H q sem digest ev now expiry) q.finding ≡ (true, true)
  unfolding matches assembled requested_evidence valid_scope breadth
  assembled-matches scoped computed requested =
      let r = bytes_eq_refl q.finding.rule_id in
      let k = bytes_eq_refl q.finding.subject_kind in
      let s = bytes_eq_refl q.finding.subject in
      let e = bytes_eq_refl ev in
      rw r (elim (Bool-cases (bytes_eq q.scope scope_rule)) [
        | inl wide ↦ rw wide refl
        | inr narrow ↦ rw narrow (elim (Bool-cases (bytes_eq q.scope scope_subject)) [
          | inl one ↦ rw one (rw (k, s) refl)
          | inr exact ↦ elim (Bool-cases (bytes_eq q.scope scope_pin)) [
            | inr other ↦ absurd (ground arith)
            | inl pin ↦
                let got : evidence_digest_of H q.finding ≡ ok ev = ground arith in
                rw (exact, pin) (rw (k, s) (rw got (rw e refl)))
          ]
        ])
      ])

-- What `New` makes validates, is bound to the semantics in force, and covers the finding of its request,
-- evidence included, unless the request brings an evidence digest of its own.
pub new_covers :
    (H : Host) (reg : Registry) (q : Request) (r : Record)
    → new H reg q ≡ ok r
    → q.evidence_digest ≡ []
    → (validate H r ≡ ok tt) × (current H reg r ≡ true) × (matches H r q.finding ≡ (true, true))
new_covers H reg q r h computed =
    let a = new-IsAssembled H reg q r h in
    (
      a.valid,
      subst (λ x. current H reg x ≡ true) (sym a.filled)
          (assembled-current H reg q a.sem a.digest a.ev a.now a.expiry a.found a.digested),
      subst (λ x. matches H x q.finding ≡ (true, true)) (sym a.filled)
          (assembled-matches H reg q a.sem a.digest a.ev a.now a.expiry a.scoped computed
            a.requested),
    )
