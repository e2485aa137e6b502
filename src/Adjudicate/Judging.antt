-- ===== src/Adjudicate/Judging.antt =====
-- `Validate`, `Matches`, `Current` and `New` of internal/adjudicate/adjudicate.go. The texts of the
-- errors and of the reason for staleness are not modelled.
use aurvet.Prelude.Text.{trim_space}
use aurvet.Prelude.{
  Bool, Bytes, Fallible, Option, [], bytes_eq, eq_ℤ, err, false, if◌then◌else◌, ltb_ℤ, none, not,
  ok, pos, refuse_if, some, true, ℤ, ◌&&◌, ◌+ℤ◌, ◌>>=◌, ◌>>◌, ◌||◌,
}
use aurvet.Prelude.Text.{trim_space}
use aurvet.Prelude.Time.{time_sub}
use aurvet.Finding.{Finding}
use aurvet.Chain.{is_digest}
use aurvet.Adjudicate.{
  AdjudicateError, Host, Record, Registry, Request, Semantics, default_expiry, err_epoch,
  err_record, evidence_digest_of, fingerprint_for, lookup, max_expiry, scope_pin, scope_rule,
  scope_subject, semantics_digest_of, valid_scope,
}
use aurvet.Adjudicate.Reason.{reason_accepted}

module _ (H : Host) where
  -- `parseStamp`.
  unfoldable pub stamp_of : Bytes → Fallible AdjudicateError ℤ
  stamp_of s =
      if bytes_eq s []
      then err err_record
      else elim (H.time_parse s) [ none ↦ err err_record | some t ↦ ok t ]

  -- The switch of `Validate` over the scope.
  pub scope_rules : Record → Fallible AdjudicateError (Unit {0})
  scope_rules r =
      if bytes_eq r.scope scope_rule
      then (do
        refuse_if (not (bytes_eq r.subject_kind []) || not (bytes_eq r.subject [])) err_record
        refuse_if (not r.forced) err_record
        refuse_if (not (bytes_eq r.evidence_digest [])) err_record)
      else if bytes_eq r.scope scope_subject
      then (do
        refuse_if (bytes_eq r.subject [] || bytes_eq r.subject_kind []) err_record
        refuse_if (not (bytes_eq r.evidence_digest [])) err_record)
      else (do
        refuse_if (bytes_eq r.subject [] || bytes_eq r.subject_kind []) err_record
        refuse_if (not (is_digest r.evidence_digest)) err_record)

  -- The end of `Validate`: the two times and how far they are apart.
  unfoldable pub times_valid : Record → Fallible AdjudicateError (Unit {0})
  times_valid r = do
    at ← stamp_of r.at
    exp ← stamp_of r.expires_at
    refuse_if (not (ltb_ℤ at exp)) err_record
    refuse_if (ltb_ℤ max_expiry (time_sub exp at)) err_record

  unfoldable pub validate : Record → Fallible AdjudicateError (Unit {0})
  unfolding scope_rules times_valid
  validate r = do
    refuse_if (not (valid_scope r.scope)) err_record
    refuse_if (bytes_eq r.rule_id []) err_record
    refuse_if (not (reason_accepted r.reason)) err_record
    refuse_if (bytes_eq r.by []) err_record
    refuse_if (ltb_ℤ r.fingerprint_epoch (pos 1)) err_record
    refuse_if (not (is_digest r.semantics_digest)) err_record
    scope_rules r
    refuse_if
        (not
          (bytes_eq (fingerprint_for H r.rule_id r.subject_kind r.subject r.scope) r.fingerprint))
        err_record
    times_valid r

  -- `Record.Expiry`.
  unfoldable pub expiry_of : Record → Fallible AdjudicateError ℤ
  expiry_of r = stamp_of r.expires_at

  unfoldable pub matches : Record → Finding → Bool × Bool
  matches r f =
      if not (bytes_eq r.rule_id f.rule_id)
      then (false, false)
      else if bytes_eq r.scope scope_rule
      then (true, true)
      else if bytes_eq r.scope scope_subject
      then (bytes_eq r.subject_kind f.subject_kind && bytes_eq r.subject f.subject, true)
      else if bytes_eq r.scope scope_pin
      then (if not (bytes_eq r.subject_kind f.subject_kind) || not (bytes_eq r.subject f.subject)
          then (false, false)
          else elim (evidence_digest_of H f) [
            | err e ↦ (true, false)
            | ok got ↦ (true, bytes_eq got r.evidence_digest)
          ])
      else (false, false)

  unfoldable pub current : Registry → Record → Bool
  current reg r = elim (lookup r.rule_id reg) [
    | none ↦ false
    | some sem ↦ elim (semantics_digest_of H sem) [
      | err e ↦ false
      | ok digest ↦ eq_ℤ sem.epoch r.fingerprint_epoch && bytes_eq digest r.semantics_digest
    ]
  ]

  -- The evidence digest of the record that `New` builds.
  unfoldable pub requested_evidence : Request → Fallible AdjudicateError Bytes
  requested_evidence q =
      if not (bytes_eq q.scope scope_pin)
      then ok []
      else if bytes_eq q.evidence_digest []
      then evidence_digest_of H q.finding
      else ok q.evidence_digest

  unfoldable pub declared : Bytes → Registry → Fallible AdjudicateError Semantics
  declared rule_id reg = elim (lookup rule_id reg) [ none ↦ err err_epoch | some s ↦ ok s ]

  unfoldable pub decision_time : Option ℤ → Fallible AdjudicateError ℤ
  decision_time none = err err_record
  decision_time (some t) = ok t

  -- The record that `New` fills in, before it is validated.
  unfoldable pub assembled : Request → Semantics → Bytes → Bytes → ℤ → ℤ → Record
  assembled q sem digest ev now expiry =
      let rule_wide = bytes_eq q.scope scope_rule in
      let kind = if rule_wide then [] else q.finding.subject_kind in
      let subject = if rule_wide then [] else q.finding.subject in
      record {
        fingerprint = fingerprint_for H q.finding.rule_id kind subject q.scope;
        rule_id = q.finding.rule_id;
        subject_kind = kind;
        subject = subject;
        scope = q.scope;
        evidence_digest = ev;
        fingerprint_epoch = sem.epoch;
        semantics_digest = digest;
        reason = trim_space q.reason;
        by = trim_space q.by;
        at = H.time_format now;
        expires_at = H.time_format (now +ℤ expiry);
        forced = q.forced;
      }

  unfoldable pub new : Registry → Request → Fallible AdjudicateError Record
  unfolding requested_evidence declared decision_time assembled
  new reg q = do
    refuse_if (not (valid_scope q.scope)) err_record
    now ← decision_time q.now
    sem ← declared q.finding.rule_id reg
    digest ← semantics_digest_of H sem
    let expiry = if eq_ℤ q.expiry (pos 0) then default_expiry else q.expiry
    refuse_if (not (ltb_ℤ (pos 0) expiry)) err_record
    refuse_if (ltb_ℤ max_expiry expiry) err_record
    ev ← requested_evidence q
    let r = assembled q sem digest ev now expiry
    validate r
    ok r
