-- ===== src/Triage.antt =====
-- internal/triage/triage.go: the records of triage. The digests and stamps are those of Adjudicate; the texts of
-- errors, caveats and details are not modelled.
pub mod Apply
use aurvet.Prelude.{refuse_if}
use aurvet.Chain.{is_digest}
use aurvet.Prelude.{
  Bool, Bytes, Fallible, Option, [], bytes_eq, codes, drop, eq_ℤ, err, false, if◌then◌else◌, length,
  ltb, ltb_ℤ, none, not, ok, pos, some, suc, true, zero, ℕ, ℤ, ◌&&◌, ◌+ℤ◌, ◌>>=◌, ◌>>◌, ◌||◌, ◌∷◌,
}
use aurvet.Prelude.Time.{days, time_sub}
use aurvet.Prelude.Text.{is_blank, trim_space}
use aurvet.Finding.{Finding}
use aurvet.Adjudicate.{
  AdjudicateError, Host, Registry, Scope, evidence_digest_of, fingerprint_for, lookup, scope_pin,
  scope_subject, semantics_digest_of,
}
use aurvet.Adjudicate.Reason.{rune_width}

-- `type Verb string`.
abbrev pub Verb : Type 0
Verb = Bytes

abbrev pub verb_ack : Verb
verb_ack = codes "ack"

abbrev pub verb_snooze : Verb
verb_snooze = codes "snooze"

abbrev pub verb_note : Verb
verb_note = codes "note"

unfoldable pub valid_verb : Verb → Bool
valid_verb v = bytes_eq v verb_ack || bytes_eq v verb_snooze || bytes_eq v verb_note

unfoldable pub verb_suppresses : Verb → Bool
verb_suppresses v = bytes_eq v verb_ack || bytes_eq v verb_snooze

unfoldable pub verb_default_expiry : Verb → ℤ
verb_default_expiry v = if bytes_eq v verb_snooze then days 7 else days 30

unfoldable pub verb_max_expiry : Verb → ℤ
verb_max_expiry v = if bytes_eq v verb_snooze then days 30 else days 90

abbrev pub max_note_runes : ℕ
max_note_runes = 2000

-- `ErrRecord`, and the errors of the adjudicate package, which are passed on.
pub data TriageError : Type 0 where
  err_triage : TriageError
  err_adjudicate : AdjudicateError → TriageError

pub record Record : Type 0 where
  pub fingerprint : Bytes
  pub verb : Verb
  pub rule_id : Bytes
  pub subject_kind : Bytes
  pub subject : Bytes
  pub scope : Scope
  pub evidence_digest : Bytes
  pub fingerprint_epoch : ℤ
  pub semantics_digest : Bytes
  pub note : Bytes
  pub at : Bytes
  pub expires_at : Bytes

pub record Request : Type 0 where
  pub finding : Finding
  pub verb : Verb
  pub scope : Scope
  pub note : Bytes
  -- `none` is the zero time.
  pub now : Option ℤ
  pub expiry : ℤ
  pub evidence_digest : Bytes

unfoldable pub epoch_bound : Record → Bool
epoch_bound r = ltb_ℤ (pos 0) r.fingerprint_epoch && not (bytes_eq r.semantics_digest [])

-- The number of runes; each takes a byte at least, so the length is enough fuel.
unfoldable pub rune_count : ℕ → Bytes → ℕ
rune_count zero s = 0
rune_count (suc f) [] = 0
rune_count (suc f) (c ∷ s) = suc (rune_count f (drop (rune_width (c ∷ s)) (c ∷ s)))

triage_scope : Scope → Fallible TriageError (Unit {0})
triage_scope s = refuse_if (not (bytes_eq s scope_pin) && not (bytes_eq s scope_subject)) err_triage

from_adjudicate : {A : Type 0} → Fallible AdjudicateError A → Fallible TriageError A
from_adjudicate (ok a) = ok a
from_adjudicate (err e) = err (err_adjudicate e)

module _ (H : Host) where
  -- `parseStamp`.
  unfoldable pub triage_stamp : Bytes → Fallible TriageError ℤ
  triage_stamp s =
      if bytes_eq s []
      then err err_triage
      else elim (H.time_parse s) [ none ↦ err err_triage | some t ↦ ok t ]

  -- The evidence of `Validate`: a pin's, or none.
  evidence_rule : Record → Fallible TriageError (Unit {0})
  evidence_rule r =
      refuse_if
        (if bytes_eq r.scope scope_pin
          then not (is_digest r.evidence_digest)
          else not (bytes_eq r.evidence_digest []))
        err_triage

  binding_rule : Record → Fallible TriageError (Unit {0})
  binding_rule r = do
    let bound = ltb_ℤ (pos 0) r.fingerprint_epoch
    let digest = not (bytes_eq r.semantics_digest [])
    refuse_if (if bound then not digest else digest) err_triage
    refuse_if (ltb_ℤ r.fingerprint_epoch (pos 0)) err_triage
    refuse_if (digest && not (is_digest r.semantics_digest)) err_triage

  unfoldable pub validate_triage : Record → Fallible TriageError (Unit {0})
  unfolding triage_scope evidence_rule binding_rule
  validate_triage r = do
    refuse_if (not (valid_verb r.verb)) err_triage
    triage_scope r.scope
    refuse_if (bytes_eq r.rule_id []) err_triage
    refuse_if (bytes_eq r.subject_kind [] || bytes_eq r.subject []) err_triage
    refuse_if (bytes_eq r.verb verb_note && is_blank r.note) err_triage
    refuse_if (ltb max_note_runes (rune_count (length r.note) r.note)) err_triage
    refuse_if (not (bytes_eq r.note (trim_space r.note))) err_triage
    evidence_rule r
    binding_rule r
    refuse_if
        (not
          (bytes_eq (fingerprint_for H r.rule_id r.subject_kind r.subject r.scope) r.fingerprint))
        err_triage
    at ← triage_stamp r.at
    exp ← triage_stamp r.expires_at
    refuse_if (not (ltb_ℤ at exp)) err_triage
    refuse_if (ltb_ℤ (verb_max_expiry r.verb) (time_sub exp at)) err_triage

  -- `Matches`.
  unfoldable pub triage_matches : Record → Finding → Bool × Bool
  triage_matches r f =
      if not (bytes_eq r.rule_id f.rule_id)
        || not (bytes_eq r.subject_kind f.subject_kind)
        || not (bytes_eq r.subject f.subject)
      then (false, false)
      else if not (bytes_eq r.scope scope_pin)
      then (true, true)
      else elim (evidence_digest_of H f) [
        | err e ↦ (true, false)
        | ok got ↦ (true, bytes_eq got r.evidence_digest)
      ]

  -- `Current`.
  unfoldable pub triage_current : Registry → Record → Bool
  triage_current reg r = if not (epoch_bound r) then true else elim (lookup r.rule_id reg) [
    | none ↦ false
    | some sem ↦ elim (semantics_digest_of H sem) [
      | err e ↦ false
      | ok digest ↦ eq_ℤ sem.epoch r.fingerprint_epoch && bytes_eq digest r.semantics_digest
    ]
  ]

  triage_evidence : Request → Fallible TriageError Bytes
  unfolding from_adjudicate
  triage_evidence q =
      if not (bytes_eq q.scope scope_pin)
      then ok []
      else if bytes_eq q.evidence_digest []
      then from_adjudicate (evidence_digest_of H q.finding)
      else ok q.evidence_digest

  -- The epoch and digest that bind the record, if the rule declares them.
  triage_binding : Registry → Bytes → Fallible TriageError (ℤ × Bytes)
  unfolding from_adjudicate
  triage_binding reg rule_id = elim (lookup rule_id reg) [
    | none ↦ ok (pos 0, [])
    | some sem ↦ from_adjudicate (semantics_digest_of H sem) >>= λ d. ok (sem.epoch, d)
  ]

  triage_time : Option ℤ → Fallible TriageError ℤ
  triage_time none = err err_triage
  triage_time (some t) = ok t

  -- The record that `New` fills in, before it is validated.
  triage_assembled : Request → (now expiry : ℤ) → Bytes → ℤ × Bytes → Record
  triage_assembled q now expiry ev bind = record {
    fingerprint =
        fingerprint_for H q.finding.rule_id q.finding.subject_kind q.finding.subject q.scope;
    verb = q.verb;
    rule_id = q.finding.rule_id;
    subject_kind = q.finding.subject_kind;
    subject = q.finding.subject;
    scope = q.scope;
    evidence_digest = ev;
    fingerprint_epoch = bind.0;
    semantics_digest = bind.1;
    note = trim_space q.note;
    at = H.time_format now;
    expires_at = H.time_format (now +ℤ expiry);
  }

  -- `New`.
  unfoldable pub new_triage : Registry → Request → Fallible TriageError Record
  unfolding triage_scope triage_evidence triage_binding triage_time triage_assembled
  new_triage reg q = do
    refuse_if (not (valid_verb q.verb)) err_triage
    triage_scope q.scope
    now ← triage_time q.now
    let expiry = if eq_ℤ q.expiry (pos 0) then verb_default_expiry q.verb else q.expiry
    refuse_if (not (ltb_ℤ (pos 0) expiry)) err_triage
    refuse_if (ltb_ℤ (verb_max_expiry q.verb) expiry) err_triage
    ev ← triage_evidence q
    bind ← triage_binding reg q.finding.rule_id
    let r = triage_assembled q now expiry ev bind
    validate_triage r
    ok r
