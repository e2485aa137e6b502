-- ===== src/Tests/Triaged.antt =====
-- An ack that hides one finding, and a note on another.
use aurvet.Chain.{is_digest}
use aurvet.Prelude.{All}
use mathlib.Core.List.{flat_map}
use aurvet.Prelude.{
  All, Bool, Bytes, List, [], bytes_eq, bytes_lt, codes, pos, refl, replicate, ◌*◌, ◌++◌, ◌+◌, ◌∷◌,
  ◌≡◌,
}
use aurvet.Prelude.Text.{space_at, trim_space, within}
use aurvet.Prelude.Time.{time_sub}
use aurvet.Finding.{Finding, Gap, Result}
use aurvet.Finding.Fingerprint.{decimal, encode_field, encode_fields, fingerprint, hex}
use aurvet.Chain.{is_digest}
use aurvet.Adjudicate.{
  evidence_digest_of, fingerprint_for, lookup, scope_pin, scope_subject, semantics_digest_of,
}
use aurvet.Adjudicate.Reason.{rune_width}
use aurvet.Adjudicate.Apply.{claim, owner_at}
use aurvet.Adjudicate.Apply.Partition.{count}
use aurvet.Triage.{
  Record, epoch_bound, rune_count, triage_current, triage_matches, triage_stamp, valid_verb,
  validate_triage, verb_ack, verb_max_expiry, verb_note,
}
use aurvet.Triage.Apply.{Outcome, Set, apply_triage, triage_evaluate}
use aurvet.Triage.Apply.Hidden.{IsHidden, apply_triage-IsHidden}
use aurvet.Triage.Apply.Accounts.{IsKept, apply_triage_accounts, hidden_findings}
use aurvet.Tests.{toy_crypto}
use aurvet.Tests.Judged.{day, days_of, judged_finding, toy_host, toy_registry}

abbrev noted_finding : Finding
noted_finding = record judged_finding { rule_id = codes "other"; subject = codes "b.service" }

abbrev ack_record : Record
ack_record = record {
  fingerprint =
      fingerprint_for toy_host (codes "rule") (codes "unit") (codes "a.service") scope_pin;
  verb = verb_ack;
  rule_id = codes "rule";
  subject_kind = codes "unit";
  subject = codes "a.service";
  scope = scope_pin;
  evidence_digest = hex (toy_crypto.sha256 (encode_fields (codes "line" ∷ [])));
  fingerprint_epoch = pos 1;
  semantics_digest = hex (toy_crypto.sha256 (encode_fields (codes "rule" ∷ codes "input" ∷ [])));
  note = [];
  at = replicate 10 b'x';
  expires_at = replicate 40 b'x';
}

abbrev note_record : Record
note_record = record {
  fingerprint =
      fingerprint_for toy_host (codes "other") (codes "unit") (codes "b.service") scope_subject;
  verb = verb_note;
  rule_id = codes "other";
  subject_kind = codes "unit";
  subject = codes "b.service";
  scope = scope_subject;
  evidence_digest = [];
  fingerprint_epoch = pos 0;
  semantics_digest = [];
  note = codes "asked";
  at = replicate 10 b'x';
  expires_at = replicate 40 b'x';
}

abbrev triage_set : Set
triage_set = record { records = note_record ∷ ack_record ∷ []; faults = []; source = [] }

abbrev two_findings : Result
two_findings = record { findings = judged_finding ∷ noted_finding ∷ []; gaps = [] }

abbrev no_reason : Record → Bytes
no_reason r = []

abbrev triaged : Outcome
triaged = apply_triage toy_host no_reason [] toy_registry triage_set two_findings (pos (20 * day))

-- The ack hides its finding; the note hides nothing.
hidden_test : triaged.suppressed ≡ record { finding = judged_finding; by_record = ack_record } ∷ []
unfolding apply_triage owner_at claim triage_evaluate validate_triage valid_verb bytes_eq rune_count
    trim_space is_digest hex flat_map encode_fields encode_field decimal fingerprint_for fingerprint
    triage_stamp verb_max_expiry rune_width bytes_lt space_at within time_sub triage_matches
    triage_current epoch_bound lookup semantics_digest_of evidence_digest_of days_of
hidden_test = refl

annotated_test :
    triaged.annotated_by ≡ record { finding = noted_finding; by_record = note_record } ∷ []
unfolding apply_triage owner_at claim triage_evaluate validate_triage valid_verb bytes_eq rune_count
    trim_space is_digest hex flat_map encode_fields encode_field decimal fingerprint_for fingerprint
    triage_stamp verb_max_expiry rune_width bytes_lt space_at within time_sub triage_matches
    triage_current epoch_bound lookup semantics_digest_of evidence_digest_of days_of
annotated_test = refl

apply_triage-IsHidden_example :
    All (IsHidden toy_host toy_registry (pos (20 * day)) triage_set.records) triaged.suppressed
apply_triage-IsHidden_example =
    apply_triage-IsHidden toy_host no_reason [] toy_registry triage_set two_findings
      (pos (20 * day))

apply_triage_accounts_example :
    ((p : Finding → Bool)
      → count p triaged.kept.findings + count p (hidden_findings triaged.suppressed)
        ≡ count p two_findings.findings)
    × All (IsKept triaged.kept.findings) triaged.annotated_by
    × ((more : List Gap) × (triaged.kept.gaps ≡ two_findings.gaps ++ more))
apply_triage_accounts_example =
    apply_triage_accounts toy_host no_reason [] toy_registry triage_set two_findings
      (pos (20 * day))
