-- ===== src/Tests/Judged.antt =====
-- An adjudication that is made, applied and outlived, with times counted in days.
use aurvet.Prelude.Time.{time_sub}
use aurvet.Prelude.Text.{trim_space}
use mathlib.Core.List.{flat_map}
use aurvet.Prelude.{
  All, Bool, Bytes, List, [], arith, bytes_eq, bytes_lt, codes, false, length, negsuc, ok, pos,
  refl, replicate, some, true, ℕ, ℤ, ◌*◌, ◌++◌, ◌+◌, ◌/◌, ◌∷◌, ◌≡◌,
}
use aurvet.Prelude.Text.{trim_space}
use aurvet.Finding.{Finding, Gap, Result, sev_critical}
use aurvet.Finding.Fingerprint.{decimal, encode_field, encode_fields, fingerprint, hex}
use aurvet.Adjudicate.{
  Host, Record, Registry, Request, evidence_digest_of, fingerprint_for, lookup, scope_pin,
  semantics_digest_of, valid_scope,
}
use aurvet.Adjudicate.Reason.{content_runes, reason_accepted}
use aurvet.Adjudicate.Judging.{current, expiry_of, matches, new, stamp_of, validate}
use aurvet.Adjudicate.Fresh.{new_covers}
use aurvet.Adjudicate.Lapse.{evaluate_lapses}
use aurvet.Adjudicate.Apply.{Set, apply_with, evaluate, is_active}
use aurvet.Adjudicate.Apply.Justified.{IsJustified, apply_with-IsJustified}
use aurvet.Adjudicate.Apply.Partition.{apply_with_partition, count, findings_of}
use aurvet.Chain.{is_digest}
use aurvet.Tests.{toy_crypto}

abbrev pub day : ℕ
day = 86400000000000

unfoldable pub days_of : ℤ → ℕ
days_of (pos n) = n / day
days_of (negsuc n) = 0

abbrev pub toy_host : Host
toy_host = record {
  sha256 = toy_crypto.sha256;
  marshal_evidence = λ ev. ok (encode_fields ev);
  marshal_semantics = λ rule inputs. ok (encode_fields (rule ∷ inputs));
  time_parse = λ s. some (pos (length s * day));
  time_format = λ t. replicate (days_of t) b'x';
}

abbrev pub toy_registry : Registry
toy_registry = record { rule_id = codes "rule"; epoch = pos 1; inputs = codes "input" ∷ [] } ∷ []

abbrev pub judged_finding : Finding
judged_finding = record {
  rule_id = codes "rule";
  subject_kind = codes "unit";
  subject = codes "a.service";
  severity = sev_critical;
  summary = [];
  evidence = codes "line" ∷ [];
  limits = [];
}

abbrev toy_request : Request
toy_request = record {
  finding = judged_finding;
  scope = scope_pin;
  reason = codes "read it line by line";
  by = codes "ops";
  now = some (pos (10 * day));
  expiry = pos 0;
  evidence_digest = [];
  forced = false;
}

abbrev toy_record : Record
toy_record = record {
  fingerprint =
      fingerprint_for toy_host (codes "rule") (codes "unit") (codes "a.service") scope_pin;
  rule_id = codes "rule";
  subject_kind = codes "unit";
  subject = codes "a.service";
  scope = scope_pin;
  evidence_digest = hex (toy_crypto.sha256 (encode_fields (codes "line" ∷ [])));
  fingerprint_epoch = pos 1;
  semantics_digest = hex (toy_crypto.sha256 (encode_fields (codes "rule" ∷ codes "input" ∷ [])));
  reason = codes "read it line by line";
  by = codes "ops";
  at = replicate 10 b'x';
  expires_at = replicate 190 b'x';
  forced = false;
}

made_by_new : new toy_host toy_registry toy_request ≡ ok toy_record
unfolding new flat_map validate valid_scope lookup semantics_digest_of evidence_digest_of
    fingerprint_for fingerprint hex encode_fields encode_field decimal is_digest reason_accepted
    content_runes trim_space stamp_of time_sub bytes_eq bytes_lt days_of
made_by_new = refl

new_covers_example :
    (validate toy_host toy_record ≡ ok tt)
    × (current toy_host toy_registry toy_record ≡ true)
    × (matches toy_host toy_record judged_finding ≡ (true, true))
new_covers_example = new_covers toy_host toy_registry toy_request toy_record made_by_new refl

evaluate_lapses_example :
    is_active
      (evaluate toy_host toy_registry toy_record
        (judged_finding ∷ [])
        (pos (400 * day))).status.state
    ≡ false
unfolding stamp_of bytes_eq
evaluate_lapses_example =
    evaluate_lapses toy_host toy_registry toy_record (judged_finding ∷ []) (pos (10 * day))
      (pos (400 * day)) refl (omega arith)

abbrev toy_set : Set
toy_set = record { records = toy_record ∷ []; faults = []; source = [] }

abbrev judged_run : Result
judged_run = record { findings = judged_finding ∷ []; gaps = [] }

abbrev no_text : Record → Bytes
no_text r = []

is_suppressed_test :
    (apply_with toy_host no_text [] toy_registry toy_set judged_run (pos (20 * day))).suppressed
    ≡ record { finding = judged_finding; by_record = toy_record } ∷ []
unfolding apply_with flat_map evaluate validate valid_scope lookup semantics_digest_of
    evidence_digest_of fingerprint_for fingerprint hex encode_fields encode_field decimal is_digest
    reason_accepted content_runes trim_space stamp_of time_sub bytes_eq bytes_lt current matches
    expiry_of
is_suppressed_test = refl

apply_with-IsJustified_example :
    All
      (IsJustified toy_host toy_registry (pos (20 * day)) toy_set.records)
      (apply_with toy_host no_text [] toy_registry toy_set judged_run (pos (20 * day))).suppressed
apply_with-IsJustified_example =
    apply_with-IsJustified toy_host no_text [] toy_registry toy_set judged_run (pos (20 * day))

apply_with_partition_example :
    ((p : Finding → Bool)
      → count p
            (apply_with toy_host no_text [] toy_registry toy_set judged_run
              (pos (20 * day))).kept.findings
          + count p (
              findings_of
                (apply_with toy_host no_text [] toy_registry toy_set judged_run
                  (pos (20 * day))).suppressed)
        ≡ count p judged_run.findings)
    × ((more : List Gap) × ((apply_with toy_host no_text [] toy_registry toy_set judged_run
            (pos (20 * day))).kept.gaps
          ≡ judged_run.gaps ++ more))
apply_with_partition_example =
    apply_with_partition toy_host no_text [] toy_registry toy_set judged_run (pos (20 * day))
