-- ===== src/Tests/Replicated.antt =====
-- A confirmed push of two records, and the reports on it.
use aurvet.Prelude.Text.{trim_space}
use aurvet.Prelude.{
  [], arith, bytes_eq, codes, err, has_prefix, if◌then◌else◌, length, none, ok, pos, refl,
  replicate, some, true, ◌↔◌, ◌≡◌, ◌≢◌, ◌≤◌,
}
use aurvet.Prelude.Text.{trim_space}
use aurvet.Finding.{sev_suspicious}
use aurvet.Report.{exit_clean, exit_code}
use aurvet.Baseline.{err_signature}
use aurvet.Baseline.Key.{PublicKey, parse_public_key_blob, same_key}
use aurvet.Baseline.Wire.{at_end, read_string, read_uint32, write_string, write_uint32}
use aurvet.Baseline.Format.{parse_signature, signature_body, valid_namespace}
use aurvet.Baseline.Sign.{
  find_trusted, sshsig_blob, unarmor, verify, verify_canonical, verify_sig_blob,
}
use aurvet.Chain.{err_truncated, is_digest}
use aurvet.Chain.Verify.{anchor_check}
use aurvet.Chain.Replication.{
  Replication, ReplicationCodec, ReplicationResult, build_replication, err_signing,
  max_replication_bytes, namespace_replication, no_reason, present, verify_replication_result,
}
use aurvet.Chain.Replication.State.{IsUsable, verify_replication_result_sound}
use aurvet.Chain.Replication.Report.{
  ReplicationStatus, Wording, anchor_option, banner, replication_findings, replication_report,
  status_with,
}
use aurvet.Chain.Replication.Status.{replication_report-anchor_check}
use aurvet.Chain.Replication.Silence.{clean_iff_pushed, emptied_chain_is_clean}
use aurvet.Tests.{
  one_record, toy_crypto, toy_key, toy_signature, toy_stamp, toy_trusted, two_records,
}

abbrev pushed_state : Replication
pushed_state = record {
  schema = pos 1;
  remote = codes "origin";
  length = pos 2;
  head = replicate 64 b'2';
  confirmed_at = codes "t++";
  protected_remote = true;
  note = [];
}

abbrev state_codec : ReplicationCodec
state_codec = record {
  marshal = λ r. ok (codes "state");
  unmarshal = λ raw. if bytes_eq raw (codes "state") then some pushed_state else none;
  canonical = λ raw. ok raw;
}

abbrev pushed : ReplicationResult
pushed = record {
  state = present;
  replication = pushed_state;
  key = some toy_key;
  reason = no_reason;
}

state_accepted :
    verify_replication_result toy_crypto state_codec toy_stamp
      (toy_signature namespace_replication (codes "state"))
      (codes "state")
      toy_trusted
    ≡ ok pushed
unfolding verify_replication_result verify_canonical build_replication is_digest trim_space bytes_eq
    verify unarmor parse_signature signature_body parse_public_key_blob find_trusted verify_sig_blob
    sshsig_blob valid_namespace write_string write_uint32 read_string read_uint32 at_end has_prefix
    same_key
state_accepted = refl

verify_replication_result_sound_example :
    ((key : PublicKey) × (verify toy_crypto
          (toy_signature namespace_replication (codes "state"))
          namespace_replication
          (codes "state")
          toy_trusted
        ≡ ok key))
    × (length (codes "state") ≤ max_replication_bytes)
    × (state_codec.unmarshal (codes "state") ≡ some pushed.replication)
    × (state_codec.marshal pushed.replication ≡ ok (codes "state"))
    × IsUsable pushed.replication
    × (verify_replication_result toy_crypto state_codec toy_stamp
          (toy_signature namespace_replication (codes "state"))
          (codes "state")
          []
        ≡ err (err_signing err_signature))
verify_replication_result_sound_example =
    verify_replication_result_sound toy_crypto state_codec toy_stamp
      (toy_signature namespace_replication (codes "state")) (codes "state") toy_trusted pushed
      state_accepted refl

pushed_IsUsable : IsUsable pushed_state
unfolding is_digest trim_space bytes_eq
pushed_IsUsable = record { positive = omega arith; head_digest = refl; remote_named = refl }

replication_report-anchor_check_example :
    (st : ReplicationStatus) × (replication_report toy_stamp one_record pushed none ≡ ok st)
    × (st.conflict ≡ anchor_check (anchor_option st) one_record)
replication_report-anchor_check_example =
    replication_report-anchor_check toy_stamp one_record pushed none (λ h. pushed_IsUsable)

abbrev wording : Wording
wording = record {
  conflict_summary = λ s e. codes "conflict";
  conflict_evidence = λ s. [];
  unpushed_summary = λ s. codes "unpushed";
  unpushed_evidence = λ s. [];
  gap_reason = λ s. codes "no anchor";
  limits = [];
}

abbrev clean_status : ReplicationStatus
clean_status = status_with two_records pushed (pos 0) (none, pos 2)

abbrev cut_status : ReplicationStatus
cut_status = status_with one_record pushed (pos 0) (some (err_truncated (pos 2)), pos 1)

two_ne_zero : pos 2 ≢ pos 0
two_ne_zero = ground arith

one_ne_zero : pos 1 ≢ pos 0
one_ne_zero = ground arith

clean_iff_pushed_example :
    (exit_code (replication_findings wording clean_status) sev_suspicious ≡ exit_clean) ↔ (
      (clean_status.anchored ≡ true)
      × (clean_status.conflict ≡ none)
      × (clean_status.unpushed ≡ []))
unfolding status_with
clean_iff_pushed_example = clean_iff_pushed wording clean_status two_ne_zero

emptied_chain_is_clean_example :
    (st : ReplicationStatus) × (replication_report toy_stamp [] pushed none ≡ ok st)
    × (st.conflict ≡ some (err_truncated (pos 2)))
    × (banner st ≡ ok [])
    × (exit_code (replication_findings wording st) sev_suspicious ≡ exit_clean)
emptied_chain_is_clean_example =
    emptied_chain_is_clean toy_stamp wording pushed none sev_suspicious refl pushed_IsUsable
