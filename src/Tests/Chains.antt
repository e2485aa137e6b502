-- ===== src/Tests/Chains.antt =====
-- `Verify` on chains of one and two records, and records read from bytes.
use aurvet.Prelude.Text.{trim_space}
use aurvet.Prelude.{
  Bytes, [], ap, arith, bytes_eq, bytes_eq_iff, false, get_elem?, has_prefix, none, pos, refl, some,
  suc, zero, ℕ, ◌↔◌, ◌∙◌, ◌≡◌, ◌≢◌,
}
use aurvet.Prelude.Text.{trim_space}
use aurvet.Baseline.Key.{parse_public_key_blob, same_key}
use aurvet.Baseline.Wire.{at_end, read_string, read_uint32, write_string, write_uint32}
use aurvet.Baseline.Format.{parse_signature, signature_body, valid_namespace}
use aurvet.Baseline.Sign.{find_trusted, sshsig_blob, unarmor, verify, verify_sig_blob}
use aurvet.Chain.{
  Anchor, Record, err_truncated, genesis_prev, head_anchor, is_digest, is_zero, link,
  validate_entry,
}
use aurvet.Chain.Verify.{VerifyOptions, verify_chain}
use aurvet.Chain.Verify.Spec.{Covers, IsChain, verify_chain_iff}
use aurvet.Chain.Verify.Truncation.{truncation_refused}
use aurvet.Chain.Verify.History.{AgreeAt, DigestsBind, anchor_fixes_history}
use aurvet.Chain.Verify.Appending.{IsNew, verify_chain-link}
use aurvet.Tests.{
  first_record, one_record, second_record, toy_crypto, toy_fingerprint, toy_key, toy_stamp,
  toy_trusted, two_records,
}
use aurvet.Tests.Signing.{second_signed}

abbrev unanchored : VerifyOptions
unanchored = record { trusted = toy_trusted; anchor = none }

abbrev anchored_at : Anchor → VerifyOptions
anchored_at a = record { trusted = toy_trusted; anchor = some a }

one_verified : (verify_chain toy_crypto toy_stamp toy_fingerprint one_record unanchored).1 ≡ none
unfolding verify_chain validate_entry is_digest trim_space bytes_eq head_anchor verify unarmor
    parse_signature signature_body parse_public_key_blob find_trusted verify_sig_blob sshsig_blob
    valid_namespace write_string write_uint32 read_string read_uint32 at_end has_prefix same_key
one_verified = refl

two_verified : (verify_chain toy_crypto toy_stamp toy_fingerprint two_records unanchored).1 ≡ none
unfolding verify_chain validate_entry is_digest trim_space bytes_eq head_anchor verify unarmor
    parse_signature signature_body parse_public_key_blob find_trusted verify_sig_blob sshsig_blob
    valid_namespace write_string write_uint32 read_string read_uint32 at_end has_prefix same_key
two_verified = refl

two_anchored :
    (verify_chain toy_crypto toy_stamp toy_fingerprint two_records
      (anchored_at (head_anchor one_record))).1
    ≡ none
unfolding verify_chain validate_entry is_digest trim_space bytes_eq head_anchor verify unarmor
    parse_signature signature_body parse_public_key_blob find_trusted verify_sig_blob sshsig_blob
    valid_namespace write_string write_uint32 read_string read_uint32 at_end has_prefix same_key
two_anchored = refl

verify_chain_iff_example :
    ((verify_chain toy_crypto toy_stamp toy_fingerprint two_records
        (anchored_at (head_anchor one_record))).1
      ≡ none)
    ↔ (IsChain toy_crypto toy_stamp toy_fingerprint toy_trusted two_records
        × Covers (some (head_anchor one_record)) two_records)
verify_chain_iff_example =
    verify_chain_iff toy_crypto toy_stamp toy_fingerprint toy_trusted two_records
      (some (head_anchor one_record))

truncation_refused_example :
    (verify_chain toy_crypto toy_stamp toy_fingerprint one_record
      (anchored_at (head_anchor two_records))).1
    ≡ some (err_truncated (pos 2))
truncation_refused_example =
    truncation_refused toy_crypto toy_stamp toy_fingerprint toy_trusted one_record second_record []
      two_verified

prefix_binds : DigestsBind two_records one_record
prefix_binds zero r s p q same = cc
prefix_binds (suc i) r s p q same = absurd cc

anchor_fixes_history_example : AgreeAt two_records one_record 0
anchor_fixes_history_example =
    anchor_fixes_history toy_crypto toy_stamp toy_fingerprint toy_trusted two_records one_record 0
      prefix_binds one_verified two_anchored (omega arith)

differ : (a b : Bytes) → bytes_eq a b ≡ false → a ≢ b
differ a b f e = let q = (bytes_eq_iff a b).1 e in cc

second_new_hash :
    (i : ℕ) (r : Record) → get_elem? one_record i ≡ some r → r.hash ≢ second_record.hash
unfolding bytes_eq
second_new_hash zero r at same =
    let q : first_record ≡ r = cc in
    differ first_record.hash second_record.hash refl (ap (λ (x : Record). x.hash) q ∙ same)
second_new_hash (suc i) r at same = cc

second_new_payload :
    (i : ℕ) (r : Record)
    → get_elem? one_record i ≡ some r
    → r.entry.payload.sha256 ≢ second_record.entry.payload.sha256
unfolding bytes_eq
second_new_payload zero r at same =
    let q : first_record ≡ r = cc in
    differ first_record.entry.payload.sha256 second_record.entry.payload.sha256 refl
      (ap (λ (x : Record). x.entry.payload.sha256) q ∙ same)
second_new_payload (suc i) r at same = cc

second_IsNew :
    IsNew toy_crypto toy_stamp toy_fingerprint toy_trusted one_record first_record second_record
unfolding validate_entry is_digest trim_space bytes_eq
second_IsNew = record {
  authentic = record { key = toy_key; signed = second_signed; valid = refl };
  new_hash = second_new_hash;
  new_payload = second_new_payload;
  later = record {
    before = pos 1;
    after = pos 2;
    before_at = refl;
    after_at = refl;
    ordered = omega arith;
  };
  not_genesis = differ first_record.hash genesis_prev refl;
}

second_linked : second_record.entry ≡ link (some first_record) second_record.entry
unfolding link is_zero bytes_eq
second_linked = refl

verify_chain-link_example :
    ((verify_chain toy_crypto toy_stamp toy_fingerprint two_records unanchored).1 ≡ none) ↔ (
      (second_record.entry ≡ link (some first_record) second_record.entry)
      × IsNew toy_crypto toy_stamp toy_fingerprint toy_trusted one_record first_record
          second_record)
unfolding is_zero bytes_eq
verify_chain-link_example =
    verify_chain-link toy_crypto toy_stamp toy_fingerprint toy_trusted one_record first_record
      second_record refl one_verified refl (omega arith)
