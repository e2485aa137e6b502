-- ===== src/Tests/Documents.antt =====
-- Records written and read, with an encoding of two entries.
use aurvet.Prelude.Text.{trim_space}
use aurvet.Prelude.{
  Bytes, bytes_eq, codes, eq_ℤ, has_prefix, if◌then◌else◌, none, ok, pos, refl, some, ◌≡◌,
}
use aurvet.Prelude.Text.{trim_space}
use aurvet.Baseline.Key.{parse_public_key_blob, same_key}
use aurvet.Baseline.Wire.{at_end, read_string, read_uint32, write_string, write_uint32}
use aurvet.Baseline.Format.{
  namespace_chain_entry, parse_signature, signature_body, sshsig_hash_algo, valid_namespace,
}
use aurvet.Baseline.Sign.{
  Crypto, armor, find_trusted, private_key_signer, sign, sshsig_blob, unarmor, verify,
  verify_canonical, verify_sig_blob,
}
use aurvet.Baseline.Sign.RoundTrip.{raw_signature}
use aurvet.Chain.{Record, is_digest, validate_entry}
use aurvet.Chain.Records.{Codec, make_record, new_record, parse_record}
use aurvet.Chain.Records.Laws.{IsParsed, parse_record-new_record, parse_record_sound}
use aurvet.Tests.{
  first_record, second_record, toy_blob, toy_crypto, toy_key, toy_sign, toy_stamp, toy_trusted,
}
use aurvet.Tests.Signing.{opening}

abbrev toy_codec : Codec
toy_codec = record {
  marshal = λ e. ok (if eq_ℤ e.seq (pos 0) then codes "first" else codes "second");
  unmarshal = λ raw.
      if bytes_eq raw (codes "first")
      then some first_record.entry
      else if bytes_eq raw (codes "second")
      then some second_record.entry
      else none;
  canonical = λ raw. ok raw;
}

abbrev first_parsed : Record
first_parsed = make_record toy_crypto first_record.entry first_record.raw first_record.sig

first_parses :
    parse_record toy_crypto toy_codec toy_stamp first_record.raw first_record.sig toy_trusted
    ≡ ok first_parsed
unfolding parse_record verify_canonical validate_entry is_digest trim_space bytes_eq verify unarmor
    parse_signature signature_body parse_public_key_blob find_trusted verify_sig_blob sshsig_blob
    valid_namespace write_string write_uint32 read_string read_uint32 at_end has_prefix same_key
    make_record
first_parses = refl

parse_record_sound_example :
    IsParsed toy_crypto toy_codec toy_stamp first_record.raw first_record.sig toy_trusted
      first_parsed
parse_record_sound_example =
    parse_record_sound toy_crypto toy_codec toy_stamp first_record.raw first_record.sig toy_trusted
      first_parsed first_parses

abbrev entry_text : Bytes
entry_text = sshsig_blob toy_crypto namespace_chain_entry sshsig_hash_algo (codes "first")

abbrev entry_crypto : Crypto
entry_crypto =
    opening (signature_body toy_blob namespace_chain_entry (raw_signature (toy_sign entry_text)))

abbrev entry_armored : Bytes
entry_armored =
    armor entry_crypto
      (signature_body toy_blob namespace_chain_entry (raw_signature (toy_sign entry_text)))

abbrev made_record : Record
made_record = make_record entry_crypto first_record.entry (codes "first") entry_armored

made :
    new_record entry_crypto toy_codec toy_stamp
      (private_key_signer toy_key toy_sign)
      first_record.entry
    ≡ ok made_record
unfolding new_record sign private_key_signer validate_entry is_digest trim_space bytes_eq
    sshsig_blob valid_namespace write_string write_uint32 signature_body make_record
made = refl

made_verifies :
    verify entry_crypto made_record.sig namespace_chain_entry made_record.raw toy_trusted
    ≡ ok toy_key
unfolding bytes_eq verify unarmor armor make_record parse_signature signature_body
    parse_public_key_blob find_trusted verify_sig_blob sshsig_blob valid_namespace write_string
    write_uint32 read_string read_uint32 at_end has_prefix same_key trim_space
made_verifies = refl

parse_record-new_record_example :
    parse_record entry_crypto toy_codec toy_stamp made_record.raw made_record.sig toy_trusted
    ≡ ok made_record
unfolding make_record bytes_eq
parse_record-new_record_example =
    parse_record-new_record entry_crypto toy_codec toy_stamp (private_key_signer toy_key toy_sign)
      first_record.entry toy_trusted made_record toy_key made refl refl made_verifies
