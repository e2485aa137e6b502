-- ===== src/Tests/Signing.antt =====
-- Signing and verifying with the stand-ins.
use aurvet.Prelude.Text.{trim_space}
use aurvet.Prelude.{Bytes, [], arith, bytes_eq, codes, has_prefix, ok, refl, some, ◌>>=◌, ◌≡◌}
use aurvet.Prelude.Text.{trim_space}
use aurvet.Baseline.Key.{parse_public_key_blob, same_key}
use aurvet.Baseline.Wire.{at_end, read_string, read_uint32, write_string, write_uint32}
use aurvet.Baseline.Format.{
  namespace_chain_entry, namespace_manifest, parse_signature, signature_body, sshsig_hash_algo,
  valid_namespace,
}
use aurvet.Baseline.Sign.{
  Crypto, armor, find_trusted, private_key_signer, sign, sshsig_blob, unarmor, verify,
  verify_sig_blob,
}
use aurvet.Baseline.Sign.Sound.{IsSigned, verify_sound}
use aurvet.Baseline.Sign.RoundTrip.{raw_signature, verify-sign}
use aurvet.Tests.{first_record, second_record, toy_blob, toy_crypto, toy_key, toy_sign, toy_trusted}

pub first_signed :
    verify toy_crypto first_record.sig namespace_chain_entry first_record.raw toy_trusted
    ≡ ok toy_key
unfolding verify unarmor parse_signature signature_body parse_public_key_blob find_trusted
    verify_sig_blob sshsig_blob valid_namespace write_string write_uint32 read_string read_uint32
    at_end bytes_eq has_prefix same_key trim_space
first_signed = refl

pub second_signed :
    verify toy_crypto second_record.sig namespace_chain_entry second_record.raw toy_trusted
    ≡ ok toy_key
unfolding verify unarmor parse_signature signature_body parse_public_key_blob find_trusted
    verify_sig_blob sshsig_blob valid_namespace write_string write_uint32 read_string read_uint32
    at_end bytes_eq has_prefix same_key trim_space
second_signed = refl

verify_sound_example :
    IsSigned toy_crypto first_record.sig namespace_chain_entry first_record.raw toy_trusted toy_key
verify_sound_example =
    verify_sound toy_crypto namespace_chain_entry first_record.raw toy_trusted {key = toy_key}
      first_record.sig first_signed

-- A library in which PEM decoding undoes the armour of one body.
abbrev pub opening : Bytes → Crypto
opening body = record toy_crypto {
  pem_decode = λ sig.
      some (record { type_name = codes "SSH SIGNATURE"; header_count = 0; content = body }, []);
}

abbrev signed_text : Bytes
signed_text = sshsig_blob toy_crypto namespace_manifest sshsig_hash_algo (codes "text")

abbrev text_body : Bytes
text_body = signature_body toy_blob namespace_manifest (raw_signature (toy_sign signed_text))

verify-sign_example :
    (sign
        (opening text_body)
        (private_key_signer toy_key toy_sign)
        namespace_manifest
        (codes "text")
      >>= λ sig. verify (opening text_body) sig namespace_manifest (codes "text") toy_trusted)
    ≡ ok toy_key
unfolding valid_namespace bytes_eq sshsig_blob write_string write_uint32 parse_public_key_blob
    find_trusted same_key signature_body armor read_string read_uint32 at_end
verify-sign_example =
    verify-sign (opening text_body) toy_key (record toy_key { comment = [] }) toy_key toy_sign
      namespace_manifest (codes "text") toy_trusted (toy_sign signed_text) refl refl (omega arith)
      refl refl refl refl refl (omega arith, omega arith, refl)
