-- ===== src/Baseline/Sign.antt =====
-- internal/baseline/sign.go: detached SSHSIG signatures. SHA-2, ed25519, base64 and PEM are Go's
-- standard library, and enter as the parameter `Crypto`; the signer is a parameter too, since a key
-- file or an ssh-agent may stand behind it.
pub mod Sound
pub mod RoundTrip
pub mod Binding
use aurvet.Prelude.{
  Bool, Bytes, Fallible, List, Option, [], bytes_eq, codes, err, fail_as, false, if◌then◌else◌,
  length, ltb, none, not, ok, refuse_if, some, true, ℕ, ◌++◌, ◌==◌, ◌>>=◌, ◌>>◌, ◌∷◌,
}
use aurvet.Prelude.Text.{is_blank}
use aurvet.Baseline.{
  Error, err_signature, err_key_format, err_unsupported_algorithm, err_not_canonical,
}
use aurvet.Baseline.Format.{
  sshsig_magic, signature_body, sshsig_version, sshsig_hash_algo, max_signature_len, signature_size,
  valid_namespace, ParsedSignature, parse_signature, wrap_lines,
}
use aurvet.Baseline.Wire.{write_string, write_uint32, read_string, read_uint32, read_byte, at_end}
use aurvet.Baseline.Key.{PublicKey, algo_ed25519, algo_sk_ed25519, parse_public_key_blob, same_key}

-- A decoded `pem.Block`.
pub record PemBlock : Type 0 where
  pub type_name : Bytes
  pub header_count : ℕ
  pub content : Bytes

pub record Crypto : Type 0 where
  pub sha256 : Bytes → Bytes
  pub sha512 : Bytes → Bytes
  -- `ed25519.Verify(publicKey, message, sig)`.
  pub ed25519_verify : Bytes → Bytes → Bytes → Bool
  -- `base64.StdEncoding.EncodeToString`.
  pub base64_encode : Bytes → Bytes
  -- `pem.Decode`: the first block and what follows it.
  pub pem_decode : Bytes → Option (PemBlock × Bytes)

-- The interface `Signer`; `none` is a nil key.
pub record Signer : Type 0 where
  pub public_key : Option PublicKey
  pub sign_ssh : Bytes → Fallible Error Bytes

-- `PrivateKey.SignSSH`, the signer behind a key file. `ed25519_sign` is `ed25519.Sign` under the
-- private half of `pub_key`.
unfoldable pub private_key_signer : PublicKey → (ed25519_sign : Bytes → Bytes) → Signer
private_key_signer pub_key ed25519_sign = record {
  public_key = some pub_key;
  sign_ssh = λ message. ok (write_string algo_ed25519 ++ write_string (ed25519_sign message));
}

-- The nil and empty checks of `Sign` on the signer's key.
usable_key : Option PublicKey → Fallible Error PublicKey
usable_key none = err err_key_format
usable_key (some k) = if bytes_eq k.blob [] then err err_key_format else ok k

-- The first trusted key that is not nil and equals the claimed one.
unfoldable pub find_trusted : PublicKey → List (Option PublicKey) → Fallible Error PublicKey
find_trusted claimed [] = err err_signature
find_trusted claimed (none ∷ ts) = find_trusted claimed ts
find_trusted claimed (some t ∷ ts) = if same_key t claimed then ok t else find_trusted claimed ts

no_keys : List (Option PublicKey) → Bool
no_keys [] = true
no_keys (t ∷ ts) = false

module _ (C : Crypto) where
  open C use {sha256, sha512, ed25519_verify, base64_encode, pem_decode}

  unfoldable pub sshsig_blob : Bytes → Bytes → Bytes → Bytes
  sshsig_blob ns hash_algo message =
      let h =
        if bytes_eq hash_algo (codes "sha512")
        then sha512 message
        else if bytes_eq hash_algo (codes "sha256")
        then sha256 message
        else [] in
      sshsig_magic
      ++ (write_string ns ++ (write_string [] ++ (write_string hash_algo ++ write_string h)))

  unfoldable pub armor : Bytes → Bytes
  unfolding wrap_lines
  armor body =
      let b64 = base64_encode body in
      codes "-----BEGIN SSH SIGNATURE-----\n"
      ++ (wrap_lines (length b64) b64 ++ codes "-----END SSH SIGNATURE-----\n")

  unfoldable pub sign : Signer → Bytes → Bytes → Fallible Error Bytes
  unfolding usable_key
  sign s ns message = do
    valid_namespace ns
    key ← usable_key s.public_key
    sig_blob ← s.sign_ssh (sshsig_blob ns sshsig_hash_algo message)
    ok (armor (signature_body key.blob ns sig_blob))

  unarmor_block : Option (PemBlock × Bytes) → Fallible Error Bytes
  unarmor_block none = err err_signature
  unarmor_block (some (blk, rest)) = do
    refuse_if (not (bytes_eq blk.type_name (codes "SSH SIGNATURE"))) err_signature
    refuse_if (not (blk.header_count == 0)) err_signature
    refuse_if (not (is_blank rest)) err_signature
    refuse_if (bytes_eq blk.content []) err_signature
    ok blk.content

  unfoldable pub unarmor : Bytes → Fallible Error Bytes
  unfolding unarmor_block
  unarmor sig = do
    refuse_if (bytes_eq sig []) err_signature
    refuse_if (ltb max_signature_len (length sig)) err_signature
    unarmor_block (pem_decode sig)

  -- The part of `verifySigBlob` behind the raw signature, for each algorithm.
  check_raw : PublicKey → Bytes → Bytes → Bytes → Fallible Error (Unit {0})
  check_raw key raw rest signed =
      if bytes_eq key.algorithm algo_ed25519
      then (do
        fail_as err_signature (at_end rest)
        refuse_if (not (ed25519_verify key.key signed raw)) err_signature)
      else if bytes_eq key.algorithm algo_sk_ed25519
      then (do
        (flags, r1) ← fail_as err_signature (read_byte rest)
        (counter, r2) ← fail_as err_signature (read_uint32 r1)
        fail_as err_signature (at_end r2)
        refuse_if
            (not (
              ed25519_verify key.key
                (sha256 key.application ++ (flags ∷ (write_uint32 counter ++ sha256 signed))) raw))
            err_signature)
      else err err_unsupported_algorithm

  unfoldable pub verify_sig_blob : PublicKey → Bytes → Bytes → Fallible Error (Unit {0})
  unfolding check_raw
  verify_sig_blob key sig_blob signed = do
    (algo, r1) ← fail_as err_signature (read_string sig_blob)
    refuse_if (not (bytes_eq algo key.algorithm)) err_signature
    (raw, r2) ← fail_as err_signature (read_string r1)
    refuse_if (not (length raw == signature_size)) err_signature
    check_raw key raw r2 signed

  -- `Verify` after the armour is parsed.
  verify_parsed :
      ParsedSignature → Bytes → Bytes → List (Option PublicKey) → Fallible Error PublicKey
  verify_parsed parsed ns message trusted = do
    refuse_if (not (parsed.version == sshsig_version)) err_signature
    refuse_if (not (bytes_eq parsed.namespace ns)) err_signature
    refuse_if (not (bytes_eq parsed.hash_algo sshsig_hash_algo)) err_signature
    claimed ← fail_as err_signature (parse_public_key_blob parsed.key_blob)
    key ← find_trusted claimed trusted
    verify_sig_blob key parsed.sig_blob (sshsig_blob ns parsed.hash_algo message)
    ok key

  -- The arguments are the signature, the namespace, the message and the trusted keys.
  unfoldable pub verify : Bytes → Bytes → Bytes → List (Option PublicKey) → Fallible Error PublicKey
  unfolding no_keys verify_parsed
  verify sig ns message trusted = do
    refuse_if (no_keys trusted) err_signature
    fail_as err_signature (valid_namespace ns)
    body ← fail_as err_signature (unarmor sig)
    parsed ← fail_as err_signature (parse_signature body)
    verify_parsed parsed ns message trusted

  -- `canonical` is `Canonical` of canon.go, which re-encodes a JSON document.
  unfoldable pub verify_canonical :
      (canonical : Bytes → Fallible Error Bytes)
      → Bytes
      → Bytes
      → Bytes
      → List (Option PublicKey)
      → Fallible Error (Bytes × PublicKey)
  verify_canonical canonical sig ns raw trusted = do
    key ← verify sig ns raw trusted
    c ← canonical raw
    refuse_if (not (bytes_eq c raw)) err_not_canonical
    ok (c, key)

  -- `SignatureNamespace`.
  unfoldable pub signature_namespace : Bytes → Fallible Error Bytes
  signature_namespace sig = do
    body ← fail_as err_signature (unarmor sig)
    parsed ← fail_as err_signature (parse_signature body)
    ok parsed.namespace
