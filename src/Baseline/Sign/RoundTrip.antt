-- ===== src/Baseline/Sign/RoundTrip.antt =====
-- `Sign` and `Verify` of internal/baseline/sign.go.
use aurvet.Prelude.{
  Bytes, List, Option, [], append-nil, arith, bytes_eq, bytes_eq_refl, codes, false, length,
  length-append, ltb, ok, refl, some, true, ℕ, ◌++◌, ◌>>=◌, ◌∷◌, ◌≡◌, ◌≢◌, ◌≤◌,
}
use aurvet.Baseline.Wire.{
  length-write_string, Fits, at_end, read_string, read_string-write_string, read_uint32,
  write_string,
}
use aurvet.Baseline.Format.{
  max_signature_len, signature_body, signature_size, sshsig_hash_algo, valid_namespace,
}
use aurvet.Baseline.Format.RoundTrip.{parse_signature-signature_body}
use aurvet.Baseline.Key.{PublicKey, algo_ed25519, parse_public_key_blob}
use aurvet.Baseline.Sign.{
  Crypto, armor, find_trusted, no_keys, private_key_signer, sign, sshsig_blob, unarmor,
  unarmor_block, verify, verify_parsed, verify_sig_blob,
}
use aurvet.Prelude.Text.{trim_space}

-- The wire form of the raw signature that a key file's signer returns.
abbrev pub raw_signature : Bytes → Bytes
raw_signature raw = write_string algo_ed25519 ++ write_string raw

valid_namespace_short : (ns : Bytes) → valid_namespace ns ≡ ok tt → length ns ≤ 255
unfolding valid_namespace
valid_namespace_short ns h = ground arith

verify_sig_blob-raw_signature :
    (C : Crypto) (key : PublicKey) (raw signed : Bytes)
    → key.algorithm ≡ algo_ed25519
    → length raw ≡ signature_size
    → C.ed25519_verify key.key signed raw ≡ true
    → verify_sig_blob C key (raw_signature raw) signed ≡ ok tt
unfolding verify_sig_blob bytes_eq at_end
verify_sig_blob-raw_signature C key raw signed algo size good =
    rw (read_string-write_string algo_ed25519 (write_string raw) (omega arith)) (
      rw algo (
        rw (← append-nil (write_string raw))
          (rw (read_string-write_string raw [] (omega arith)) (rw (size, good)))))

armor-ne-nil : (C : Crypto) (body : Bytes) → bytes_eq (armor C body) [] ≡ false
unfolding armor bytes_eq
armor-ne-nil C body = refl

ne_nil : (b : Bytes) → b ≢ [] → bytes_eq b [] ≡ false
unfolding bytes_eq
ne_nil [] h = absurd (h refl)
ne_nil (c ∷ b) h = refl

not_ltb : (m n : ℕ) → n ≤ m → ltb m n ≡ false
not_ltb m n h = ground arith

unarmor-armor :
    (C : Crypto) (body : Bytes)
    → body ≢ []
    → length (armor C body) ≤ max_signature_len
    → C.pem_decode (armor C body)
      ≡ some (record { type_name = codes "SSH SIGNATURE"; header_count = 0; content = body }, [])
    → unarmor C (armor C body) ≡ ok body
unfolding unarmor
unarmor-armor C body ne small decoded = rw (armor-ne-nil C body) (
    rw (not_ltb max_signature_len (length (armor C body)) small)
      (rw (decoded, unarmor_block) (unfold bytes_eq trim_space in rw (ne_nil body ne))))

-- A blob that parses as a key is not empty.
blob-ne-nil : (blob : Bytes) {k : PublicKey} → parse_public_key_blob blob ≡ ok k → blob ≢ []
unfolding parse_public_key_blob read_string read_uint32
blob-ne-nil [] h e = cc
blob-ne-nil (b ∷ blob) h e = cc

no_keys-find_trusted :
    (claimed : PublicKey) (ts : List (Option PublicKey)) {key : PublicKey}
    → find_trusted claimed ts ≡ ok key
    → no_keys ts ≡ false
unfolding no_keys find_trusted
no_keys-find_trusted claimed [] h = absurd cc
no_keys-find_trusted claimed (t ∷ ts) h = refl

signature_body-ne-nil : (blob ns sig : Bytes) → signature_body blob ns sig ≢ []
unfolding signature_body
signature_body-ne-nil blob ns sig h = cc

sign-private_key_signer :
    (C : Crypto) (pub_key : PublicKey) (ed25519_sign : Bytes → Bytes) (ns message raw : Bytes)
    → ed25519_sign (sshsig_blob C ns sshsig_hash_algo message) ≡ raw
    → valid_namespace ns ≡ ok tt
    → pub_key.blob ≢ []
    → sign C (private_key_signer pub_key ed25519_sign) ns message
      ≡ ok (armor C (signature_body pub_key.blob ns (raw_signature raw)))
unfolding sign private_key_signer
sign-private_key_signer C pub_key ed25519_sign ns message raw signs valid ne =
    rw valid (rw (ne_nil pub_key.blob ne) (rw signs))

raw_signature-Fits : (raw : Bytes) → length raw ≡ signature_size → Fits (raw_signature raw)
raw_signature-Fits raw size =
    rw (length-append (write_string algo_ed25519) (write_string raw))
      (omega (arith, length-write_string algo_ed25519, length-write_string raw))

-- A key file whose raw signatures verify under a trusted key: what `Sign` makes with it in a
-- namespace, `Verify` accepts in that namespace for the same message, and returns the trusted key. PEM
-- decoding is assumed to undo the armour, and the signature to stay below its limits.
pub verify-sign :
    (C : Crypto) (pub_key claimed key : PublicKey) (ed25519_sign : Bytes → Bytes)
    (ns message : Bytes) (trusted : List (Option PublicKey)) (raw : Bytes)
    → ed25519_sign (sshsig_blob C ns sshsig_hash_algo message) ≡ raw
    → valid_namespace ns ≡ ok tt
    → Fits pub_key.blob
    → parse_public_key_blob pub_key.blob ≡ ok claimed
    → find_trusted claimed trusted ≡ ok key
    → key.algorithm ≡ algo_ed25519
    → length raw ≡ signature_size
    → C.ed25519_verify key.key (sshsig_blob C ns sshsig_hash_algo message) raw ≡ true
    → (let body = signature_body pub_key.blob ns (raw_signature raw) in
        (length body ≤ max_signature_len)
        × (length (armor C body) ≤ max_signature_len)
        × (C.pem_decode (armor C body)
            ≡ some (
              record { type_name = codes "SSH SIGNATURE"; header_count = 0; content = body },
              [],
            )))
    → (sign C (private_key_signer pub_key ed25519_sign) ns message >>= λ sig.
        verify C sig ns message trusted)
      ≡ ok key
verify-sign C pub_key claimed key ed25519_sign ns message trusted raw signs valid fits parses found
      algo size good (small, small', decoded) =
    let body = signature_body pub_key.blob ns (raw_signature raw) in
    let signed =
      sign-private_key_signer C pub_key ed25519_sign ns message raw signs valid
        (blob-ne-nil pub_key.blob parses) in
    let opened = unarmor-armor C body (signature_body-ne-nil _ _ _) small' decoded in
    let read =
      parse_signature-signature_body pub_key.blob ns (raw_signature raw) fits
        (omega (arith, valid_namespace_short ns valid)) (raw_signature-Fits raw size) small in
    let checked = verify_sig_blob-raw_signature C key raw _ algo size good in
    rw signed (
      unfold verify verify_parsed in
      rw (no_keys-find_trusted claimed trusted found) (
        rw (valid, opened)
          (rw read (
            rw (bytes_eq_refl ns, bytes_eq_refl sshsig_hash_algo)
              (rw (parses, found) (rw checked))))))
