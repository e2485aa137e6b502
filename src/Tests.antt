-- ===== src/Tests.antt =====
-- Small concrete values for the checks of Tests/: a key, a stand-in for the cryptographic library, in
-- which a signature is the end of the signed text, and a chain of two records.
pub mod Signing
pub mod Chains
pub mod Documents
pub mod Drifted
pub mod Gated
pub mod Replicated
pub mod Reports
pub mod Judged
pub mod Floors
pub mod Bundles
pub mod Manifests
pub mod Triaged
use aurvet.Prelude.{
  Bytes, List, Option, [], bytes_eq, codes, drop, length, none, pos, replicate, some, take, ℕ, ℤ,
  ◌++◌, ◌+◌, ◌-◌, ◌∷◌,
}
use aurvet.Baseline.Key.{PublicKey, algo_ed25519}
use aurvet.Baseline.Wire.{write_string}
use aurvet.Baseline.Format.{
  namespace_chain_entry, namespace_manifest, signature_body, sshsig_hash_algo,
}
use aurvet.Baseline.Sign.{Crypto, sshsig_blob}
use aurvet.Chain.{Entry, Record, genesis_prev, kind_append}

abbrev pub toy_blob : Bytes
toy_blob = write_string algo_ed25519 ++ write_string (replicate 32 7)

abbrev pub toy_key : PublicKey
toy_key = record {
  algorithm = algo_ed25519;
  comment = [];
  application = [];
  key = replicate 32 7;
  blob = toy_blob;
}

-- The last 64 bytes.
abbrev pub toy_sign : Bytes → Bytes
toy_sign message = drop (length message - 64) message

-- The armour of these checks is the body itself.
abbrev pub toy_crypto : Crypto
toy_crypto = record {
  sha256 = λ m. take 32 (m ++ replicate 32 0);
  sha512 = λ m. take 64 (m ++ replicate 64 0);
  ed25519_verify = λ key message sig. bytes_eq sig (toy_sign message);
  base64_encode = λ b. b;
  pem_decode = λ sig.
      some (record { type_name = codes "SSH SIGNATURE"; header_count = 0; content = sig }, []);
}

-- The signature of a document in a namespace.
abbrev pub toy_signature : Bytes → Bytes → Bytes
toy_signature ns message = signature_body toy_blob ns (
    write_string algo_ed25519
    ++ write_string (toy_sign (sshsig_blob toy_crypto ns sshsig_hash_algo message)))

abbrev pub toy_trusted : List (Option PublicKey)
toy_trusted = none ∷ some toy_key ∷ []

abbrev pub toy_stamp : Bytes → Option ℤ
toy_stamp s = some (pos (length s))

abbrev pub toy_fingerprint : PublicKey → Bytes
toy_fingerprint key = codes "fp"

abbrev pub toy_entry : ℕ → Bytes → Bytes → ℕ → Entry
toy_entry seq prev time digit = record {
  schema = pos 1;
  seq = pos seq;
  prev_hash = prev;
  time = time;
  kind = kind_append;
  host = codes "host";
  payload = record {
    kind = codes "manifest";
    namespace = namespace_manifest;
    sha256 = replicate 64 digit;
    bytes = pos 10;
    key_fingerprint = codes "fp";
  };
  note = [];
}

abbrev pub first_record : Record
first_record = record {
  entry = toy_entry 0 genesis_prev (codes "t") b'3';
  raw = codes "first";
  sig = toy_signature namespace_chain_entry (codes "first");
  hash = replicate 64 b'1';
}

abbrev pub second_record : Record
second_record = record {
  entry = toy_entry 1 (replicate 64 b'1') (codes "t+") b'4';
  raw = codes "second";
  sig = toy_signature namespace_chain_entry (codes "second");
  hash = replicate 64 b'2';
}

abbrev pub one_record : List Record
one_record = first_record ∷ []

abbrev pub two_records : List Record
two_records = first_record ∷ second_record ∷ []
