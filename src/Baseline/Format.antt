-- ===== src/Baseline/Format.antt =====
-- The signature format of internal/baseline/sign.go: namespaces, and the fields of an SSHSIG body.
pub mod RoundTrip
use aurvet.Prelude.{
  Bool, Bytes, Fallible, [], bytes_eq, codes, drop, fail_as, has_prefix, leb, length, ltb, not, ok,
  refuse_if, suc, take, true, zero, ℕ, ◌&&◌, ◌++◌, ◌>>=◌, ◌>>◌, ◌^◌, ◌||◌, ◌∷◌,
}
use aurvet.Baseline.{Error, err_signature}
use aurvet.Baseline.Wire.{write_string, write_uint32, read_string, read_uint32, at_end, WireError}

abbrev pub namespace_manifest : Bytes
namespace_manifest = codes "manifest.aurvet.dev"

abbrev pub namespace_chain_entry : Bytes
namespace_chain_entry = codes "chain-entry.aurvet.dev"

abbrev pub sshsig_magic : Bytes
sshsig_magic = codes "SSHSIG"

abbrev pub sshsig_version : ℕ
sshsig_version = 1

abbrev pub sshsig_hash_algo : Bytes
sshsig_hash_algo = codes "sha512"

abbrev pub max_signature_len : ℕ
max_signature_len = 2 ^ 16

-- `ed25519.SignatureSize`.
abbrev pub signature_size : ℕ
signature_size = 64

-- Graphic ASCII: no blank, no control byte.
graphic_ascii : Bytes → Bool
graphic_ascii [] = true
graphic_ascii (c ∷ s) = not (leb c b' ' || ltb b'~' c) && graphic_ascii s

unfoldable pub valid_namespace : Bytes → Fallible Error (Unit {0})
unfolding graphic_ascii
valid_namespace ns = do
  refuse_if (bytes_eq ns []) err_signature
  refuse_if (ltb 255 (length ns)) err_signature
  refuse_if (not (graphic_ascii ns)) err_signature

pub record ParsedSignature : Type 0 where
  pub version : ℕ
  pub key_blob : Bytes
  pub namespace : Bytes
  pub hash_algo : Bytes
  pub sig_blob : Bytes

-- The reads of `parseSignature`, behind the magic.
parse_fields : Bytes → Fallible WireError ParsedSignature
parse_fields r0 = do
  (version, r1) ← read_uint32 r0
  (key_blob, r2) ← read_string r1
  (ns, r3) ← read_string r2
  (reserved, r4) ← read_string r3
  refuse_if (not (bytes_eq reserved [])) WireError.trailing
  (hash_algo, r5) ← read_string r4
  (sig_blob, r6) ← read_string r5
  at_end r6
  ok (record {
    version = version;
    key_blob = key_blob;
    namespace = ns;
    hash_algo = hash_algo;
    sig_blob = sig_blob;
  })

unfoldable pub parse_signature : Bytes → Fallible Error ParsedSignature
unfolding parse_fields
parse_signature body = do
  refuse_if (ltb max_signature_len (length body)) err_signature
  refuse_if (not (has_prefix body sshsig_magic)) err_signature
  fail_as err_signature (parse_fields (drop 6 body))

-- Lines of 70 characters; each round takes one at least, so the length is enough fuel.
unfoldable pub wrap_lines : ℕ → Bytes → Bytes
wrap_lines zero text = []
wrap_lines (suc f) [] = []
wrap_lines (suc f) (c ∷ text) = take 70 (c ∷ text) ++ (b'\n' ∷ wrap_lines f (drop 70 (c ∷ text)))

-- What `Sign` writes before the armour.
unfoldable pub signature_body : Bytes → Bytes → Bytes → Bytes
signature_body blob ns sig_blob =
    sshsig_magic
    ++ (write_uint32 sshsig_version
        ++ (write_string blob
            ++ (write_string ns
                ++ (write_string [] ++ (write_string sshsig_hash_algo ++ write_string sig_blob)))))
