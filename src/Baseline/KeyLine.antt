-- ===== src/Baseline/KeyLine.antt =====
-- `ParsePublicKey`, `Fingerprint` and `HardwareBacked` of internal/baseline/keys.go. `base64_decode` is
-- `base64.StdEncoding.DecodeString`.
use aurvet.Prelude.{
  Bool, Bytes, Fallible, Option, [], bytes_eq, codes, err, none, not, ok, refuse_if, some, ℕ, ◌++◌,
  ◌==◌, ◌>>=◌, ◌>>◌, ◌||◌,
}
use aurvet.Prelude.Text.{trim_space}
use aurvet.Prelude.Split.{cut, has_byte, trim_right}
use aurvet.Baseline.{Error, err_key_format}
use aurvet.Baseline.Key.{PublicKey, algo_sk_ed25519, parse_public_key_blob}
use aurvet.Baseline.Sign.{Crypto}

line_end : ℕ → Bool
line_end c = c == 13 || c == 10

-- `strings.SplitN(text, " ", 3)`: the first field, the second if there is one, and the rest.
pub record KeyFields : Type 0 where
  pub algorithm : Bytes
  pub encoded : Bytes
  pub comment : Bytes

second_field : Bytes → Bytes → KeyFields
second_field algo rest = elim (cut b' ' rest) [
  | none ↦ record { algorithm = algo; encoded = rest; comment = [] }
  | some (encoded, comment) ↦ record {
    algorithm = algo;
    encoded = encoded;
    comment = trim_space comment;
  }
]

split_fields : Bytes → Fallible Error KeyFields
split_fields text = elim (cut b' ' text) [
  | none ↦ err err_key_format
  | some (algo, rest) ↦ ok (second_field algo rest)
]

decoded : Option Bytes → Fallible Error Bytes
decoded none = err err_key_format
decoded (some b) = ok b

unfoldable pub parse_public_key : (Bytes → Option Bytes) → Bytes → Fallible Error PublicKey
unfolding split_fields second_field line_end decoded
parse_public_key base64_decode line = do
  let text = trim_right line_end line
  refuse_if (has_byte line_end text) err_key_format
  fields ← split_fields (trim_space text)
  blob ← decoded (base64_decode fields.encoded)
  k ← parse_public_key_blob blob
  refuse_if (not (bytes_eq k.algorithm fields.algorithm)) err_key_format
  ok (record k { comment = fields.comment })

unfoldable pub key_fingerprint : Crypto → PublicKey → Bytes
key_fingerprint C k =
    codes "SHA256:" ++ trim_right (λ c. c == b'=') (C.base64_encode (C.sha256 k.blob))

unfoldable pub hardware_backed : PublicKey → Bool
hardware_backed k = bytes_eq k.algorithm algo_sk_ed25519
