-- ===== src/Baseline/Key.antt =====
-- `PublicKey` of internal/baseline/keys.go.
use aurvet.Prelude.{
  Bool, Bytes, Fallible, [], bytes_eq, codes, fail_as, if◌then◌else◌, length, ltb, not, ok,
  refuse_if, ℕ, ◌&&◌, ◌==◌, ◌>>=◌, ◌>>◌, ◌^◌,
}
use aurvet.Baseline.{Error, err_key_format, err_unsupported_algorithm}
use aurvet.Baseline.Wire.{read_string, at_end}

abbrev pub algo_ed25519 : Bytes
algo_ed25519 = codes "ssh-ed25519"

abbrev pub algo_sk_ed25519 : Bytes
algo_sk_ed25519 = codes "sk-ssh-ed25519@openssh.com"

abbrev pub max_key_blob : ℕ
max_key_blob = 2 ^ 16

-- `ed25519.PublicKeySize`.
abbrev pub public_key_size : ℕ
public_key_size = 32

pub record PublicKey : Type 0 where
  pub algorithm : Bytes
  pub comment : Bytes
  pub application : Bytes
  pub key : Bytes
  pub blob : Bytes

-- The application string, which only a hardware-backed key carries.
read_application : Bytes → Bytes → Fallible Error (Bytes × Bytes)
read_application algo r =
    if bytes_eq algo algo_sk_ed25519 then fail_as err_key_format (read_string r) else ok ([], r)

unfoldable pub parse_public_key_blob : Bytes → Fallible Error PublicKey
unfolding read_application
parse_public_key_blob blob = do
  refuse_if (ltb max_key_blob (length blob)) err_key_format
  (algo, r) ← fail_as err_key_format (read_string blob)
  refuse_if (not (bytes_eq algo algo_ed25519) && not (bytes_eq algo algo_sk_ed25519))
      err_unsupported_algorithm
  (pub_bytes, r') ← fail_as err_key_format (read_string r)
  refuse_if (not (length pub_bytes == public_key_size)) err_key_format
  (app, r'') ← read_application algo r'
  fail_as err_key_format (at_end r'')
  ok (record { algorithm = algo; comment = []; application = app; key = pub_bytes; blob = blob })

-- `Equal`, on a key that is not nil.
unfoldable pub same_key : PublicKey → PublicKey → Bool
same_key k other = bytes_eq k.blob other.blob
