-- ===== src/Chain/Records.antt =====
-- `NewRecord`, `ParseRecord` and `decodeEntry` of internal/chain/chain.go. The canonical JSON encoding
-- (canon.go, over encoding/json and reflection) is a parameter: `marshal` is `baseline.Marshal` of an
-- entry, `unmarshal` is `strictUnmarshal` into an entry, `canonical` is `baseline.Canonical`.
pub mod Laws
use aurvet.Prelude.{
  Bytes, Fallible, List, Option, bytes_eq, err, fail_as, none, not, ok, refuse_if, some, ℤ, ◌>>=◌,
  ◌>>◌,
}
use aurvet.Finding.Fingerprint.{hex}
use aurvet.Baseline.{Error}
use aurvet.Baseline.Key.{PublicKey}
use aurvet.Baseline.Format.{namespace_chain_entry}
use aurvet.Baseline.Sign.{Crypto, Signer, sign, verify_canonical}
use aurvet.Chain.{ChainError, Entry, Record, err_baseline, err_entry, validate_entry}

pub record Codec : Type 0 where
  pub marshal : Entry → Fallible Error Bytes
  pub unmarshal : Bytes → Option Entry
  pub canonical : Bytes → Fallible Error Bytes

-- An error of the baseline package is passed on.
abbrev pub lift_baseline {ℓ} : {A : Type ℓ} → Fallible Error A → Fallible ChainError A
lift_baseline (ok a) = ok a
lift_baseline (err e) = err (err_baseline e)

-- `%w` of the package's own sentinel around a parser that reports no value.
abbrev pub or_entry_error {ℓ} : {A : Type ℓ} → Option A → Fallible ChainError A
or_entry_error none = err err_entry
or_entry_error (some a) = ok a

module _ (C : Crypto) where
  -- `record`: the digest is the hexadecimal SHA-256 of the signed bytes.
  unfoldable pub make_record : Entry → Bytes → Bytes → Record
  make_record e raw sig = record { entry = e; raw = raw; sig = sig; hash = hex (C.sha256 raw) }

module _ (C : Crypto) (K : Codec) (parse_stamp : Bytes → Option ℤ) where
  unfoldable pub new_record : Signer → Entry → Fallible ChainError Record
  new_record s e = do
    validate_entry parse_stamp e
    raw ← fail_as err_entry (K.marshal e)
    sig ← lift_baseline (sign C s namespace_chain_entry raw)
    ok (make_record C e raw sig)

  unfoldable pub decode_entry : Bytes → Fallible ChainError Entry
  decode_entry canon = do
    e ← or_entry_error (K.unmarshal canon)
    again ← fail_as err_entry (K.marshal e)
    refuse_if (not (bytes_eq again canon)) err_entry
    validate_entry parse_stamp e
    ok e

  unfoldable pub parse_record : Bytes → Bytes → List (Option PublicKey) → Fallible ChainError Record
  unfolding decode_entry
  parse_record raw sig trusted = do
    (canon, key) ←
        lift_baseline (verify_canonical C K.canonical sig namespace_chain_entry raw trusted)
    e ← decode_entry canon
    ok (make_record C e canon sig)
