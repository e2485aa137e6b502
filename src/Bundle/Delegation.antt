-- ===== src/Bundle/Delegation.antt =====
-- internal/bundle/delegation.go. The JSON codec of a delegation is a parameter: `marshal` is
-- `baseline.Marshal`, `decode_strict` is `decodeStrict`, `canonical` is `baseline.Canonical`.
pub mod Threshold
pub mod Windows
use aurvet.Prelude.{
  Bool, Bytes, Fallible, List, Option, [], bytes_eq, bytes_lt, codes, eq_ℤ, err, fail_as, false,
  if◌then◌else◌, length, ltb, ltb_ℤ, none, not, ok, pos, refuse_if, some, true, ℕ, ℤ, ◌++◌, ◌==◌,
  ◌>>=◌, ◌>>◌, ◌||◌, ◌∷◌,
}
use aurvet.Prelude.Time.{days, time_sub}
use aurvet.Baseline.{Error, err_not_canonical}
use aurvet.Baseline.Key.{PublicKey}
use aurvet.Baseline.KeyLine.{key_fingerprint, parse_public_key}
use aurvet.Baseline.Sign.{Crypto, verify}
use aurvet.Bundle.{
  BundleError, err_baseline, err_delegation, err_no_root_keys, err_threshold, or_error, passed_on,
  spec_version,
}
use aurvet.Bundle.Roots.{RootSet, index, is_empty, key_slice}

pub record SigningKey : Type 0 where
  pub public_key : Bytes
  pub not_before : Bytes
  pub not_after : Bytes

pub record Delegation : Type 0 where
  pub spec : ℤ
  pub root_generation : ℤ
  pub serial : ℤ
  pub issued_at : Bytes
  pub valid_until : Bytes
  pub signing_keys : List SigningKey
  pub root_set_retired : Bool
  pub upgrade_message : Bytes

abbrev pub max_online_key_lifetime : ℤ
max_online_key_lifetime = days 90

abbrev pub max_delegation_lifetime : ℤ
max_delegation_lifetime = days 365

abbrev pub max_signing_keys : ℕ
max_signing_keys = 4

abbrev pub max_delegation_bytes : ℕ
max_delegation_bytes = 65536

abbrev pub namespace_delegation : Bytes
namespace_delegation = codes "delegation.aurvet.dev"

-- What the package takes from elsewhere.
pub record Channel : Type 0 where
  pub crypto : Crypto
  pub base64_decode : Bytes → Option Bytes
  pub parse_stamp : Bytes → Option ℤ
  pub canonical : Bytes → Fallible Error Bytes

pub record DelegationCodec : Type 0 where
  pub marshal : Delegation → Fallible Error Bytes
  pub decode_strict : Bytes → Option Delegation

-- Why a key was left out.
pub data Exclusion : Type 0 where
  not_yet_valid key_expired : Bytes → Exclusion

no_signing_keys : List SigningKey → Bool
no_signing_keys [] = true
no_signing_keys (k ∷ ks) = false

-- The order of the fingerprints; there is none before the first key.
out_of_order : Option Bytes → Bytes → Bool
out_of_order none fp = false
out_of_order (some prev) fp = bytes_eq fp prev || bytes_lt fp prev

pub seen_index : ℕ → List ℕ → Bool
seen_index i [] = false
seen_index i (j ∷ js) = i == j || seen_index i js

module _ (H : Channel) where
  pub stamp : Bytes → Fallible BundleError ℤ
  stamp s = or_error err_delegation (H.parse_stamp s)

  -- The window of one key, and its fingerprint.
  unfoldable pub validate_key : ℤ → SigningKey → Fallible BundleError Bytes
  unfolding stamp
  validate_key until sk = do
    key ← fail_as err_delegation (parse_public_key H.base64_decode sk.public_key)
    nb ← stamp sk.not_before
    na ← stamp sk.not_after
    refuse_if (not (ltb_ℤ nb na)) err_delegation
    refuse_if (ltb_ℤ max_online_key_lifetime (time_sub na nb)) err_delegation
    refuse_if (ltb_ℤ until na) err_delegation
    ok (key_fingerprint H.crypto key)

  pub validate_keys : ℤ → Option Bytes → List SigningKey → Fallible BundleError (Unit {0})
  unfolding out_of_order
  validate_keys until prev [] = ok tt
  validate_keys until prev (sk ∷ sks) = validate_key until sk >>= λ fp.
      refuse_if (out_of_order prev fp) err_delegation >> validate_keys until (some fp) sks

  -- `ValidateDelegation` behind the document's own window.
  pub validate_names : ℤ → Delegation → Fallible BundleError (Unit {0})
  unfolding no_signing_keys validate_keys
  validate_names until d =
      if d.root_set_retired
      then (do
        refuse_if (not (no_signing_keys d.signing_keys)) err_delegation
        refuse_if (ltb (length d.upgrade_message) 16) err_delegation)
      else (do
        refuse_if (not (bytes_eq d.upgrade_message [])) err_delegation
        refuse_if (no_signing_keys d.signing_keys) err_delegation
        refuse_if (ltb max_signing_keys (length d.signing_keys)) err_delegation
        validate_keys until none d.signing_keys)

  unfoldable pub validate_delegation : Delegation → Fallible BundleError (Unit {0})
  unfolding stamp validate_names
  validate_delegation d = do
    refuse_if (not (eq_ℤ d.spec spec_version)) err_delegation
    refuse_if (ltb_ℤ d.root_generation (pos 1)) err_delegation
    refuse_if (ltb_ℤ d.serial (pos 1)) err_delegation
    issued ← stamp d.issued_at
    until ← stamp d.valid_until
    refuse_if (not (ltb_ℤ issued until)) err_delegation
    refuse_if (ltb_ℤ max_delegation_lifetime (time_sub until issued)) err_delegation
    validate_names until d

  -- The loop of `VerifyDelegation` over the signatures; `seen` are the indices of the keys that signed.
  pub count_signers : RootSet → Bytes → List ℕ → List Bytes → Fallible BundleError (List ℕ)
  unfolding seen_index
  count_signers set raw seen [] = ok seen
  count_signers set raw seen (sig ∷ sigs) =
      fail_as err_threshold (verify H.crypto sig namespace_delegation raw (key_slice set))
      >>= λ key. or_error err_threshold (index set key) >>= λ idx.
          refuse_if (seen_index idx seen) err_threshold >> count_signers set raw (idx ∷ seen) sigs

  module _ (K : DelegationCodec) where
    unfoldable pub decode_delegation : Bytes → Fallible BundleError Delegation
    decode_delegation canon = do
      d ← or_error err_delegation (K.decode_strict canon)
      again ← fail_as err_delegation (K.marshal d)
      refuse_if (not (bytes_eq again canon)) err_delegation
      validate_delegation d
      ok d

    unfoldable pub verify_delegation :
        Bytes → List Bytes → RootSet → Fallible BundleError (Delegation × Bytes)
    unfolding count_signers
    verify_delegation raw sigs set = do
      refuse_if (is_empty set) err_no_root_keys
      refuse_if (ltb max_delegation_bytes (length raw)) err_delegation
      refuse_if (ltb (length set.keys) (length sigs)) err_threshold
      seen ← count_signers set raw [] sigs
      refuse_if (ltb_ℤ (pos (length seen)) set.threshold) err_threshold
      canon ← passed_on (H.canonical raw)
      refuse_if (not (bytes_eq canon raw)) (err_baseline err_not_canonical)
      d ← decode_delegation canon
      refuse_if (not (eq_ℤ d.root_generation set.generation)) err_delegation
      ok (d, canon)

  -- `ActiveKeys`, one key at a time: it is in its window, or it is left out, with or without a reason.
  unfoldable pub active_key : ℤ → SigningKey → List PublicKey × List Exclusion
  active_key now sk = elim (parse_public_key H.base64_decode sk.public_key) [
    | err e ↦ ([], [])
    | ok key ↦ elim (H.parse_stamp sk.not_before) [
      | none ↦ ([], [])
      | some nb ↦ elim (H.parse_stamp sk.not_after) [
        | none ↦ ([], [])
        | some na ↦
            if ltb_ℤ now nb
            then ([], not_yet_valid (key_fingerprint H.crypto key) ∷ [])
            else if not (ltb_ℤ now na)
            then ([], key_expired (key_fingerprint H.crypto key) ∷ [])
            else (key ∷ [], [])
      ]
    ]
  ]

  pub active_keys_of : ℤ → List SigningKey → List PublicKey × List Exclusion
  active_keys_of now [] = ([], [])
  active_keys_of now (sk ∷ sks) =
      let (keys, reasons) = active_key now sk in
      let (keys', reasons') = active_keys_of now sks in (keys ++ keys', reasons ++ reasons')

  unfoldable pub active_keys : Delegation → ℤ → List PublicKey × List Exclusion
  unfolding active_keys_of
  active_keys d now = active_keys_of now d.signing_keys

  -- `Expired`.
  unfoldable pub delegation_expired : Delegation → ℤ → Bool
  delegation_expired d now = elim (H.parse_stamp d.valid_until) [
    | none ↦ true
    | some until ↦ not (ltb_ℤ now until)
  ]
