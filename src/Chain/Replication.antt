-- ===== src/Chain/Replication.antt =====
-- The signed replication state of internal/chain/replication.go: what has been pushed elsewhere. The
-- texts of the reasons are modelled by the case that they name. The canonical encoding is a parameter,
-- as for entries.
pub mod State
pub mod Report
pub mod Status
pub mod Silence
use aurvet.Prelude.Text.{is_blank}
use aurvet.Prelude.{
  Bool, Bytes, Fallible, List, Option, [], bytes_eq, codes, eq_ℤ, err, fail_as, false,
  if◌then◌else◌, length, ltb, ltb_ℤ, none, not, ok, pos, refuse_if, some, true, ℕ, ℤ, ◌>>=◌, ◌>>◌,
  ◌^◌, ◌∷◌,
}
use aurvet.Baseline.{Error, err_signature}
use aurvet.Baseline.Key.{PublicKey}
use aurvet.Baseline.Sign.{Crypto, Signer, sign, verify_canonical}
use aurvet.Chain.{Anchor, is_digest}

pub record Replication : Type 0 where
  pub schema : ℤ
  pub remote : Bytes
  pub length : ℤ
  pub head : Bytes
  pub confirmed_at : Bytes
  pub protected_remote : Bool
  pub note : Bytes

unfoldable pub replication_anchor : Replication → Anchor
replication_anchor r = record { length = r.length; head = r.head }

pub record ReplicationInput : Type 0 where
  pub remote : Bytes
  pub length : ℤ
  pub head : Bytes
  pub confirmed_at : Bytes
  pub protected_remote : Bool
  pub note : Bytes

-- `ErrReplication`, or an error that is passed on.
pub data ReplicationError : Type 0 where
  err_replication : ReplicationError
  err_signing : Error → ReplicationError
  err_unreadable : ReplicationError

abbrev pub replication_schema : ℤ
replication_schema = pos 1

abbrev pub max_replication_bytes : ℕ
max_replication_bytes = 2 ^ 16

abbrev pub namespace_replication : Bytes
namespace_replication = codes "replication.aurvet.dev"

pub record ReplicationCodec : Type 0 where
  pub marshal : Replication → Fallible Error Bytes
  pub unmarshal : Bytes → Option Replication
  pub canonical : Bytes → Fallible Error Bytes

-- Why an absent state is absent.
pub data Reason : Type 0 where
  no_reason none_recorded unsigned_state too_large not_verified : Reason
  unparseable wrong_schema not_reencoding not_usable : Reason

pub data PayloadState : Type 0 where
  absent present : PayloadState

pub record ReplicationResult : Type 0 where
  pub state : PayloadState
  pub replication : Replication
  pub key : Option PublicKey
  pub reason : Reason

-- What reading a file gives: it is missing, it cannot be read, or its bytes.
pub data FileRead : Type 0 where
  missing unreadable : FileRead
  content : Bytes → FileRead

-- The zero value.
abbrev pub zero_replication : Replication
zero_replication = record {
  schema = pos 0;
  remote = [];
  length = pos 0;
  head = [];
  confirmed_at = [];
  protected_remote = false;
  note = [];
}

abbrev pub absent_because : Reason → ReplicationResult
absent_because why = record {
  state = absent;
  replication = zero_replication;
  key = none;
  reason = why;
}

module _ (C : Crypto) (K : ReplicationCodec) (parse_stamp : Bytes → Option ℤ) where
  unfoldable pub build_replication : ReplicationInput → Fallible ReplicationError Replication
  build_replication i = do
    refuse_if (is_blank i.remote) err_replication
    refuse_if (ltb_ℤ i.length (pos 0)) err_replication
    refuse_if (eq_ℤ i.length (pos 0)) err_replication
    refuse_if (not (is_digest i.head)) err_replication
    refuse_if (elim (parse_stamp i.confirmed_at) [ none ↦ true | some t ↦ false ]) err_replication
    let r : Replication = record {
      schema = replication_schema;
      remote = i.remote;
      length = i.length;
      head = i.head;
      confirmed_at = i.confirmed_at;
      protected_remote = i.protected_remote;
      note = i.note;
    }
    encoded ← fail_as err_replication (K.marshal r)
    ok r

  -- The input that re-checks a state that was read.
  input_of : Replication → ReplicationInput
  input_of r = record {
    remote = r.remote;
    length = r.length;
    head = r.head;
    confirmed_at = r.confirmed_at;
    protected_remote = r.protected_remote;
    note = r.note;
  }

  sign_raw : Signer → Bytes → Fallible Error (Bytes × Bytes)
  sign_raw s raw = do sig ← sign C s namespace_replication raw; ok (raw, sig)

  unfoldable pub sign_replication : Signer → Replication → Fallible Error (Bytes × Bytes)
  unfolding sign_raw
  sign_replication s r = do raw ← K.marshal r; sign_raw s raw

  -- The checks on a state that was parsed from the signed bytes `canon`.
  accept_parsed : Bytes → PublicKey → Replication → ReplicationResult
  accept_parsed canon key r =
      if not (eq_ℤ r.schema replication_schema)
      then absent_because wrong_schema
      else elim (K.marshal r) [
        | err e ↦ absent_because not_reencoding
        | ok again ↦
            if not (bytes_eq again canon)
            then absent_because not_reencoding
            else elim (build_replication (input_of r)) [
              | err e ↦ absent_because not_usable
              | ok built ↦ record {
                state = present;
                replication = r;
                key = some key;
                reason = no_reason;
              }
            ]
      ]

  no_trusted : List (Option PublicKey) → Bool
  no_trusted [] = true
  no_trusted (t ∷ ts) = false

  unfoldable pub verify_replication_result :
      Bytes → Bytes → List (Option PublicKey) → Fallible ReplicationError ReplicationResult
  unfolding no_trusted input_of accept_parsed
  verify_replication_result sig raw trusted = do
    refuse_if (no_trusted trusted) (err_signing err_signature)
    ok (
        if ltb max_replication_bytes (length raw)
        then absent_because too_large
        else elim (verify_canonical C K.canonical sig namespace_replication raw trusted) [
          | err e ↦ absent_because not_verified
          | ok (canon, key) ↦ elim (K.unmarshal canon) [
            | none ↦ absent_because unparseable
            | some r ↦ accept_parsed canon key r
          ]
        ])

  -- `LoadReplication`, on what reading the state and its signature gives.
  unfoldable pub load_replication :
      FileRead → FileRead → List (Option PublicKey) → Fallible ReplicationError ReplicationResult
  load_replication missing sig_file trusted = ok (absent_because none_recorded)
  load_replication unreadable sig_file trusted = err err_unreadable
  load_replication (content raw) missing trusted = ok (absent_because unsigned_state)
  load_replication (content raw) unreadable trusted = err err_unreadable
  load_replication (content raw) (content sig) trusted = verify_replication_result sig raw trusted
