-- ===== src/Chain.antt =====
-- internal/chain/chain.go: entries, records and anchors of the append-only chain of signed baselines.
-- An `int64` is an integer; `seq + 1` wraps as it does in the source.
pub mod Records
pub mod Verify
pub mod Replication
use aurvet.Prelude.{
  Bool, Bytes, Fallible, List, Option, [], bytes_eq, codes, eq_ℤ, false, get_last?, if◌then◌else◌,
  length, ltb, ltb_ℤ, negsuc, none, not, pos, refuse_if, replicate, some, true, ℕ, ℤ, ◌&&◌, ◌+ℤ◌,
  ◌-◌, ◌==◌, ◌>>◌, ◌^◌, ◌||◌, ◌∷◌,
}
use aurvet.Prelude.Text.{is_blank}
use aurvet.Baseline.{Error}

pub record Payload : Type 0 where
  pub kind : Bytes
  pub namespace : Bytes
  pub sha256 : Bytes
  pub bytes : ℤ
  pub key_fingerprint : Bytes

pub record Entry : Type 0 where
  pub schema : ℤ
  pub seq : ℤ
  pub prev_hash : Bytes
  pub time : Bytes
  pub kind : Bytes
  pub host : Bytes
  pub payload : Payload
  pub note : Bytes

-- An entry with the bytes that were signed, their signature and their digest.
pub record Record : Type 0 where
  pub entry : Entry
  pub raw : Bytes
  pub sig : Bytes
  pub hash : Bytes

pub record Anchor : Type 0 where
  pub length : ℤ
  pub head : Bytes

-- The refusals: the sentinels of the package, with the positions that their messages name, and the
-- errors of the baseline package, which are passed on. `index_panic` is Go's run-time panic.
pub data ChainError : Type 0 where
  err_entry : ChainError
  err_baseline : Error → ChainError
  err_replay err_fork : ℕ → ℕ → ChainError
  err_sequence err_prev_hash err_time : ℕ → ChainError
  err_truncated : ℤ → ChainError
  err_anchor_fork : ℤ → ChainError
  index_panic : ChainError

abbrev pub chain_schema : ℤ
chain_schema = pos 1

abbrev pub genesis_prev : Bytes
genesis_prev = replicate 64 b'0'

abbrev pub kind_baseline : Bytes
kind_baseline = codes "baseline"

abbrev pub kind_append : Bytes
kind_append = codes "append"

hex_lower : Bytes → Bool
hex_lower [] = true
hex_lower (c ∷ s) = not ((ltb c b'0' || ltb b'9' c) && (ltb c b'a' || ltb b'f' c)) && hex_lower s

-- `validDigest`, as a test.
unfoldable pub is_digest : Bytes → Bool
unfolding hex_lower
is_digest s = length s == 64 && hex_lower s

-- `parse_stamp` is `baseline.ParseStamp`.
unfoldable pub validate_entry :
    (parse_stamp : Bytes → Option ℤ) → Entry → Fallible ChainError (Unit {0})
validate_entry parse_stamp e = do
  refuse_if (not (eq_ℤ e.schema chain_schema)) err_entry
  refuse_if (ltb_ℤ e.seq (pos 0)) err_entry
  refuse_if (not (is_digest e.prev_hash)) err_entry
  refuse_if (elim (parse_stamp e.time) [ none ↦ true | some t ↦ false ]) err_entry
  refuse_if (not (bytes_eq e.kind kind_baseline) && not (bytes_eq e.kind kind_append)) err_entry
  refuse_if (is_blank e.host) err_entry
  refuse_if (is_blank e.payload.kind) err_entry
  refuse_if (is_blank e.payload.namespace) err_entry
  refuse_if (not (is_digest e.payload.sha256)) err_entry
  refuse_if (ltb_ℤ e.payload.bytes (pos 0)) err_entry

-- `Zero`: the empty record.
unfoldable pub is_zero : Record → Bool
is_zero r = bytes_eq r.raw []

-- The successor of an `int64`.
unfoldable pub next_int64 : ℤ → ℤ
next_int64 n = if eq_ℤ n (pos (2 ^ 63 - 1)) then negsuc (2 ^ 63 - 1) else n +ℤ pos 1

unfoldable pub link : Option Record → Entry → Entry
unfolding next_int64 is_zero
link none e = record e { seq = pos 0; prev_hash = genesis_prev }
link (some head) e =
    if is_zero head
    then record e { seq = pos 0; prev_hash = genesis_prev }
    else record e { seq = next_int64 head.entry.seq; prev_hash = head.hash }

-- The anchor of a chain of `n` records with that last record.
anchor_of_last : ℕ → Option Record → Anchor
anchor_of_last n none = record { length = pos 0; head = [] }
anchor_of_last n (some r) = record { length = pos n; head = r.hash }

unfoldable pub head_anchor : List Record → Anchor
unfolding anchor_of_last
head_anchor records = anchor_of_last (length records) (get_last? records)
