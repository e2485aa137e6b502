-- ===== src/Chain/Verify.antt =====
-- `Verify` of internal/chain/chain.go. It returns its report with the first error, if any, as the source
-- does; the texts of the notes and of the limits are constants and are not modelled.
pub mod Checks
pub mod Snoc
pub mod Appending
pub mod Truncation
pub mod History
pub mod Spec
pub mod Signed
pub mod Order
use aurvet.Prelude.{
  Bool, Bytes, List, Option, [], bytes_eq, eq_ℤ, err, false, get_elem?, if◌then◌else◌, length,
  ltb_ℤ, none, not, ok, pos, pos_part, some, suc, true, ℕ, ℤ, ◌++◌, ◌-◌, ◌||◌, ◌∷◌,
}
use aurvet.Baseline.Key.{PublicKey}
use aurvet.Baseline.Sign.{Crypto, verify}
use aurvet.Baseline.Format.{namespace_chain_entry}
use aurvet.Chain.{
  Anchor, ChainError, Record, err_anchor_fork, err_baseline, err_entry, err_fork, err_prev_hash,
  err_replay, err_sequence, err_time, err_truncated, genesis_prev, head_anchor, index_panic,
  validate_entry,
}

pub record VerifyOptions : Type 0 where
  pub trusted : List (Option PublicKey)
  pub anchor : Option Anchor

pub record Report : Type 0 where
  pub length : ℕ
  pub head : Bytes
  pub truncation_checked : Bool
  pub note_count : ℕ
  pub signer_fingerprints : List Bytes

-- The first check that fails decides.
infixr 20 ◌or_else◌
abbrev pub ◌or_else◌ {ℓ} : {A : Type ℓ} → Option A → Option A → Option A
none or_else e = e
some e or_else _ = some e

index_of : Bytes → List (Bytes × ℕ) → Option ℕ
index_of k [] = none
index_of k ((j, i) ∷ m) = if bytes_eq j k then some i else index_of k m

-- A loop over `byHash`, `byPrev` or `byPayload`: the first record whose key an earlier one has.
pub repeat_check :
    (key : Record → Bytes) (fault : ℕ → ℕ → ChainError)
    → ℕ
    → List (Bytes × ℕ)
    → List Record
    → Option ChainError
unfolding index_of
repeat_check key fault i seen [] = none
repeat_check key fault i seen (r ∷ rs) = elim (index_of (key r) seen) [
  | some j ↦ some (fault j i)
  | none ↦ repeat_check key fault (suc i) ((key r, i) ∷ seen) rs
]

pub sequence_check : ℕ → List Record → Option ChainError
sequence_check i [] = none
sequence_check i (r ∷ rs) =
    let rest = sequence_check (suc i) rs in
    if not (eq_ℤ (pos i) r.entry.seq) then some (err_sequence i) else rest

-- `want` is the digest of the record before.
pub link_check : ℕ → Bytes → List Record → Option ChainError
link_check i want [] = none
link_check i want (r ∷ rs) =
    let rest = link_check (suc i) r.hash rs in
    if not (bytes_eq r.entry.prev_hash want) then some (err_prev_hash i) else rest

-- The order of two neighbouring stamps.
stamp_order : ℕ → Option ℤ → Option ℤ → Option ChainError
stamp_order i none cur = some err_entry
stamp_order i (some p) none = some err_entry
stamp_order i (some p) (some c) = if ltb_ℤ c p then some (err_time i) else none

module _ (parse_stamp : Bytes → Option ℤ) where
  pub time_check : ℕ → List Record → Option ChainError
  unfolding stamp_order
  time_check i [] = none
  time_check i (r ∷ []) = none
  time_check i (p ∷ r ∷ rs) =
      stamp_order (suc i) (parse_stamp p.entry.time) (parse_stamp r.entry.time)
      or_else time_check (suc i) (r ∷ rs)

unfoldable pub anchor_check : Option Anchor → List Record → Option ChainError
anchor_check none records = none
anchor_check (some a) records =
    if ltb_ℤ (pos (length records)) a.length
    then some (err_truncated a.length)
    else if ltb_ℤ (pos 0) a.length
    then elim (get_elem? records (pos_part a.length - 1)) [
      | none ↦ some index_panic
      | some r ↦ if not (bytes_eq r.hash a.head) then some (err_anchor_fork a.length) else none
    ]
    else none

module _ (parse_stamp : Bytes → Option ℤ) where
  -- The checks behind the signatures, in the order of the source.
  pub structure_check : List Record → Option Anchor → Option ChainError
  structure_check records anchor =
      repeat_check (λ r. r.hash) err_replay 0 [] records
      or_else repeat_check (λ r. r.entry.prev_hash) err_fork 0 [] records
      or_else sequence_check 0 records
      or_else link_check 0 genesis_prev records
      or_else repeat_check (λ r. r.entry.payload.sha256) err_replay 0 [] records
      or_else time_check parse_stamp 0 records
      or_else anchor_check anchor records

contains : Bytes → List Bytes → Bool
contains k [] = false
contains k (j ∷ js) = bytes_eq j k || contains k js

module _ (C : Crypto) (parse_stamp : Bytes → Option ℤ) (fingerprint : PublicKey → Bytes) where
  -- The signatures, over the bytes as received, and each entry on its face; the fingerprints of the
  -- signers seen so far are kept.
  pub signature_check :
      List (Option PublicKey) → List Bytes → List Record → List Bytes × Option ChainError
  unfolding contains
  signature_check trusted seen [] = (seen, none)
  signature_check trusted seen (r ∷ rs) =
      elim (verify C r.sig namespace_chain_entry r.raw trusted) [
        | err e ↦ (seen, some (err_baseline e))
        | ok key ↦
            let fp = fingerprint key in
            let seen' = if contains fp seen then seen else seen ++ fp ∷ [] in
            let rest = signature_check trusted seen' rs in
            elim (validate_entry parse_stamp r.entry) [ err e ↦ (seen', some e) | ok u ↦ rest ]
      ]

  unfoldable pub verify_chain : List Record → VerifyOptions → Report × Option ChainError
  unfolding signature_check structure_check repeat_check sequence_check link_check time_check
      anchor_check
  verify_chain records opt =
      let (fps, bad) = signature_check opt.trusted [] records in
      (
        record {
          length = length records;
          head = (head_anchor records).head;
          truncation_checked = elim opt.anchor [ none ↦ false | some a ↦ true ];
          note_count = elim opt.anchor [ none ↦ 1 | some a ↦ 0 ];
          signer_fingerprints = fps;
        },
        bad or_else structure_check parse_stamp records opt.anchor,
      )
