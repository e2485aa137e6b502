-- ===== src/Adjudicate.antt =====
-- internal/adjudicate: scopes, records, requests and the epoch registry (adjudicate.go and epoch.go).
-- A `time.Time` is an instant in nanoseconds. `baseline.Marshal` of the two small structures that are
-- digested is a parameter, as are SHA-256 and the parsing and printing of RFC 3339.
pub mod Reason
pub mod Judging
pub mod Apply
pub mod Lapse
pub mod Fresh
use aurvet.Prelude.{
  Bool, Bytes, Fallible, List, Option, [], bytes_eq, bytes_lt, codes, err, false, if◌then◌else◌,
  ltb_ℤ, none, not, ok, pos, refuse_if, some, true, ℕ, ℤ, ◌*◌, ◌==◌, ◌>>=◌, ◌>>◌, ◌||◌, ◌∷◌,
}
use aurvet.Baseline.{Error}
use aurvet.Finding.{Finding}
use aurvet.Finding.Fingerprint.{fingerprint, hex}

-- `type Scope string`.
abbrev pub Scope : Type 0
Scope = Bytes

abbrev pub scope_pin : Scope
scope_pin = codes "pin"

abbrev pub scope_subject : Scope
scope_subject = codes "subject"

abbrev pub scope_rule : Scope
scope_rule = codes "rule"

unfoldable pub breadth : Scope → ℕ
breadth s =
    if bytes_eq s scope_pin
    then 1
    else if bytes_eq s scope_subject
    then 2
    else if bytes_eq s scope_rule
    then 3
    else 0

unfoldable pub valid_scope : Scope → Bool
unfolding breadth
valid_scope s = not (breadth s == 0)

-- In nanoseconds.
abbrev pub default_expiry : ℤ
default_expiry = pos (180 * 24 * 3600 * 1000000000)

abbrev pub max_expiry : ℤ
max_expiry = pos (365 * 24 * 3600 * 1000000000)

pub record Record : Type 0 where
  pub fingerprint : Bytes
  pub rule_id : Bytes
  pub subject_kind : Bytes
  pub subject : Bytes
  pub scope : Scope
  pub evidence_digest : Bytes
  pub fingerprint_epoch : ℤ
  pub semantics_digest : Bytes
  pub reason : Bytes
  pub by : Bytes
  pub at : Bytes
  pub expires_at : Bytes
  pub forced : Bool

pub record Request : Type 0 where
  pub finding : Finding
  pub scope : Scope
  pub reason : Bytes
  pub by : Bytes
  -- `none` is the zero time.
  pub now : Option ℤ
  pub expiry : ℤ
  pub evidence_digest : Bytes
  pub forced : Bool

pub data AdjudicateError : Type 0 where
  err_record err_epoch : AdjudicateError
  err_canonical : Error → AdjudicateError

pub record Semantics : Type 0 where
  pub rule_id : Bytes
  pub epoch : ℤ
  pub inputs : List Bytes

-- The map of the registry, with one declaration for each rule.
abbrev pub Registry : Type 0
Registry = List Semantics

unfoldable pub lookup : Bytes → Registry → Option Semantics
lookup rule_id [] = none
lookup rule_id (s ∷ reg) = if bytes_eq s.rule_id rule_id then some s else lookup rule_id reg

pub record Host : Type 0 where
  pub sha256 : Bytes → Bytes
  -- `baseline.Marshal` of the evidence, and of a rule with its sorted inputs.
  pub marshal_evidence : List Bytes → Fallible Error Bytes
  pub marshal_semantics : Bytes → List Bytes → Fallible Error Bytes
  -- `time.Parse` and `Format` with `time.RFC3339`.
  pub time_parse : Bytes → Option ℤ
  pub time_format : ℤ → Bytes

any_empty : List Bytes → Bool
any_empty [] = false
any_empty (s ∷ ss) = bytes_eq s [] || any_empty ss

no_inputs : List Bytes → Bool
no_inputs [] = true
no_inputs (s ∷ ss) = false

insert_string : Bytes → List Bytes → List Bytes
insert_string s [] = s ∷ []
insert_string s (t ∷ ts) = if bytes_lt t s then t ∷ insert_string s ts else s ∷ t ∷ ts

-- `sort.Strings`.
sort_strings : List Bytes → List Bytes
unfolding insert_string
sort_strings [] = []
sort_strings (s ∷ ss) = insert_string s (sort_strings ss)

-- The hexadecimal digest of an encoding.
digest_of : (sha256 : Bytes → Bytes) → Fallible Error Bytes → Fallible AdjudicateError Bytes
digest_of sha256 (ok b) = ok (hex (sha256 b))
digest_of sha256 (err e) = err (err_canonical e)

module _ (H : Host) where
  unfoldable pub semantics_digest_of : Semantics → Fallible AdjudicateError Bytes
  unfolding any_empty no_inputs sort_strings digest_of
  semantics_digest_of s = do
    refuse_if (bytes_eq s.rule_id []) err_epoch
    refuse_if (no_inputs s.inputs) err_epoch
    refuse_if (any_empty s.inputs) err_epoch
    digest_of H.sha256 (H.marshal_semantics s.rule_id (sort_strings s.inputs))

  -- The loop of `NewRegistry`, with the declarations so far.
  declare : Registry → List Semantics → Fallible AdjudicateError Registry
  declare reg [] = ok reg
  declare reg (s ∷ ss) = do
    refuse_if (ltb_ℤ s.epoch (pos 1)) err_epoch
    digest ← semantics_digest_of s
    refuse_if (elim (lookup s.rule_id reg) [ none ↦ false | some t ↦ true ]) err_epoch
    declare (s ∷ reg) ss

  unfoldable pub new_registry : List Semantics → Fallible AdjudicateError Registry
  unfolding declare
  new_registry decls = declare [] decls

  unfoldable pub fingerprint_for : Bytes → Bytes → Bytes → Scope → Bytes
  fingerprint_for rule_id subject_kind subject scope =
      if bytes_eq scope scope_rule
      then fingerprint H.sha256 rule_id [] [] scope
      else fingerprint H.sha256 rule_id subject_kind subject scope

  unfoldable pub evidence_digest_of : Finding → Fallible AdjudicateError Bytes
  unfolding digest_of
  evidence_digest_of f = digest_of H.sha256 (H.marshal_evidence f.evidence)
