-- ===== src/Adjudicate/Apply.antt =====
-- internal/adjudicate/apply.go: what a set of records does to a result. The details of the statuses are
-- texts for a reader and are not modelled; the reason of a gap is a parameter.
pub mod Justified
pub mod Partition
use aurvet.Prelude.{
  Bool, Bytes, List, Option, [], bytes_eq, bytes_lt, codes, err, false, if◌then◌else◌, ltb, ltb_ℤ,
  none, not, ok, some, suc, true, ℕ, ℤ, ◌++◌, ◌==◌, ◌∷◌,
}
use aurvet.Finding.{Finding, Gap, Result}
use aurvet.Finding.Fingerprint.{decimal, fingerprint}
use aurvet.Adjudicate.{Host, Record, Registry, breadth}
use aurvet.Adjudicate.Judging.{current, expiry_of, matches, validate}

pub data State : Type 0 where
  active stale expired spent dead invalid : State

-- The strings of the states, by which they are sorted.
abbrev pub state_name : State → Bytes
state_name active = codes "active"
state_name stale = codes "stale"
state_name expired = codes "expired"
state_name spent = codes "spent"
state_name dead = codes "dead"
state_name invalid = codes "invalid"

pub record Status : Type 0 where
  pub record_of : Record
  pub state : State
  pub matched : List Bytes

pub record Suppression : Type 0 where
  pub finding : Finding
  pub by_record : Record

pub record Outcome : Type 0 where
  pub kept : Result
  pub suppressed : List Suppression
  pub statuses : List Status

pub record Fault : Type 0 where
  pub place : Bytes
  pub reason : Bytes

pub record Set : Type 0 where
  pub records : List Record
  pub faults : List Fault
  pub source : Bytes

pub record Evaluated : Type 0 where
  pub status : Status
  pub indices : List ℕ

-- `findingID` of this package.
unfoldable pub status_id : Finding → Bytes
status_id f = f.rule_id ++ (b' ' ∷ f.subject_kind ++ (b':' ∷ f.subject))

-- What a record would cover: indices and names, and whether a pin is spent.
pub record Coverage : Type 0 where
  pub indices : List ℕ
  pub ids : List Bytes
  pub spent_pin : Bool

module _ (H : Host) where
  -- The loop of `evaluate` over the findings from index `i`.
  pub covered : Record → ℕ → List Finding → Coverage
  covered r i [] = record { indices = []; ids = []; spent_pin = false }
  covered r i (f ∷ fs) =
      let rest = covered r (suc i) fs in
      let (hit, evidence_ok) = matches H r f in
      if not hit
      then rest
      else if not evidence_ok
      then record rest { spent_pin = true }
      else record rest { indices = i ∷ rest.indices; ids = status_id f ∷ rest.ids }

  no_index : List ℕ → Bool
  no_index [] = true
  no_index (i ∷ is) = false

  -- The checks of `evaluate` on a record that validates.
  judge : Registry → Record → Coverage → ℤ → State × List ℕ
  judge reg r c now = if not (current H reg r) then (stale, []) else elim (expiry_of H r) [
    | err e ↦ (invalid, [])
    | ok exp ↦
        if not (ltb_ℤ now exp)
        then (expired, [])
        else if not (no_index c.indices)
        then (active, c.indices)
        else if c.spent_pin
        then (spent, [])
        else (dead, [])
  ]

  unfoldable pub evaluate : Registry → Record → List Finding → ℤ → Evaluated
  unfolding covered judge no_index
  evaluate reg r findings now = elim (validate H r) [
    | err e ↦ record {
      status = record { record_of = r; state = invalid; matched = [] };
      indices = [];
    }
    | ok u ↦
        let c = covered r 0 findings in
        let (st, indices) = judge reg r c now in
        record { status = record { record_of = r; state = st; matched = c.ids }; indices = indices }
  ]

-- `suppressedBy`, an index to the first record that claimed it.
unfoldable pub owner_at : {A : Type 0} → ℕ → List (ℕ × A) → Option A
owner_at i [] = none
owner_at i ((j, r) ∷ m) = if j == i then some r else owner_at i m

unfoldable pub claim : {A : Type 0} → A → List ℕ → List (ℕ × A) → List (ℕ × A)
claim r [] m = m
claim r (i ∷ is) m = claim r is (elim (owner_at i m) [ none ↦ (i, r) ∷ m | some taken ↦ m ])

pub is_invalid : State → Bool
is_invalid invalid = true
is_invalid _ = false

pub is_active : State → Bool
is_active active = true
is_active _ = false

-- The order of the report.
status_before : Status → Status → Bool
status_before a b =
    if not (bytes_eq (state_name a.state) (state_name b.state))
    then bytes_lt (state_name a.state) (state_name b.state)
    else if not (breadth a.record_of.scope == breadth b.record_of.scope)
    then ltb (breadth a.record_of.scope) (breadth b.record_of.scope)
    else bytes_lt a.record_of.fingerprint b.record_of.fingerprint

insert_status : Status → List Status → List Status
unfolding status_before
insert_status s [] = s ∷ []
insert_status s (t ∷ ts) = if status_before t s then t ∷ insert_status s ts else s ∷ t ∷ ts

sort_statuses : List Status → List Status
unfolding insert_status
sort_statuses [] = []
sort_statuses (s ∷ ss) = insert_status s (sort_statuses ss)

-- What the loop over the records gathers.
pub record Gathered : Type 0 where
  pub gaps : List Gap
  pub owners : List (ℕ × Record)
  pub statuses : List Status

abbrev pub store_rule : Bytes
store_rule = codes "adjudicate-store"

module _ (H : Host) (gap_reason : Record → Bytes) (fault_suffix : Bytes) where
  fault_gaps : Bytes → List Fault → List Gap
  fault_gaps source [] = []
  fault_gaps source (f ∷ fs) =
      record {
        rule_id = store_rule;
        subject = source ++ (codes ": " ++ f.place);
        reason = f.reason ++ fault_suffix;
      }
      ∷ fault_gaps source fs

  record_gap : Bytes → ℕ → Record → Gap
  record_gap source i r = record {
    rule_id = store_rule;
    subject = source ++ (codes ": record " ++ decimal i);
    reason = gap_reason r ++ fault_suffix;
  }

  pub gather : Registry → Bytes → List Finding → ℤ → ℕ → List Record → Gathered → Gathered
  unfolding record_gap is_invalid is_active
  gather reg source findings now i [] g = g
  gather reg source findings now i (r ∷ rs) g =
      let ev = evaluate H reg r findings now in
      let gaps =
        if is_invalid ev.status.state then g.gaps ++ record_gap source i r ∷ [] else g.gaps in
      let owners = if is_active ev.status.state then claim r ev.indices g.owners else g.owners in
      gather reg source findings now (suc i) rs
        (record { gaps = gaps; owners = owners; statuses = g.statuses ++ ev.status ∷ [] })

  -- The loop over the findings: what is kept, and what is suppressed by whom.
  pub split : List (ℕ × Record) → ℕ → List Finding → List Finding × List Suppression
  split owners i [] = ([], [])
  split owners i (f ∷ fs) =
      let (kept, hidden) = split owners (suc i) fs in
      elim (owner_at i owners) [
        | none ↦ (f ∷ kept, hidden)
        | some r ↦ (kept, record { finding = f; by_record = r } ∷ hidden)
      ]

  -- What the loop over the records gathers for a set.
  pub gathered : Registry → Set → Result → ℤ → Gathered
  unfolding fault_gaps
  gathered reg set res now =
      let source = if bytes_eq set.source [] then codes "adjudications" else set.source in
      gather reg source res.findings now 0 set.records
        (record { gaps = res.gaps ++ fault_gaps source set.faults; owners = []; statuses = [] })

  unfoldable pub apply_with : Registry → Set → Result → ℤ → Outcome
  unfolding gathered gather split claim owner_at sort_statuses
  apply_with reg set res now =
      let g = gathered reg set res now in
      let (kept, hidden) = split g.owners 0 res.findings in
      record {
        kept = record { findings = kept; gaps = g.gaps };
        suppressed = hidden;
        statuses = sort_statuses g.statuses;
      }
