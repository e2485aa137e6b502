-- ===== src/Triage/Apply.antt =====
-- internal/triage/apply.go: what a set of triage records does to a result. The details and caveats of the statuses
-- are texts for a reader and are not modelled; the reason of a gap is a parameter.
pub mod Hidden
pub mod Accounts
use aurvet.Prelude.{
  Bool, Bytes, List, [], bytes_eq, bytes_lt, codes, err, false, if◌then◌else◌, ltb_ℤ, none, not, ok,
  some, suc, true, ℕ, ℤ, ◌++◌, ◌==◌, ◌∷◌,
}
use aurvet.Finding.{Finding, Gap, Result}
use aurvet.Finding.Fingerprint.{decimal, fingerprint}
use aurvet.Adjudicate.{Host, Registry}
use aurvet.Adjudicate.Apply.{Coverage, Fault, claim, owner_at, status_id}
use aurvet.Triage.{Record, triage_current, triage_matches, triage_stamp, validate_triage, verb_note}

pub data State : Type 0 where
  active annotated stale expired spent dead invalid : State

-- The strings of the states, by which they are sorted.
abbrev pub state_name : State → Bytes
state_name active = codes "active"
state_name annotated = codes "annotated"
state_name stale = codes "stale"
state_name expired = codes "expired"
state_name spent = codes "spent"
state_name dead = codes "dead"
state_name invalid = codes "invalid"

pub record Status : Type 0 where
  pub record_of : Record
  pub state : State
  pub matched : List Bytes

pub record Suppression : Type 0 where
  pub finding : Finding
  pub by_record : Record

pub record Annotation : Type 0 where
  pub finding : Finding
  pub by_record : Record

pub record Outcome : Type 0 where
  pub kept : Result
  pub suppressed : List Suppression
  pub annotated_by : List Annotation
  pub statuses : List Status

pub record Set : Type 0 where
  pub records : List Record
  pub faults : List Fault
  pub source : Bytes

pub record Evaluated : Type 0 where
  pub status : Status
  pub indices : List ℕ

pub no_index : List ℕ → Bool
no_index [] = true
no_index (i ∷ is) = false

module _ (H : Host) where
  -- The loop of `evaluate` over the findings from index `i`.
  pub triage_covered : Record → ℕ → List Finding → Coverage
  triage_covered r i [] = record { indices = []; ids = []; spent_pin = false }
  triage_covered r i (f ∷ fs) =
      let rest = triage_covered r (suc i) fs in
      let m = triage_matches H r f in
      if not (m.0)
      then rest
      else if not (m.1)
      then record rest { spent_pin = true }
      else record rest { indices = i ∷ rest.indices; ids = status_id f ∷ rest.ids }

  -- The checks of `evaluate` on a record that validates.
  pub triage_judge : Registry → Record → Coverage → ℤ → State × List ℕ
  unfolding no_index
  triage_judge reg r c now =
      if not (triage_current H reg r) then (stale, []) else elim (triage_stamp H r.expires_at) [
        | err e ↦ (invalid, [])
        | ok exp ↦
            if not (ltb_ℤ now exp)
            then (expired, [])
            else if not (no_index c.indices)
            then (if bytes_eq r.verb verb_note then (annotated, c.indices) else (active, c.indices))
            else if c.spent_pin
            then (spent, [])
            else (dead, [])
      ]

  unfoldable pub triage_evaluate : Registry → Record → List Finding → ℤ → Evaluated
  unfolding triage_covered triage_judge
  triage_evaluate reg r findings now = elim (validate_triage H r) [
    | err e ↦ record {
      status = record { record_of = r; state = invalid; matched = [] };
      indices = [];
    }
    | ok u ↦
        let c = triage_covered r 0 findings in
        let j = triage_judge reg r c now in
        record { status = record { record_of = r; state = j.0; matched = c.ids }; indices = j.1 }
  ]

-- The order of the report.
status_before : Status → Status → Bool
status_before a b =
    if not (bytes_eq (state_name a.state) (state_name b.state))
    then bytes_lt (state_name a.state) (state_name b.state)
    else bytes_lt a.record_of.fingerprint b.record_of.fingerprint

insert_status : Status → List Status → List Status
unfolding status_before
insert_status s [] = s ∷ []
insert_status s (t ∷ ts) = if status_before t s then t ∷ insert_status s ts else s ∷ t ∷ ts

sort_statuses : List Status → List Status
unfolding insert_status
sort_statuses [] = []
sort_statuses (s ∷ ss) = insert_status s (sort_statuses ss)

-- What the loop over the records gathers: `suppressedBy` and `notedBy` as pairs.
pub record Gathered : Type 0 where
  pub gaps : List Gap
  pub owners : List (ℕ × Record)
  pub notes : List (ℕ × Record)
  pub statuses : List Status

pub noted : Record → List ℕ → List (ℕ × Record)
noted r [] = []
noted r (i ∷ is) = (i, r) ∷ noted r is

-- The notes at an index, attached to its finding.
pub annotations : ℕ → Finding → List (ℕ × Record) → List Annotation
annotations i f [] = []
annotations i f ((j, r) ∷ m) =
    let rest = annotations i f m in
    if j == i then record { finding = f; by_record = r } ∷ rest else rest

abbrev pub triage_rule : Bytes
triage_rule = codes "triage-store"

module _ (H : Host) (gap_reason : Record → Bytes) (fault_suffix : Bytes) where
  fault_gaps : Bytes → List Fault → List Gap
  fault_gaps source [] = []
  fault_gaps source (f ∷ fs) =
      record {
        rule_id = triage_rule;
        subject = source ++ (codes ": " ++ f.place);
        reason = f.reason ++ fault_suffix;
      }
      ∷ fault_gaps source fs

  record_gap : Bytes → ℕ → Record → Gap
  record_gap source i r = record {
    rule_id = triage_rule;
    subject = source ++ (codes ": record " ++ decimal i);
    reason = gap_reason r ++ fault_suffix;
  }

  -- The switch on the state of one record.
  pub gather_one : Bytes → ℕ → Evaluated → Record → State → Gathered → Gathered
  unfolding record_gap noted
  gather_one source i ev r invalid g = record g { gaps = g.gaps ++ record_gap source i r ∷ [] }
  gather_one source i ev r active g = record g { owners = claim r ev.indices g.owners }
  gather_one source i ev r annotated g = record g { notes = g.notes ++ noted r ev.indices }
  gather_one source i ev r _ g = g

  pub triage_gather : Registry → Bytes → List Finding → ℤ → ℕ → List Record → Gathered → Gathered
  unfolding gather_one
  triage_gather reg source findings now i [] g = g
  triage_gather reg source findings now i (r ∷ rs) g =
      let ev = triage_evaluate H reg r findings now in
      let g1 = gather_one source i ev r ev.status.state g in
      triage_gather reg source findings now (suc i) rs
        (record g1 { statuses = g1.statuses ++ ev.status ∷ [] })

  -- The loop over the findings: what is kept, what is hidden by whom, and what is annotated.
  pub triage_split :
      Gathered → ℕ → List Finding → List Finding × (List Suppression × List Annotation)
  unfolding annotations
  triage_split g i [] = ([], ([], []))
  triage_split g i (f ∷ fs) =
      let rest = triage_split g (suc i) fs in
      elim (owner_at i g.owners) [
        | none ↦ (f ∷ rest.0, (rest.1.0, annotations i f g.notes ++ rest.1.1))
        | some r ↦ (rest.0, (record { finding = f; by_record = r } ∷ rest.1.0, rest.1.1))
      ]

  pub triage_gathered : Registry → Set → Result → ℤ → Gathered
  unfolding fault_gaps triage_gather
  triage_gathered reg set res now =
      let source = if bytes_eq set.source [] then codes "triage" else set.source in
      triage_gather reg source res.findings now 0 set.records (record {
        gaps = res.gaps ++ fault_gaps source set.faults;
        owners = [];
        notes = [];
        statuses = [];
      })

  -- `ApplyWith`.
  unfoldable pub apply_triage : Registry → Set → Result → ℤ → Outcome
  unfolding triage_gathered triage_split sort_statuses
  apply_triage reg set res now =
      let g = triage_gathered reg set res now in
      let s = triage_split g 0 res.findings in
      record {
        kept = record { findings = s.0; gaps = g.gaps };
        suppressed = s.1.0;
        annotated_by = s.1.1;
        statuses = sort_statuses g.statuses;
      }
