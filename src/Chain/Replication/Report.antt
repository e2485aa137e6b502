-- ===== src/Chain/Replication/Report.antt =====
-- `ReplicationReport`, `AnchorOption`, `Banner` and `Result` of internal/chain/replication.go. An index
-- out of range is the error `index_panic`. The texts that are put together with `fmt` are parameters of
-- `replication_findings`, and the lines of the banner are named by what they say.
use aurvet.Prelude.{
  Bool, Bytes, Fallible, List, Option, [], bytes_eq, codes, eq_ℤ, err, false, get_elem?,
  if◌then◌else◌, length, ltb_ℤ, none, not, ok, pos, pos_part, some, suc, true, ℕ, ℤ, ◌&&◌, ◌++◌,
  ◌-ℤ◌, ◌-◌, ◌>>=◌, ◌^◌, ◌∷◌,
}
use aurvet.Finding.{Finding, Gap, Result, sev_critical, sev_suspicious}
use aurvet.Chain.{
  Anchor, ChainError, Record, err_anchor_fork, err_truncated, head_anchor, index_panic,
}
use aurvet.Chain.Replication.{
  Reason, Replication, ReplicationResult, absent, present, zero_replication,
}

pub record EntryStatus : Type 0 where
  pub seq : ℤ
  pub hash : Bytes
  pub time : Bytes
  pub kind : Bytes
  pub pushed : Bool

pub record ReplicationStatus : Type 0 where
  pub length : ℤ
  pub pushed_length : ℤ
  pub claimed_length : ℤ
  pub head : Bytes
  pub pushed_head : Bytes
  pub entries : List EntryStatus
  pub unpushed : List EntryStatus
  pub anchored : Bool
  pub remote : Bytes
  pub protected_remote : Bool
  pub confirmed_at : Bytes
  pub confirmed_age : ℤ
  pub conflict : Option ChainError
  pub reason : Reason

-- The largest `time.Duration`, at which `Sub` saturates.
abbrev pub max_duration : ℤ
max_duration = pos (2 ^ 63 - 1)

-- `now.Sub(t)` where it is positive, and 0 else; `none` is the zero time.
unfoldable pub age_of : Option ℤ → Option ℤ → ℤ
age_of none t = pos 0
age_of (some now) none = pos 0
age_of (some now) (some t) =
    let d = now -ℤ t in
    if ltb_ℤ (pos 0) d then (if ltb_ℤ max_duration d then max_duration else d) else pos 0

-- The switch over the confirmed length and head: the conflict and the pushed length.
unfoldable pub conflict_of : List Record → Replication → Fallible ChainError (Option ChainError × ℤ)
conflict_of records r =
    if ltb_ℤ (pos (length records)) r.length
    then ok (some (err_truncated r.length), pos (length records))
    else if ltb_ℤ r.length (pos 1)
    then err index_panic
    else elim (get_elem? records (pos_part r.length - 1)) [
      | none ↦ err index_panic
      | some last ↦
          if not (bytes_eq last.hash r.head)
          then ok (some (err_anchor_fork r.length), pos 0)
          else ok (none, r.length)
    ]

unfoldable pub is_none : Option ChainError → Bool
is_none none = true
is_none (some e) = false

-- The loop over the records; `i` is the index.
unfoldable pub entry_statuses : ℤ → Option ChainError → ℕ → List Record → List EntryStatus
entry_statuses pushed conflict i [] = []
entry_statuses pushed conflict i (r ∷ rs) =
    record {
      seq = r.entry.seq;
      hash = r.hash;
      time = r.entry.time;
      kind = r.entry.kind;
      pushed = ltb_ℤ (pos i) pushed && is_none conflict;
    }
    ∷ entry_statuses pushed conflict (suc i) rs

unfoldable pub not_pushed : List EntryStatus → List EntryStatus
not_pushed [] = []
not_pushed (e ∷ es) = let rest = not_pushed es in if e.pushed then rest else e ∷ rest

-- The status from what the switch found.
unfoldable pub status_with :
    List Record → ReplicationResult → ℤ → Option ChainError × ℤ → ReplicationStatus
status_with records res age (conflict, pushed) =
    let entries = entry_statuses pushed conflict 0 records in
    let anchored : Bool = elim res.state [ present ↦ true | absent ↦ false ] in
    let r = if anchored then res.replication else zero_replication in
    record {
      length = pos (length records);
      pushed_length = pushed;
      claimed_length = r.length;
      head = (head_anchor records).head;
      pushed_head = r.head;
      entries = entries;
      unpushed = not_pushed entries;
      anchored = anchored;
      remote = r.remote;
      protected_remote = r.protected_remote;
      confirmed_at = r.confirmed_at;
      confirmed_age = age;
      conflict = conflict;
      reason = res.reason;
    }

-- `parse_stamp` is `baseline.ParseStamp`.
unfoldable pub replication_report :
    (parse_stamp : Bytes → Option ℤ)
    → List Record
    → ReplicationResult
    → Option ℤ
    → Fallible ChainError ReplicationStatus
unfolding status_with age_of conflict_of entry_statuses not_pushed is_none
replication_report parse_stamp records res now = elim res.state [
  | absent ↦ ok (status_with records res (pos 0) (none, pos 0))
  | present ↦ do
    found ← conflict_of records res.replication
    ok (status_with records res (age_of now (parse_stamp res.replication.confirmed_at)) found)
]

unfoldable pub anchor_option : ReplicationStatus → Option Anchor
anchor_option s =
    if not s.anchored
    then none
    else some (record { length = s.claimed_length; head = s.pushed_head })

pub data BannerLine : Type 0 where
  conflict_line : ChainError → BannerLine
  do_not_overwrite : BannerLine
  not_pushed_line : ℕ → ℤ → ℤ → Bytes → BannerLine
  truncation_undetectable : BannerLine
  no_confirmed_push : Reason → BannerLine
  last_confirmed_push : ℤ → BannerLine
  remote_not_protected : BannerLine

conflict_lines : Option ChainError → List BannerLine
conflict_lines none = []
conflict_lines (some e) = conflict_line e ∷ do_not_overwrite ∷ []

unfoldable pub last_seq : EntryStatus → List EntryStatus → ℤ
last_seq e [] = e.seq
last_seq e (f ∷ fs) = last_seq f fs

-- The lines behind those of a conflict; they index the first and the last entry that is not pushed.
unfoldable pub unpushed_lines :
    ReplicationStatus → List EntryStatus → Fallible ChainError (List BannerLine)
unpushed_lines s [] = err index_panic
unpushed_lines s (first ∷ more) = ok (
    not_pushed_line (length (first ∷ more)) first.seq (last_seq first more) first.time
    ∷ truncation_undetectable
    ∷ (if not s.anchored then no_confirmed_push s.reason else last_confirmed_push s.pushed_length)
    ∷ (if s.anchored && not s.protected_remote then remote_not_protected ∷ [] else []))

unfoldable pub no_entries : List EntryStatus → Bool
no_entries [] = true
no_entries (e ∷ es) = false

unfoldable pub banner : ReplicationStatus → Fallible ChainError (List BannerLine)
unfolding conflict_lines unpushed_lines last_seq no_entries is_none
banner s =
    if eq_ℤ s.length (pos 0)
    then ok []
    else if no_entries s.unpushed && is_none s.conflict
    then ok []
    else do lines ← unpushed_lines s s.unpushed; ok (conflict_lines s.conflict ++ lines)

-- The texts of the findings and of the gap, as functions of the status.
pub record Wording : Type 0 where
  pub conflict_summary : ReplicationStatus → ChainError → Bytes
  pub conflict_evidence : ReplicationStatus → List Bytes
  pub unpushed_summary : ReplicationStatus → Bytes
  pub unpushed_evidence : ReplicationStatus → List Bytes
  pub gap_reason : ReplicationStatus → Bytes
  pub limits : Bytes

abbrev pub subject_chain : Bytes
subject_chain = codes "chain"

conflict_findings : Wording → ReplicationStatus → Option ChainError → List Finding
conflict_findings w s none = []
conflict_findings w s (some e) =
    record {
      rule_id = codes "chain-anchor-conflict";
      subject_kind = subject_chain;
      subject = subject_chain;
      severity = sev_critical;
      summary = w.conflict_summary s e;
      evidence = w.conflict_evidence s;
      limits = w.limits;
    }
    ∷ []

unpushed_findings : Wording → ReplicationStatus → List EntryStatus → List Finding
unpushed_findings w s [] = []
unpushed_findings w s (e ∷ es) =
    record {
      rule_id = codes "chain-unpushed-entries";
      subject_kind = subject_chain;
      subject = subject_chain;
      severity = sev_suspicious;
      summary = w.unpushed_summary s;
      evidence = w.unpushed_evidence s;
      limits = w.limits;
    }
    ∷ []

anchor_gaps : Wording → ReplicationStatus → List Gap
anchor_gaps w s =
    if not s.anchored
    then record {
      rule_id = codes "chain-no-anchor";
      subject = subject_chain;
      reason = w.gap_reason s;
    }
      ∷ []
    else []

-- `ReplicationStatus.Result`.
unfoldable pub replication_findings : Wording → ReplicationStatus → Result
unfolding conflict_findings unpushed_findings anchor_gaps
replication_findings w s =
    if eq_ℤ s.length (pos 0) then record { findings = []; gaps = [] } else record {
      findings = conflict_findings w s s.conflict ++ unpushed_findings w s s.unpushed;
      gaps = anchor_gaps w s;
    }
