-- ===== src/Chain/Replication/Status.antt =====
-- `ReplicationReport` (internal/chain/replication.go) beside the anchor check of `Verify`.
use aurvet.Prelude.{
  Bool-cases, Bytes, List, Option, ap, arith, bytes_eq, false, get_elem?_total, if◌then◌else◌, inl,
  inr, length, ltb, negsuc, none, ok, pos, pos_part, refl, some, suc, zero, ℕ, ℤ, ◌-◌, ◌≡◌, ◌≤ℤ◌,
  ◌≤◌,
}
use aurvet.Chain.{ChainError, Record}
use aurvet.Chain.Verify.{anchor_check}
use aurvet.Chain.Replication.{PayloadState, Replication, ReplicationResult, absent, present}
use aurvet.Chain.Replication.State.{IsUsable}
use aurvet.Chain.Replication.Report.{
  ReplicationStatus, age_of, anchor_option, conflict_of, replication_report, status_with,
}

conflict_of-anchor_check :
    (rs : List Record) (r : Replication) (n : ℕ)
    → r.length ≡ pos (suc n)
    → (p : ℤ) × (conflict_of rs r
        ≡ ok (anchor_check (some (record { length = r.length; head = r.head })) rs, p))
unfolding conflict_of anchor_check
conflict_of-anchor_check rs r n len = elim (Bool-cases (ltb (length rs) (suc n))) [
  | inl short ↦ (pos (length rs), ground arith)
  | inr long ↦
      let (x, at) = get_elem?_total rs n (reaches (length rs) n long) in
      let index : pos_part r.length - 1 ≡ n = omega (arith, ap pos_part len) in
      (if bytes_eq x.hash r.head then r.length else pos 0, rw index (rw at (ground arith)))
]
  where
    reaches : (m n : ℕ) → ltb m (suc n) ≡ false → suc n ≤ m
    reaches m n h = ground arith

pub positive_length : (r : Replication) → pos 1 ≤ℤ r.length → (n : ℕ) × (r.length ≡ pos (suc n))
positive_length r h = at_least_one r.length h
  where
    at_least_one : (l : ℤ) → pos 1 ≤ℤ l → (n : ℕ) × (l ≡ pos (suc n))
    at_least_one (pos zero) h = absurd (omega arith)
    at_least_one (pos (suc n)) h = (n, refl)
    at_least_one (negsuc n) h = absurd (omega arith)

report_absent :
    (parse_stamp : Bytes → Option ℤ) (rs : List Record) (res : ReplicationResult) (now : Option ℤ)
    → res.state ≡ absent
    → replication_report parse_stamp rs res now ≡ ok (status_with rs res (pos 0) (none, pos 0))
unfolding replication_report
report_absent parse_stamp rs res now e = ground arith

pub report_present :
    (parse_stamp : Bytes → Option ℤ) (rs : List Record) (res : ReplicationResult) (now : Option ℤ)
    (found : Option ChainError × ℤ)
    → res.state ≡ present
    → conflict_of rs res.replication ≡ ok found
    → replication_report parse_stamp rs res now
      ≡ ok (status_with rs res (age_of now (parse_stamp res.replication.confirmed_at)) found)
unfolding replication_report
report_present parse_stamp rs res now found e f = ground arith

-- On a state that can serve as an anchor the report is total: it indexes no record out of range, and
-- its conflict is the very error that the anchor check of `Verify` gives with the anchor that the
-- report hands over.
pub replication_report-anchor_check :
    (parse_stamp : Bytes → Option ℤ) (rs : List Record) (res : ReplicationResult) (now : Option ℤ)
    → (res.state ≡ present → IsUsable res.replication)
    → (st : ReplicationStatus) × (replication_report parse_stamp rs res now ≡ ok st)
      × (st.conflict ≡ anchor_check (anchor_option st) rs)
unfolding replication_report anchor_option anchor_check status_with
replication_report-anchor_check parse_stamp rs res now usable = by_state res.state refl
  where
    by_state :
        (s : PayloadState)
        → res.state ≡ s
        → (st : ReplicationStatus) × (replication_report parse_stamp rs res now ≡ ok st)
          × (st.conflict ≡ anchor_check (anchor_option st) rs)
    by_state absent e = (
      status_with rs res (pos 0) (none, pos 0),
      report_absent parse_stamp rs res now e,
      rw (e, status_with) refl,
    )
    by_state present e =
        let (n, len) = positive_length res.replication (usable e).positive in
        let (p, found) = conflict_of-anchor_check rs res.replication n len in
        let a =
          anchor_check
            (some (record { length = res.replication.length; head = res.replication.head })) rs in
        (
          status_with rs res (age_of now (parse_stamp res.replication.confirmed_at)) (a, p),
          report_present parse_stamp rs res now (a, p) e found,
          rw (e, status_with) refl,
        )
