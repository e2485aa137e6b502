-- ===== src/Chain/Replication/Silence.antt =====
-- When the report of internal/chain/replication.go is clean.
use aurvet.Prelude.{
  Bool-cases, Bytes, Option, [], arith, eq_ℤ, eq_ℤ_iff, false, inl, inr, none, ok, pos, refl, some,
  suc, true, ℕ, ℤ, ◌↔◌, ◌≡◌, ◌≢◌, ◌≤ℤ◌,
}
use aurvet.Finding.{Severity, complete, sev_critical, sev_suspicious}
use aurvet.Report.{exit_clean, exit_code}
use aurvet.Chain.{ChainError, err_truncated}
use aurvet.Chain.Replication.{Replication, ReplicationResult, present}
use aurvet.Chain.Replication.State.{IsUsable}
use aurvet.Chain.Replication.Report.{
  ReplicationStatus, Wording, age_of, banner, conflict_of, replication_findings, replication_report,
  status_with,
}
use aurvet.Chain.Replication.Status.{positive_length, report_present}

eq_ℤ_ne : (a b : ℤ) → a ≢ b → eq_ℤ a b ≡ false
eq_ℤ_ne a b n = elim (Bool-cases (eq_ℤ a b)) [
  | inl same ↦ absurd (n ((eq_ℤ_iff a b).0 same))
  | inr differ ↦ differ
]

-- Of a chain with entries the report is clean, at the default floor, exactly when there is a confirmed
-- push, nothing conflicts with it and every entry is pushed.
pub clean_iff_pushed :
    (w : Wording) (s : ReplicationStatus)
    → s.length ≢ pos 0
    → (exit_code (replication_findings w s) sev_suspicious ≡ exit_clean)
      ↔ ((s.anchored ≡ true) × (s.conflict ≡ none) × (s.unpushed ≡ []))
unfolding exit_code replication_findings complete
clean_iff_pushed w s ne =
    let q : eq_ℤ s.length (pos 0) ≡ false = eq_ℤ_ne s.length (pos 0) ne in
    rw (q, replication_findings)
      (λ h. (ground arith, ground arith, ground arith), λ h. ground arith)

-- A conflict with a confirmed push on a chain with entries is a critical finding, so the run is never
-- clean at any floor up to critical.
pub conflict-is_critical :
    (w : Wording) (s : ReplicationStatus) (e : ChainError) (min : Severity)
    → s.length ≢ pos 0
    → s.conflict ≡ some e
    → min ≤ℤ sev_critical
    → exit_code (replication_findings w s) min ≢ exit_clean
unfolding exit_code replication_findings complete
conflict-is_critical w s e min ne conflict floor =
    let q : eq_ℤ s.length (pos 0) ≡ false = eq_ℤ_ne s.length (pos 0) ne in
    rw (q, replication_findings) (rw (conflict, replication_findings) (ground arith))

conflict_of_emptied :
    (n : ℕ) (r : Replication)
    → r.length ≡ pos (suc n)
    → conflict_of [] r ≡ ok (some (err_truncated r.length), pos 0)
unfolding conflict_of
conflict_of_emptied n r len = ground arith

-- A chain that was emptied behind a confirmed push: the report names the truncation as its conflict, and
-- yet the banner is empty and the findings of the report are clean at every floor.
pub emptied_chain_is_clean :
    (parse_stamp : Bytes → Option ℤ) (w : Wording) (res : ReplicationResult) (now : Option ℤ)
    (min : Severity)
    → res.state ≡ present
    → IsUsable res.replication
    → (st : ReplicationStatus) × (replication_report parse_stamp [] res now ≡ ok st)
      × (st.conflict ≡ some (err_truncated res.replication.length))
      × (banner st ≡ ok [])
      × (exit_code (replication_findings w st) min ≡ exit_clean)
unfolding status_with banner replication_findings exit_code complete
emptied_chain_is_clean parse_stamp w res now min e usable =
    let (n, len) = positive_length res.replication usable.positive in
    let found : conflict_of [] res.replication
        ≡ ok (some (err_truncated res.replication.length), pos 0) =
      conflict_of_emptied n res.replication len in
    (
      status_with [] res (age_of now (parse_stamp res.replication.confirmed_at))
          (some (err_truncated res.replication.length), pos 0),
      report_present parse_stamp [] res now _ e found,
      refl,
      refl,
      refl,
    )
