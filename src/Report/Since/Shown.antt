-- ===== src/Report/Since/Shown.antt =====
-- `SinceLastView` and `Diff` of internal/report: which ids are shown.
use aurvet.Prelude.{
  Bool, Bool-cases, Bytes, List, [], arith, bytes_eq, bytes_eq_iff, bytes_eq_refl, false, inl, inr,
  not, refl, true, ◌&&◌, ◌||◌, ◌∷◌, ◌≡◌,
}
use aurvet.Finding.{Finding, Result}
use aurvet.Report.Since.{
  finding_id, put, put_all, has_id, without, insert_sorted, sort_findings, diff, since_last_view,
}

module _ (sha256 : Bytes → Bytes) (i : Bytes) where
  has_id-put :
      (f : Finding) (m : List Finding)
      → has_id sha256 i (put sha256 f m) ≡ (bytes_eq (finding_id sha256 f) i || has_id sha256 i m)
  unfolding has_id put
  has_id-put f [] = refl
  has_id-put f (g ∷ m) = ground (
    arith,
    has_id-put f m,
    bytes_eq_iff (finding_id sha256 g) (finding_id sha256 f),
    bytes_eq_iff (finding_id sha256 g) i,
    bytes_eq_iff (finding_id sha256 f) i,
  )

  has_id-put_all :
      (m fs : List Finding)
      → has_id sha256 i (put_all sha256 m fs) ≡ (has_id sha256 i m || has_id sha256 i fs)
  unfolding put_all has_id
  has_id-put_all m [] = ground arith
  has_id-put_all m (f ∷ fs) = ground (arith, has_id-put_all (put sha256 f m) fs, has_id-put f m)

  has_id-without :
      (fs other : List Finding)
      → has_id sha256 i (without sha256 fs other)
        ≡ (has_id sha256 i fs && not (has_id sha256 i other))
  unfolding without has_id
  has_id-without [] other = refl
  has_id-without (f ∷ fs) other = elim (Bool-cases (bytes_eq (finding_id sha256 f) i)) [
    | inl same ↦
        let e = (bytes_eq_iff (finding_id sha256 f) i).0 same in
        rw e (ground (arith, has_id-without fs other, bytes_eq_refl i))
    | inr differ ↦ ground (arith, has_id-without fs other)
  ]

  has_id-insert_sorted :
      (f : Finding) (fs : List Finding)
      → has_id sha256 i (insert_sorted sha256 f fs)
        ≡ (bytes_eq (finding_id sha256 f) i || has_id sha256 i fs)
  unfolding insert_sorted has_id
  has_id-insert_sorted f [] = refl
  has_id-insert_sorted f (g ∷ gs) = ground (arith, has_id-insert_sorted f gs)

  has_id-sort_findings :
      (fs : List Finding) → has_id sha256 i (sort_findings sha256 fs) ≡ has_id sha256 i fs
  unfolding sort_findings has_id
  has_id-sort_findings [] = refl
  has_id-sort_findings (f ∷ fs) =
      ground (arith, has_id-sort_findings fs, has_id-insert_sorted f (sort_findings sha256 fs))

  -- `Diff` adds exactly the ids of the current run that the previous one lacks, and resolves exactly
  -- the ids of the previous run that the current one lacks.
  pub has_id-diff :
      (prev cur : Result)
      → (has_id sha256 i (diff sha256 prev cur).0
          ≡ (has_id sha256 i cur.findings && not (has_id sha256 i prev.findings)))
        × (has_id sha256 i (diff sha256 prev cur).1
            ≡ (has_id sha256 i prev.findings && not (has_id sha256 i cur.findings)))
  unfolding diff has_id
  has_id-diff prev cur = (
    simp (has_id-sort_findings, has_id-without, has_id-put_all),
    simp (has_id-sort_findings, has_id-without, has_id-put_all),
  )

-- Whatever the previous run held, the verdict of the view is the whole current result, the listing
-- keeps every gap, and it holds each finding id of the current run that the previous run, if there
-- was one, lacks.
pub since_last_view_hides_nothing_new :
    (sha256 : Bytes → Bytes) (prev cur : Result) (had_baseline : Bool) (i : Bytes)
    → ((since_last_view sha256 prev had_baseline cur).verdict ≡ cur)
      × ((since_last_view sha256 prev had_baseline cur).display.gaps ≡ cur.gaps)
      × (has_id sha256 i (since_last_view sha256 prev had_baseline cur).display.findings
          ≡ (has_id sha256 i cur.findings && not (had_baseline && has_id sha256 i prev.findings)))
unfolding since_last_view
since_last_view_hides_nothing_new sha256 prev cur true i =
    (refl, refl, (has_id-diff sha256 i prev cur).0)
since_last_view_hides_nothing_new sha256 prev cur false i = (refl, refl, ground arith)
