-- ===== src/Gate/Approvals/Settled.antt =====
-- An approval of the store of internal/gate/approve.go that goes through.
use aurvet.Prelude.{
  Bytes, Option, ap, bytes_eq, bytes_eq_refl, false, ok, refl, some, true, [], ℤ, ◌++◌, ◌∙◌, ◌∷◌,
  ◌≡◌,
}
use aurvet.Gate.{valid_pkg_base}
use aurvet.Gate.Recipe.{Recipe}
use aurvet.Gate.Approvals.{
  Approval, ApproveOptions, Disk, Store, WriteEnd, approval_of, approve, check_dir_safe, ensured,
  file, is_silent, lookup, may_approve, read, read_decision, read_slot, record_path, with_slot,
  write_record,
}
use aurvet.Gate.Approvals.Written.{Fits, read_slot-written}
use aurvet.Gate.Approvals.Refines.{lookup-safe, read_decision-silent}

module _ (sha256 : Bytes → Bytes) (encode : Approval → Option Bytes)
    (decode : Bytes → Option Approval) (clock : ℤ) where
  -- The disk after the rename.
  abbrev written_disk : Store → Disk → Recipe → Bytes → Disk
  written_disk s k r body = record (ensured sha256 encode decode clock s k) {
    slots =
        with_slot (record_path sha256 encode decode clock r.pkg_base) (file (body ++ b'\n' ∷ []))
          (ensured sha256 encode decode clock s k).slots;
  }

  read-written :
      (s : Store) (k : Disk) (r : Recipe) (opts : ApproveOptions) (body : Bytes)
      → bytes_eq r.digest [] ≡ false
      → encode (approval_of sha256 encode decode clock r opts) ≡ some body
      → Fits sha256 encode decode clock (approval_of sha256 encode decode clock r opts)
      → read sha256 encode decode clock (written_disk s k r body) r.pkg_base
        ≡ ok (approval_of sha256 encode decode clock r opts)
  unfolding read
  read-written s k r opts body digest made fits =
      let path = record_path sha256 encode decode clock r.pkg_base in
      let slot : with_slot path (file (body ++ b'\n' ∷ []))
            (ensured sha256 encode decode clock s k).slots path
          ≡ file (body ++ b'\n' ∷ []) =
        rw (bytes_eq_refl path) refl in
      ap (read_slot sha256 encode decode clock r.pkg_base) slot
      ∙ read_slot-written sha256 encode decode clock r opts body digest fits made

  -- Whatever stands in its slot: an approval of a recipe, with a valid package base and a digest, in a
  -- store that is not offline, where the system calls succeed and in a directory that is safe once it is made, is returned, and from then on `Lookup` is silent for this
  -- recipe. The record has to be below the cap and to decode to what was encoded.
  pub approve-lookup :
      (s : Store) (k : Disk) (r : Recipe) (opts : ApproveOptions) (w : WriteEnd) (body : Bytes)
      → s.is_offline ≡ false
      → valid_pkg_base r.pkg_base ≡ true
      → bytes_eq r.digest [] ≡ false
      → w.mkdir_done ≡ true
      → w.temporary_written ≡ true
      → w.renamed ≡ true
      → check_dir_safe s (ensured sha256 encode decode clock s k) ≡ ok tt
      → encode (approval_of sha256 encode decode clock r opts) ≡ some body
      → Fits sha256 encode decode clock (approval_of sha256 encode decode clock r opts)
      → let out = approve sha256 encode decode clock s k r opts w in
        (out.1 ≡ ok (approval_of sha256 encode decode clock r opts))
        × (is_silent (lookup sha256 encode decode clock s (out.0) r.pkg_base r.digest) ≡ true)
  unfolding approve write_record may_approve approval_of ensured check_dir_safe
  approve-lookup s k r opts w body live valid digest mkdir written renamed safe made fits =
      let a = approval_of sha256 encode decode clock r opts in
      let may : may_approve sha256 encode decode clock s r ≡ ok tt =
        rw (valid, digest, live) refl in
      let done : approve sha256 encode decode clock s k r opts w ≡ (written_disk s k r body, ok a) =
        rw (may, mkdir, safe, made, written, renamed, approve) refl in
      let answered =
        lookup-safe sha256 encode decode clock s (written_disk s k r body) r.pkg_base r.digest valid
          safe
        ∙ ap (read_decision sha256 encode decode clock r.pkg_base r.digest)
            (read-written s k r opts body digest made fits) in
      let silent =
        (read_decision-silent sha256 encode decode clock r.pkg_base r.digest (some a)).1
          (a, refl, refl) in
      (
        ap (λ o. o.1) done,
        ap (λ o. is_silent (lookup sha256 encode decode clock s (o.0) r.pkg_base r.digest)) done
            ∙ ap is_silent answered
            ∙ silent,
      )
