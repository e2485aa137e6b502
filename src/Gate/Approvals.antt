-- ===== src/Gate/Approvals.antt =====
-- The store of approvals of internal/gate/approve.go, over a disk: what `lstat` of the directory
-- answers, whether it can be opened, and what stands in each slot. How the system calls of a write or
-- a removal end is an argument. `encode` and `decode` are the JSON of a record.
pub mod Written
pub mod Refines
pub mod Settled
use aurvet.Prelude.{
  Bool, Bytes, Fallible, List, Option, [], bytes_eq, codes, eq_ℤ, err, false, if◌then◌else◌, length,
  ltb, none, not, ok, pos, refuse_if, some, true, ℕ, ℤ, ◌&&◌, ◌++◌, ◌==◌, ◌>>=◌, ◌>>◌, ◌∷◌,
}
use aurvet.Finding.Fingerprint.{hex}
use aurvet.Bundle.Floor.{Lstat, Stat, enoent, format_bits, found, lstat_failed, others_write}
use aurvet.Gate.{Anchor, RecipeFile, valid_pkg_base}
use aurvet.Gate.Recipe.{Recipe}

pub record Approval : Type 0 where
  pub format_version : ℤ
  pub pkg_base : Bytes
  pub digest : Bytes
  pub files : List RecipeFile
  pub approved_at : ℤ
  pub by : Bytes
  pub note : Bytes
  pub vcs : Option Anchor

abbrev pub store_format : ℤ
store_format = pos 1

abbrev pub max_record_bytes : ℕ
max_record_bytes = 1048576

pub data Status : Type 0 where
  approved recipe_changed never_approved could_not_determine : Status

-- The rules of the gaps.
pub data GapRule : Type 0 where
  pkg_base_refused store_unreadable store_unsafe record_corrupt : GapRule

pub record Decision : Type 0 where
  pub pkg_base : Bytes
  pub digest : Bytes
  pub status : Status
  pub approval : Option Approval
  pub prior : Option Approval
  pub gaps : List GapRule

unfoldable pub is_silent : Decision → Bool
is_silent d = elim d.status [
  | approved ↦ true
  | recipe_changed ↦ false
  | never_approved ↦ false
  | could_not_determine ↦ false
]

-- What stands in the slot of a package, as `open`, `fstat` and `read` find it.
pub data Slot : Type 0 where
  absent symlink not_opened not_statted irregular : Slot
  -- A regular file that cannot be read, and one that can.
  unreadable : (size : ℕ) → Slot
  file : Bytes → Slot

pub record Disk : Type 0 where
  pub dir : Lstat
  pub can_list : Bool
  pub slots : Bytes → Slot

pub data StoreError : Type 0 where
  bad_pkg_base not_exist corrupt unsafe_store offline empty_digest io : StoreError

pub record Store : Type 0 where
  pub is_offline : Bool
  pub euid : ℕ

-- `checkDirSafe`.
unfoldable pub check_dir_safe : Store → Disk → Fallible StoreError (Unit {0})
check_dir_safe s k = elim k.dir [
  | enoent ↦ err not_exist
  | lstat_failed ↦ err io
  | found st ↦ do
    refuse_if (not (format_bits st.mode == 4)) unsafe_store
    refuse_if (others_write st.mode) unsafe_store
    refuse_if (not (st.uid == s.euid) && not (st.uid == 0)) unsafe_store
    refuse_if (not k.can_list) io
]

pub record ApproveOptions : Type 0 where
  pub by : Bytes
  pub note : Bytes
  pub vcs : Option Anchor
  -- `none` is the zero time.
  pub now : Option ℤ

-- How the system calls of `Approve` end: `mkdir` makes the directory that is missing, or fails; the
-- temporary file is written out, or one of its calls fails; the rename is done, or fails.
pub record WriteEnd : Type 0 where
  pub mkdir_done : Bool
  pub temporary_written : Bool
  pub renamed : Bool

pub data RemoveEnd : Type 0 where
  removed remove_failed : RemoveEnd

-- A directory that is made has mode 0o700, less what the umask takes.
unfoldable pub made_dir : ℕ → Lstat → Lstat
made_dir euid enoent = found (record { mode = 16832; uid = euid })
made_dir euid lstat_failed = lstat_failed
made_dir euid (found st) = found st

abbrev pub with_slot : Bytes → Slot → (Bytes → Slot) → Bytes → Slot
with_slot at s slots q = if bytes_eq q at then s else slots q

module _ (sha256 : Bytes → Bytes) (encode : Approval → Option Bytes)
    (decode : Bytes → Option Approval) (clock : ℤ) where
  -- `recordPath`, without the directory.
  abbrev pub record_path : Bytes → Bytes
  record_path pkgbase = hex (sha256 pkgbase) ++ codes ".json"

  -- What `read` does with the bytes of a record.
  pub check_record : Bytes → Option Approval → Fallible StoreError Approval
  check_record pkgbase none = err corrupt
  check_record pkgbase (some a) = do
    refuse_if (not (eq_ℤ a.format_version store_format)) corrupt
    refuse_if (not (bytes_eq a.pkg_base pkgbase)) corrupt
    refuse_if (bytes_eq a.digest []) corrupt
    ok a

  pub read_slot : Bytes → Slot → Fallible StoreError Approval
  unfolding check_record
  read_slot pkgbase absent = err not_exist
  read_slot pkgbase symlink = err corrupt
  read_slot pkgbase not_opened = err io
  read_slot pkgbase not_statted = err io
  read_slot pkgbase irregular = err corrupt
  read_slot pkgbase (unreadable size) = if ltb max_record_bytes size then err corrupt else err io
  read_slot pkgbase (file raw) =
      if ltb max_record_bytes (length raw) then err corrupt else check_record pkgbase (decode raw)

  -- `read`.
  unfoldable pub read : Disk → Bytes → Fallible StoreError Approval
  unfolding read_slot
  read k pkgbase = read_slot pkgbase (k.slots (record_path pkgbase))

  pub blank_decision : Bytes → Bytes → Status → List GapRule → Decision
  blank_decision pkgbase digest status gaps = record {
    pkg_base = pkgbase;
    digest = digest;
    status = status;
    approval = none;
    prior = none;
    gaps = gaps;
  }

  -- The switch of `Lookup` on the error of `checkDirSafe`.
  pub dir_decision : Bytes → Bytes → StoreError → Decision
  unfolding blank_decision
  dir_decision pkgbase digest not_exist = blank_decision pkgbase digest never_approved []
  dir_decision pkgbase digest unsafe_store =
      blank_decision pkgbase digest could_not_determine (store_unsafe ∷ [])
  dir_decision pkgbase digest _ =
      blank_decision pkgbase digest could_not_determine (store_unreadable ∷ [])

  -- What `Lookup` makes of `read`.
  unfoldable pub read_decision : Bytes → Bytes → Fallible StoreError Approval → Decision
  unfolding blank_decision
  read_decision pkgbase digest (err not_exist) = blank_decision pkgbase digest never_approved []
  read_decision pkgbase digest (err corrupt) =
      blank_decision pkgbase digest could_not_determine (record_corrupt ∷ [])
  read_decision pkgbase digest (err _) =
      blank_decision pkgbase digest could_not_determine (store_unreadable ∷ [])
  read_decision pkgbase digest (ok a) =
      if bytes_eq a.digest digest
      then record (blank_decision pkgbase digest approved []) { approval = some a }
      else record (blank_decision pkgbase digest recipe_changed []) { prior = some a }

  -- `Lookup`.
  unfoldable pub lookup : Store → Disk → Bytes → Bytes → Decision
  unfolding blank_decision dir_decision
  lookup s k pkgbase digest =
      if not (valid_pkg_base pkgbase)
      then blank_decision pkgbase digest could_not_determine (pkg_base_refused ∷ [])
      else elim (check_dir_safe s k) [
        | err e ↦ dir_decision pkgbase digest e
        | ok u ↦ read_decision pkgbase digest (read k pkgbase)
      ]

  -- The record of a decision.
  unfoldable pub approval_of : Recipe → ApproveOptions → Approval
  approval_of r opts = record {
    format_version = store_format;
    pkg_base = r.pkg_base;
    digest = r.digest;
    files = r.files;
    approved_at = elim opts.now [ none ↦ clock | some t ↦ t ];
    by = opts.by;
    note = opts.note;
    vcs = opts.vcs;
  }

  -- The guards of `Approve` before it touches the disk.
  pub may_approve : Store → Recipe → Fallible StoreError (Unit {0})
  may_approve s r = do
    refuse_if (not (valid_pkg_base r.pkg_base)) bad_pkg_base
    refuse_if (bytes_eq r.digest []) empty_digest
    refuse_if s.is_offline offline

  -- From the encoding of the record to the rename.
  pub write_record : Disk → Approval → WriteEnd → Option Bytes → Disk × Fallible StoreError Approval
  write_record k a w none = (k, err io)
  write_record k a w (some body) =
      if w.temporary_written && w.renamed
      then (
        record k { slots = with_slot (record_path a.pkg_base) (file (body ++ b'\n' ∷ [])) k.slots },
        ok a,
      )
      else (k, err io)

  -- `ensureDir`: the directory, and then `checkDirSafe`.
  unfoldable pub ensured : Store → Disk → Disk
  unfolding made_dir
  ensured s k = record k { dir = made_dir s.euid k.dir }

  -- `Approve`: the disk that it leaves, and what it returns.
  unfoldable pub approve :
      Store → Disk → Recipe → ApproveOptions → WriteEnd → Disk × Fallible StoreError Approval
  unfolding may_approve write_record ensured
  approve s k r opts w = elim (may_approve s r) [
    | err e ↦ (k, err e)
    | ok u ↦ if not w.mkdir_done then (k, err io) else elim (check_dir_safe s (ensured s k)) [
      | err e ↦ (ensured s k, err e)
      | ok v ↦ let a = approval_of r opts in write_record (ensured s k) a w (encode a)
    ]
  ]

  -- What `os.Remove` leaves; a directory that is not there has no slots.
  pub removed_slot : Disk → Bytes → RemoveEnd → Disk × Fallible StoreError (Unit {0})
  removed_slot k pkgbase removed =
      (record k { slots = with_slot (record_path pkgbase) absent k.slots }, ok tt)
  removed_slot k pkgbase remove_failed = (k, err io)

  -- `Revoke`. Where the slot is absent, `os.Remove` gives `ErrNotExist`, which is no error.
  unfoldable pub revoke : Store → Disk → Bytes → RemoveEnd → Disk × Fallible StoreError (Unit {0})
  unfolding removed_slot
  revoke s k pkgbase e =
      if not (valid_pkg_base pkgbase)
      then (k, err bad_pkg_base)
      else if s.is_offline
      then (k, err offline)
      else removed_slot k pkgbase e
