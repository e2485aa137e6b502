-- ===== src/Bundle/Floor.antt =====
-- The anti-rollback floor of internal/bundle/floor.go. What the file system answers is the state `Disk`:
-- the two `lstat` results and what reading the file gives. Locks and writes are system calls, whose
-- outcome is an argument of `save`. Paths are compared as `OpenFloor` does, on the strings that
-- `filepath.Abs` and `Clean`, a parameter, give.
pub mod Monotone
use aurvet.Prelude.{
  Bool, Bytes, Fallible, Option, [], bytes_eq, codes, eq_ℤ, err, fail_as, false, has_prefix,
  if◌then◌else◌, length, ltb, ltb_ℤ, none, not, ok, pos, refuse_if, some, true, ℕ, ℤ, ◌%◌, ◌&&◌,
  ◌++◌, ◌/◌, ◌==◌, ◌>>=◌, ◌>>◌, ◌||◌, ◌∷◌,
}
use aurvet.Prelude.Text.{is_blank}
use aurvet.Baseline.{Error}
use aurvet.Chain.{is_digest}

pub record Floor : Type 0 where
  pub schema : ℤ
  pub min_bundle_version : ℤ
  pub head_digest : Bytes
  pub min_delegation_serial : ℤ
  pub indicator_count : ℤ
  pub root_generation : ℤ
  pub accepted_at : Bytes
  pub checked_at : Bytes

abbrev pub floor_schema : ℤ
floor_schema = pos 1

abbrev pub max_floor_bytes : ℕ
max_floor_bytes = 65536

pub data FloorError : Type 0 where
  err_floor err_unsafe_state err_floor_in_cache err_offline_root : FloorError
  -- `os.ErrNotExist`, and an error of the write itself.
  err_not_exist err_write : FloorError

pub record FloorOptions : Type 0 where
  pub cache_dir : Bytes
  pub offline_root : Bytes
  pub euid : ℕ

-- The fields of `unix.Stat_t` that are read.
pub record Stat : Type 0 where
  pub mode : ℕ
  pub uid : ℕ

pub data Lstat : Type 0 where
  enoent lstat_failed : Lstat
  found : Stat → Lstat

pub data ReadFile : Type 0 where
  no_file read_failed : ReadFile
  bytes_read : Bytes → ReadFile

pub record Disk : Type 0 where
  pub dir : Lstat
  pub file : Lstat
  pub contents : ReadFile

-- `mode & unix.S_IFMT`, in units of 0o10000, and its values for links and directories.
abbrev pub format_bits : ℕ → ℕ
format_bits mode = mode / 4096 % 16

-- `mode & 0o022 != 0`.
abbrev pub others_write : ℕ → Bool
others_write mode = not (mode / 2 % 2 == 0 && mode / 16 % 2 == 0)

unfoldable pub check_ownership : (euid : ℕ) → Lstat → Bool → Fallible FloorError (Unit {0})
check_ownership euid enoent is_dir = err err_not_exist
check_ownership euid lstat_failed is_dir = err err_floor
check_ownership euid (found st) is_dir = do
  refuse_if (format_bits st.mode == 10) err_unsafe_state
  refuse_if (if is_dir then not (format_bits st.mode == 4) else format_bits st.mode == 4) err_floor
  refuse_if (others_write st.mode) err_unsafe_state
  refuse_if (euid == 0 && not (st.uid == 0)) err_unsafe_state

-- `dir == root || strings.HasPrefix(dir, root+"/")`.
unfoldable pub inside : Bytes → Bytes → Bool
inside dir root = bytes_eq dir root || has_prefix dir (root ++ b'/' ∷ [])

pub record FloorHost : Type 0 where
  pub marshal : Floor → Fallible Error Bytes
  pub unmarshal : Bytes → Option Floor
  pub canonical : Bytes → Fallible Error Bytes
  pub parse_stamp : Bytes → Option ℤ
  -- `filepath.Abs(filepath.Clean(path))`.
  pub abs_clean : Bytes → Option Bytes

cleaned : FloorError → Option Bytes → Fallible FloorError Bytes
cleaned e none = err e
cleaned e (some p) = ok p

unstamped : Option ℤ → Bool
unstamped none = true
unstamped (some t) = false

-- What a lock attempt ended in, and whether the directory was made when it failed.
pub data LockOutcome : Type 0 where
  lock_taken lock_busy : LockOutcome
  lock_failed : Bool → LockOutcome

-- `writeAtomic` succeeds, fails before the rename, or fails behind it.
pub data WriteOutcome : Type 0 where
  written failed_before failed_after : WriteOutcome

module _ (H : FloorHost) where
  outside_cache : Bytes → Bytes → Fallible FloorError (Unit {0})
  unfolding cleaned
  outside_cache dir cache_dir = if bytes_eq cache_dir [] then ok tt else (do
    cache ← cleaned err_floor (H.abs_clean cache_dir)
    refuse_if (inside dir cache) err_floor_in_cache)

  unfoldable pub open_floor : Bytes → FloorOptions → Fallible FloorError Bytes
  unfolding cleaned outside_cache
  open_floor state_dir opts = do
    refuse_if (is_blank state_dir) err_floor
    dir ← cleaned err_floor (H.abs_clean state_dir)
    outside_cache dir opts.cache_dir
    ok dir

  unfoldable pub check_offline_root : Bytes → FloorOptions → Fallible FloorError (Unit {0})
  unfolding cleaned
  check_offline_root dir opts =
      if bytes_eq opts.offline_root [] || bytes_eq opts.offline_root (codes "/") then ok tt else (do
        root ← cleaned err_offline_root (H.abs_clean opts.offline_root)
        refuse_if (inside dir root) err_offline_root)

  unfoldable pub validate_floor : Floor → Fallible FloorError (Unit {0})
  unfolding unstamped
  validate_floor f = do
    refuse_if (not (eq_ℤ f.schema floor_schema)) err_floor
    refuse_if
        (ltb_ℤ f.min_bundle_version (pos 0)
          || ltb_ℤ f.min_delegation_serial (pos 0)
          || ltb_ℤ f.indicator_count (pos 0))
        err_floor
    refuse_if (ltb_ℤ (pos 0) f.min_bundle_version && not (is_digest f.head_digest)) err_floor
    refuse_if (ltb_ℤ (pos 0) f.min_bundle_version && unstamped (H.parse_stamp f.accepted_at))
        err_floor
    refuse_if (not (bytes_eq f.checked_at []) && unstamped (H.parse_stamp f.checked_at)) err_floor

  -- `Load` behind the ownership checks: the bytes that were read.
  decode_floor : Bytes → Fallible FloorError Floor
  decode_floor raw = do
    refuse_if (ltb max_floor_bytes (length raw)) err_floor
    canon ← fail_as err_floor (H.canonical raw)
    refuse_if (not (bytes_eq canon raw)) err_floor
    f ← elim (H.unmarshal canon) [ none ↦ err err_floor | some f ↦ ok f ]
    validate_floor f
    ok f

  read_floor : ReadFile → Fallible FloorError (Option Floor)
  read_floor no_file = ok none
  read_floor read_failed = err err_floor
  read_floor (bytes_read raw) = do f ← decode_floor raw; ok (some f)

  -- A check that passes goes on; a missing path is no floor.
  unless_missing :
      Fallible FloorError (Unit {0})
      → Fallible FloorError (Option Floor)
      → Fallible FloorError (Option Floor)
  unless_missing (ok u) next = next
  unless_missing (err err_not_exist) next = ok none
  unless_missing (err e) next = err e

  unfoldable pub load : ℕ → Disk → Fallible FloorError (Option Floor)
  unfolding unless_missing read_floor decode_floor
  load euid d =
      unless_missing (check_ownership euid d.dir true)
        (unless_missing (check_ownership euid d.file false) (read_floor d.contents))

  -- The refusal to lower the floor.
  not_lower : Option Floor → Floor → Fallible FloorError (Unit {0})
  not_lower none f = ok tt
  not_lower (some cur) f = do
    refuse_if (ltb_ℤ f.min_bundle_version cur.min_bundle_version) err_floor
    refuse_if (ltb_ℤ f.min_delegation_serial cur.min_delegation_serial) err_floor

  -- `MkdirAll(dir, 0o700)`.
  made_dir : ℕ → Lstat → Lstat
  made_dir euid enoent = found (record { mode = 16832; uid = euid })
  made_dir euid s = s

  with_dir : ℕ → Disk → Disk
  with_dir euid d = record d { dir = made_dir euid d.dir }

  -- The file that is renamed into place has mode 0o600.
  with_file : ℕ → Bytes → Disk → Disk
  with_file euid raw d = record d {
    file = found (record { mode = 33152; uid = euid });
    contents = bytes_read raw;
  }

  finish : ℕ → WriteOutcome → Bytes → Disk → Disk × Fallible FloorError (Unit {0})
  finish euid written raw d = (with_file euid raw d, ok tt)
  finish euid failed_before raw d = (d, err err_write)
  finish euid failed_after raw d = (with_file euid raw d, err err_write)

  -- What `Save` writes, once it holds the lock.
  checked_save : ℕ → Disk → Floor → Fallible FloorError Bytes
  checked_save euid d f = do
    let g = record f { schema = floor_schema }
    validate_floor g
    cur ← load euid d
    not_lower cur g
    fail_as err_floor (H.marshal g)

  locked_save :
      ℕ → WriteOutcome → Disk → Fallible FloorError Bytes → Disk × Fallible FloorError (Unit {0})
  locked_save euid w d (err e) = (d, err e)
  locked_save euid w d (ok raw) = finish euid w raw d

  after_lock : ℕ → LockOutcome → WriteOutcome → Disk → Floor → Disk × Fallible FloorError (Unit {0})
  after_lock euid lock_busy w d f = (with_dir euid d, err err_floor)
  after_lock euid (lock_failed made) w d f = (if made then with_dir euid d else d, err err_floor)
  after_lock euid lock_taken w d f =
      locked_save euid w (with_dir euid d) (checked_save euid (with_dir euid d) f)

  -- `dir` is the directory of the store.
  unfoldable pub save :
      Bytes
      → FloorOptions
      → LockOutcome
      → WriteOutcome
      → Disk
      → Floor
      → Disk × Fallible FloorError (Unit {0})
  unfolding after_lock locked_save checked_save finish with_file with_dir made_dir not_lower
  save dir opts l w d f = elim (check_offline_root dir opts) [
    | err e ↦ (d, err e)
    | ok u ↦ after_lock opts.euid l w d f
  ]
