-- ===== src/Bundle/Floor/Monotone.antt =====
-- Sequences of `Save` of internal/bundle/floor.go.
use mathlib.Core.Path.{subst}
use aurvet.Prelude.{
  Bool-cases, Bytes, Fallible, Fallible-cases, Option, ap, arith, bytes_eq_refl, err, false, inl,
  inr, length, ltb, ok, refl, some, sym, true, ℕ, ◌∙◌, ◌≡◌, ◌≤ℤ◌, ◌≤◌, ◌⊎◌,
}
use aurvet.Bundle.Floor.{
  Disk, Floor, FloorError, FloorHost, FloorOptions, LockOutcome, Lstat, WriteOutcome, after_lock,
  bytes_read, check_offline_root, check_ownership, checked_save, decode_floor, enoent, err_floor,
  err_floor_in_cache, err_not_exist, err_offline_root, err_unsafe_state, err_write, failed_after,
  failed_before, finish, floor_schema, found, load, lock_busy, lock_failed, lock_taken, locked_save,
  lstat_failed, made_dir, max_floor_bytes, not_lower, read_floor, save, unless_missing,
  validate_floor, with_dir, with_file, written,
}

-- What was encoded, when it is no longer than the cap, is canonical and decodes to the same floor.
abbrev pub RoundTrips : FloorHost → Type 0
RoundTrips H =
    (f : Floor) (raw : Bytes)
    → H.marshal f ≡ ok raw
    → length raw ≤ max_floor_bytes
    → (H.canonical raw ≡ ok raw) × (H.unmarshal raw ≡ some f)

pub record AtLeast (f g : Floor) : Type 0 where
  pub version : f.min_bundle_version ≤ℤ g.min_bundle_version
  pub serial : f.min_delegation_serial ≤ℤ g.min_delegation_serial

AtLeast-refl : (f : Floor) → AtLeast f f
AtLeast-refl f = record { version = omega arith; serial = omega arith }

AtLeast-trans : (f g h : Floor) → AtLeast f g → AtLeast g h → AtLeast f h
AtLeast-trans f g h p q = record {
  version = omega (arith, p.version, q.version);
  serial = omega (arith, p.serial, q.serial);
}

module _ (H : FloorHost) (euid : ℕ) where
  unless_missing-some :
      (m : Fallible FloorError (Unit {0})) (next : Fallible FloorError (Option Floor)) (cur : Floor)
      → unless_missing H m next ≡ ok (some cur)
      → m ≡ ok tt
  unfolding unless_missing
  unless_missing-some (ok tt) next cur h = refl
  unless_missing-some (err err_not_exist) next cur h = absurd cc
  unless_missing-some (err err_floor) next cur h = absurd cc
  unless_missing-some (err err_unsafe_state) next cur h = absurd cc
  unless_missing-some (err err_floor_in_cache) next cur h = absurd cc
  unless_missing-some (err err_offline_root) next cur h = absurd cc
  unless_missing-some (err err_write) next cur h = absurd cc

  made_dir-checked : (s : Lstat) → check_ownership euid s true ≡ ok tt → made_dir H euid s ≡ s
  unfolding made_dir check_ownership
  made_dir-checked enoent h = absurd cc
  made_dir-checked lstat_failed h = refl
  made_dir-checked (found st) h = refl

  refused-made_dir :
      (s : Lstat) (next : Fallible FloorError (Option Floor))
      → unless_missing H (check_ownership euid s true) next ≡ err err_floor
      → made_dir H euid s ≡ s
  unfolding made_dir check_ownership unless_missing
  refused-made_dir enoent next h = absurd cc
  refused-made_dir lstat_failed next h = refl
  refused-made_dir (found st) next h = refl

  -- With a floor on disk, the directory passes its check.
  load-dir :
      (d : Disk) (cur : Floor)
      → load H euid d ≡ ok (some cur)
      → (check_ownership euid d.dir true ≡ ok tt) × (with_dir H euid d ≡ d)
  unfolding load with_dir
  load-dir d cur h =
      let passes = unless_missing-some _ _ cur h in
      (passes, ap (λ s. record d { dir = s }) (made_dir-checked d.dir passes))

  own_file : check_ownership euid (found (record { mode = 33152; uid = euid })) false ≡ ok tt
  unfolding check_ownership
  own_file = ground arith

  -- A floor that was written is the one that is read.
  load-with_file :
      (d : Disk) (g : Floor) (raw : Bytes)
      → RoundTrips H
      → check_ownership euid d.dir true ≡ ok tt
      → validate_floor H g ≡ ok tt
      → H.marshal g ≡ ok raw
      → ltb max_floor_bytes (length raw) ≡ false
      → load H euid (with_file H euid raw d) ≡ ok (some g)
  unfolding load unless_missing with_file read_floor decode_floor
  load-with_file d g raw trips dir valid encoded q =
      let short : length raw ≤ max_floor_bytes = ground (arith, q) in
      let (canonical, read) = trips g raw encoded short in
      rw dir (rw own_file (rw q (rw canonical (rw (bytes_eq_refl raw) (rw read (rw valid refl))))))

  -- A floor that is longer than the cap is written all the same, and is refused when it is read.
  load-oversize :
      (d : Disk) (raw : Bytes)
      → check_ownership euid d.dir true ≡ ok tt
      → ltb max_floor_bytes (length raw) ≡ true
      → load H euid (with_file H euid raw d) ≡ err err_floor
  unfolding load unless_missing with_file read_floor decode_floor
  load-oversize d raw dir q = rw dir (rw own_file (rw q refl))

  not_lower-AtLeast : (cur g : Floor) → not_lower H (some cur) g ≡ ok tt → AtLeast cur g
  unfolding not_lower
  not_lower-AtLeast cur g h = record { version = ground arith; serial = ground arith }

  checked_save-ok :
      (d : Disk) (cur f : Floor) (raw : Bytes)
      → load H euid d ≡ ok (some cur)
      → checked_save H euid d f ≡ ok raw
      → (g : Floor) × (validate_floor H g ≡ ok tt) × AtLeast cur g × (H.marshal g ≡ ok raw)
  unfolding checked_save
  checked_save-ok d cur f raw h good =
      let g = record f { schema = floor_schema } in
      elim (Fallible-cases (validate_floor H g)) [
        | inr (e, bad) ↦ absurd (ground arith)
        | inl (tt, valid) ↦ elim (Fallible-cases (not_lower H (some cur) g)) [
          | inr (e, bad) ↦ absurd (ground arith)
          | inl (tt, kept) ↦ elim (Fallible-cases (H.marshal g)) [
            | inr (e, bad) ↦ absurd (ground arith)
            | inl (out, encoded) ↦
                let same : out ≡ raw = ground arith in
                (g, valid, not_lower-AtLeast cur g kept, encoded ∙ ap ok same)
          ]
        ]
      ]

-- A floor is on disk, and is no lower than the given one.
abbrev pub Holds : FloorHost → ℕ → Floor → Disk → Type 0
Holds H euid cur d = (g : Floor) × (load H euid d ≡ ok (some g)) × AtLeast cur g

-- The file is the encoding of a floor, longer than the cap, and `Load` is an error.
pub record IsOversize (H : FloorHost) (euid : ℕ) (d : Disk) : Type 0 where
  pub saved : Floor
  pub raw : Bytes
  pub encoded : H.marshal saved ≡ ok raw
  pub on_disk : d.contents ≡ bytes_read raw
  pub too_long : ltb max_floor_bytes (length raw) ≡ true
  pub refused : load H euid d ≡ err err_floor

abbrev pub Kept : FloorHost → ℕ → Floor → Disk → Type 0
Kept H euid cur d = Holds H euid cur d ⊎ IsOversize H euid d

module _ (H : FloorHost) (euid : ℕ) (trips : RoundTrips H) (d : Disk) (cur f : Floor)
    (h : load H euid d ≡ ok (some cur)) where
  unchanged : Kept H euid cur d
  unchanged = inl (cur, h, AtLeast-refl cur)

  same_dir : (e : Disk) → e ≡ d → Kept H euid cur e
  same_dir e p = subst (Kept H euid cur) (sym p) unchanged

  with_file-Kept :
      (raw : Bytes) → checked_save H euid d f ≡ ok raw → Kept H euid cur (with_file H euid raw d)
  with_file-Kept raw good =
      let (g, valid, kept, encoded) = checked_save-ok H euid d cur f raw h good in
      let (dir, _) = load-dir H euid d cur h in
      elim (Bool-cases (ltb max_floor_bytes (length raw))) [
        | inl long ↦ inr (record {
          saved = g;
          raw = raw;
          encoded = encoded;
          on_disk = unfold with_file in refl;
          too_long = long;
          refused = load-oversize H euid d raw dir long;
        })
        | inr short ↦ inl (g, load-with_file H euid d g raw trips dir valid encoded short, kept)
      ]

  finish-Kept :
      (w : WriteOutcome) (raw : Bytes)
      → checked_save H euid d f ≡ ok raw
      → Kept H euid cur (finish H euid w raw d).0
  unfolding finish
  finish-Kept written raw good = with_file-Kept raw good
  finish-Kept failed_before raw good = unchanged
  finish-Kept failed_after raw good = with_file-Kept raw good

  locked_save-Kept :
      (w : WriteOutcome) → Kept H euid cur (locked_save H euid w d (checked_save H euid d f)).0
  unfolding locked_save
  locked_save-Kept w = elim (Fallible-cases (checked_save H euid d f)) [
    | inr (e, bad) ↦ rw bad unchanged
    | inl (raw, good) ↦ rw good (finish-Kept w raw good)
  ]

  after_lock-Kept :
      (l : LockOutcome) (w : WriteOutcome) → Kept H euid cur (after_lock H euid l w d f).0
  unfolding after_lock
  after_lock-Kept lock_taken w = rw ((load-dir H euid d cur h).1) (locked_save-Kept w)
  after_lock-Kept lock_busy w = same_dir _ ((load-dir H euid d cur h).1)
  after_lock-Kept (lock_failed true) w = same_dir _ ((load-dir H euid d cur h).1)
  after_lock-Kept (lock_failed false) w = unchanged

-- Where `Load` is an error, `Save` writes nothing.
module _ (H : FloorHost) (euid : ℕ) (d : Disk) (f : Floor) (h : load H euid d ≡ err err_floor) where
  refused-with_dir : with_dir H euid d ≡ d
  unfolding with_dir load
  refused-with_dir = ap (λ s. record d { dir = s }) (refused-made_dir H euid d.dir _ h)

  refused-checked_save : (e : FloorError) × (checked_save H euid d f ≡ err e)
  unfolding checked_save
  refused-checked_save =
      elim (Fallible-cases (validate_floor H (record f { schema = floor_schema }))) [
        | inr (e, bad) ↦ (e, rw bad refl)
        | inl (tt, valid) ↦ (err_floor, rw (valid, h) refl)
      ]

  refused-after_lock : (l : LockOutcome) (w : WriteOutcome) → (after_lock H euid l w d f).0 ≡ d
  unfolding after_lock locked_save
  refused-after_lock lock_taken w =
      let (e, bad) = refused-checked_save in rw (refused-with_dir, bad) refl
  refused-after_lock lock_busy w = refused-with_dir
  refused-after_lock (lock_failed true) w = refused-with_dir
  refused-after_lock (lock_failed false) w = refl

-- The disks that any calls of `Save` lead to, whatever their floors, locks and writes.
pub data SavedFrom (H : FloorHost) (dir : Bytes) (opts : FloorOptions) (d : Disk)
    : Disk → Type 0 where
  start : SavedFrom H dir opts d d
  step :
      (e : Disk) (l : LockOutcome) (w : WriteOutcome) (f : Floor)
      → SavedFrom H dir opts d e
      → SavedFrom H dir opts d (save H dir opts l w e f).0

save-Kept :
    (H : FloorHost) (dir : Bytes) (opts : FloorOptions) (d : Disk) (cur f : Floor) (l : LockOutcome)
    (w : WriteOutcome)
    → RoundTrips H
    → load H opts.euid d ≡ ok (some cur)
    → Kept H opts.euid cur (save H dir opts l w d f).0
unfolding save
save-Kept H dir opts d cur f l w trips h = elim (Fallible-cases (check_offline_root H dir opts)) [
  | inr (e, bad) ↦ rw (bad, save) (inl (cur, h, AtLeast-refl cur))
  | inl (u, fine) ↦ rw (fine, save) (after_lock-Kept H opts.euid trips d cur f h l w)
]

save-refused :
    (H : FloorHost) (dir : Bytes) (opts : FloorOptions) (d : Disk) (f : Floor) (l : LockOutcome)
    (w : WriteOutcome)
    → load H opts.euid d ≡ err err_floor
    → (save H dir opts l w d f).0 ≡ d
unfolding save
save-refused H dir opts d f l w h = elim (Fallible-cases (check_offline_root H dir opts)) [
  | inr (e, bad) ↦ rw (bad, save) refl
  | inl (u, fine) ↦ rw (fine, save) (refused-after_lock H opts.euid d f h l w)
]

-- From a disk with a floor, any sequence of saves, with any outcomes of locks and writes, leads to a disk
-- with a floor whose bundle version and delegation serial are no lower, or to a floor file that holds
-- the encoding of a floor longer than the cap of 65536 bytes, on which `Load` is an error: never to a disk
-- without a floor. It is assumed that an
-- encoding within the cap is canonical and decodes to what was encoded.
pub floor_never_falls :
    (H : FloorHost) (dir : Bytes) (opts : FloorOptions) (d e : Disk) (cur : Floor)
    → RoundTrips H
    → load H opts.euid d ≡ ok (some cur)
    → SavedFrom H dir opts d e
    → Holds H opts.euid cur e ⊎ IsOversize H opts.euid e
floor_never_falls H dir opts d _ cur trips h start = inl (cur, h, AtLeast-refl cur)
floor_never_falls H dir opts d _ cur trips h (step e l w f before) =
    elim (floor_never_falls H dir opts d e cur trips h before) [
      | inr over ↦
          inr (
            subst (IsOversize H opts.euid) (sym (save-refused H dir opts e f l w over.refused))
              over)
      | inl (g, here, up) ↦ elim (save-Kept H dir opts e g f l w trips here) [
        | inr over ↦ inr over
        | inl (k, there, up') ↦ inl (k, there, AtLeast-trans cur g k up up')
      ]
    ]
