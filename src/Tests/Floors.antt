-- ===== src/Tests/Floors.antt =====
-- A floor on disk at version 5, a save of version 6 that reports an error behind its rename, and a
-- save of version 5 behind it.
use aurvet.Prelude.{
  Bool, Bool-cases, [], ap, arith, bytes_eq, bytes_eq_iff, codes, eq_ℤ, eq_ℤ_iff, err,
  if◌then◌else◌, inl, inr, length, none, ok, pos, refl, replicate, some, sym, true, ℕ, ◌&&◌, ◌≡◌,
  ◌⊎◌, ◌∷◌, pos_part,
}
use aurvet.Baseline.{err_float}
use aurvet.Chain.{is_digest}
use aurvet.Bundle.Floor.{
  Disk, Floor, FloorHost, FloorOptions, bytes_read, check_offline_root, check_ownership,
  failed_after, floor_schema, found, load, lock_taken, save, written, validate_floor,
}
use aurvet.Bundle.Floor.Monotone.{Holds, IsOversize, RoundTrips, SavedFrom, floor_never_falls}

abbrev floor_at : ℕ → Floor
floor_at version = record {
  schema = floor_schema;
  min_bundle_version = pos version;
  head_digest = replicate 64 b'a';
  min_delegation_serial = pos 1;
  indicator_count = pos 3;
  root_generation = pos 1;
  accepted_at = codes "t";
  checked_at = [];
}

-- The encoding knows the floors of these versions, each by its version.
is_known : Floor → Bool
is_known f =
    eq_ℤ f.schema floor_schema
    && eq_ℤ f.min_bundle_version (pos (pos_part f.min_bundle_version))
    && bytes_eq f.head_digest (replicate 64 b'a')
    && eq_ℤ f.min_delegation_serial (pos 1)
    && eq_ℤ f.indicator_count (pos 3)
    && eq_ℤ f.root_generation (pos 1)
    && bytes_eq f.accepted_at (codes "t")
    && bytes_eq f.checked_at []

fields_path :
    (f g : Floor)
    → f.schema ≡ g.schema
    → f.min_bundle_version ≡ g.min_bundle_version
    → f.head_digest ≡ g.head_digest
    → f.min_delegation_serial ≡ g.min_delegation_serial
    → f.indicator_count ≡ g.indicator_count
    → f.root_generation ≡ g.root_generation
    → f.accepted_at ≡ g.accepted_at
    → f.checked_at ≡ g.checked_at
    → f ≡ g
fields_path f g a b c d e k l m = λ i. record {
  schema = a i;
  min_bundle_version = b i;
  head_digest = c i;
  min_delegation_serial = d i;
  indicator_count = e i;
  root_generation = k i;
  accepted_at = l i;
  checked_at = m i;
}

is_known_path : (f : Floor) → is_known f ≡ true → f ≡ floor_at (pos_part f.min_bundle_version)
unfolding is_known
is_known_path f h =
    fields_path f (floor_at (pos_part f.min_bundle_version))
      (ground (arith, eq_ℤ_iff f.schema floor_schema))
      (ground (arith, eq_ℤ_iff f.min_bundle_version (pos (pos_part f.min_bundle_version))))
      (ground (arith, bytes_eq_iff f.head_digest (replicate 64 b'a')))
      (ground (arith, eq_ℤ_iff f.min_delegation_serial (pos 1)))
      (ground (arith, eq_ℤ_iff f.indicator_count (pos 3)))
      (ground (arith, eq_ℤ_iff f.root_generation (pos 1)))
      (ground (arith, bytes_eq_iff f.accepted_at (codes "t")))
      (ground (arith, bytes_eq_iff f.checked_at []))

abbrev toy_floors : FloorHost
toy_floors = record {
  marshal = λ f. if is_known f then ok (pos_part f.min_bundle_version ∷ []) else err err_float;
  unmarshal = λ raw. elim raw [ [] ↦ none | v ∷ vs ↦ some (floor_at v) ];
  canonical = λ raw. ok raw;
  parse_stamp = λ s. some (pos (length s));
  abs_clean = λ path. some path;
}

toy_floors-RoundTrips : RoundTrips toy_floors
toy_floors-RoundTrips f raw h short = elim (Bool-cases (is_known f)) [
  | inr other ↦ absurd (let q = rw other at h in cc)
  | inl known ↦
      let q : pos_part f.min_bundle_version ∷ [] ≡ raw = let q = rw known at h in cc in
      rw⁻¹ q (refl, ap some (sym (is_known_path f known)))
]

abbrev toy_options : FloorOptions
toy_options = record { cache_dir = codes "/cache"; offline_root = []; euid = 0 }

abbrev five_disk : Disk
five_disk = record {
  dir = found (record { mode = 16832; uid = 0 });
  file = found (record { mode = 33152; uid = 0 });
  contents = bytes_read (5 ∷ []);
}

five_loads : load toy_floors 0 five_disk ≡ ok (some (floor_at 5))
unfolding load check_ownership validate_floor is_digest bytes_eq
five_loads = refl

-- A save of version 6 that is reported as failed behind its rename.
abbrev six_disk : Disk
six_disk =
    (save toy_floors (codes "/state") toy_options lock_taken failed_after five_disk (floor_at 6)).0

-- An attempt to go back to version 5, whose system calls would succeed.
abbrev last_disk : Disk
last_disk =
    (save toy_floors (codes "/state") toy_options lock_taken written six_disk (floor_at 5)).0

six_stays : load toy_floors 0 last_disk ≡ ok (some (floor_at 6))
unfolding save load check_ownership check_offline_root validate_floor is_digest bytes_eq is_known
six_stays = refl

floor_never_falls_example :
    Holds toy_floors 0 (floor_at 5) last_disk ⊎ IsOversize toy_floors 0 last_disk
floor_never_falls_example =
    floor_never_falls toy_floors (codes "/state") toy_options five_disk last_disk (floor_at 5)
      toy_floors-RoundTrips five_loads
      (SavedFrom.step six_disk lock_taken written (floor_at 5)
        (SavedFrom.step five_disk lock_taken failed_after (floor_at 6) SavedFrom.start))
