-- ===== src/Tests/Drifted.antt =====
-- A manifest of two packages, and what is observed later, at which the theorems on building a manifest
-- and on drift are applied.
use aurvet.Prelude.{
  All, Bool, Bytes, Fallible, List, Option, [], bytes_eq, codes, false, length, map, none, ok, pos,
  refl, replicate, some, ℤ, ◌∷◌, ◌≡◌,
}
use aurvet.Prelude.Sorting.{select}
use aurvet.Prelude.Text.{trim_space}
use aurvet.Baseline.{Error}
use aurvet.Baseline.Stamp.{parse_stamp}
use aurvet.Baseline.Manifest.{
  Manifest, ManifestInput, Package, assembled, build_manifest, is_stamp, valid_digest, seen_name,
  unread_gap,
}
use aurvet.Baseline.Manifest.Built.{IsBuilt, build_manifest-IsBuilt}
use aurvet.Baseline.Drift.{DriftInput, LogObservation, ObservedPackage, observed_as}
use aurvet.Baseline.Drift.Classify.{DriftItem}
use aurvet.Baseline.Drift.Classify.Buckets.{IsJustified}
use aurvet.Baseline.Drift.Classify.Shorter.{IsShorter}
use aurvet.Baseline.Drift.Run.{DriftReport, drift, is_truncated, recorded_window, report_of}
use aurvet.Baseline.Drift.Run.Items.{IsFound, drift-IsJustified}
use aurvet.Baseline.Drift.Run.Compared.{
  about, base_as, change_of, compare_states, difference, observed_state, recorded_state,
}
use aurvet.Baseline.Drift.Run.Refines.{drift-refines}
use aurvet.Baseline.Drift.Run.Shortened.{StaysCritical, drift_shortened}
use aurvet.Baseline.Drift.Run.Unchanged.{drift-build_manifest, observe}

-- An instant is named by one byte.
abbrev stamp_at : Bytes → Bytes → Option ℤ
stamp_at layout [] = none
stamp_at layout (c ∷ s) = some (pos c)

abbrev encode_nothing : Manifest → Fallible Error Bytes
encode_nothing m = ok []

abbrev says_nothing : DriftItem → Bytes
says_nothing it = []

abbrev shows_nothing : DriftItem → List Bytes
shows_nothing it = []

abbrev editor : Package
editor = record {
  name = codes "vi";
  version = codes "1";
  foreign = false;
  mtree_sha256 = replicate 64 b'a';
  mtree_bytes = pos 9;
  mtree_unread = [];
}

abbrev shell : Package
shell = record {
  name = codes "sh";
  version = codes "4";
  foreign = false;
  mtree_sha256 = [];
  mtree_bytes = pos 0;
  mtree_unread = codes "denied";
}

abbrev made : ManifestInput
made = record {
  host = codes "h";
  root = codes "/";
  created_at = codes "5";
  tier = codes "full";
  packages = editor ∷ shell ∷ [];
  provenance = [];
  surfaces = [];
  adjudications = [];
  log = record { earliest = codes "3"; latest = codes "4"; files = []; bounded = false };
  gaps = [];
}

abbrev signed_manifest : Manifest
signed_manifest = assembled stamp_at encode_nothing [] [] made (unread_gap shell ∷ [])

made_builds : build_manifest stamp_at encode_nothing [] [] made ≡ ok signed_manifest
unfolding build_manifest is_stamp trim_space bytes_eq valid_digest seen_name parse_stamp
made_builds = refl

abbrev full_log : LogObservation
full_log = record {
  earliest = some (pos b'3');
  latest = some (pos b'6');
  bounded = false;
  transactions =
      record { time = pos b'6'; op = codes "upgraded"; pkg = codes "vi"; version = codes "2" } ∷ [];
}

abbrev new_editor : ObservedPackage
new_editor = record {
  name = codes "vi";
  version = codes "2";
  mtree_sha256 = codes "e";
  mtree_unread = [];
  install_date = none;
}

abbrev stranger : ObservedPackage
stranger = record {
  name = codes "rootkit";
  version = codes "1";
  mtree_sha256 = codes "f";
  mtree_unread = [];
  install_date = some (pos b'7');
}

-- The editor was upgraded, the shell removed, and a package added that no transaction explains.
abbrev later_host : DriftInput
later_host = record {
  manifest = signed_manifest;
  observed = new_editor ∷ stranger ∷ [];
  log = full_log;
  adjudications = [];
  now = some (pos b'8');
}

abbrev empty_log : LogObservation
empty_log = record { earliest = none; latest = none; bounded = false; transactions = [] }

abbrev report_at : DriftInput → DriftReport
report_at q = report_of says_nothing shows_nothing [] stamp_at q (pos b'5') (pos b'8')

later_reports : drift says_nothing shows_nothing [] stamp_at later_host ≡ ok (report_at later_host)
unfolding drift parse_stamp bytes_eq seen_name assembled
later_reports = refl

emptied_reports :
    drift says_nothing shows_nothing [] stamp_at (record later_host { log = empty_log })
    ≡ ok (report_at (record later_host { log = empty_log }))
unfolding drift parse_stamp bytes_eq seen_name assembled
emptied_reports = refl

build_manifest-IsBuilt_example :
    IsBuilt stamp_at signed_manifest
    × ((p : Package → Bool)
        → length (select p signed_manifest.packages) ≡ length (select p made.packages))
build_manifest-IsBuilt_example =
    build_manifest-IsBuilt stamp_at encode_nothing [] [] made made_builds

drift-refines_example :
    map difference (select (about (codes "vi")) (map change_of (report_at later_host).items))
    ≡ compare_states
        (recorded_state (base_as (codes "vi") signed_manifest.packages))
        (observed_state (observed_as (codes "vi") later_host.observed))
drift-refines_example =
    drift-refines says_nothing shows_nothing [] stamp_at later_host later_reports
      (build_manifest-IsBuilt stamp_at encode_nothing [] [] made made_builds).0.once (codes "vi")

drift-IsJustified_example :
    (created now : ℤ) × (parse_stamp stamp_at signed_manifest.created_at ≡ some created)
    × (later_host.now ≡ some now)
    × All
        (IsJustified stamp_at later_host created
          (recorded_window stamp_at signed_manifest)
          (report_at later_host).truncated
          now)
        (report_at later_host).items
    × ((report_at later_host).truncated
        ≡ is_truncated (recorded_window stamp_at signed_manifest) later_host.log.earliest)
    × All
        (IsFound says_nothing shows_nothing [] stamp_at (report_at later_host))
        (report_at later_host).items
drift-IsJustified_example =
    drift-IsJustified says_nothing shows_nothing [] stamp_at later_host later_reports

window_read : recorded_window stamp_at signed_manifest ≡ some (pos b'3')
unfolding recorded_window parse_stamp bytes_eq assembled
window_read = refl

log_emptied : IsShorter full_log empty_log
log_emptied = record { starts = tt; kept = λ tx h. absurd (let k = h.1 in cc) }

drift_shortened_example :
    StaysCritical
      (report_at later_host).items
      (report_at (record later_host { log = empty_log })).items
drift_shortened_example =
    drift_shortened says_nothing shows_nothing [] stamp_at later_host empty_log (pos b'3')
      window_read log_emptied later_reports emptied_reports

-- The host of the manifest, with an empty log.
abbrev same_host : DriftInput
same_host = record later_host {
  observed = map (observe (λ p. none)) made.packages;
  log = empty_log;
}

same_reports : drift says_nothing shows_nothing [] stamp_at same_host ≡ ok (report_at same_host)
unfolding drift parse_stamp bytes_eq seen_name assembled
same_reports = refl

drift-build_manifest_example : (report_at same_host).items ≡ []
drift-build_manifest_example =
    drift-build_manifest says_nothing shows_nothing [] stamp_at encode_nothing [] [] made same_host
      (λ p. none) made_builds refl same_reports
