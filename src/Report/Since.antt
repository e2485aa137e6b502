-- ===== src/Report/Since.antt =====
-- internal/report/since.go, and `Diff` and `FindingID` of the report package. A Go map from finding
-- ids is a list of findings with one entry for each id; its iteration order is not modelled, since the
-- results are sorted by a total order of subjects and ids.
pub mod Shown
use aurvet.Prelude.{
  Bool, Bytes, List, Option, [], bytes_eq, bytes_lt, codes, false, if◌then◌else◌, none, not, some,
  true, ◌||◌, ◌∷◌,
}
use aurvet.Finding.Fingerprint.{fingerprint}
use aurvet.Finding.{Finding, Result}

pub record SinceLast : Type 0 where
  pub had_baseline : Bool
  pub added : List Finding
  pub resolved : List Finding

pub record View : Type 0 where
  pub verdict : Result
  pub display : Result
  pub since : Option SinceLast

unfoldable pub full_view : Result → View
full_view r = record { verdict = r; display = r; since = none }

-- `sha256` is `crypto/sha256.Sum256`.
module _ (sha256 : Bytes → Bytes) where
  unfoldable pub finding_id : Finding → Bytes
  finding_id f = fingerprint sha256 f.rule_id f.subject_kind f.subject (codes "subject")

  -- `m[FindingID(f)] = f`.
  put : Finding → List Finding → List Finding
  put f [] = f ∷ []
  put f (g ∷ m) = if bytes_eq (finding_id g) (finding_id f) then f ∷ m else g ∷ put f m

  put_all : List Finding → List Finding → List Finding
  put_all m [] = m
  put_all m (f ∷ fs) = put_all (put f m) fs

  pub has_id : Bytes → List Finding → Bool
  has_id i [] = false
  has_id i (f ∷ fs) = bytes_eq (finding_id f) i || has_id i fs

  -- The entries of the first map whose id the second lacks.
  without : List Finding → List Finding → List Finding
  without [] other = []
  without (f ∷ fs) other =
      let rest = without fs other in if has_id (finding_id f) other then rest else f ∷ rest

  by_id : Finding → Finding → Bool
  by_id f g =
      if bytes_eq f.subject g.subject
      then bytes_lt (finding_id f) (finding_id g)
      else bytes_lt f.subject g.subject

  insert_sorted : Finding → List Finding → List Finding
  insert_sorted f [] = f ∷ []
  insert_sorted f (g ∷ gs) = if by_id g f then g ∷ insert_sorted f gs else f ∷ g ∷ gs

  sort_findings : List Finding → List Finding
  sort_findings [] = []
  sort_findings (f ∷ fs) = insert_sorted f (sort_findings fs)

  unfoldable pub diff : Result → Result → List Finding × List Finding
  unfolding sort_findings without put_all insert_sorted put by_id bytes_lt
  diff prev cur =
      let prev_set = put_all [] prev.findings in
      let cur_set = put_all [] cur.findings in
      (sort_findings (without cur_set prev_set), sort_findings (without prev_set cur_set))

  unfoldable pub since_last_view : Result → Bool → Result → View
  unfolding full_view diff
  since_last_view prev had_baseline cur =
      if not had_baseline
      then record (full_view cur) {
        since = some (record { had_baseline = false; added = []; resolved = [] });
      }
      else let (added, resolved) = diff prev cur in
        record {
          verdict = cur;
          display = record { findings = added; gaps = cur.gaps };
          since = some (record { had_baseline = true; added = added; resolved = resolved });
        }
