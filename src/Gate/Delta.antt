-- ===== src/Gate/Delta.antt =====
-- internal/gate/vcsdelta.go: the upstream commits since an approval. What internal/vcs reads of a clone
-- is given; the reasons of gaps and the texts of findings are not modelled, or are parameters.
pub mod Silent
use aurvet.Prelude.{
  Bool, Bytes, List, Option, [], bytes_eq, codes, eq_ℤ, false, has_prefix, if◌then◌else◌, leb,
  length, ltb_ℤ, none, not, pos, some, true, ℕ, ℤ, ◌&&◌, ◌++◌, ◌==◌, ◌||◌, ◌∷◌, map, refl, ◌≡◌, ltb,
  suc, zero,
}
use aurvet.Prelude.Text.{to_lower}
use aurvet.Finding.{Finding, Gap, Result, sev_info, sev_suspicious}
use aurvet.Gate.{Anchor}

pub data DeltaStatus : Type 0 where
  up_to_date ahead anchor_absent undetermined unanchored unreadable : DeltaStatus

pub data Rule : Type 0 where
  vcs_unreadable vcs_no_remote vcs_no_anchor vcs_bad_anchor vcs_incomplete vcs_truncated : Rule

-- A gap of this review, with its subject, or one of the clone.
pub data DeltaGap : Type 0 where
  raised : Rule → Bytes → DeltaGap
  of_clone : Gap → DeltaGap

-- The fields of `vcs.Commit` that are shown.
pub record Commit : Type 0 where
  pub hash : Bytes
  pub author_when : ℤ
  pub author_email : Bytes
  pub subject : Bytes

-- How `LogSince` ends: without an error, with `ErrIncomplete`, or with another.
pub data LogEnd : Type 0 where
  log_done log_incomplete log_failed : LogEnd

pub record Log : Type 0 where
  pub commits : List Commit
  pub reached : Bool
  pub end : LogEnd

-- What is read of a clone: its HEAD, its origin, the log from an anchor with a bound, and the gaps that
-- the reader has noted before the log is read and behind it.
pub record Clone : Type 0 where
  pub head : Option Bytes
  pub remote : Option Bytes
  pub log_since : Bytes → ℤ → Log
  pub gaps_before : List Gap
  pub gaps_after : List Gap

pub record Request : Type 0 where
  pub pkg_base : Bytes
  pub dir : Bytes
  pub anchor : Anchor
  pub max : ℤ

pub record Delta : Type 0 where
  pub pkg_base : Bytes
  pub dir : Bytes
  pub status : DeltaStatus
  pub anchor : Anchor
  pub head : Bytes
  pub remote : Bytes
  pub remote_changed : Bool
  pub commits : List Commit
  pub reached : Bool
  pub truncated : Bool
  pub gaps : List DeltaGap

abbrev pub default_max_commits : ℤ
default_max_commits = pos 200

is_hex_byte : ℕ → Bool
is_hex_byte c =
    (leb b'0' c && leb c b'9') || ((leb b'a' c && leb c b'f') || (leb b'A' c && leb c b'F'))

all_hex_bytes : Bytes → Bool
unfolding is_hex_byte
all_hex_bytes [] = true
all_hex_bytes (c ∷ s) = is_hex_byte c && all_hex_bytes s

-- `isCommitHash`.
unfoldable pub is_commit_hash : Bytes → Bool
unfolding all_hex_bytes
is_commit_hash s = length s == 40 && all_hex_bytes s

pub with_gap : Rule → Delta → Delta
with_gap rule d = record d {
  gaps = d.gaps ++ raised rule (if bytes_eq d.pkg_base [] then d.dir else d.pkg_base) ∷ [];
}

pub with_clone_gaps : List Gap → Delta → Delta
with_clone_gaps gs d = record d { gaps = d.gaps ++ map of_clone gs }

pub with_status : DeltaStatus → Delta → Delta
with_status st d = record d { status = st }

-- The switch on the remote.
pub compare_remote : Option Bytes → Anchor → Delta → Delta
unfolding with_gap
compare_remote (some remote) anchor d = record d {
  remote = remote;
  remote_changed = not (bytes_eq anchor.remote []) && not (bytes_eq remote anchor.remote);
}
compare_remote none anchor d =
    if not (bytes_eq anchor.remote []) then with_gap vcs_no_remote d else d

-- The switch on what the walk reached, for a log without an error.
pub judge_log : Log → Delta → Delta
unfolding with_gap with_status
judge_log log d =
    if log.reached && length log.commits == 0
    then with_status up_to_date d
    else if log.reached
    then (if d.truncated then with_gap vcs_truncated (with_status ahead d) else with_status ahead d)
    else if d.truncated
    then with_gap vcs_truncated (with_status undetermined d)
    else with_status anchor_absent d

-- An anchor that is HEAD is up to date.
pub settle_head : Delta → Delta
settle_head d =
    if bytes_eq d.anchor.commit d.head then record d { status = up_to_date; reached = true } else d

-- From the log on.
pub from_log : ℤ → LogEnd → Log → List Gap → Delta → Delta
unfolding with_gap with_status with_clone_gaps judge_log settle_head
from_log max log_incomplete log gaps d =
    let d1 = with_clone_gaps gaps (record d { commits = log.commits; reached = log.reached }) in
    with_gap vcs_incomplete (with_status undetermined d1)
from_log max log_failed log gaps d =
    let d1 = with_clone_gaps gaps (record d { commits = log.commits; reached = log.reached }) in
    with_gap vcs_unreadable (with_status unreadable d1)
from_log max log_done log gaps d =
    let d1 = with_clone_gaps gaps (record d { commits = log.commits; reached = log.reached }) in
    settle_head
      (judge_log log (record d1 { truncated = not (ltb_ℤ (pos (length log.commits)) max) }))

-- From the anchor on.
pub from_anchor : ℤ → Clone → Delta → Delta
unfolding from_log
from_anchor max clone d =
    if bytes_eq d.anchor.commit []
    then with_clone_gaps clone.gaps_before (with_gap vcs_no_anchor (with_status unanchored d))
    else if not (is_commit_hash d.anchor.commit)
    then with_clone_gaps clone.gaps_before (with_gap vcs_bad_anchor (with_status unreadable d))
    else (let log = clone.log_since d.anchor.commit max in
        from_log max log.end log clone.gaps_after d)

pub blank_delta : Request → Delta
blank_delta req = record {
  pkg_base = req.pkg_base;
  dir = req.dir;
  status = unreadable;
  anchor = req.anchor;
  head = [];
  remote = [];
  remote_changed = false;
  commits = [];
  reached = false;
  truncated = false;
  gaps = [];
}

-- `ReviewDelta`; `none` is a clone that cannot be opened.
unfoldable pub review_delta : Request → Option Clone → Delta
unfolding blank_delta compare_remote from_anchor with_gap with_clone_gaps with_status
review_delta req opened = elim opened [
  | none ↦ with_gap vcs_unreadable (blank_delta req)
  | some clone ↦ elim clone.head [
    | none ↦ with_clone_gaps clone.gaps_before (with_gap vcs_unreadable (blank_delta req))
    | some head ↦
        from_anchor (if ltb_ℤ (pos 0) req.max then req.max else default_max_commits) clone
          (compare_remote clone.remote req.anchor (record (blank_delta req) { head = head }))
  ]
]

-- Which of the findings of `Result` a status gives, by rule and severity.
pub data DeltaFinding : Type 0 where
  new_commits anchor_missing remote_moved : DeltaFinding

pub status_findings : DeltaStatus → List DeltaFinding
status_findings ahead = new_commits ∷ []
status_findings anchor_absent = anchor_missing ∷ []
status_findings up_to_date = []
status_findings undetermined = []
status_findings unanchored = []
status_findings unreadable = []

-- The findings of `Result`; its gaps are those of the delta.
unfoldable pub delta_findings : Delta → List DeltaFinding
unfolding status_findings
delta_findings d = status_findings d.status ++ (if d.remote_changed then remote_moved ∷ [] else [])

-- What stands behind the first `::`, if there is one.
behind_rename : Bytes → Option Bytes
behind_rename [] = none
behind_rename (c ∷ []) = none
behind_rename (c ∷ d ∷ s) =
    let rest = behind_rename (d ∷ s) in if c == b':' && d == b':' then some s else rest

abbrev pub vcs_protocols : List Bytes
vcs_protocols = codes "git" ∷ codes "hg" ∷ codes "svn" ∷ codes "bzr" ∷ codes "fossil" ∷ []

first_protocol : Bytes → List Bytes → Option Bytes
first_protocol s [] = none
first_protocol s (p ∷ ps) =
    if has_prefix s (p ++ codes "+") || has_prefix s (p ++ codes "://")
    then some p
    else first_protocol s ps

-- `VCSKind`: the kind, and whether its history can be read.
unfoldable pub vcs_kind : Bytes → Bytes × Bool
unfolding behind_rename first_protocol
vcs_kind entry =
    let s : Bytes = elim (behind_rename entry) [ none ↦ entry | some t ↦ t ] in
    elim (first_protocol (to_lower s) vcs_protocols) [
      | none ↦ ([], false)
      | some p ↦ (p, bytes_eq p (codes "git"))
    ]

vcs_kind_test : vcs_kind (codes "src::Git+https://h/x") ≡ (codes "git", true)
unfolding vcs_kind to_lower bytes_eq has_prefix
vcs_kind_test = refl
