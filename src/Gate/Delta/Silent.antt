-- ===== src/Gate/Delta/Silent.antt =====
-- What silence of `ReviewDelta` of internal/gate/vcsdelta.go means.
use mathlib.Core.Path.{subst}
use aurvet.Prelude.{
  Bool-cases, Bytes, List, Option, Option-cases, [], arith, bytes_eq, bytes_eq_iff, false,
  if◌then◌else◌, inl, inr, length, ltb_ℤ, none, not, pos, refl, some, true, ℤ, ◌++◌, ◌==◌, ◌≡◌, ◌≢◌,
  ◌⊎◌, ◌∷◌, ==_iff, ap, sym, ◌∙◌,
}
use aurvet.Finding.{Gap}
use aurvet.Gate.{Anchor}
use aurvet.Gate.Delta.{
  Clone, Delta, Log, LogEnd, Request, default_max_commits, delta_findings, from_anchor, from_log,
  is_commit_hash, judge_log, log_done, log_failed, log_incomplete, review_delta, settle_head,
  status_findings, up_to_date, with_clone_gaps, with_gap, with_status, blank_delta, compare_remote,
}

snoc_nil {ℓ} : {A : Type ℓ} (gs : List A) (g : A) → gs ++ g ∷ [] ≢ []
snoc_nil [] g h = cc
snoc_nil (x ∷ gs) g h = cc

-- The anchor is HEAD, or the walk reached it and saw no commit.
abbrev pub IsCurrent : Clone → Bytes → ℤ → Bytes → Type 0
IsCurrent clone head max commit =
    (commit ≡ head)
    ⊎ (((clone.log_since commit max).reached ≡ true)
        × (length (clone.log_since commit max).commits ≡ 0)
        × ((clone.log_since commit max).end ≡ log_done))

judge_log-silent :
    (log : Log) (d : Delta)
    → status_findings (judge_log log d).status ≡ []
    → (judge_log log d).gaps ≡ []
    → ((judge_log log d).status ≡ up_to_date) × (log.reached ≡ true) × (length log.commits ≡ 0)
unfolding judge_log status_findings with_gap with_status
judge_log-silent log d f g = elim (Bool-cases log.reached) [
  | inl r ↦ elim (Bool-cases (length log.commits == 0)) [
    | inl e ↦ rw (r, e) (refl, refl, (==_iff (length log.commits) 0).0 e)
    | inr e ↦ elim (Bool-cases d.truncated) [
      | inl t ↦ absurd (let k = rw (r, e, t) at f in cc)
      | inr t ↦ absurd (let k = rw (r, e, t) at f in cc)
    ]
  ]
  | inr r ↦ elim (Bool-cases d.truncated) [
    | inl t ↦ absurd (snoc_nil d.gaps _ (rw (r, t) at g))
    | inr t ↦ absurd (let k = rw (r, t) at f in cc)
  ]
]

settle_head-cases :
    (d : Delta)
    → ((d.anchor.commit ≡ d.head) × ((settle_head d).status ≡ up_to_date)) ⊎ (settle_head d ≡ d)
unfolding settle_head
settle_head-cases d = elim (Bool-cases (bytes_eq d.anchor.commit d.head)) [
  | inl e ↦ inl ((bytes_eq_iff d.anchor.commit d.head).0 e, rw (e, settle_head) refl)
  | inr e ↦ inr (rw (e, settle_head) refl)
]

judge_log-same :
    (log : Log) (d : Delta)
    → ((judge_log log d).anchor.commit ≡ d.anchor.commit) × ((judge_log log d).head ≡ d.head)
unfolding judge_log with_gap with_status
judge_log-same log d = ground arith

abbrev read_log : ℤ → Log → List Gap → Delta → Delta
read_log max log gs d =
    record (with_clone_gaps gs (record d { commits = log.commits; reached = log.reached })) {
      truncated = not (ltb_ℤ (pos (length log.commits)) max);
    }

append_nil_left {ℓ} : {A : Type ℓ} (gs hs : List A) → gs ++ hs ≡ [] → gs ≡ []
append_nil_left [] hs h = refl
append_nil_left (x ∷ gs) hs h = absurd (cc)

from_log-silent :
    (max : ℤ) (e : LogEnd) (log : Log) (gs : List Gap) (d : Delta)
    → status_findings (from_log max e log gs d).status ≡ []
    → (from_log max e log gs d).gaps ≡ []
    → ((from_log max e log gs d).status ≡ up_to_date)
      × ((d.anchor.commit ≡ d.head)
          ⊎ ((log.reached ≡ true) × (length log.commits ≡ 0) × (e ≡ log_done)))
unfolding from_log settle_head judge_log with_clone_gaps with_gap with_status
from_log-silent max log_incomplete log gs d f g = absurd (snoc_nil _ _ g)
from_log-silent max log_failed log gs d f g = absurd (snoc_nil _ _ g)
from_log-silent max log_done log gs d f g =
    let d1 = read_log max log gs d in
    let (at, top) = judge_log-same log d1 in
    elim (settle_head-cases (judge_log log d1)) [
      | inl (current, settled) ↦ (settled, inl (sym at ∙ current ∙ top))
      | inr kept ↦
          let (st, r, l) = judge_log-silent log d1 (rw kept at f) (rw kept at g) in
          (ap (λ (x : Delta). x.status) kept ∙ st, inr (r, l, refl))
    ]

-- The bound of the review.
abbrev pub bound_of : Request → ℤ
bound_of req = if ltb_ℤ (pos 0) req.max then req.max else default_max_commits

from_anchor-silent :
    (max : ℤ) (clone : Clone) (d : Delta)
    → status_findings (from_anchor max clone d).status ≡ []
    → (from_anchor max clone d).gaps ≡ []
    → ((from_anchor max clone d).status ≡ up_to_date)
      × (is_commit_hash d.anchor.commit ≡ true)
      × IsCurrent clone d.head max d.anchor.commit
unfolding from_anchor with_gap with_status with_clone_gaps
from_anchor-silent max clone d f g = elim (Bool-cases (bytes_eq d.anchor.commit [])) [
  | inl e ↦ absurd (snoc_nil _ _ (append_nil_left _ _ (let k = rw (e, from_anchor) at g in k)))
  | inr e ↦ elim (Bool-cases (is_commit_hash d.anchor.commit)) [
    | inr b ↦ absurd (snoc_nil _ _ (append_nil_left _ _ (let k = rw (e, b, from_anchor) at g in k)))
    | inl b ↦
        let log = clone.log_since d.anchor.commit max in
        let step : from_anchor max clone d ≡ from_log max log.end log clone.gaps_after d =
          rw (e, b, from_anchor) refl in
        let (st, current) =
          from_log-silent max log.end log clone.gaps_after d
            (ap (λ (x : Delta). status_findings x.status) (sym step) ∙ f)
            (ap (λ (x : Delta). x.gaps) (sym step) ∙ g) in
        (ap (λ (x : Delta). x.status) step ∙ st, b, current)
  ]
]

-- The review only adds gaps, and leaves the comparison of the remotes.
judge_log-keeps :
    (log : Log) (d : Delta)
    → ((judge_log log d).remote_changed ≡ d.remote_changed)
      × ((judge_log log d).gaps ≡ [] → d.gaps ≡ [])
unfolding judge_log with_gap with_status
judge_log-keeps log d = (
  ground arith,
  λ h. elim (Bool-cases log.reached) [
    | inl r ↦ elim (Bool-cases (length log.commits == 0)) [
      | inl e ↦ rw (r, e) at h
      | inr e ↦ elim (Bool-cases d.truncated) [
        | inl t ↦ absurd (snoc_nil d.gaps _ (rw (r, e, t) at h))
        | inr t ↦ rw (r, e, t) at h
      ]
    ]
    | inr r ↦ elim (Bool-cases d.truncated) [
      | inl t ↦ absurd (snoc_nil d.gaps _ (rw (r, t) at h))
      | inr t ↦ rw (r, t) at h
    ]
  ],
)

settle_head-keeps :
    (d : Delta)
    → ((settle_head d).remote_changed ≡ d.remote_changed) × ((settle_head d).gaps ≡ d.gaps)
unfolding settle_head
settle_head-keeps d = (ground arith, ground arith)

from_log-keeps :
    (max : ℤ) (e : LogEnd) (log : Log) (gs : List Gap) (d : Delta)
    → ((from_log max e log gs d).remote_changed ≡ d.remote_changed)
      × ((from_log max e log gs d).gaps ≡ [] → d.gaps ≡ [])
unfolding from_log with_clone_gaps with_gap with_status
from_log-keeps max log_incomplete log gs d = (refl, λ h. absurd (snoc_nil _ _ h))
from_log-keeps max log_failed log gs d = (refl, λ h. absurd (snoc_nil _ _ h))
from_log-keeps max log_done log gs d =
    let d1 = read_log max log gs d in
    let (moved, more) = judge_log-keeps log d1 in
    let (moved', same) = settle_head-keeps (judge_log log d1) in
    (moved' ∙ moved, λ h. append_nil_left d.gaps _ (more (sym same ∙ h)))

from_anchor-keeps :
    (max : ℤ) (clone : Clone) (d : Delta)
    → ((from_anchor max clone d).remote_changed ≡ d.remote_changed)
      × ((from_anchor max clone d).gaps ≡ [] → d.gaps ≡ [])
unfolding from_anchor with_gap with_status with_clone_gaps
from_anchor-keeps max clone d = elim (Bool-cases (bytes_eq d.anchor.commit [])) [
  | inl e ↦ rw (e, from_anchor) (refl, λ h. absurd (snoc_nil _ _ (append_nil_left _ _ h)))
  | inr e ↦ elim (Bool-cases (is_commit_hash d.anchor.commit)) [
    | inr b ↦ rw (e, b, from_anchor) (refl, λ h. absurd (snoc_nil _ _ (append_nil_left _ _ h)))
    | inl b ↦
        let log = clone.log_since d.anchor.commit max in
        rw (e, b, from_anchor) (from_log-keeps max log.end log clone.gaps_after d)
  ]
]

-- The origin is the recorded one, if one was recorded.
abbrev pub SameRemote : Anchor → Clone → Type 0
SameRemote anchor clone = (anchor.remote ≡ []) ⊎ (clone.remote ≡ some anchor.remote)

compare_remote-same :
    (clone : Clone) (anchor : Anchor) (d : Delta)
    → (compare_remote clone.remote anchor d).remote_changed ≡ false
    → (compare_remote clone.remote anchor d).gaps ≡ []
    → SameRemote anchor clone
unfolding compare_remote with_gap
compare_remote-same clone anchor d moved quiet = elim (Bool-cases (bytes_eq anchor.remote [])) [
  | inl e ↦ inl ((bytes_eq_iff anchor.remote []).0 e)
  | inr e ↦ elim (Option-cases clone.remote) [
    | inl gone ↦ absurd (snoc_nil d.gaps _ (rw (gone, e, compare_remote) at quiet))
    | inr (u, there) ↦ elim (Bool-cases (bytes_eq u anchor.remote)) [
      | inl same ↦ inr (there ∙ ap some ((bytes_eq_iff u anchor.remote).0 same))
      | inr other ↦ absurd (let k = rw (there, e, other, compare_remote) at moved in cc)
    ]
  ]
]

compare_remote-anchor :
    (r : Option Bytes) (anchor : Anchor) (d : Delta)
    → ((compare_remote r anchor d).anchor.commit ≡ d.anchor.commit)
      × ((compare_remote r anchor d).head ≡ d.head)
unfolding compare_remote with_gap
compare_remote-anchor none anchor d = (ground arith, ground arith)
compare_remote-anchor (some u) anchor d = (refl, refl)

-- What is silent in the two parts of the findings.
delta_findings-none :
    (d : Delta)
    → delta_findings d ≡ []
    → (status_findings d.status ≡ []) × (d.remote_changed ≡ false)
unfolding delta_findings
delta_findings-none d h = (
  append_nil_left (status_findings d.status) _ h,
  elim (Bool-cases d.remote_changed) [
    | inl moved ↦ absurd (snoc_nil (status_findings d.status) _ (rw moved at h))
    | inr kept ↦ kept
  ],
)

-- A review without findings and without gaps: the clone and its HEAD were read, the status is up to
-- date, the recorded commit is a commit hash and is HEAD or was reached by the walk with no commit
-- before it, and the origin is the recorded one, if one was recorded.
pub review_delta-silent :
    (req : Request) (opened : Option Clone)
    → delta_findings (review_delta req opened) ≡ []
    → (review_delta req opened).gaps ≡ []
    → (clone : Clone) × (head : Bytes) × (opened ≡ some clone)
      × (clone.head ≡ some head)
      × ((review_delta req opened).status ≡ up_to_date)
      × (is_commit_hash req.anchor.commit ≡ true)
      × IsCurrent clone head (bound_of req) req.anchor.commit
      × SameRemote req.anchor clone
unfolding review_delta delta_findings with_gap with_clone_gaps blank_delta
review_delta-silent req none f g = absurd (cc)
review_delta-silent req (some clone) f g = elim (Option-cases clone.head) [
  | inl e ↦ absurd (let k = rw (e, review_delta) at g in cc)
  | inr (head, e) ↦
      let d = compare_remote clone.remote req.anchor (record (blank_delta req) { head = head }) in
      let step : review_delta req (some clone) ≡ from_anchor (bound_of req) clone d =
        rw (e, review_delta) refl in
      let (quiet, kept) = delta_findings-none (review_delta req (some clone)) f in
      let (moved, less) = from_anchor-keeps (bound_of req) clone d in
      let no_gaps = ap (λ (x : Delta). x.gaps) (sym step) ∙ g in
      let (st, good, current) =
        from_anchor-silent (bound_of req) clone d
          (ap (λ (x : Delta). status_findings x.status) (sym step) ∙ quiet) no_gaps in
      let (at, top) =
        compare_remote-anchor clone.remote req.anchor (record (blank_delta req) { head = head }) in
      (
        clone,
        head,
        refl,
        e,
        ap (λ (x : Delta). x.status) step ∙ st,
        ap is_commit_hash (sym at) ∙ good,
        subst (λ c. IsCurrent clone head (bound_of req) c) at
            (subst (λ t. IsCurrent clone t (bound_of req) d.anchor.commit) top current),
        compare_remote-same clone req.anchor (record (blank_delta req) { head = head })
            (sym moved ∙ ap (λ (x : Delta). x.remote_changed) (sym step) ∙ kept) (less no_gaps),
      )
]
