-- ===== src/Bundle/Verify.antt =====
-- internal/bundle/verify.go: what the cached bytes, the floor and the time let a run conclude. The texts
-- of refusals and gaps are modelled by the case that they name. An early return of the source is an
-- error that carries the status.
pub mod Stages
pub mod Following
pub mod Authentic
pub mod Outcome
pub mod Genuine
pub mod Proposal
pub mod Rollback
use aurvet.Chain.{next_int64}
use aurvet.Bundle.Floor.{Floor, floor_schema}
use aurvet.Prelude.{
  Bool, Bytes, Fallible, List, Option, [], bytes_eq, eq_ℤ, err, false, if◌then◌else◌, ltb_ℤ, map,
  none, not, ok, pos, refuse_if, some, true, ℕ, ℤ, ◌&&◌, ◌++◌, ◌==◌, ◌>>=◌, ◌>>◌, ◌||◌, ◌∷◌,
}
use aurvet.Prelude.Time.{days, time_sub}
use aurvet.Baseline.Key.{PublicKey}
use aurvet.Bundle.{BundleError}
use aurvet.Bundle.Roots.{RootSet, is_empty, software_keys}
use aurvet.Bundle.Delegation.{
  Channel, Delegation, DelegationCodec, active_keys, delegation_expired, verify_delegation,
}
use aurvet.Bundle.Document.{
  Bundle, BundleCodec, Coverage, HostIndicator, RepoIndicator, count_coverage, digest_of_bytes,
  parse_bundle,
}

pub data State : Type 0 where
  unavailable refused expired active : State

unfoldable pub usable_indicators : State → Bool
usable_indicators unavailable = false
usable_indicators refused = false
usable_indicators expired = true
usable_indicators active = true

unfoldable pub coverage_complete : State → Bool
coverage_complete unavailable = false
coverage_complete refused = false
coverage_complete expired = false
coverage_complete active = true

abbrev pub default_max_silence : ℤ
default_max_silence = days 14

pub record Input : Type 0 where
  pub roots : RootSet
  pub delegation_raw : Bytes
  pub delegation_sigs : List Bytes
  pub bundle_raw : Bytes
  pub bundle_sig : Bytes
  pub floor : Floor
  pub floor_present : Bool
  pub now : ℤ
  pub max_silence : ℤ

pub data Refusal : Type 0 where
  no_root_keys no_delegation no_active_key : Refusal
  bad_delegation bad_bundle : BundleError → Refusal
  superseded : ℤ → ℤ → Refusal
  root_set_retired : Bytes → Refusal
  delegation_expired_at : Bytes → Refusal
  rollback : ℤ → ℤ → Refusal
  forked wrong_predecessor : ℤ → Refusal
  removes_detections unreadable_expiry : Refusal

pub data Gap : Type 0 where
  software_roots : List Bytes → Gap
  nothing_cached no_bundle_cached : Gap
  refusal_gap : Refusal → Gap
  links_unchecked : ℤ → ℤ → Gap
  inert_host : HostIndicator → Gap
  inert_repo : RepoIndicator → Gap
  count_dropped : ℤ → ℕ → Gap
  expired_at : Bytes → Gap
  silence : Bytes → Gap

pub record Status : Type 0 where
  pub state : State
  pub refusal : Option Refusal
  pub upgrade_message : Bytes
  pub bundle : Option Bundle
  pub digest : Bytes
  pub bundle_version : ℤ
  pub coverage : Coverage
  pub delegation_serial : ℤ
  pub delegation_expiry : Bytes
  pub gaps : List Gap
  pub next_floor : Floor
  pub floor_advances : Bool

abbrev pub zero_floor : Floor
zero_floor = record {
  schema = pos 0;
  min_bundle_version = pos 0;
  head_digest = [];
  min_delegation_serial = pos 0;
  indicator_count = pos 0;
  root_generation = pos 0;
  accepted_at = [];
  checked_at = [];
}

abbrev pub new_status : Status
new_status = record {
  state = unavailable;
  refusal = none;
  upgrade_message = [];
  bundle = none;
  digest = [];
  bundle_version = pos 0;
  coverage = record { active = 0; inert_hosts = []; inert_repos = [] };
  delegation_serial = pos 0;
  delegation_expiry = [];
  gaps = [];
  next_floor = zero_floor;
  floor_advances = false;
}

-- `st.gap`.
abbrev pub with_gap : Status → Gap → Status
with_gap st g = record st { gaps = st.gaps ++ g ∷ [] }

-- `st.refuse`.
abbrev pub refuse : Status → Refusal → Status
refuse st r = with_gap (record st { state = refused; refusal = some r }) (refusal_gap r)

abbrev pub or_refuse {ℓ} :
    {A : Type ℓ} → Status → (BundleError → Refusal) → Fallible BundleError A → Fallible Status A
or_refuse st why (ok a) = ok a
or_refuse st why (err e) = err (refuse st (why e))

unfoldable pub max_int64 : ℤ → ℤ → ℤ
max_int64 a b = if ltb_ℤ b a then a else b

pub no_bytes : Bytes → Bool
no_bytes [] = true
no_bytes (c ∷ s) = false

pub with_software : Status → List Bytes → Status
with_software st [] = st
with_software st (fp ∷ fps) = with_gap st (software_roots (fp ∷ fps))

pub inert_gaps : Coverage → List Gap
inert_gaps c = map inert_host c.inert_hosts ++ map inert_repo c.inert_repos

pub none_active : List PublicKey → Bool
none_active [] = true
none_active (k ∷ ks) = false

module _ (H : Channel) (DK : DelegationCodec) (BK : BundleCodec) (stamp_of : ℤ → Bytes) where
  pub silence_limit : ℤ → ℤ
  silence_limit n = if ltb_ℤ (pos 0) n then n else default_max_silence

  -- `freezeHint`.
  pub freeze_hint : Input → Status → Status
  freeze_hint q st =
      if not q.floor_present || no_bytes q.floor.accepted_at
      then st
      else elim (H.parse_stamp q.floor.accepted_at) [
        | none ↦ st
        | some accepted ↦
            if ltb_ℤ (silence_limit q.max_silence) (time_sub q.now accepted)
            then with_gap st (silence q.floor.accepted_at)
            else st
      ]

  -- The delegation and the keys that are active, or the status that ends the run before.
  pub record Authorised : Type 0 where
    pub st : Status
    pub del : Delegation
    pub online : List PublicKey

  unfoldable pub authorise : Input → Fallible Status Authorised
  unfolding with_software freeze_hint no_bytes none_active silence_limit
  authorise q = do
    refuse_if (is_empty q.roots) (refuse new_status no_root_keys)
    let st = with_software new_status (software_keys H.crypto q.roots)
    refuse_if (no_bytes q.bundle_raw && no_bytes q.delegation_raw)
        (freeze_hint q (with_gap st nothing_cached))
    refuse_if (no_bytes q.delegation_raw) (refuse st no_delegation)
    (del, canon) ←
        or_refuse st bad_delegation
          (verify_delegation H DK q.delegation_raw q.delegation_sigs q.roots)
    let st1 = record st { delegation_serial = del.serial; delegation_expiry = del.valid_until }
    refuse_if (q.floor_present && ltb_ℤ del.serial q.floor.min_delegation_serial)
        (refuse st1 (superseded del.serial q.floor.min_delegation_serial))
    refuse_if del.root_set_retired (
        refuse (record st1 { upgrade_message = del.upgrade_message })
          (root_set_retired del.upgrade_message))
    refuse_if (delegation_expired H del q.now) (refuse st1 (delegation_expired_at del.valid_until))
    let online = (active_keys H del q.now).0
    refuse_if (none_active online) (refuse st1 no_active_key)
    refuse_if (no_bytes q.bundle_raw) (freeze_hint q (with_gap st1 no_bundle_cached))
    ok (record { st = st1; del = del; online = online })

  -- The comparison with the floor: a gap, nothing, or a refusal.
  unfoldable pub against_floor : Input → Status → Bundle → Bytes → Fallible Status Status
  against_floor q st b digest =
      if not (q.floor_present && ltb_ℤ (pos 0) q.floor.min_bundle_version)
      then ok st
      else if ltb_ℤ b.bundle_version q.floor.min_bundle_version
      then err (refuse st (rollback b.bundle_version q.floor.min_bundle_version))
      else if eq_ℤ b.bundle_version q.floor.min_bundle_version
      then (if not (bytes_eq digest q.floor.head_digest)
          then err (refuse st (forked b.bundle_version))
          else ok st)
      else if eq_ℤ b.bundle_version (next_int64 q.floor.min_bundle_version)
      then (if not (bytes_eq b.prev_digest q.floor.head_digest)
          then err (refuse st (wrong_predecessor b.bundle_version))
          else ok st)
      else ok (with_gap st (links_unchecked q.floor.min_bundle_version b.bundle_version))

  pub dropped_gap : Input → Coverage → Status → Status
  dropped_gap q c st =
      if q.floor_present && ltb_ℤ (pos c.active) q.floor.indicator_count
      then with_gap st (count_dropped q.floor.indicator_count c.active)
      else st

  -- The bundle, the digest of its bytes and the status so far.
  pub record Authenticated : Type 0 where
    pub st : Status
    pub b : Bundle
    pub digest : Bytes

  unfoldable pub authenticate : Input → Authorised → Fallible Status Authenticated
  unfolding against_floor dropped_gap inert_gaps
  authenticate q a = do
    (b, canon) ← or_refuse a.st bad_bundle (parse_bundle H BK q.bundle_raw q.bundle_sig a.online)
    let digest = digest_of_bytes H.crypto canon
    let c = count_coverage b
    let st = record a.st {
      bundle = some b;
      digest = digest;
      bundle_version = b.bundle_version;
      coverage = c;
    }
    st1 ← against_floor q st b digest
    refuse_if (c.active == 0) (refuse st1 removes_detections)
    let st2 = record st1 { gaps = st1.gaps ++ inert_gaps c }
    ok (record { st = dropped_gap q c st2; b = b; digest = digest })

  -- The floor that is proposed when the run is current.
  unfoldable pub proposed_floor : Input → Delegation → Bundle → Bytes → Floor
  proposed_floor q del b digest = record {
    schema = floor_schema;
    min_bundle_version = max_int64 b.bundle_version q.floor.min_bundle_version;
    head_digest = digest;
    min_delegation_serial = max_int64 del.serial q.floor.min_delegation_serial;
    indicator_count = pos (count_coverage b).active;
    root_generation = q.roots.generation;
    accepted_at = stamp_of q.now;
    checked_at = stamp_of q.now;
  }

  pub advances : Input → Delegation → Bundle → Bool
  advances q del b =
      not q.floor_present
      || ltb_ℤ q.floor.min_bundle_version b.bundle_version
      || ltb_ℤ q.floor.min_delegation_serial del.serial

  -- The status of a bundle that is current.
  pub activated : Input → Delegation → Authenticated → Status
  unfolding advances
  activated q del u =
      let st = freeze_hint q (record u.st { state = active }) in
      if advances q del u.b
      then record st { floor_advances = true; next_floor = proposed_floor q del u.b u.digest }
      else st

  pub conclude : Input → Delegation → Authenticated → Status
  conclude q del u = elim (H.parse_stamp u.b.valid_until) [
    | none ↦ refuse u.st unreadable_expiry
    | some until ↦
        if not (ltb_ℤ q.now until)
        then freeze_hint q (with_gap (record u.st { state = expired }) (expired_at u.b.valid_until))
        else activated q del u
  ]

  pub pipeline : Input → Fallible Status Status
  pipeline q = do a ← authorise q; u ← authenticate q a; ok (conclude q a.del u)

  -- `Verify`: the status that the run ended with.
  unfoldable pub verify_input : Input → Status
  unfolding pipeline conclude activated freeze_hint advances no_bytes silence_limit
  verify_input q = elim (pipeline q) [ ok st ↦ st | err st ↦ st ]
