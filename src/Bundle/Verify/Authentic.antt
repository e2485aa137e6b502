-- ===== src/Bundle/Verify/Authentic.antt =====
-- internal/bundle/verify.go: the stage of `Verify` that authenticates the bundle.
use aurvet.Prelude.{
  Bool-cases, Bytes, ap, arith, inl, inr, ltb_ℤ, ok, pos, refl, some, ℤ, ◌&&◌, ◌++◌, ◌==◌, ◌∙◌, ◌≡◌,
  ◌≤◌,
}
use aurvet.Prelude.Ending.{Ends, Ends->>=, Ends-ok, Ends-refuse_if, Ends-stop}
use aurvet.Bundle.Verify.{
  Authenticated, Authorised, Input, Status, against_floor, authenticate, bad_bundle,
  coverage_complete, dropped_gap, inert_gaps,
}
use aurvet.Bundle.Verify.Stages.{
  IsOpen, IsStopped, or_refuse-Ends, or_refuse-eq-ok, refuse-IsStopped,
}
use aurvet.Bundle.Verify.Following.{
  Extends, Extends-trans, FollowsInput, against_floor-Ends, more_gaps-Extends,
}
use aurvet.Bundle.Delegation.{Channel, DelegationCodec}
use aurvet.Bundle.Document.{BundleCodec, Coverage, count_coverage, digest_of_bytes, parse_bundle}

module _ (H : Channel) (DK : DelegationCodec) (BK : BundleCodec) (stamp_of : ℤ → Bytes) where
  -- What holds when the bundle has been accepted.
  pub record IsAuthenticated (q : Input) (a : Authorised H DK BK stamp_of)
      (u : Authenticated H DK BK stamp_of) : Type 0 where
    pub goes_on : IsOpen u.st
    pub canon : Bytes
    pub parsed : parse_bundle H BK q.bundle_raw q.bundle_sig a.online ≡ ok (u.b, canon)
    pub digest_of : u.digest ≡ digest_of_bytes H.crypto canon
    pub follows : FollowsInput H DK BK stamp_of q u.b u.digest
    pub detects : 1 ≤ (count_coverage u.b).active
    pub bundle_shown : u.st.bundle ≡ some u.b
    pub digest_shown : u.st.digest ≡ u.digest
    pub version_shown : u.st.bundle_version ≡ u.b.bundle_version
    pub serial_shown : u.st.delegation_serial ≡ a.st.delegation_serial

  dropped_gap-Extends :
      (q : Input) (c : Coverage) (st : Status) → Extends st (dropped_gap H DK BK stamp_of q c st)
  unfolding dropped_gap
  dropped_gap-Extends q c st =
      elim (Bool-cases (q.floor_present && ltb_ℤ (pos c.active) q.floor.indicator_count)) [
        | inl fewer ↦ rw (fewer, dropped_gap) (more_gaps-Extends st _)
        | inr enough ↦ rw (enough, dropped_gap) (more_gaps-Extends st st.gaps)
      ]

  pub authenticate-Ends :
      (q : Input) (a : Authorised H DK BK stamp_of)
      → IsOpen a.st
      → Ends IsStopped (IsAuthenticated q a) (authenticate H DK BK stamp_of q a)
  unfolding authenticate
  authenticate-Ends q a o =
      Ends->>= IsStopped (IsAuthenticated q a) _ _
        (or_refuse-Ends a.st bad_bundle (parse_bundle H BK q.bundle_raw q.bundle_sig a.online)
          o.floor_kept)
        λ bc got.
          let b = bc.0 in
          let digest = digest_of_bytes H.crypto (bc.1) in
          let c = count_coverage b in
          let st = record a.st {
            bundle = some b;
            digest = digest;
            bundle_version = b.bundle_version;
            coverage = c;
          } in
          let held =
            against_floor-Ends H DK BK stamp_of q st b digest
              (record { undecided = o.undecided; floor_kept = o.floor_kept }) in
          Ends->>= IsStopped (IsAuthenticated q a) (against_floor H DK BK stamp_of q st b digest) _
            (Ends-stop IsStopped _ (against_floor H DK BK stamp_of q st b digest) held)
            λ st1 kept.
              let (same, follows) =
                Ends-ok IsStopped _ (against_floor H DK BK stamp_of q st b digest) held kept in
              Ends-refuse_if IsStopped (IsAuthenticated q a) (c.active == 0) _ _
                (refuse-IsStopped st1 _ (same.advances_eq ∙ o.floor_kept))
                λ some_active.
                  let st2 = record st1 { gaps = st1.gaps ++ inert_gaps c } in
                  let all = Extends-trans same (
                    Extends-trans (more_gaps-Extends st1 (st1.gaps ++ inert_gaps c))
                      (dropped_gap-Extends q c st2)) in
                  record {
                    goes_on = record {
                      undecided = ap coverage_complete all.state_eq ∙ o.undecided;
                      floor_kept = all.advances_eq ∙ o.floor_kept;
                    };
                    canon = bc.1;
                    parsed = or_refuse-eq-ok a.st bad_bundle _ got;
                    digest_of = refl;
                    follows = follows;
                    detects = ground arith;
                    bundle_shown = all.bundle_eq;
                    digest_shown = all.digest_eq;
                    version_shown = all.version_eq;
                    serial_shown = all.serial_eq;
                  }
