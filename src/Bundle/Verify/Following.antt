-- ===== src/Bundle/Verify/Following.antt =====
-- internal/bundle/verify.go: the comparison with the floor in `Verify`.
use aurvet.Chain.{next_int64}
use aurvet.Prelude.{
  Bool-cases, Bytes, List, [], arith, bytes_eq, bytes_eq_iff, eq_ℤ, eq_ℤ_iff, false, inl, inr,
  ltb_ℤ, pos, refl, true, ℤ, ◌&&◌, ◌++◌, ◌∙◌, ◌∷◌, ◌≡◌, ◌≢◌, ◌≤ℤ◌,
}
use aurvet.Prelude.Ending.{Ends}
use aurvet.Bundle.Floor.{Floor}
use aurvet.Bundle.Verify.{Gap, Input, Status, against_floor, links_unchecked}
use aurvet.Bundle.Verify.Stages.{IsOpen, IsStopped, refuse-IsStopped}
use aurvet.Bundle.Delegation.{Channel, DelegationCodec}
use aurvet.Bundle.Document.{Bundle, BundleCodec}

-- Nothing but gaps differs.
pub record Extends (st st' : Status) : Type 0 where
  pub state_eq : st'.state ≡ st.state
  pub advances_eq : st'.floor_advances ≡ st.floor_advances
  pub bundle_eq : st'.bundle ≡ st.bundle
  pub digest_eq : st'.digest ≡ st.digest
  pub version_eq : st'.bundle_version ≡ st.bundle_version
  pub serial_eq : st'.delegation_serial ≡ st.delegation_serial

pub more_gaps-Extends : (st : Status) (gs : List Gap) → Extends st (record st { gaps = gs })
more_gaps-Extends st gs = record {
  state_eq = refl;
  advances_eq = refl;
  bundle_eq = refl;
  digest_eq = refl;
  version_eq = refl;
  serial_eq = refl;
}

pub Extends-trans : {a b c : Status} → Extends a b → Extends b c → Extends a c
Extends-trans p q = record {
  state_eq = q.state_eq ∙ p.state_eq;
  advances_eq = q.advances_eq ∙ p.advances_eq;
  bundle_eq = q.bundle_eq ∙ p.bundle_eq;
  digest_eq = q.digest_eq ∙ p.digest_eq;
  version_eq = q.version_eq ∙ p.version_eq;
  serial_eq = q.serial_eq ∙ p.serial_eq;
}

-- A bundle that a floor admits: not older, not another one of the same version, and the successor only if
-- it names the bundle before.
pub record FollowsFloor (f : Floor) (b : Bundle) (digest : Bytes) : Type 0 where
  pub not_older : f.min_bundle_version ≤ℤ b.bundle_version
  pub not_forked : b.bundle_version ≡ f.min_bundle_version → digest ≡ f.head_digest
  pub linked :
      b.bundle_version ≢ f.min_bundle_version
      → b.bundle_version ≡ next_int64 f.min_bundle_version
      → b.prev_digest ≡ f.head_digest

module _ (H : Channel) (DK : DelegationCodec) (BK : BundleCodec) (stamp_of : ℤ → Bytes) where
  -- The floor matters when it is present and has a version.
  abbrev pub FollowsInput : Input → Bundle → Bytes → Type 0
  FollowsInput q b digest =
      q.floor_present ≡ true
      → ltb_ℤ (pos 0) q.floor.min_bundle_version ≡ true
      → FollowsFloor q.floor b digest

  at_floor :
      (q : Input) (b : Bundle) (digest : Bytes)
      → eq_ℤ b.bundle_version q.floor.min_bundle_version ≡ true
      → bytes_eq digest q.floor.head_digest ≡ true
      → FollowsFloor q.floor b digest
  at_floor q b digest same equal =
      let p = (eq_ℤ_iff b.bundle_version q.floor.min_bundle_version).0 same in
      record {
        not_older = rw p (omega arith);
        not_forked = λ _. (bytes_eq_iff digest q.floor.head_digest).0 equal;
        linked = λ differs _. absurd (differs p);
      }

  newer_floor :
      (q : Input) (b : Bundle) (digest : Bytes)
      → ltb_ℤ b.bundle_version q.floor.min_bundle_version ≡ false
      → eq_ℤ b.bundle_version q.floor.min_bundle_version ≡ false
      → (b.bundle_version ≡ next_int64 q.floor.min_bundle_version
          → b.prev_digest ≡ q.floor.head_digest)
      → FollowsFloor q.floor b digest
  newer_floor q b digest older other named = record {
    not_older = ground arith;
    not_forked = λ p. absurd (ground (arith, eq_ℤ_iff b.bundle_version q.floor.min_bundle_version));
    linked = λ _ p. named p;
  }

  beyond :
      (q : Input) (b : Bundle) (digest : Bytes)
      → ltb_ℤ b.bundle_version q.floor.min_bundle_version ≡ false
      → eq_ℤ b.bundle_version q.floor.min_bundle_version ≡ false
      → eq_ℤ b.bundle_version (next_int64 q.floor.min_bundle_version) ≡ false
      → FollowsFloor q.floor b digest
  beyond q b digest older other far = newer_floor q b digest older other λ p.
      absurd (ground (arith, eq_ℤ_iff b.bundle_version (next_int64 q.floor.min_bundle_version)))

  pub against_floor-Ends :
      (q : Input) (st : Status) (b : Bundle) (digest : Bytes)
      → IsOpen st
      → Ends IsStopped
          (λ st'. Extends st st' × FollowsInput q b digest)
          (against_floor H DK BK stamp_of q st b digest)
  unfolding against_floor
  against_floor-Ends q st b digest o =
      elim (Bool-cases (q.floor_present && ltb_ℤ (pos 0) q.floor.min_bundle_version)) [
        | inr off ↦
            rw (off, against_floor) (more_gaps-Extends st st.gaps, λ p v. absurd (ground arith))
        | inl on ↦ elim (Bool-cases (ltb_ℤ b.bundle_version q.floor.min_bundle_version)) [
          | inl older ↦
              rw (on, against_floor)
                (rw (older, against_floor) (refuse-IsStopped st _ o.floor_kept))
          | inr older ↦ elim (Bool-cases (eq_ℤ b.bundle_version q.floor.min_bundle_version)) [
            | inl same ↦ elim (Bool-cases (bytes_eq digest q.floor.head_digest)) [
              | inr fork ↦
                  rw (on, against_floor)
                    (rw (older, against_floor)
                      (rw (same, against_floor)
                        (rw (fork, against_floor) (refuse-IsStopped st _ o.floor_kept))))
              | inl equal ↦
                  rw (on, against_floor)
                    (rw (older, against_floor)
                      (rw (same, against_floor)
                        (rw (equal, against_floor)
                          (more_gaps-Extends st st.gaps, λ p v. at_floor q b digest same equal))))
            ]
            | inr other ↦
                elim (Bool-cases (eq_ℤ b.bundle_version (next_int64 q.floor.min_bundle_version))) [
                  | inr far ↦
                      rw (on, against_floor)
                        (rw (older, against_floor)
                          (rw (other, against_floor)
                            (rw (far, against_floor)
                              (
                                more_gaps-Extends st (
                                    st.gaps
                                    ++ links_unchecked q.floor.min_bundle_version b.bundle_version
                                      ∷ []),
                                λ p v. beyond q b digest older other far,
                              ))))
                  | inl next ↦ elim (Bool-cases (bytes_eq b.prev_digest q.floor.head_digest)) [
                    | inr wrong ↦
                        rw (on, against_floor)
                          (rw (older, against_floor)
                            (rw (other, against_floor)
                              (rw (next, against_floor)
                                (rw (wrong, against_floor) (refuse-IsStopped st _ o.floor_kept)))))
                    | inl named ↦
                        rw (on, against_floor)
                          (rw (older, against_floor)
                            (rw (other, against_floor)
                              (rw (next, against_floor)
                                (rw (named, against_floor)
                                  (
                                    more_gaps-Extends st st.gaps,
                                    λ p v. newer_floor q b digest older other (λ _.
                                        (bytes_eq_iff b.prev_digest q.floor.head_digest).0 named),
                                  )))))
                  ]
                ]
          ]
        ]
      ]
