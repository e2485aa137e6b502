-- ===== src/Bundle/Verify/Outcome.antt =====
-- internal/bundle/verify.go: what the status of `Verify` means.
use mathlib.Core.Path.{subst}
use aurvet.Prelude.{
  Bool-cases, Bytes, Fallible-cases, Option-cases, ap, inl, inr, ltb_ℤ, refl, some, sym, true, ℤ,
  ◌∙◌, ◌≡◌, ◌⊎◌,
}
use aurvet.Prelude.Ending.{Ends-err, Ends-ok}
use aurvet.Bundle.Verify.{
  Authenticated, Authorised, Input, Status, activated, active, advances, authenticate, authorise,
  conclude, coverage_complete, expired, pipeline, proposed_floor, unreadable_expiry, verify_input,
}
use aurvet.Bundle.Verify.Stages.{
  IsAuthorised, IsOpen, IsStopped, authorise-Ends, freeze_hint-keeps, hint-IsStopped,
  refuse-IsStopped,
}
use aurvet.Bundle.Verify.Following.{Extends, more_gaps-Extends}
use aurvet.Bundle.Verify.Authentic.{IsAuthenticated, authenticate-Ends}
use aurvet.Bundle.Delegation.{Channel, Delegation, DelegationCodec}
use aurvet.Bundle.Document.{BundleCodec}

module _ (H : Channel) (DK : DelegationCodec) (BK : BundleCodec) (stamp_of : ℤ → Bytes) where
  -- The parts that an active run has put together.
  pub record Active (q : Input) : Type 0 where
    pub a : Authorised H DK BK stamp_of
    pub u : Authenticated H DK BK stamp_of
    pub authorised : IsAuthorised H DK BK stamp_of q a
    pub authenticated : IsAuthenticated H DK BK stamp_of q a u
    pub until : ℤ
    pub until_read : H.parse_stamp u.b.valid_until ≡ some until
    pub current : ltb_ℤ q.now until ≡ true
    pub status : verify_input H DK BK stamp_of q ≡ activated H DK BK stamp_of q a.del u

  conclude-cases :
      (q : Input) (del : Delegation) (u : Authenticated H DK BK stamp_of)
      → IsOpen u.st
      → IsStopped (conclude H DK BK stamp_of q del u)
        ⊎ ((until : ℤ) × (H.parse_stamp u.b.valid_until ≡ some until)
            × (ltb_ℤ q.now until ≡ true)
            × (conclude H DK BK stamp_of q del u ≡ activated H DK BK stamp_of q del u))
  unfolding conclude coverage_complete
  conclude-cases q del u o = elim (Option-cases (H.parse_stamp u.b.valid_until)) [
    | inl unread ↦
        inl (rw (unread, conclude) (refuse-IsStopped u.st unreadable_expiry o.floor_kept))
    | inr (until, read) ↦ elim (Bool-cases (ltb_ℤ q.now until)) [
      | inl current ↦ inr (until, read, current, rw (read, conclude) (rw (current, conclude) refl))
      | inr late ↦ inl (
          rw (read, conclude)
            (rw (late, conclude)
              (hint-IsStopped H DK BK stamp_of q (record u.st { state = expired }) _
                (record { undecided = refl; floor_kept = o.floor_kept }))))
    ]
  ]

  pub verify_input-cases : (q : Input) → IsStopped (verify_input H DK BK stamp_of q) ⊎ Active q
  unfolding verify_input pipeline
  verify_input-cases q = elim (Fallible-cases (authorise H DK BK stamp_of q)) [
    | inr (st, bad) ↦ inl (
        rw (bad, verify_input)
          (Ends-err IsStopped _ (authorise H DK BK stamp_of q) (authorise-Ends H DK BK stamp_of q)
            bad))
    | inl (a, good) ↦
        let au =
          Ends-ok IsStopped _ (authorise H DK BK stamp_of q) (authorise-Ends H DK BK stamp_of q)
            good in
        let ends = authenticate-Ends H DK BK stamp_of q a au.goes_on in
        elim (Fallible-cases (authenticate H DK BK stamp_of q a)) [
          | inr (st, bad) ↦ inl (
              rw (good, verify_input)
                (rw (bad, verify_input)
                  (Ends-err IsStopped _ (authenticate H DK BK stamp_of q a) ends bad)))
          | inl (u, fine) ↦
              let ua = Ends-ok IsStopped _ (authenticate H DK BK stamp_of q a) ends fine in
              elim (conclude-cases q a.del u ua.goes_on) [
                | inl stopped ↦ inl (rw (good, verify_input) (rw (fine, verify_input) stopped))
                | inr (until, read, current, end) ↦ inr (record {
                  a = a;
                  u = u;
                  authorised = au;
                  authenticated = ua;
                  until = until;
                  until_read = read;
                  current = current;
                  status = rw (good, verify_input) (rw (fine, verify_input) end);
                })
              ]
        ]
  ]

  -- The status of a run that is active.
  pub record IsActivated (q : Input) (del : Delegation) (u : Authenticated H DK BK stamp_of)
      (st : Status) : Type 0 where
    pub state_active : st.state ≡ active
    pub bundle_eq : st.bundle ≡ u.st.bundle
    pub digest_eq : st.digest ≡ u.st.digest
    pub version_eq : st.bundle_version ≡ u.st.bundle_version
    pub serial_eq : st.delegation_serial ≡ u.st.delegation_serial
    pub advances_eq : st.floor_advances ≡ advances H DK BK stamp_of q del u.b
    pub proposes :
        st.floor_advances ≡ true
        → st.next_floor ≡ proposed_floor H DK BK stamp_of q del u.b u.digest

  activated-IsActivated :
      (q : Input) (del : Delegation) (u : Authenticated H DK BK stamp_of)
      → IsOpen u.st
      → IsActivated q del u (activated H DK BK stamp_of q del u)
  unfolding activated
  activated-IsActivated q del u o =
      let hinted =
        freeze_hint-keeps H DK BK stamp_of (Extends (record u.st { state = active })) q
          (record u.st { state = active }) (more_gaps-Extends _ _) (λ g. more_gaps-Extends _ _) in
      elim (Bool-cases (advances H DK BK stamp_of q del u.b)) [
        | inl up ↦
            rw (up, activated)
              (record {
                state_active = hinted.state_eq;
                bundle_eq = hinted.bundle_eq;
                digest_eq = hinted.digest_eq;
                version_eq = hinted.version_eq;
                serial_eq = hinted.serial_eq;
                advances_eq = sym up;
                proposes = λ _. refl;
              })
        | inr level ↦
            rw (level, activated)
              (record {
                state_active = hinted.state_eq;
                bundle_eq = hinted.bundle_eq;
                digest_eq = hinted.digest_eq;
                version_eq = hinted.version_eq;
                serial_eq = hinted.serial_eq;
                advances_eq = hinted.advances_eq ∙ o.floor_kept ∙ sym level;
                proposes = λ up. absurd (let kept = hinted.advances_eq ∙ o.floor_kept in cc);
              })
      ]

  pub Active-IsActivated :
      (q : Input) (act : Active q) → IsActivated q act.a.del act.u (verify_input H DK BK stamp_of q)
  Active-IsActivated q act =
      subst (IsActivated q act.a.del act.u) (sym act.status)
        (activated-IsActivated q act.a.del act.u act.authenticated.goes_on)

  pub Active-of_state : (q : Input) → (verify_input H DK BK stamp_of q).state ≡ active → Active q
  unfolding coverage_complete
  Active-of_state q h = elim (verify_input-cases q) [
    | inl stopped ↦ absurd (let e = ap coverage_complete h in let n = stopped.not_active in cc)
    | inr act ↦ act
  ]
