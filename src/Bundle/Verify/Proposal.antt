-- ===== src/Bundle/Verify/Proposal.antt =====
-- internal/bundle/verify.go: what one active run says of the floor before it and of the one it proposes.
use mathlib.Core.Path.{subst}
use aurvet.Prelude.{
  >>=-eq-ok, Bytes, ap, arith, bytes_eq, eq_ℤ, fail_as, false, ltb_ℤ, not, ok, pos, refuse_if-eq-ok,
  sym, true, ℤ, ◌∙◌, ◌≡◌, ◌≤ℤ◌,
}
use aurvet.Bundle.{err_bundle, or_error, spec_version}
use aurvet.Bundle.Verify.{Input, Status, active, advances, max_int64, proposed_floor, verify_input}
use aurvet.Bundle.Verify.Outcome.{Active-IsActivated, Active-of_state}
use aurvet.Bundle.Verify.Genuine.{verify_input-IsGenuine}
use aurvet.Bundle.Delegation.{Channel, DelegationCodec}
use aurvet.Bundle.Document.{Bundle, BundleCodec, assert_declarative, decode_bundle, validate_bundle}

decode_bundle-positive :
    (H : Channel) (K : BundleCodec) (canon : Bytes) {b : Bundle}
    → decode_bundle H K canon ≡ ok b
    → pos 1 ≤ℤ b.bundle_version
unfolding decode_bundle validate_bundle
decode_bundle-positive H K canon {b = b} h =
    let (_, _, h1) = >>=-eq-ok (assert_declarative H K canon) _ h in
    let (c, _, h2) = >>=-eq-ok (or_error err_bundle (K.decode_strict canon)) _ h1 in
    let (again, _, h3) = >>=-eq-ok (fail_as err_bundle (K.marshal c)) _ h2 in
    let (_, h4) = refuse_if-eq-ok (not (bytes_eq again canon)) err_bundle _ h3 in
    let (_, valid, h5) = >>=-eq-ok (validate_bundle H c) _ h4 in
    let (_, v1) = refuse_if-eq-ok (not (eq_ℤ c.spec spec_version)) err_bundle _ valid in
    let (positive, _) = refuse_if-eq-ok (ltb_ℤ c.bundle_version (pos 1)) err_bundle _ v1 in
    let same : c ≡ b = cc in subst (λ x. pos 1 ≤ℤ x.bundle_version) same (ground arith)

module _ (H : Channel) (DK : DelegationCodec) (BK : BundleCodec) (stamp_of : ℤ → Bytes) where
  -- What an active run says of the next floor.
  pub record Proposes (q : Input) (st : Status) : Type 0 where
    pub version :
        st.floor_advances ≡ true
        → st.next_floor.min_bundle_version ≡ max_int64 st.bundle_version q.floor.min_bundle_version
    pub serial :
        st.floor_advances ≡ true
        → st.next_floor.min_delegation_serial
          ≡ max_int64 st.delegation_serial q.floor.min_delegation_serial
    pub head : st.floor_advances ≡ true → st.next_floor.head_digest ≡ st.digest
    pub otherwise :
        st.floor_advances ≡ false
        → (q.floor_present ≡ true)
          × (st.bundle_version ≤ℤ q.floor.min_bundle_version)
          × (st.delegation_serial ≤ℤ q.floor.min_delegation_serial)

  pub Active-Proposes :
      (q : Input)
      → (verify_input H DK BK stamp_of q).state ≡ active
      → Proposes q (verify_input H DK BK stamp_of q)
  unfolding advances proposed_floor
  Active-Proposes q h =
      let act = Active-of_state H DK BK stamp_of q h in
      let ua = act.authenticated in
      let sh = Active-IsActivated H DK BK stamp_of q act in
      let v = sh.version_eq ∙ ua.version_shown in
      let s = sh.serial_eq ∙ ua.serial_shown ∙ act.authorised.serial_shown in
      let d = sh.digest_eq ∙ ua.digest_shown in
      record {
        version = λ up.
            ap (λ f. f.min_bundle_version) (sh.proposes up)
            ∙ ap (λ x. max_int64 x q.floor.min_bundle_version) (sym v);
        serial = λ up.
            ap (λ f. f.min_delegation_serial) (sh.proposes up)
            ∙ ap (λ x. max_int64 x q.floor.min_delegation_serial) (sym s);
        head = λ up. ap (λ f. f.head_digest) (sh.proposes up) ∙ sym d;
        otherwise = λ level.
            let e = sym sh.advances_eq ∙ level in
            (ground arith, rw v (ground arith), rw s (ground arith));
      }

  pub Active-positive :
      (q : Input)
      → (verify_input H DK BK stamp_of q).state ≡ active
      → pos 1 ≤ℤ (verify_input H DK BK stamp_of q).bundle_version
  Active-positive q h =
      let gen = verify_input-IsGenuine H DK BK stamp_of q h in
      subst (λ v. pos 1 ≤ℤ v) (sym gen.version_shown)
        (decode_bundle-positive H BK q.bundle_raw gen.decoded)

  -- With a floor that has a version, an active run is no older, and at that version it is the same bundle.
  pub Active-follows :
      (q : Input) (h : (verify_input H DK BK stamp_of q).state ≡ active)
      → q.floor_present ≡ true
      → pos 1 ≤ℤ q.floor.min_bundle_version
      → (q.floor.min_bundle_version ≤ℤ (verify_input H DK BK stamp_of q).bundle_version)
        × ((verify_input H DK BK stamp_of q).bundle_version ≡ q.floor.min_bundle_version
            → (verify_input H DK BK stamp_of q).digest ≡ q.floor.head_digest)
  Active-follows q h present positive =
      let gen = verify_input-IsGenuine H DK BK stamp_of q h in
      let fol = gen.follows present (ground arith) in
      (
        subst (λ v. q.floor.min_bundle_version ≤ℤ v) (sym gen.version_shown) fol.not_older,
        λ e. fol.not_forked (sym gen.version_shown ∙ e),
      )
