-- ===== src/Bundle/Verify/Genuine.antt =====
-- internal/bundle/verify.go: what an active status of `Verify` rests on.
-- What an active status rests on: a delegation that enough root keys signed, a bundle that a key active
-- under it signed, both within their time and no older than the floor.
use mathlib.Core.Path.{subst}
use aurvet.Prelude.{
  >>=-eq-ok, Bytes, List, ap, arith, false, length, ltb, ltb_ℤ, map, ok, pos, refuse_if-eq-ok, some,
  sym, true, ℤ, ◌>>=◌, ◌∙◌, ◌≡◌, ◌≤ℤ◌, ◌≤◌,
}
use aurvet.Bundle.{err_bundle, passed_on, passed_on-eq-ok}
use aurvet.Bundle.Verify.{Input, Status, active, verify_input}
use aurvet.Bundle.Verify.Following.{FollowsFloor}
use aurvet.Bundle.Verify.Outcome.{Active-IsActivated, Active-of_state}
use aurvet.Bundle.Delegation.{Channel, Delegation, DelegationCodec, active_keys, delegation_expired}
use aurvet.Bundle.Delegation.Threshold.{IsDelegated, verify_delegation_threshold}
use aurvet.Bundle.Document.{
  Bundle, BundleCodec, count_coverage, decode_bundle, digest_of_bytes, max_bundle_bytes,
  namespace_bundle, parse_bundle,
}
use aurvet.Baseline.Key.{PublicKey}
use aurvet.Baseline.Sign.{verify, verify_canonical}
use aurvet.Baseline.Sign.Sound.{verify_canonical_sound}

pub record IsGenuine (H : Channel) (DK : DelegationCodec) (BK : BundleCodec) (q : Input)
    (st : Status) : Type 0 where
  pub delegation : Delegation
  pub delegated : IsDelegated H DK q.delegation_raw q.delegation_sigs q.roots delegation
  pub not_retired : delegation.root_set_retired ≡ false
  pub delegation_current : delegation_expired H delegation q.now ≡ false
  pub serial_shown : st.delegation_serial ≡ delegation.serial
  pub serial_kept : q.floor_present ≡ true → q.floor.min_delegation_serial ≤ℤ delegation.serial
  pub bundle : Bundle
  pub bundle_shown : st.bundle ≡ some bundle
  pub version_shown : st.bundle_version ≡ bundle.bundle_version
  pub signer : PublicKey
  pub signed :
      verify H.crypto q.bundle_sig namespace_bundle q.bundle_raw
        (map some (active_keys H delegation q.now).0)
      ≡ ok signer
  pub decoded : decode_bundle H BK q.bundle_raw ≡ ok bundle
  pub digest_shown : st.digest ≡ digest_of_bytes H.crypto q.bundle_raw
  pub until : ℤ
  pub until_read : H.parse_stamp bundle.valid_until ≡ some until
  pub bundle_current : ltb_ℤ q.now until ≡ true
  pub follows :
      q.floor_present ≡ true
      → ltb_ℤ (pos 0) q.floor.min_bundle_version ≡ true
      → FollowsFloor q.floor bundle st.digest
  pub detects : 1 ≤ (count_coverage bundle).active

module _ (H : Channel) (DK : DelegationCodec) (BK : BundleCodec) (stamp_of : ℤ → Bytes) where
  -- A bundle that parses is what the bytes received decode to, and a key of the list signed them.
  parse_bundle_sound :
      (raw sig : Bytes) (keys : List PublicKey) (b : Bundle) (canon : Bytes)
      → parse_bundle H BK raw sig keys ≡ ok (b, canon)
      → (canon ≡ raw)
        × (decode_bundle H BK raw ≡ ok b)
        × ((key : PublicKey) × (verify H.crypto sig namespace_bundle raw (map some keys) ≡ ok key))
  unfolding parse_bundle
  parse_bundle_sound raw sig keys b canon h =
      let (_, h1) = refuse_if-eq-ok (ltb max_bundle_bytes (length raw)) err_bundle _ h in
      let (ck, passed, h2) = >>=-eq-ok _ _ h1 in by_parts (ck.0) (ck.1) passed h2
    where
      by_parts :
          (c : Bytes) (key : PublicKey)
          → passed_on
              (verify_canonical H.crypto H.canonical sig namespace_bundle raw (map some keys))
            ≡ ok (c, key)
          → ◌>>=◌ {B = Bundle × Bytes} (decode_bundle H BK c) (λ b. ok (b, c)) ≡ ok (b, canon)
          → (canon ≡ raw)
            × (decode_bundle H BK raw ≡ ok b)
            × ((key : PublicKey) × (verify H.crypto sig namespace_bundle raw (map some keys)
                  ≡ ok key))
      by_parts c key passed rest =
          let (signed, same) =
            verify_canonical_sound H.crypto H.canonical namespace_bundle raw sig c (map some keys)
              key (passed_on-eq-ok _ passed) in
          let (b', decoded, h3) = >>=-eq-ok (decode_bundle H BK c) _ rest in
          let this : b' ≡ b = cc in
          let that : c ≡ canon = cc in
          (
            sym that ∙ same,
            ap (decode_bundle H BK) (sym same) ∙ decoded ∙ ap ok this,
            (key, signed),
          )

  -- Where the status is active: distinct roots, at least as many as the threshold, signed the
  -- delegation, which is current, does not retire its root set and has a serial not below the floor's; the
  -- bundle shown is what the bytes received decode to, a key that the delegation makes active signed them,
  -- and its validity has not ended; where the floor has a version, the bundle is not older, is the floor's
  -- own at the same version, and as its direct successor names the floor's digest; at least one of its
  -- indicators is active; and the version, serial and digest shown are those of the bundle and the
  -- delegation.
  pub verify_input-IsGenuine :
      (q : Input)
      → (verify_input H DK BK stamp_of q).state ≡ active
      → IsGenuine H DK BK q (verify_input H DK BK stamp_of q)
  verify_input-IsGenuine q h =
      let act = Active-of_state H DK BK stamp_of q h in
      let au = act.authorised in
      let ua = act.authenticated in
      let sh = Active-IsActivated H DK BK stamp_of q act in
      let (delegated, _) =
        verify_delegation_threshold H DK q.delegation_raw q.delegation_sigs q.roots act.a.del
          au.canon au.delegated in
      let (same, decoded, signing) =
        parse_bundle_sound q.bundle_raw q.bundle_sig act.a.online act.u.b ua.canon ua.parsed in
      let shown = sh.digest_eq ∙ ua.digest_shown in
      record {
        delegation = act.a.del;
        delegated = delegated;
        not_retired = au.not_retired;
        delegation_current = au.unexpired;
        serial_shown = sh.serial_eq ∙ ua.serial_shown ∙ au.serial_shown;
        serial_kept = λ present. let k = au.serial_kept in ground arith;
        bundle = act.u.b;
        bundle_shown = sh.bundle_eq ∙ ua.bundle_shown;
        version_shown = sh.version_eq ∙ ua.version_shown;
        signer = signing.0;
        signed =
            subst
              (λ ks.
                verify H.crypto q.bundle_sig namespace_bundle q.bundle_raw (map some ks)
                ≡ ok (signing.0))
              au.keys (signing.1);
        decoded = decoded;
        digest_shown = shown ∙ ua.digest_of ∙ ap (digest_of_bytes H.crypto) same;
        until = act.until;
        until_read = act.until_read;
        bundle_current = act.current;
        follows = λ p v. subst (FollowsFloor q.floor act.u.b) (sym shown) (ua.follows p v);
        detects = ua.detects;
      }
