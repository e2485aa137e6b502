-- ===== src/Bundle/Verify/Stages.antt =====
-- internal/bundle/verify.go: what each stage of `Verify` has established when it goes on, and what a status
-- that ends the run there has in common.
use aurvet.Prelude.{
  Bool-cases, Bytes, Fallible, List, Option-cases, [], arith, err, false, inl, inr, length,
  length-append, ltb_ℤ, not, ok, refl, some, ℤ, ◌&&◌, ◌||◌, ◌∷◌, ◌≡◌, ◌≤◌,
}
use aurvet.Prelude.Time.{time_sub}
use aurvet.Prelude.Ending.{Ends, Ends->>=, Ends-refuse_if}
use aurvet.Bundle.{BundleError}
use aurvet.Bundle.Roots.{is_empty, software_keys}
use aurvet.Bundle.Verify.{
  Authorised, Gap, Input, Refusal, Status, authorise, bad_delegation, coverage_complete,
  freeze_hint, new_status, no_active_key, no_bundle_cached, no_bytes, no_delegation, no_root_keys,
  none_active, nothing_cached, or_refuse, refusal_gap, refuse, refused, silence_limit, with_gap,
  with_software,
}
use aurvet.Bundle.Delegation.{
  Channel, DelegationCodec, active_keys, delegation_expired, verify_delegation,
}
use aurvet.Bundle.Document.{BundleCodec}

-- A status that ends a run early: it is not active, names a gap, and proposes no floor.
pub record IsStopped (st : Status) : Type 0 where
  pub not_active : coverage_complete st.state ≡ false
  pub named : 1 ≤ length st.gaps
  pub keeps_floor : st.floor_advances ≡ false

pub with_gap-IsStopped :
    (st : Status) (g : Gap)
    → coverage_complete st.state ≡ false
    → st.floor_advances ≡ false
    → IsStopped (with_gap st g)
with_gap-IsStopped st g s f = record {
  not_active = s;
  named = omega (arith, length-append st.gaps (g ∷ []));
  keeps_floor = f;
}

pub refuse-IsStopped :
    (st : Status) (r : Refusal) → st.floor_advances ≡ false → IsStopped (refuse st r)
unfolding coverage_complete
refuse-IsStopped st r f =
    with_gap-IsStopped (record st { state = refused; refusal = some r }) (refusal_gap r) refl f

-- What a run knows of a status that it goes on with.
pub record IsOpen (st : Status) : Type 0 where
  pub undecided : coverage_complete st.state ≡ false
  pub floor_kept : st.floor_advances ≡ false

new_status-IsOpen : (fps : List Bytes) → IsOpen (with_software new_status fps)
unfolding with_software coverage_complete
new_status-IsOpen [] = record { undecided = refl; floor_kept = refl }
new_status-IsOpen (fp ∷ fps) = record { undecided = refl; floor_kept = refl }

pub or_refuse-Ends :
    {A : Type 0} (st : Status) (why : BundleError → Refusal) (m : Fallible BundleError A)
    → st.floor_advances ≡ false
    → Ends IsStopped (λ _. Unit) (or_refuse st why m)
or_refuse-Ends st why (ok a) f = tt
or_refuse-Ends st why (err e) f = refuse-IsStopped st (why e) f

pub or_refuse-eq-ok :
    {A : Type 0} (st : Status) (why : BundleError → Refusal) (m : Fallible BundleError A) {a : A}
    → or_refuse st why m ≡ ok a
    → m ≡ ok a
or_refuse-eq-ok st why (ok a) h = cc
or_refuse-eq-ok st why (err e) h = cc

module _ (H : Channel) (DK : DelegationCodec) (BK : BundleCodec) (stamp_of : ℤ → Bytes) where
  -- The hint about silence adds a gap at most.
  pub freeze_hint-keeps :
      (P : Status → Type 0) (q : Input) (st : Status)
      → P st
      → ((g : Gap) → P (with_gap st g))
      → P (freeze_hint H DK BK stamp_of q st)
  unfolding freeze_hint
  freeze_hint-keeps P q st same more =
      elim (Bool-cases (not q.floor_present || no_bytes q.floor.accepted_at)) [
        | inl quiet ↦ rw (quiet, freeze_hint) same
        | inr asked ↦ elim (Option-cases (H.parse_stamp q.floor.accepted_at)) [
          | inl unread ↦ rw (asked, freeze_hint) (rw (unread, freeze_hint) same)
          | inr (accepted, read) ↦
              elim (Bool-cases
                (ltb_ℤ (silence_limit H DK BK stamp_of q.max_silence) (time_sub q.now accepted))) [
                  | inl late ↦
                      rw (asked, freeze_hint)
                        (rw (read, freeze_hint) (rw (late, freeze_hint) (more _)))
                  | inr recent ↦
                      rw (asked, freeze_hint)
                        (rw (read, freeze_hint) (rw (recent, freeze_hint) same))
                ]
        ]
      ]

  -- What holds when the delegation has been accepted and has keys that are active.
  pub record IsAuthorised (q : Input) (a : Authorised H DK BK stamp_of) : Type 0 where
    pub goes_on : IsOpen a.st
    pub canon : Bytes
    pub delegated :
        verify_delegation H DK q.delegation_raw q.delegation_sigs q.roots ≡ ok (a.del, canon)
    pub serial_kept : (q.floor_present && ltb_ℤ a.del.serial q.floor.min_delegation_serial) ≡ false
    pub not_retired : a.del.root_set_retired ≡ false
    pub unexpired : delegation_expired H a.del q.now ≡ false
    pub keys : a.online ≡ (active_keys H a.del q.now).0
    pub serial_shown : a.st.delegation_serial ≡ a.del.serial

  pub hint-IsStopped :
      (q : Input) (st : Status) (g : Gap)
      → IsOpen st
      → IsStopped (freeze_hint H DK BK stamp_of q (with_gap st g))
  hint-IsStopped q st g o =
      freeze_hint-keeps IsStopped q (with_gap st g)
        (with_gap-IsStopped st g o.undecided o.floor_kept)
        (λ g'. with_gap-IsStopped (with_gap st g) g' o.undecided o.floor_kept)

  pub authorise-Ends : (q : Input) → Ends IsStopped (IsAuthorised q) (authorise H DK BK stamp_of q)
  unfolding authorise coverage_complete
  authorise-Ends q =
      let st = with_software new_status (software_keys H.crypto q.roots) in
      let o = new_status-IsOpen (software_keys H.crypto q.roots) in
      Ends-refuse_if IsStopped (IsAuthorised q) (is_empty q.roots) (refuse new_status no_root_keys)
        _ (refuse-IsStopped new_status no_root_keys refl)
        λ _.
          Ends-refuse_if IsStopped (IsAuthorised q)
            (no_bytes q.bundle_raw && no_bytes q.delegation_raw) _ _
            (hint-IsStopped q st nothing_cached o)
            λ _.
              Ends-refuse_if IsStopped (IsAuthorised q) (no_bytes q.delegation_raw) _ _
                (refuse-IsStopped st no_delegation o.floor_kept)
                λ _.
                  Ends->>= IsStopped (IsAuthorised q) _ _
                    (or_refuse-Ends st bad_delegation
                      (verify_delegation H DK q.delegation_raw q.delegation_sigs q.roots)
                      o.floor_kept)
                    λ dc got.
                      let del = dc.0 in
                      let st1 = record st {
                        delegation_serial = del.serial;
                        delegation_expiry = del.valid_until;
                      } in
                      Ends-refuse_if IsStopped (IsAuthorised q)
                        (q.floor_present && ltb_ℤ del.serial q.floor.min_delegation_serial) _ _
                        (refuse-IsStopped st1 _ o.floor_kept)
                        λ serial.
                          Ends-refuse_if IsStopped (IsAuthorised q) del.root_set_retired _ _
                            (refuse-IsStopped (record st1 { upgrade_message = del.upgrade_message })
                              _ o.floor_kept)
                            λ standing.
                              Ends-refuse_if IsStopped (IsAuthorised q)
                                (delegation_expired H del q.now) _ _
                                (refuse-IsStopped st1 _ o.floor_kept)
                                λ current.
                                  Ends-refuse_if IsStopped (IsAuthorised q)
                                    (none_active (active_keys H del q.now).0) _ _
                                    (refuse-IsStopped st1 no_active_key o.floor_kept)
                                    λ some_key.
                                      Ends-refuse_if IsStopped (IsAuthorised q)
                                        (no_bytes q.bundle_raw) _ _
                                        (hint-IsStopped q st1 no_bundle_cached (record {
                                          undecided = o.undecided;
                                          floor_kept = o.floor_kept;
                                        }))
                                        λ some_bundle. record {
                                          goes_on = record {
                                            undecided = o.undecided;
                                            floor_kept = o.floor_kept;
                                          };
                                          canon = dc.1;
                                          delegated = or_refuse-eq-ok st bad_delegation _ got;
                                          serial_kept = serial;
                                          not_retired = standing;
                                          unexpired = current;
                                          keys = refl;
                                          serial_shown = refl;
                                        }
