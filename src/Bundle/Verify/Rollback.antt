-- ===== src/Bundle/Verify/Rollback.antt =====
-- internal/bundle/verify.go: runs of `Verify` one after the other.
use mathlib.Core.Path.{subst}
use aurvet.Prelude.{
  Bool, Bool-cases, Bytes, arith, false, inl, inr, not, pos, refl, sym, true, ℤ, ≤ℤ-antisym, ◌&&◌,
  ◌∙◌, ◌≡◌, ◌≤ℤ◌,
}
use aurvet.Bundle.Floor.{Floor}
use aurvet.Bundle.Verify.{Input, active, max_int64, verify_input}
use aurvet.Bundle.Verify.Outcome.{Active-IsActivated, verify_input-cases}
use aurvet.Bundle.Verify.Genuine.{verify_input-IsGenuine}
use aurvet.Bundle.Verify.Proposal.{Active-Proposes, Active-follows, Active-positive}
use aurvet.Bundle.Delegation.{Channel, DelegationCodec}
use aurvet.Bundle.Document.{BundleCodec}
use aurvet.Bundle.Update.{kept_floor}

module _ (H : Channel) (DK : DelegationCodec) (BK : BundleCodec) (stamp_of : ℤ → Bytes) where
  -- The floor recalls an active run: no lower, and at its version the digest is the run's.
  record Recalls (v s : ℤ) (g : Bytes) (f : Floor) (present : Bool) : Type 0 where
    pub there : present ≡ true
    pub positive : pos 1 ≤ℤ v
    pub version : v ≤ℤ f.min_bundle_version
    pub serial : s ≤ℤ f.min_delegation_serial
    pub digest : f.min_bundle_version ≡ v → f.head_digest ≡ g

  Active-Recalls :
      (q : Input) (check saved : Bool)
      → (verify_input H DK BK stamp_of q).state ≡ active
      → ((verify_input H DK BK stamp_of q).floor_advances ≡ true → (check ≡ false) × (saved ≡ true))
      → Recalls
          (verify_input H DK BK stamp_of q).bundle_version
          (verify_input H DK BK stamp_of q).delegation_serial
          (verify_input H DK BK stamp_of q).digest
          (kept_floor check saved q (verify_input H DK BK stamp_of q)).0
          (kept_floor check saved q (verify_input H DK BK stamp_of q)).1
  unfolding kept_floor max_int64
  Active-Recalls q check saved h stores =
      let st = verify_input H DK BK stamp_of q in
      let p = Active-Proposes H DK BK stamp_of q h in
      let positive = Active-positive H DK BK stamp_of q h in
      elim (Bool-cases st.floor_advances) [
        | inl up ↦
            let (off, done) = stores up in
            rw (up, kept_floor)
              (rw (off, kept_floor)
                (rw (done, kept_floor)
                  (record {
                    there = refl;
                    positive = positive;
                    version = rw (p.version up) (ground arith);
                    serial = rw (p.serial up) (ground arith);
                    digest = λ _. p.head up;
                  })))
        | inr level ↦
            let (there, version, serial) = p.otherwise level in
            rw (level, kept_floor)
              (record {
                there = there;
                positive = positive;
                version = version;
                serial = serial;
                digest = λ e.
                    sym ((Active-follows H DK BK stamp_of q h there (rw e positive)).1 (sym e));
              })
      ]

  -- The next floor of an active run recalls what the floor before recalled.
  proposed-Recalls :
      (q : Input) {v s : ℤ} {g : Bytes}
      → (verify_input H DK BK stamp_of q).state ≡ active
      → (verify_input H DK BK stamp_of q).floor_advances ≡ true
      → Recalls v s g q.floor q.floor_present
      → Recalls v s g (verify_input H DK BK stamp_of q).next_floor true
  unfolding max_int64
  proposed-Recalls q {v} {s} {g} h up r =
      let p = Active-Proposes H DK BK stamp_of q h in
      let (newer, same) =
        Active-follows H DK BK stamp_of q h r.there (omega (arith, r.positive, r.version)) in
      let b = (verify_input H DK BK stamp_of q).bundle_version in
      let f = q.floor.min_bundle_version in
      let w = r.version in
      let t = r.serial in
      record {
        there = refl;
        positive = r.positive;
        version = rw (p.version up) (ground arith);
        serial = rw (p.serial up) (ground arith);
        digest = λ e.
            let m : max_int64 b f ≡ v = sym (p.version up) ∙ e in
            let (bf, fv) = squeezed b f v m newer w in p.head up ∙ same bf ∙ r.digest fv;
      }
    where
      squeezed : (b f v : ℤ) → max_int64 b f ≡ v → f ≤ℤ b → v ≤ℤ f → (b ≡ f) × (f ≡ v)
      squeezed b f v m up down =
          let most : b ≤ℤ max_int64 b f = ground arith in
          let b≤v = subst (λ x. b ≤ℤ x) m most in
          (
            ≤ℤ-antisym b f (omega (arith, b≤v, down)) up,
            ≤ℤ-antisym f v (omega (arith, b≤v, up)) down,
          )

  kept-Recalls :
      (q : Input) (check saved : Bool) {v s : ℤ} {g : Bytes}
      → Recalls v s g q.floor q.floor_present
      → Recalls v s g
          (kept_floor check saved q (verify_input H DK BK stamp_of q)).0
          (kept_floor check saved q (verify_input H DK BK stamp_of q)).1
  unfolding kept_floor
  kept-Recalls q check saved r =
      elim (Bool-cases ((verify_input H DK BK stamp_of q).floor_advances && not check && saved)) [
        | inr level ↦ rw (level, kept_floor) r
        | inl up ↦
            rw (up, kept_floor)
              (elim (verify_input-cases H DK BK stamp_of q) [
                | inl stopped ↦ absurd (let k = stopped.keeps_floor in ground arith)
                | inr act ↦
                    proposed-Recalls q (Active-IsActivated H DK BK stamp_of q act).state_active
                      (ground arith) r
              ])
      ]

  -- The floors that runs of `update` lead to, one after the other, with any inputs and any outcomes of the
  -- saves.
  pub data Runs (f : Floor) (present : Bool) : Floor → Bool → Type 0 where
    start : Runs f present f present
    step :
        (q : Input) (check saved : Bool)
        → Runs f present q.floor q.floor_present
        → Runs f present
            (kept_floor check saved q (verify_input H DK BK stamp_of q)).0
            (kept_floor check saved q (verify_input H DK BK stamp_of q)).1

  Runs-Recalls :
      {v s : ℤ} {g : Bytes} {f : Floor} {p : Bool} {f' : Floor} {p' : Bool}
      → Recalls v s g f p
      → Runs f p f' p'
      → Recalls v s g f' p'
  Runs-Recalls r start = r
  Runs-Recalls r (step q check saved before) = kept-Recalls q check saved (Runs-Recalls r before)

  -- After an active run whose proposed floor, if it proposed one, was saved, and after any further runs,
  -- an active run has no lower bundle version and delegation serial, and at the same version it has the
  -- same digest.
  pub verify_input_no_rollback :
      (q r : Input) (check saved : Bool)
      → (verify_input H DK BK stamp_of q).state ≡ active
      → ((verify_input H DK BK stamp_of q).floor_advances ≡ true → (check ≡ false) × (saved ≡ true))
      → Runs
          (kept_floor check saved q (verify_input H DK BK stamp_of q)).0
          (kept_floor check saved q (verify_input H DK BK stamp_of q)).1
          r.floor
          r.floor_present
      → (verify_input H DK BK stamp_of r).state ≡ active
      → ((verify_input H DK BK stamp_of q).bundle_version
          ≤ℤ (verify_input H DK BK stamp_of r).bundle_version)
        × ((verify_input H DK BK stamp_of q).delegation_serial
            ≤ℤ (verify_input H DK BK stamp_of r).delegation_serial)
        × ((verify_input H DK BK stamp_of r).bundle_version
              ≡ (verify_input H DK BK stamp_of q).bundle_version
            → (verify_input H DK BK stamp_of r).digest ≡ (verify_input H DK BK stamp_of q).digest)
  verify_input_no_rollback q r check saved h stores runs h' =
      let m = Runs-Recalls (Active-Recalls q check saved h stores) runs in
      let (newer, same) =
        Active-follows H DK BK stamp_of r h' m.there (omega (arith, m.positive, m.version)) in
      let gen = verify_input-IsGenuine H DK BK stamp_of r h' in
      (
        omega (arith, newer, m.version),
        rw gen.serial_shown (omega (arith, gen.serial_kept m.there, m.serial)),
        λ e. let (bf, fv) = ends e newer m.version in same bf ∙ m.digest fv,
      )
    where
      ends : {b f v : ℤ} → b ≡ v → f ≤ℤ b → v ≤ℤ f → (b ≡ f) × (f ≡ v)
      ends {b} {f} {v} e up down =
          let f≤v = subst (λ x. f ≤ℤ x) e up in let fv = ≤ℤ-antisym f v f≤v down in (e ∙ sym fv, fv)
