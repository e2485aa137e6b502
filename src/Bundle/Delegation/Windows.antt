-- ===== src/Bundle/Delegation/Windows.antt =====
-- `ValidateDelegation` and `ActiveKeys` of internal/bundle/delegation.go: for how long a key may sign.
use aurvet.Bundle.Delegation.{delegation_expired}
use aurvet.Prelude.{◌⊎◌}
use aurvet.Prelude.{
  >>=-eq-ok, All, Bool-cases, Bytes, Fallible-cases, List, Option, [], arith, false, All-get_elem?,
  fail_as, get_elem?, inl, inr, length, length-append, ltb, ltb_ℤ, none, not, ok, refl,
  refuse_if-eq-ok, some, true, ℕ, ℤ, ◌+ℤ◌, ◌∷◌, ◌≡◌, ◌≢◌, ◌≤ℤ◌, ◌≤◌, bytes_eq, eq_ℤ, pos,
}
use aurvet.Prelude.Time.{time_sub}
use aurvet.Baseline.KeyLine.{parse_public_key}
use aurvet.Bundle.{err_delegation, or_error-eq-ok, spec_version}
use aurvet.Bundle.Delegation.{
  Channel, Delegation, SigningKey, active_key, active_keys, active_keys_of, max_delegation_lifetime,
  max_online_key_lifetime, max_signing_keys, no_signing_keys, out_of_order, stamp,
  validate_delegation, validate_key, validate_keys, validate_names,
}

-- The window of a signing key, which ends within the delegation's and is not longer than allowed.
pub record HasWindow (H : Channel) (until : ℤ) (sk : SigningKey) : Type 0 where
  pub from : ℤ
  pub to : ℤ
  pub from_eq : H.parse_stamp sk.not_before ≡ some from
  pub to_eq : H.parse_stamp sk.not_after ≡ some to
  pub ordered : from ≤ℤ to
  pub short : to ≤ℤ from +ℤ max_online_key_lifetime
  pub within : to ≤ℤ until

time_sub_short :
    (a b : ℤ)
    → ltb_ℤ b a ≡ true
    → ltb_ℤ max_online_key_lifetime (time_sub a b) ≡ false
    → a ≤ℤ b +ℤ max_online_key_lifetime
unfolding time_sub
time_sub_short a b h k = ground arith

module _ (H : Channel) where
  validate_key-HasWindow :
      (until : ℤ) (sk : SigningKey) {fp : Bytes}
      → validate_key H until sk ≡ ok fp
      → HasWindow H until sk
  unfolding validate_key stamp
  validate_key-HasWindow until sk h =
      let (key, _, h1) =
        >>=-eq-ok (fail_as err_delegation (parse_public_key H.base64_decode sk.public_key)) _ h in
      let (nb, nb_eq, h2) = >>=-eq-ok (stamp H sk.not_before) _ h1 in
      let (na, na_eq, h3) = >>=-eq-ok (stamp H sk.not_after) _ h2 in
      let (after, h4) = refuse_if-eq-ok (not (ltb_ℤ nb na)) err_delegation _ h3 in
      let (short, h5) =
        refuse_if-eq-ok (ltb_ℤ max_online_key_lifetime (time_sub na nb)) err_delegation _ h4 in
      let (within, h6) = refuse_if-eq-ok (ltb_ℤ until na) err_delegation _ h5 in
      record {
        from = nb;
        to = na;
        from_eq = or_error-eq-ok err_delegation _ nb_eq;
        to_eq = or_error-eq-ok err_delegation _ na_eq;
        ordered = ground arith;
        short = time_sub_short na nb (ground arith) short;
        within = ground arith;
      }

  validate_keys-HasWindow :
      (until : ℤ) (prev : Option Bytes) (sks : List SigningKey)
      → validate_keys H until prev sks ≡ ok tt
      → All (HasWindow H until) sks
  unfolding validate_keys
  validate_keys-HasWindow until prev [] h = tt
  validate_keys-HasWindow until prev (sk ∷ sks) h =
      let (fp, here, h1) = >>=-eq-ok (validate_key H until sk) _ h in
      let (_, h2) = refuse_if-eq-ok (out_of_order prev fp) err_delegation _ h1 in
      (validate_key-HasWindow until sk here, validate_keys-HasWindow until (some fp) sks h2)

  -- Few keys, each with its window.
  abbrev pub AreWindowed : ℤ → List SigningKey → Type 0
  AreWindowed until sks = (length sks ≤ max_signing_keys) × All (HasWindow H until) sks

  validate_names-AreWindowed :
      (until : ℤ) (d : Delegation)
      → validate_names H until d ≡ ok tt
      → AreWindowed until d.signing_keys
  unfolding validate_names no_signing_keys
  validate_names-AreWindowed until d h = elim (Bool-cases d.root_set_retired) [
    | inl retired ↦
        let (none_left, _) =
          refuse_if-eq-ok (not (no_signing_keys d.signing_keys)) err_delegation _
            (rw retired at h) in
        no_keys d.signing_keys (ground arith)
    | inr online ↦
        let (_, h1) =
          refuse_if-eq-ok (not (bytes_eq d.upgrade_message [])) err_delegation _ (rw online at h) in
        let (_, h2) = refuse_if-eq-ok (no_signing_keys d.signing_keys) err_delegation _ h1 in
        let (few, h3) =
          refuse_if-eq-ok (ltb max_signing_keys (length d.signing_keys)) err_delegation _ h2 in
        (ground arith, validate_keys-HasWindow until none d.signing_keys h3)
  ]
    where
      no_keys : (sks : List SigningKey) → no_signing_keys sks ≡ true → AreWindowed until sks
      no_keys [] h = (ground arith, tt)
      no_keys (sk ∷ sks) h = absurd cc

  validate_delegation-AreWindowed :
      (d : Delegation)
      → validate_delegation H d ≡ ok tt
      → (until : ℤ) × (H.parse_stamp d.valid_until ≡ some until) × AreWindowed until d.signing_keys
  unfolding validate_delegation stamp
  validate_delegation-AreWindowed d h =
      let (_, h1) = refuse_if-eq-ok (not (eq_ℤ d.spec spec_version)) err_delegation _ h in
      let (_, h2) = refuse_if-eq-ok (ltb_ℤ d.root_generation (pos 1)) err_delegation _ h1 in
      let (_, h3) = refuse_if-eq-ok (ltb_ℤ d.serial (pos 1)) err_delegation _ h2 in
      let (issued, _, h4) = >>=-eq-ok (stamp H d.issued_at) _ h3 in
      let (until, until_eq, h5) = >>=-eq-ok (stamp H d.valid_until) _ h4 in
      let (_, h6) = refuse_if-eq-ok (not (ltb_ℤ issued until)) err_delegation _ h5 in
      let (_, h7) =
        refuse_if-eq-ok (ltb_ℤ max_delegation_lifetime (time_sub until issued)) err_delegation _
          h6 in
      (until, or_error-eq-ok err_delegation _ until_eq, validate_names-AreWindowed until d h7)

  active_key-length : (now : ℤ) (sk : SigningKey) → length (active_key H now sk).0 ≤ 1
  unfolding active_key
  active_key-length now sk = ground arith

  active_keys_of-length :
      (now : ℤ) (sks : List SigningKey) → length (active_keys_of H now sks).0 ≤ length sks
  unfolding active_keys_of
  active_keys_of-length now [] = ground arith
  active_keys_of-length now (sk ∷ sks) = omega (
    arith,
    length-append ((active_key H now sk).0) ((active_keys_of H now sks).0),
    active_key-length now sk,
    active_keys_of-length now sks,
  )

  -- A key that is active is in its window.
  active_key-in_window :
      (now until : ℤ) (sk : SigningKey) (w : HasWindow H until sk)
      → (active_key H now sk).0 ≢ []
      → (w.from ≤ℤ now) × (ltb_ℤ now w.to ≡ true)
  unfolding active_key
  active_key-in_window now until sk w h =
      elim (Fallible-cases (parse_public_key H.base64_decode sk.public_key)) [
        | inr (e, bad) ↦ absurd (h (rw (bad, active_key) refl))
        | inl (key, good) ↦
            windowed (Bool-cases (ltb_ℤ now w.from)) (Bool-cases (ltb_ℤ now w.to)) good
      ]
    where
      windowed :
          {key : _}
          → (ltb_ℤ now w.from ≡ true) ⊎ (ltb_ℤ now w.from ≡ false)
          → (ltb_ℤ now w.to ≡ true) ⊎ (ltb_ℤ now w.to ≡ false)
          → parse_public_key H.base64_decode sk.public_key ≡ ok key
          → (w.from ≤ℤ now) × (ltb_ℤ now w.to ≡ true)
      windowed (inl early) q good =
          absurd (h (rw (good, active_key) (rw w.from_eq (rw w.to_eq (rw early refl)))))
      windowed (inr p) (inl q) good = (ground arith, q)
      windowed (inr p) (inr late) good =
          absurd (h (rw (good, active_key) (rw w.from_eq (rw w.to_eq (rw p (rw late refl))))))

  -- In a delegation that validates, no more than four keys are active at any time. A signing key of it that
  -- is active at two times is so no more than 90 days apart, and the delegation has not expired then.
  pub active_key_bounds :
      (d : Delegation) (i : ℕ) (sk : SigningKey) (t u : ℤ)
      → validate_delegation H d ≡ ok tt
      → get_elem? d.signing_keys i ≡ some sk
      → (active_key H t sk).0 ≢ []
      → (active_key H u sk).0 ≢ []
      → (length (active_keys H d t).0 ≤ max_signing_keys)
        × (u ≤ℤ t +ℤ max_online_key_lifetime)
        × (delegation_expired H d u ≡ false)
  unfolding active_keys delegation_expired
  active_key_bounds d i sk t u valid at then later =
      let (until, until_eq, windowed) = validate_delegation-AreWindowed d valid in
      let (few, windows) = windowed in
      let w = All-get_elem? (HasWindow H until) d.signing_keys i windows at in
      let (from, _) = active_key-in_window t until sk w then in
      let (_, before) = active_key-in_window u until sk w later in
      (
        omega (arith, few, active_keys_of-length t d.signing_keys),
        window_bound t u until w from before,
        rw (until_eq, delegation_expired) (rw (before_end u until w before) refl),
      )
    where
      window_bound :
          (t u until : ℤ) (w : HasWindow H until sk)
          → w.from ≤ℤ t
          → ltb_ℤ u w.to ≡ true
          → u ≤ℤ t +ℤ max_online_key_lifetime
      window_bound t u until w from before = let s = w.short in ground arith

      before_end :
          (u until : ℤ) (w : HasWindow H until sk) → ltb_ℤ u w.to ≡ true → ltb_ℤ u until ≡ true
      before_end u until w before = let s = w.within in ground arith
