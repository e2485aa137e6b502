-- ===== src/Bundle/Delegation/Threshold.antt =====
-- `VerifyDelegation` of internal/bundle/delegation.go: who signed.
use mathlib.Core.Path.{subst}
use aurvet.Prelude.{
  >>=-eq-ok, All, Bytes, Fallible-cases, List, Option-cases, [], arith, bytes_eq, bytes_eq_iff,
  eq_ℤ, eq_ℤ_iff, fail_as-eq-ok, false, get_elem?, inl, inr, length, ltb, ltb_ℤ, not, ok, pos, refl,
  refuse_if-eq-ok, some, suc, sym, ℕ, ◌∙◌, ◌∷◌, ◌≡◌, ◌≤ℤ◌,
}
use aurvet.Baseline.{err_not_canonical}
use aurvet.Baseline.Key.{PublicKey}
use aurvet.Baseline.Sign.{verify}
use aurvet.Bundle.{
  err_baseline, err_delegation, err_no_root_keys, err_threshold, or_error, or_error-eq-ok,
  passed_on,
}
use aurvet.Bundle.Roots.{RootSet, index, is_empty, key_slice}
use aurvet.Bundle.Delegation.{
  Channel, Delegation, DelegationCodec, count_signers, decode_delegation, max_delegation_bytes,
  namespace_delegation, seen_index, validate_delegation, verify_delegation,
}

-- No index twice.
abbrev pub IsNodup : List ℕ → Type 0
IsNodup [] = Unit
IsNodup (i ∷ is) = (seen_index i is ≡ false) × IsNodup is

-- The root key at the index made one of the signatures over the raw bytes.
pub record SignedBy (H : Channel) (set : RootSet) (raw : Bytes) (sigs : List Bytes) (i : ℕ)
    : Type 0 where
  pub place : ℕ
  pub sig : Bytes
  pub sig_at : get_elem? sigs place ≡ some sig
  pub key : PublicKey
  pub verified : verify H.crypto sig namespace_delegation raw (key_slice set) ≡ ok key
  pub root_at : index set key ≡ some i

module _ (H : Channel) (set : RootSet) (raw : Bytes) (all : List Bytes) where
  count_signers_sound :
      (seen : List ℕ) (sigs : List Bytes) {out : List ℕ}
      → ((k : ℕ) (s : Bytes) → get_elem? sigs k ≡ some s → (n : ℕ) × (get_elem? all n ≡ some s))
      → IsNodup seen
      → All (SignedBy H set raw all) seen
      → count_signers H set raw seen sigs ≡ ok out
      → IsNodup out × All (SignedBy H set raw all) out
  unfolding count_signers
  count_signers_sound seen [] {out = out} among once signed h =
      let same : seen ≡ out = cc in
      subst (λ x. IsNodup x × All (SignedBy H set raw all) x) same (once, signed)
  count_signers_sound seen (sig ∷ sigs) among once signed h =
      let (key, verified, h1) = >>=-eq-ok _ _ h in
      let (i, at, h2) = >>=-eq-ok (or_error err_threshold (index set key)) _ h1 in
      let (fresh, h3) = refuse_if-eq-ok (seen_index i seen) err_threshold _ h2 in
      let (n, sig_at) = among 0 sig refl in
      count_signers_sound (i ∷ seen) sigs (λ k s a. among (suc k) s a) (fresh, once)
        (
          record {
            place = n;
            sig = sig;
            sig_at = sig_at;
            key = key;
            verified = fail_as-eq-ok err_threshold _ verified;
            root_at = or_error-eq-ok err_threshold (index set key) at;
          },
          signed,
        )
        h3

-- A delegation that enough distinct root keys signed: its bytes are canonical, and it is what they say.
pub record IsDelegated (H : Channel) (K : DelegationCodec) (raw : Bytes) (sigs : List Bytes)
    (set : RootSet) (d : Delegation) : Type 0 where
  pub signers : List ℕ
  pub distinct : IsNodup signers
  pub signed : All (SignedBy H set raw sigs) signers
  pub enough : set.threshold ≤ℤ pos (length signers)
  pub two : pos 2 ≤ℤ set.threshold
  pub decodes : K.decode_strict raw ≡ some d
  pub encodes : K.marshal d ≡ ok raw
  pub valid : validate_delegation H d ≡ ok tt
  pub for_set : d.root_generation ≡ set.generation

module _ (H : Channel) (K : DelegationCodec) where
  decode_delegation_sound :
      (canon : Bytes) {d : Delegation}
      → decode_delegation H K canon ≡ ok d
      → (K.decode_strict canon ≡ some d)
        × (K.marshal d ≡ ok canon)
        × (validate_delegation H d ≡ ok tt)
  unfolding decode_delegation
  decode_delegation_sound canon h = elim (Option-cases (K.decode_strict canon)) [
    | inl no_value ↦ absurd (ground arith)
    | inr (e', read) ↦ elim (Fallible-cases (K.marshal e')) [
      | inr (bad, failed) ↦ absurd (ground arith)
      | inl (again, written) ↦ ground (arith, bytes_eq_iff again canon)
    ]
  ]

  -- Whatever `VerifyDelegation` accepts carries signatures of as many distinct root keys as the threshold
  -- asks for, two at least, over the bytes received; those bytes are the canonical encoding of the
  -- delegation, which is well formed and for this root set.
  pub verify_delegation_threshold :
      (raw : Bytes) (sigs : List Bytes) (set : RootSet) (d : Delegation) (canon : Bytes)
      → verify_delegation H K raw sigs set ≡ ok (d, canon)
      → IsDelegated H K raw sigs set d × (canon ≡ raw)
  unfolding verify_delegation is_empty
  verify_delegation_threshold raw sigs set d canon h =
      let (full, h1) = refuse_if-eq-ok (is_empty set) err_no_root_keys _ h in
      let (small, h2) =
        refuse_if-eq-ok (ltb max_delegation_bytes (length raw)) err_delegation _ h1 in
      let (few, h3) = refuse_if-eq-ok (ltb (length set.keys) (length sigs)) err_threshold _ h2 in
      let (seen, counted, h4) = >>=-eq-ok (count_signers H set raw [] sigs) _ h3 in
      let (met, h5) =
        refuse_if-eq-ok (ltb_ℤ (pos (length seen)) set.threshold) err_threshold _ h4 in
      let (c, canonical, h6) = >>=-eq-ok (passed_on (H.canonical raw)) _ h5 in
      let (equal, h7) =
        refuse_if-eq-ok (not (bytes_eq c raw)) (err_baseline err_not_canonical) _ h6 in
      let (e, decoded, h8) = >>=-eq-ok (decode_delegation H K c) _ h7 in
      let (own, h9) =
        refuse_if-eq-ok (not (eq_ℤ e.root_generation set.generation)) err_delegation _ h8 in
      let (distinct, signed) =
        count_signers_sound H set raw sigs [] sigs (λ k s a. (k, a)) tt tt counted in
      let same : c ≡ raw = ground (arith, bytes_eq_iff c raw) in
      let (decodes, encodes, valid) = decode_delegation_sound c decoded in
      let this : e ≡ d = cc in
      let that : c ≡ canon = cc in
      (
        subst (IsDelegated H K raw sigs set) this (record {
          signers = seen;
          distinct = distinct;
          signed = signed;
          enough = ground arith;
          two = ground arith;
          decodes = rw same at decodes;
          encodes = rw same at encodes;
          valid = valid;
          for_set = ground (arith, eq_ℤ_iff e.root_generation set.generation);
        }),
        sym that ∙ same,
      )
