-- ===== src/Baseline/Sign/Sound.antt =====
-- `Verify` of internal/baseline/sign.go: what a signature is.
use aurvet.Prelude.{Fallible-cases}
use aurvet.Baseline.Sign.{verify_canonical}
use aurvet.Prelude.{
  >>=-eq-ok_nested, Bool, Bool-cases, Bytes, Fallible, List, Option, [], ap, arith, bytes_eq,
  bytes_eq_iff, err, fail_as, false, get_elem?, inl, inr, none, ok, refuse_if, some, suc, sym, true,
  zero, ℕ, ◌>>=◌, ◌>>◌, ◌∙◌, ◌∷◌, ◌≡◌,
}
use aurvet.Baseline.{Error, err_signature}
use aurvet.Baseline.Format.{
  ParsedSignature, parse_signature, sshsig_hash_algo, sshsig_version, valid_namespace,
}
use aurvet.Baseline.Key.{PublicKey, parse_public_key_blob, same_key}
use aurvet.Baseline.Sign.{
  Crypto, find_trusted, no_keys, sshsig_blob, unarmor, verify, verify_parsed, verify_sig_blob,
}

pub find_trusted_sound :
    (claimed : PublicKey) (ts : List (Option PublicKey)) {key : PublicKey}
    → find_trusted claimed ts ≡ ok key
    → ((i : ℕ) × (get_elem? ts i ≡ some (some key))) × (key.blob ≡ claimed.blob)
unfolding find_trusted same_key
find_trusted_sound claimed [] h = absurd cc
find_trusted_sound claimed (none ∷ ts) h =
    let ((i, at), same) = find_trusted_sound claimed ts h in ((suc i, at), same)
find_trusted_sound claimed (some t ∷ ts) {key} h =
    elim (Bool-cases (bytes_eq t.blob claimed.blob)) [
      | inl e ↦
          let this : ok t ≡ ok key = rw e at h in
          ((zero, ground arith), ground (arith, bytes_eq_iff t.blob claimed.blob))
      | inr e ↦
          let ((i, at), same) = find_trusted_sound claimed ts (rw e at h) in ((suc i, at), same)
    ]

-- A signature over `message` in the namespace `ns`, by `key`, which is one of the trusted keys: the
-- armoured body names the namespace, the hash algorithm and the key, and the raw signature verifies
-- under that key over the blob that binds the namespace to the digest of the message.
pub record IsSigned (C : Crypto) (sig ns message : Bytes) (trusted : List (Option PublicKey))
    (key : PublicKey) : Type 0 where
  pub index : ℕ
  pub trusted_at : get_elem? trusted index ≡ some (some key)
  pub parsed : ParsedSignature
  pub parses :
      (fail_as err_signature (unarmor C sig) >>= λ body.
      fail_as err_signature (parse_signature body))
      ≡ ok parsed
  pub version : parsed.version ≡ sshsig_version
  pub namespace : parsed.namespace ≡ ns
  pub hash_algo : parsed.hash_algo ≡ sshsig_hash_algo
  pub claimed : PublicKey
  pub claims : parse_public_key_blob parsed.key_blob ≡ ok claimed
  pub same_blob : key.blob ≡ claimed.blob
  pub checked :
      verify_sig_blob C key parsed.sig_blob (sshsig_blob C ns sshsig_hash_algo message) ≡ ok tt

module _ (C : Crypto) (ns message : Bytes) (trusted : List (Option PublicKey))
    {key : PublicKey} where
  parsed_header :
      (p : ParsedSignature)
      → verify_parsed C p ns message trusted ≡ ok key
      → (p.version ≡ sshsig_version) × (p.namespace ≡ ns) × (p.hash_algo ≡ sshsig_hash_algo)
  unfolding verify_parsed
  parsed_header p h = (
    ground arith,
    ground (arith, bytes_eq_iff p.namespace ns),
    ground (arith, bytes_eq_iff p.hash_algo sshsig_hash_algo),
  )

  parsed_key :
      (p : ParsedSignature)
      → verify_parsed C p ns message trusted ≡ ok key
      → (claimed : PublicKey) × (parse_public_key_blob p.key_blob ≡ ok claimed)
        × (find_trusted claimed trusted ≡ ok key)
        × (verify_sig_blob C key p.sig_blob (sshsig_blob C ns p.hash_algo message) ≡ ok tt)
  unfolding verify_parsed
  parsed_key p h = ground arith

  accepted :
      (sig : Bytes)
      → verify C sig ns message trusted ≡ ok key
      → (p : ParsedSignature) × ((fail_as err_signature (unarmor C sig) >>= λ body.
            fail_as err_signature (parse_signature body))
          ≡ ok p)
        × (verify_parsed C p ns message trusted ≡ ok key)
  unfolding verify
  accepted sig h =
      let m = fail_as err_signature (unarmor C sig) in
      let rest = λ (p : ParsedSignature). verify_parsed C p ns message trusted in
      >>=-eq-ok_nested m (λ body. fail_as err_signature (parse_signature body)) rest
        (past_guards (no_keys trusted) (valid_namespace ns) h)
    where
      past_guards :
          (b : Bool) (v : Fallible Error (Unit {0})) {m : Fallible Error PublicKey}
          → (refuse_if b err_signature >> (fail_as err_signature v >> m)) ≡ ok key
          → m ≡ ok key
      past_guards false (ok u) h = h
      past_guards false (err e) h = absurd cc
      past_guards true v h = absurd cc

  -- Whatever `Verify` accepts is signed in the namespace asked for, by the trusted key that it returns.
  pub verify_sound :
      (sig : Bytes)
      → verify C sig ns message trusted ≡ ok key
      → IsSigned C sig ns message trusted key
  verify_sound sig h =
      let (p, parses, v) = accepted sig h in
      let (version, named, hashed) = parsed_header p v in
      let (claimed, claims, found, checked) = parsed_key p v in
      let ((i, at), same) = find_trusted_sound claimed trusted found in
      record {
        index = i;
        trusted_at = at;
        parsed = p;
        parses = parses;
        version = version;
        namespace = named;
        hash_algo = hashed;
        claimed = claimed;
        claims = claims;
        same_blob = same;
        checked = rw hashed at checked;
      }

-- One signature is accepted in one namespace only, whatever the messages and the trusted keys.
pub verify_one_namespace :
    (C : Crypto) (sig ns ns' message message' : Bytes) (trusted trusted' : List (Option PublicKey))
    (key key' : PublicKey)
    → verify C sig ns message trusted ≡ ok key
    → verify C sig ns' message' trusted' ≡ ok key'
    → ns ≡ ns'
verify_one_namespace C sig ns ns' message message' trusted trusted' key key' h h' =
    let s = verify_sound C ns message trusted sig h in
    let s' = verify_sound C ns' message' trusted' sig h' in
    let same : ◌≡◌ {A = Fallible Error ParsedSignature} (ok s.parsed) (ok s'.parsed) =
      sym s.parses ∙ s'.parses in
    sym s.namespace
    ∙ ap (λ p. p.namespace) (let q : s.parsed ≡ s'.parsed = cc same in q)
    ∙ s'.namespace

-- Whatever `VerifyCanonical` accepts is canonical as it was received, and verified.
pub verify_canonical_sound :
    (C : Crypto) (canonical : Bytes → Fallible Error Bytes) (ns raw sig canon : Bytes)
    (trusted : List (Option PublicKey)) (key : PublicKey)
    → verify_canonical C canonical sig ns raw trusted ≡ ok (canon, key)
    → (verify C sig ns raw trusted ≡ ok key) × (canon ≡ raw)
unfolding verify_canonical
verify_canonical_sound C canonical ns raw sig canon trusted key h =
    elim (Fallible-cases (canonical raw)) [
      | inr (bad, failed) ↦ absurd (ground arith)
      | inl (again, written) ↦ ground (arith, bytes_eq_iff again raw)
    ]
