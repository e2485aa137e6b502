-- ===== src/Chain/Replication/State.antt =====
-- `BuildReplication` and `VerifyReplicationResult` (internal/chain/replication.go).
use aurvet.Prelude.Text.{is_blank}
use mathlib.Core.Path.{subst}
use aurvet.Prelude.{
  Bool-cases, Bytes, Fallible-cases, List, Option, Option-cases, [], ap, arith, bytes_eq_iff, eq_ℤ,
  err, false, inl, inr, length, ltb_ℤ, negsuc, ok, pos, refl, some, suc, sym, true, zero, ℤ, ◌∙◌,
  ◌≡◌, ◌≤◌, ◌≤ℤ◌,
}
use aurvet.Baseline.{err_signature}
use aurvet.Baseline.Key.{PublicKey}
use aurvet.Baseline.Sign.{Crypto, verify, verify_canonical}
use aurvet.Chain.{is_digest}
use aurvet.Chain.Replication.{
  Replication, ReplicationCodec, ReplicationInput, ReplicationResult, accept_parsed,
  build_replication, err_signing, input_of, max_replication_bytes, namespace_replication, present,
  replication_schema, verify_replication_result,
}

-- A usable anchor: it names at least one entry, by a digest, and a remote.
pub record IsUsable (r : Replication) : Type 0 where
  pub positive : pos 1 ≤ℤ r.length
  pub head_digest : is_digest r.head ≡ true
  pub remote_named : is_blank r.remote ≡ false

positive_of_tests : (n : ℤ) → ltb_ℤ n (pos 0) ≡ false → eq_ℤ n (pos 0) ≡ false → pos 1 ≤ℤ n
positive_of_tests (pos zero) a b = absurd cc
positive_of_tests (pos (suc n)) a b = omega arith
positive_of_tests (negsuc n) a b = absurd (ground arith)

module _ (C : Crypto) (K : ReplicationCodec) (parse_stamp : Bytes → Option ℤ) where
  pub build_replication_usable :
      (i : ReplicationInput) {r : Replication}
      → build_replication C K parse_stamp i ≡ ok r
      → (pos 1 ≤ℤ i.length) × (is_digest i.head ≡ true) × (is_blank i.remote ≡ false)
  unfolding build_replication
  build_replication_usable i h =
      (positive_of_tests i.length (ground arith) (ground arith), ground arith, ground arith)

  accept_parsed_present :
      (canon : Bytes) (key : PublicKey) (r : Replication)
      → (accept_parsed C K parse_stamp canon key r).state ≡ present
      → ((accept_parsed C K parse_stamp canon key r).replication ≡ r)
        × (K.marshal r ≡ ok canon)
        × IsUsable r
  unfolding accept_parsed
  accept_parsed_present canon key r h = elim (Bool-cases (eq_ℤ r.schema replication_schema)) [
    | inr wrong ↦ absurd (let q = rw (wrong, accept_parsed) at h in cc)
    | inl right ↦ elim (Fallible-cases (K.marshal r)) [
      | inr (bad, failed) ↦ absurd (ground arith)
      | inl (again, written) ↦
          elim (Fallible-cases (build_replication C K parse_stamp (input_of C K parse_stamp r))) [
            | inr (bad, failed) ↦ absurd (ground arith)
            | inl (built, assembled) ↦
                let (positive, digest, remote) =
                  build_replication_usable (input_of C K parse_stamp r) assembled in
                (
                  ground arith,
                  ground (arith, bytes_eq_iff again canon),
                  record {
                    positive = unfold input_of in positive;
                    head_digest = unfold input_of in digest;
                    remote_named = unfold input_of in remote;
                  },
                )
          ]
    ]
  ]

  -- A state that reads as present was signed by a trusted key, is no longer than the cap, decodes from
  -- the bytes received and re-encodes to them, and can serve as an anchor; for the same bytes and
  -- signature, an empty set of trusted keys is an error.
  pub verify_replication_result_sound :
      (sig raw : Bytes) (trusted : List (Option PublicKey)) (res : ReplicationResult)
      → verify_replication_result C K parse_stamp sig raw trusted ≡ ok res
      → res.state ≡ present
      → ((key : PublicKey) × (verify C sig namespace_replication raw trusted ≡ ok key))
        × (length raw ≤ max_replication_bytes)
        × (K.unmarshal raw ≡ some res.replication)
        × (K.marshal res.replication ≡ ok raw)
        × IsUsable res.replication
        × (verify_replication_result C K parse_stamp sig raw [] ≡ err (err_signing err_signature))
  unfolding verify_replication_result verify_canonical
  verify_replication_result_sound sig raw trusted res h here =
      elim (Fallible-cases (verify C sig namespace_replication raw trusted)) [
        | inr (bad, failed) ↦ absurd (ground arith)
        | inl (key, signed) ↦ elim (Fallible-cases (K.canonical raw)) [
          | inr (bad, failed) ↦ absurd (ground arith)
          | inl (canon, canonical) ↦ elim (Option-cases (K.unmarshal canon)) [
            | inl no_value ↦ absurd (ground arith)
            | inr (r, read) ↦
                let same : canon ≡ raw = ground (arith, bytes_eq_iff canon raw) in
                let made : res ≡ accept_parsed C K parse_stamp canon key r =
                  ground (arith, bytes_eq_iff canon raw) in
                let (kept, written, usable) =
                  accept_parsed_present canon key r
                    (ap (λ (q : ReplicationResult). q.state) (sym made) ∙ here) in
                let is_r = ap (λ (q : ReplicationResult). q.replication) made ∙ kept in
                (
                  (key, signed),
                  ground arith,
                  ap K.unmarshal (sym same) ∙ read ∙ ap some (sym is_r),
                  ap K.marshal is_r ∙ written ∙ ap ok same,
                  subst IsUsable (sym is_r) usable,
                  refl,
                )
          ]
        ]
      ]
