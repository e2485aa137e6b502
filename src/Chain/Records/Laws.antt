-- ===== src/Chain/Records/Laws.antt =====
-- `ParseRecord` and `NewRecord` (internal/chain/chain.go): what a parsed record is.
use aurvet.Baseline.Sign.Sound.{verify_canonical_sound}
use mathlib.Core.Path.{subst}
use aurvet.Prelude.{
  Bytes, Fallible-cases, List, Option, Option-cases, ap, arith, bytes_eq_iff, bytes_eq_refl, inl,
  inr, ok, refl, some, sym, ℤ, ◌∙◌, ◌≡◌,
}
use aurvet.Finding.Fingerprint.{hex}
use aurvet.Baseline.Key.{PublicKey}
use aurvet.Baseline.Format.{namespace_chain_entry}
use aurvet.Baseline.Sign.{Crypto, Signer, sign, verify, verify_canonical}
use aurvet.Chain.{Entry, Record, validate_entry}
use aurvet.Chain.Records.{Codec, decode_entry, make_record, new_record, parse_record}

module _ (C : Crypto) (K : Codec) (parse_stamp : Bytes → Option ℤ) where
  -- The record holds the bytes as received, which its entry encodes to and which decode to its entry; its
  -- digest is of those bytes, its signature over them verifies, and the entry is well formed.
  pub record IsParsed (raw sig : Bytes) (trusted : List (Option PublicKey)) (r : Record)
      : Type 0 where
    pub key : PublicKey
    pub signed : verify C sig namespace_chain_entry raw trusted ≡ ok key
    pub made : r ≡ make_record C r.entry raw sig
    pub decodes : K.unmarshal raw ≡ some r.entry
    pub encodes : K.marshal r.entry ≡ ok raw
    pub valid : validate_entry parse_stamp r.entry ≡ ok tt

  decode_entry_sound :
      (canon : Bytes) {e : Entry}
      → decode_entry C K parse_stamp canon ≡ ok e
      → (K.unmarshal canon ≡ some e)
        × (K.marshal e ≡ ok canon)
        × (validate_entry parse_stamp e ≡ ok tt)
  unfolding decode_entry
  decode_entry_sound canon h = elim (Option-cases (K.unmarshal canon)) [
    | inl no_value ↦ absurd (ground arith)
    | inr (e', read) ↦ elim (Fallible-cases (K.marshal e')) [
      | inr (bad, failed) ↦ absurd (ground arith)
      | inl (again, written) ↦ ground (arith, bytes_eq_iff again canon)
    ]
  ]

  -- Whatever `ParseRecord` accepts is the record that the bytes received stand for: they are signed by a
  -- trusted key and encode the entry, which is well formed, and the digest is theirs.
  pub parse_record_sound :
      (raw sig : Bytes) (trusted : List (Option PublicKey)) (r : Record)
      → parse_record C K parse_stamp raw sig trusted ≡ ok r
      → IsParsed raw sig trusted r
  unfolding parse_record make_record
  parse_record_sound raw sig trusted r h =
      let v = verify_canonical C K.canonical sig namespace_chain_entry raw trusted in
      elim (Fallible-cases v) [
        | inr (bad, failed) ↦ absurd (ground arith)
        | inl ((canon, key), good) ↦
            let (signed, same) =
              verify_canonical_sound C K.canonical namespace_chain_entry raw sig canon trusted key
                good in
            elim (Fallible-cases (decode_entry C K parse_stamp canon)) [
              | inr (bad, failed) ↦ absurd (ground arith)
              | inl (e, decoded) ↦
                  let (read, written, valid) = decode_entry_sound canon decoded in
                  let made : r ≡ make_record C e canon sig = ground arith in
                  subst (IsParsed raw sig trusted)
                    (sym (made ∙ ap (λ b. make_record C e b sig) same))
                    (record {
                      key = key;
                      signed = signed;
                      made = refl;
                      decodes = rw same at read;
                      encodes = rw same at written;
                      valid = valid;
                    })
            ]
      ]

  new_record_inv :
      (s : Signer) (e : Entry) {r : Record}
      → new_record C K parse_stamp s e ≡ ok r
      → (validate_entry parse_stamp e ≡ ok tt)
        × (K.marshal e ≡ ok r.raw)
        × (r ≡ make_record C e r.raw r.sig)
  unfolding new_record make_record
  new_record_inv s e h = elim (Fallible-cases (K.marshal e)) [
    | inr (bad, failed) ↦ absurd (ground arith)
    | inl (raw, written) ↦ elim (Fallible-cases (sign C s namespace_chain_entry raw)) [
      | inr (bad, failed) ↦ absurd (ground arith)
      | inl (sig, signed) ↦ (ground arith, ground arith, ground arith)
    ]
  ]

  -- What `NewRecord` makes is read back by `ParseRecord` as the same record, if its signature verifies,
  -- the canonical encoding of the entry is canonical and decoding undoes it.
  pub parse_record-new_record :
      (s : Signer) (e : Entry) (trusted : List (Option PublicKey)) (r : Record) (key : PublicKey)
      → new_record C K parse_stamp s e ≡ ok r
      → K.unmarshal r.raw ≡ some e
      → K.canonical r.raw ≡ ok r.raw
      → verify C r.sig namespace_chain_entry r.raw trusted ≡ ok key
      → parse_record C K parse_stamp r.raw r.sig trusted ≡ ok r
  parse_record-new_record s e trusted r key h reads canonical signed =
      let (valid, written, made) = new_record_inv s e h in
      unfold parse_record verify_canonical in
      rw (signed, canonical, bytes_eq_refl r.raw)
        (rw (reads, written, bytes_eq_refl r.raw) (rw valid (ap ok (sym made))))

  -- Two records read from bytes have equal digests only if they have one entry, provided that their
  -- bytes do not collide under SHA-256.
  pub parse_record_digest :
      (raw raw' sig sig' : Bytes) (trusted trusted' : List (Option PublicKey)) (r r' : Record)
      → parse_record C K parse_stamp raw sig trusted ≡ ok r
      → parse_record C K parse_stamp raw' sig' trusted' ≡ ok r'
      → (hex (C.sha256 raw) ≡ hex (C.sha256 raw') → raw ≡ raw')
      → r.hash ≡ r'.hash
      → r.entry ≡ r'.entry
  unfolding make_record
  parse_record_digest raw raw' sig sig' trusted trusted' r r' h h' injective same =
      let p = parse_record_sound raw sig trusted r h in
      let p' = parse_record_sound raw' sig' trusted' r' h' in
      let bytes =
        injective
          (sym (ap (λ (q : Record). q.hash) p.made) ∙ same ∙ ap (λ (q : Record). q.hash) p'.made) in
      let read : some r.entry ≡ some r'.entry = sym p.decodes ∙ ap K.unmarshal bytes ∙ p'.decodes in
      cc read
