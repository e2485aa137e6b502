-- ===== src/Chain/Verify/Truncation.antt =====
-- `Verify` (internal/chain/chain.go) on a chain whose last records are cut off.
use aurvet.Prelude.{
  All-append_left, Bytes, List, Option, arith, get_elem?-append_left, get_last?, get_last?_total,
  length, length-append, none, pos, some, suc, ℤ, ◌++◌, ◌∙◌, ◌∷◌, ◌≡◌,
}
use aurvet.Baseline.Key.{PublicKey}
use aurvet.Baseline.Sign.{Crypto}
use aurvet.Chain.{Anchor, Record, err_truncated, head_anchor}
use aurvet.Chain.Verify.{anchor_check, structure_check, verify_chain}
use aurvet.Chain.Verify.Checks.{OnceEach}
use aurvet.Chain.Verify.Signed.{IsAuthentic}
use aurvet.Chain.Verify.Spec.{IsChain, verify_chain_iff}

OnceEach-prefix :
    (key : Record → Bytes) (xs ys : List Record) → OnceEach key (xs ++ ys) → OnceEach key xs
OnceEach-prefix key xs ys h i j r s at at' =
    h i j r s (get_elem?-append_left xs ys i at) (get_elem?-append_left xs ys j at')

pub head_anchor-last :
    (rs : List Record) {r : Record}
    → get_last? rs ≡ some r
    → head_anchor rs ≡ record { length = pos (length rs); head = r.hash }
unfolding head_anchor
head_anchor-last rs h = rw h

module _ (C : Crypto) (parse_stamp : Bytes → Option ℤ) (fingerprint : PublicKey → Bytes)
    (trusted : List (Option PublicKey)) where
  pub IsChain-prefix :
      (xs ys : List Record)
      → IsChain C parse_stamp fingerprint trusted (xs ++ ys)
      → IsChain C parse_stamp fingerprint trusted xs
  IsChain-prefix xs ys c = record {
    authentic = All-append_left (IsAuthentic C parse_stamp fingerprint trusted) xs ys c.authentic;
    hash_once = OnceEach-prefix (λ r. r.hash) xs ys c.hash_once;
    prev_once = OnceEach-prefix (λ r. r.entry.prev_hash) xs ys c.prev_once;
    seq_at = λ i r at. c.seq_at i r (get_elem?-append_left xs ys i at);
    linked = record {
      first = λ r at. c.linked.first r (get_elem?-append_left xs ys 0 at);
      later = λ j p r at at'.
          c.linked.later j p r (get_elem?-append_left xs ys j at)
            (get_elem?-append_left xs ys (suc j) at');
    };
    payload_once = OnceEach-prefix (λ r. r.entry.payload.sha256) xs ys c.payload_once;
    in_order = λ j p r at at'.
        c.in_order j p r (get_elem?-append_left xs ys j at)
          (get_elem?-append_left xs ys (suc j) at');
  }

  -- Without an anchor, whatever `Verify` accepts it accepts with any number of records cut from the end.
  pub truncation_unseen :
      (xs ys : List Record)
      → (verify_chain C parse_stamp fingerprint
          (xs ++ ys)
          (record { trusted = trusted; anchor = none })).1
        ≡ none
      → (verify_chain C parse_stamp fingerprint xs (record { trusted = trusted; anchor = none })).1
        ≡ none
  truncation_unseen xs ys h =
      let (c, _) = (verify_chain_iff C parse_stamp fingerprint trusted (xs ++ ys) none).0 h in
      (verify_chain_iff C parse_stamp fingerprint trusted xs none).1 (IsChain-prefix xs ys c, tt)

  structure_none :
      (xs : List Record)
      → IsChain C parse_stamp fingerprint trusted xs
      → (anchor : Option Anchor)
      → (verify_chain C parse_stamp fingerprint xs
          (record { trusted = trusted; anchor = anchor })).1
        ≡ anchor_check anchor xs
  unfolding verify_chain structure_check
  structure_none xs c anchor =
      let plain = (verify_chain_iff C parse_stamp fingerprint trusted xs none).1 (c, tt) in
      ground arith

  -- With the anchor of a chain that `Verify` accepts, a copy that lacks records from its end is refused
  -- as truncated, and the error names the length of the whole chain.
  pub truncation_refused :
      (xs : List Record) (y : Record) (ys : List Record)
      → (verify_chain C parse_stamp fingerprint
          (xs ++ y ∷ ys)
          (record { trusted = trusted; anchor = none })).1
        ≡ none
      → (verify_chain C parse_stamp fingerprint xs
          (record { trusted = trusted; anchor = some (head_anchor (xs ++ y ∷ ys)) })).1
        ≡ some (err_truncated (pos (length (xs ++ y ∷ ys))))
  truncation_refused xs y ys h =
      let (c, _) = (verify_chain_iff C parse_stamp fingerprint trusted (xs ++ y ∷ ys) none).0 h in
      let (r, last) = get_last?_total xs y ys in
      structure_none xs (IsChain-prefix xs (y ∷ ys) c) (some (head_anchor (xs ++ y ∷ ys)))
      ∙ rw (head_anchor-last (xs ++ y ∷ ys) last)
          (unfold anchor_check in ground (arith, length-append xs (y ∷ ys)))
