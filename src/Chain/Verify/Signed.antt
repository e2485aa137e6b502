-- ===== src/Chain/Verify/Signed.antt =====
-- The loops of `Verify` (internal/chain/chain.go) over times and signatures.
use mathlib.Core.Path.{subst₂}
use aurvet.Prelude.{
  All, Bytes, Fallible-cases, List, Option, [], arith, get_elem?, if◌then◌else◌, inl, inr, none, ok,
  refl, some, suc, sym, zero, ℕ, ℤ, ◌++◌, ◌↔◌, ◌∙◌, ◌∷◌, ◌≡◌, ◌≤ℤ◌,
}
use aurvet.Baseline.Format.{namespace_chain_entry}
use aurvet.Baseline.Key.{PublicKey}
use aurvet.Baseline.Sign.{Crypto, verify}
use aurvet.Chain.{Record, validate_entry}
use aurvet.Chain.Verify.{contains, signature_check, stamp_order, time_check, ◌or_else◌}

pub or_else_none {ℓ} :
    {A : Type ℓ} (a b : Option A) → ((a or_else b) ≡ none) ↔ ((a ≡ none) × (b ≡ none))
or_else_none none b = (λ h. (refl, h), λ h. h.1)
or_else_none (some a) b = (λ h. absurd cc, λ h. h.0)

-- Both stamps are readable, and the first is not after the second.
pub record InOrder (parse_stamp : Bytes → Option ℤ) (p r : Record) : Type 0 where
  pub before : ℤ
  pub after : ℤ
  pub before_at : parse_stamp p.entry.time ≡ some before
  pub after_at : parse_stamp r.entry.time ≡ some after
  pub ordered : before ≤ℤ after

stamp_order-none :
    (i : ℕ) (a b : Option ℤ)
    → stamp_order i a b ≡ none
    → (p : ℤ) × (c : ℤ) × (a ≡ some p) × (b ≡ some c) × (p ≤ℤ c)
unfolding stamp_order
stamp_order-none i none b h = absurd cc
stamp_order-none i (some p) none h = absurd cc
stamp_order-none i (some p) (some c) h = (p, c, refl, refl, ground arith)

stamp_order-≤ : (i : ℕ) (p c : ℤ) → p ≤ℤ c → stamp_order i (some p) (some c) ≡ none
unfolding stamp_order
stamp_order-≤ i p c h = ground arith

module _ (parse_stamp : Bytes → Option ℤ) where
  pub time_check_iff :
      (i : ℕ) (rs : List Record)
      → (time_check parse_stamp i rs ≡ none) ↔ (
          (j : ℕ) (p r : Record)
          → get_elem? rs j ≡ some p
          → get_elem? rs (suc j) ≡ some r
          → InOrder parse_stamp p r)
  unfolding time_check
  time_check_iff i [] = (λ h j p r at at'. absurd cc, λ h. refl)
  time_check_iff i (x ∷ []) = (λ h j p r at at'. absurd (no_second j at'), λ h. refl)
    where
      no_second : (j : ℕ) {r : Record} → get_elem? {A = Record} [] j ≡ some r → ⊥
      no_second j at = cc
  time_check_iff i (x ∷ y ∷ rs) =
      let order = stamp_order (suc i) (parse_stamp x.entry.time) (parse_stamp y.entry.time) in
      let split = or_else_none order (time_check parse_stamp (suc i) (y ∷ rs)) in
      let rest = time_check_iff (suc i) (y ∷ rs) in
      (
        λ h. at_index (in_order (split.0 h).0) (rest.0 (split.0 h).1),
        λ h. split.1 (back (h zero x y refl refl), rest.1 (λ j p r at at'. h (suc j) p r at at')),
      )
    where
      in_order :
          stamp_order (suc i) (parse_stamp x.entry.time) (parse_stamp y.entry.time) ≡ none
          → InOrder parse_stamp x y
      in_order h =
          let (b, a, eb, ea, le) = stamp_order-none (suc i) _ _ h in
          record { before = b; after = a; before_at = eb; after_at = ea; ordered = le }

      back :
          InOrder parse_stamp x y
          → stamp_order (suc i) (parse_stamp x.entry.time) (parse_stamp y.entry.time) ≡ none
      back o = rw (o.before_at, o.after_at) (stamp_order-≤ (suc i) o.before o.after o.ordered)

      at_index :
          InOrder parse_stamp x y
          → ((j : ℕ) (p r : Record)
              → get_elem? (y ∷ rs) j ≡ some p
              → get_elem? (y ∷ rs) (suc j) ≡ some r
              → InOrder parse_stamp p r)
          → (j : ℕ) (p r : Record) → get_elem? (x ∷ y ∷ rs) j ≡ some p
          → get_elem? (y ∷ rs) j ≡ some r
          → InOrder parse_stamp p r
      at_index o rest zero p r at at' =
          let here : x ≡ p = cc in
          let there : y ≡ r = cc in subst₂ (InOrder parse_stamp) here there o
      at_index o rest (suc j) p r at at' = rest j p r at at'

module _ (C : Crypto) (parse_stamp : Bytes → Option ℤ) (fingerprint : PublicKey → Bytes)
    (trusted : List (Option PublicKey)) where
  -- The signature verifies under a trusted key, and the entry is well formed.
  pub record IsAuthentic (r : Record) : Type 0 where
    pub key : PublicKey
    pub signed : verify C r.sig namespace_chain_entry r.raw trusted ≡ ok key
    pub valid : validate_entry parse_stamp r.entry ≡ ok tt

  pub signature_check_iff :
      (seen : List Bytes) (rs : List Record)
      → ((signature_check C parse_stamp fingerprint trusted seen rs).1 ≡ none) ↔ All IsAuthentic rs
  unfolding signature_check
  signature_check_iff seen [] = (λ h. tt, λ h. refl)
  signature_check_iff seen (r ∷ rs) =
      elim (Fallible-cases (verify C r.sig namespace_chain_entry r.raw trusted)) [
        | inr (e, bad) ↦
            rw (bad, signature_check)
              (λ h. absurd cc, λ h. absurd (let q = sym bad ∙ h.0.signed in cc))
        | inl (key, good) ↦
            rw (good, signature_check)
              (elim (Fallible-cases (validate_entry parse_stamp r.entry)) [
                | inr (e, bad) ↦
                    rw (bad, signature_check)
                      (λ h. absurd cc, λ h. absurd (let q = sym bad ∙ h.0.valid in cc))
                | inl (tt, valid) ↦
                    let fp = fingerprint key in
                    let seen' = if contains fp seen then seen else seen ++ fp ∷ [] in
                    let rest = signature_check_iff seen' rs in
                    rw (valid, signature_check)
                      (
                        λ h. (record { key = key; signed = good; valid = valid }, rest.0 h),
                        λ h. rest.1 h.1,
                      )
              ])
      ]
