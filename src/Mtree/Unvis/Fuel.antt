-- ===== src/Mtree/Unvis/Fuel.antt =====
-- `Unvis` of internal/mtree/unvis.go: how decoding ends.
use aurvet.Prelude.{
  Bool-cases, Bytes, Fallible, Option, [], arith, drop, inl, inr, leb, length, length-drop, ltb,
  none, ok, refl, some, suc, zero, ℕ, ◌&&◌, ◌*◌, ◌+◌, ◌-◌, ◌==◌, ◌>>=◌, ◌||◌, ◌∷◌, ◌≡◌, ◌≤◌,
}
use aurvet.Prelude.Split.{has_byte}
use aurvet.Prelude.Ending.{Ends, Ends->>=, Ends-if, Ends-ok, Ends-refuse_if, Ends-stop}
use aurvet.Mtree.{MtreeError, err_vis_escape}
use aurvet.Mtree.Unvis.{
  decode_ctrl, decode_escape, decode_known, decode_meta, decode_octal, emitted, is_octal, octal_run,
  simple_escape, unvis, unvis_from,
}

-- Decoding ends in a text, or in the one error of an escape that is malformed.
abbrev pub Escapes : {A : Type 0} → (A → Type 0) → Fallible MtreeError A → Type 0
Escapes Q m = Ends (λ e. e ≡ err_vis_escape) Q m

-- A sequence takes a byte at least.
abbrev Takes : Option ℕ × ℕ → Type 0
Takes d = 1 ≤ d.1

octal_run-taken : (k v n : ℕ) (s : Bytes) → n ≤ (octal_run k v n s).1
unfolding octal_run
octal_run-taken zero v n s = omega arith
octal_run-taken (suc k) v n [] = omega arith
octal_run-taken (suc k) v n (c ∷ s) =
    let r = octal_run-taken k (v * 8 + (c - b'0')) (suc n) s in ground (arith, r)

decode_octal-Takes : (s : Bytes) → Escapes Takes (decode_octal s)
unfolding decode_octal
decode_octal-Takes s =
    Ends-refuse_if _ Takes (ltb 255 (octal_run 3 0 1 s).0) err_vis_escape _ refl
      (λ _. octal_run-taken 3 0 1 s)

decode_ctrl-Escapes : (s : Bytes) → Escapes (λ _. Unit) (decode_ctrl s)
unfolding decode_ctrl
decode_ctrl-Escapes [] = refl
decode_ctrl-Escapes (c ∷ s) =
    Ends-if _ _ (c == b'?') _ _ tt (Ends-if _ _ (leb 64 c && leb c 95) _ _ tt refl)

decode_meta-Takes : (s : Bytes) → Escapes Takes (decode_meta s)
unfolding decode_meta
decode_meta-Takes [] = refl
decode_meta-Takes (k ∷ []) = refl
decode_meta-Takes (k ∷ c ∷ s) =
    Ends-if _ Takes (k == b'-') _ _ (Ends-if _ Takes (ltb c 32 || ltb 126 c) _ _ refl (omega arith))
      (Ends-if _ Takes (k == b'^') _ _
        (Ends->>= _ Takes (decode_ctrl (c ∷ s)) _ (decode_ctrl-Escapes (c ∷ s))
          (λ b _. omega arith))
        refl)

decode_known-Takes : (o : Option ℕ) (c : ℕ) (s : Bytes) → Escapes Takes (decode_known o c s)
unfolding decode_known
decode_known-Takes (some b) c s = omega arith
decode_known-Takes none c s = Ends-if _ Takes (c == b'$') _ _ (omega arith) (
    Ends-if _ Takes (is_octal c) _ _ (decode_octal-Takes (c ∷ s)) (
      Ends-if _ Takes (c == b'^') _ _
        (Ends->>= _ Takes (decode_ctrl s) _ (decode_ctrl-Escapes s) (λ b _. omega arith))
        (Ends-if _ Takes (c == b'M') _ _ (decode_meta-Takes s) refl)))

decode_escape-Takes : (s : Bytes) → Escapes Takes (decode_escape s)
unfolding decode_escape
decode_escape-Takes [] = refl
decode_escape-Takes (c ∷ s) = decode_known-Takes (simple_escape c) c s

length-drop_cons : (n c : ℕ) (s : Bytes) → 1 ≤ n → length (drop n (c ∷ s)) ≤ length s
length-drop_cons zero c s h = absurd (omega (arith, h))
length-drop_cons (suc n) c s h = length-drop n s

length-emitted : (o : Option ℕ) (r : Bytes) {n : ℕ} → length r ≤ n → length (emitted o r) ≤ suc n
unfolding emitted
length-emitted none r h = omega (arith, h)
length-emitted (some b) r h = omega (arith, h)

unvis_from_ends :
    (f : ℕ) (s : Bytes) → length s ≤ f → Escapes (λ out. length out ≤ length s) (unvis_from f s)
unfolding unvis_from
unvis_from_ends f [] h = omega arith
unvis_from_ends zero (c ∷ s) h = absurd (omega (arith, h))
unvis_from_ends (suc f) (c ∷ s) h =
    let here = unvis_from_ends f s (omega (arith, h)) in
    let plain : Escapes Fits (unvis_from f s >>= λ r. ok (c ∷ r)) =
      Ends->>= _ Fits (unvis_from f s) _ (Ends-stop _ _ (unvis_from f s) here)
        λ r e. omega (arith, Ends-ok _ _ (unvis_from f s) here e) in
    let escaped : Escapes Fits
        (decode_escape s >>= λ d. unvis_from f (drop (d.1) (c ∷ s)) >>= λ r. ok (emitted (d.0) r)) =
      Ends->>= _ Fits (decode_escape s) _ (Ends-stop _ _ (decode_escape s) (decode_escape-Takes s))
        λ d e.
          let short =
            length-drop_cons (d.1) c s (Ends-ok _ _ (decode_escape s) (decode_escape-Takes s) e) in
          let there = unvis_from_ends f (drop (d.1) (c ∷ s)) (omega (arith, short, h)) in
          Ends->>= _ Fits (unvis_from f (drop (d.1) (c ∷ s))) _
            (Ends-stop _ _ (unvis_from f (drop (d.1) (c ∷ s))) there)
            λ r e'.
              length-emitted (d.0) r
                (omega (arith, short, Ends-ok _ _ (unvis_from f (drop (d.1) (c ∷ s))) there e')) in
    elim (Bool-cases (c == b'\\')) [
      | inl slash ↦ rw (slash, unvis_from) escaped
      | inr other ↦ rw (other, unvis_from) plain
    ]
  where
    Fits : Bytes → Type 0
    Fits out = length out ≤ length (c ∷ s)

-- `Unvis` ends on every text, in a text that is no longer or in the error of a malformed escape: the fuel of
-- the loop, which is the length of the text, is never used up.
pub unvis-Ends :
    (s : Bytes) → Ends (λ e. e ≡ err_vis_escape) (λ out. length out ≤ length s) (unvis s)
unfolding unvis
unvis-Ends s =
    Ends-if _ _ (has_byte (λ c. c == b'\\') s) _ _ (unvis_from_ends (length s) s (omega arith))
      (omega arith)
