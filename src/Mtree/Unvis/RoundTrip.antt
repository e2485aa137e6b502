-- ===== src/Mtree/Unvis/RoundTrip.antt =====
-- `Unvis` of internal/mtree/unvis.go against the octal form of vis(3), in which pacman writes paths.
use aurvet.Prelude.{
  ==_iff, All, Bool, Bool-cases, Bytes, [], ap, arith, false, if◌then◌else◌, inl, inr, leb, length,
  ltb, none, ok, refl, some, suc, sym, true, zero, ℕ, ◌%◌, ◌+◌, ◌/◌, ◌<◌, ◌==◌, ◌∙◌, ◌∷◌, ◌≡◌, ◌≤◌,
}
use aurvet.Prelude.Split.{has_byte}
use aurvet.Mtree.Unvis.{
  decode_escape, decode_known, decode_octal, emitted, is_octal, octal_run, simple_escape, unvis,
  unvis_from,
}

abbrev pub octal3 : ℕ → Bytes → Bytes
octal3 c s = b'\\' ∷ (48 + c / 64) ∷ (48 + c / 8 % 8) ∷ (48 + c % 8) ∷ s

-- The bytes that pass a test are escaped.
pub vis : (ℕ → Bool) → Bytes → Bytes
vis p [] = []
vis p (c ∷ s) = let rest = vis p s in if p c then octal3 c rest else c ∷ rest

unvis_from-plain :
    (t : Bytes) → has_byte (λ c. c == b'\\') t ≡ false → unvis_from (length t) t ≡ ok t
unfolding unvis_from has_byte
unvis_from-plain [] h = refl
unvis_from-plain (c ∷ t) h =
    let first : (c == b'\\') ≡ false = ground (arith, h) in
    let rest = unvis_from-plain t (ground (arith, h)) in
    rw (first, unvis_from) (rw (rest, unvis_from) refl)

unvis-eq-unvis_from : (s : Bytes) → unvis s ≡ unvis_from (length s) s
unfolding unvis
unvis-eq-unvis_from s = elim (Bool-cases (has_byte (λ c. c == b'\\') s)) [
  | inl some_slash ↦ rw (some_slash, unvis) refl
  | inr plain ↦ rw (plain, unvis) (sym (unvis_from-plain s plain))
]

simple_escape-digit : (d : ℕ) → leb 48 d ≡ true → leb d 55 ≡ true → simple_escape d ≡ none
unfolding simple_escape
simple_escape-digit d low high = ground arith

octal_run-octal3 :
    (c : ℕ) (s : Bytes)
    → c < 256
    → octal_run 3 0 1 ((48 + c / 64) ∷ (48 + c / 8 % 8) ∷ (48 + c % 8) ∷ s) ≡ (c, 4)
unfolding octal_run
octal_run-octal3 c s h =
    let a : is_octal (48 + c / 64) ≡ true = ground arith in
    let b : is_octal (48 + c / 8 % 8) ≡ true = ground arith in
    let d : is_octal (48 + c % 8) ≡ true = ground arith in
    rw a (rw b (rw d (ap (λ x. (x, 4)) (omega arith))))

decode_octal-octal3 :
    (c : ℕ) (s : Bytes)
    → c < 256
    → decode_octal ((48 + c / 64) ∷ (48 + c / 8 % 8) ∷ (48 + c % 8) ∷ s) ≡ ok (some c, 4)
unfolding decode_octal
decode_octal-octal3 c s h =
    let small : ltb 255 c ≡ false = ground (arith, h) in rw (octal_run-octal3 c s h) (rw small refl)

decode_escape-digit :
    (d : ℕ) (s : Bytes)
    → simple_escape d ≡ none
    → (d == b'$') ≡ false
    → is_octal d ≡ true
    → decode_escape (d ∷ s) ≡ decode_octal (d ∷ s)
unfolding decode_escape decode_known
decode_escape-digit d s n o a =
    rw (n, decode_escape) (rw (o, decode_escape) (rw (a, decode_escape) refl))

decode_escape-octal3 :
    (c : ℕ) (s : Bytes)
    → c < 256
    → decode_escape ((48 + c / 64) ∷ (48 + c / 8 % 8) ∷ (48 + c % 8) ∷ s) ≡ ok (some c, 4)
decode_escape-octal3 c s h =
    decode_escape-digit (48 + c / 64) _
      (simple_escape-digit (48 + c / 64) (ground arith) (ground arith)) (ground arith)
      (ground arith)
    ∙ decode_octal-octal3 c s h

length-vis : (p : ℕ → Bool) (c : ℕ) (s : Bytes) → length (vis p s) < length (vis p (c ∷ s))
unfolding vis
length-vis p c s = elim (Bool-cases (p c)) [
  | inl escaped ↦ rw (escaped, vis, length) (omega arith)
  | inr plain ↦ rw (plain, vis, length) (omega arith)
]

unvis_from-vis :
    (p : ℕ → Bool) (s : Bytes) (f : ℕ)
    → p b'\\' ≡ true
    → All (λ c. c < 256) s
    → length (vis p s) ≤ f
    → unvis_from f (vis p s) ≡ ok s
unfolding unvis_from vis emitted
unvis_from-vis p [] zero slash bytes h = refl
unvis_from-vis p [] (suc f) slash bytes h = refl
unvis_from-vis p (c ∷ s) zero slash bytes h = absurd (omega (arith, h, length-vis p c s))
unvis_from-vis p (c ∷ s) (suc f) slash bytes h =
    let rest = unvis_from-vis p s f slash (bytes.1) (omega (arith, h, length-vis p c s)) in
    elim (Bool-cases (p c)) [
      | inl escaped ↦
          rw (escaped, unvis_from) (rw (decode_escape-octal3 c (vis p s) (bytes.0)) (rw rest refl))
      | inr plain ↦
          let kept : (c == b'\\') ≡ false = other plain in
          rw (plain, unvis_from, vis) (rw (kept, unvis_from) (rw (rest, unvis_from) refl))
    ]
  where
    other : p c ≡ false → (c == b'\\') ≡ false
    other plain = elim (Bool-cases (c == b'\\')) [
      | inr differs ↦ differs
      | inl same ↦ absurd (let e = ap p ((==_iff c b'\\').0 same) in cc)
    ]

-- Whatever bytes, the backslash among them, an encoder writes in three octal digits, `Unvis` gives back the
-- text that was encoded.
pub unvis-vis :
    (p : ℕ → Bool) (s : Bytes) → p b'\\' ≡ true → All (λ c. c < 256) s → unvis (vis p s) ≡ ok s
unvis-vis p s slash bytes =
    unvis-eq-unvis_from (vis p s) ∙ unvis_from-vis p s (length (vis p s)) slash bytes (omega arith)
