-- ===== src/Mtree/Keywords/Typed.antt =====
-- The keywords of internal/mtree/parse.go: the values that they can have.
use mathlib.Core.Path.{subst}
use aurvet.Prelude.{
  Bool, Bool-cases, Bytes, Fallible, List, Option, [], arith, bytes_eq, codes, err, false,
  if◌then◌else◌, inl, inr, length, ltb, ltb→lt, none, not, ok, refl, refuse_if-eq-ok, some, suc,
  true, zero, ℕ, ◌<◌, ◌==◌, ◌^◌, ◌||◌, ◌∷◌, ◌≡◌, ◌≤◌, ◌⊎◌,
}
use aurvet.Prelude.Split.{cut}
use aurvet.Prelude.Ending.{Ends, Ends->>=, Ends-if, Ends-ok, Ends-refuse_if}
use aurvet.Mtree.{MtreeError, err_syntax}
use aurvet.Mtree.Unvis.{unvis}
use aurvet.Mtree.Keywords.{
  Keywords, all_hex, apply, check_hex, digits_value, in_bits, mode_of, no_keywords, only_zero,
  or_syntax, parse_size, parse_uint, set_pairs, unset, unset_name, unset_names,
}

-- No digest, or as many lowercase hex digits as it needs.
abbrev pub IsDigestOf : ℕ → Bytes → Type 0
IsDigestOf n s = (s ≡ []) ⊎ ((length s ≡ n) × (all_hex s ≡ true))

pub record IsTyped (kw : Keywords) : Type 0 where
  pub size_fits : kw.size < 2 ^ 63
  pub mode_fits : kw.mode ≤ 4095
  pub sha256_ok : IsDigestOf 64 kw.sha256
  pub md5_ok : IsDigestOf 32 kw.md5

typed :
    {kw : Keywords}
    → kw.size < 2 ^ 63
    → kw.mode ≤ 4095
    → IsDigestOf 64 kw.sha256
    → IsDigestOf 32 kw.md5
    → IsTyped kw
typed a b c d = record { size_fits = a; mode_fits = b; sha256_ok = c; md5_ok = d }

pub no_keywords-IsTyped : IsTyped no_keywords
no_keywords-IsTyped = record {
  size_fits = ground arith;
  mode_fits = omega arith;
  sha256_ok = inl refl;
  md5_ok = inl refl;
}

-- What succeeds has the property.
abbrev pub Gives {ℓ} : {A : Type ℓ} → (A → Type 0) → Fallible MtreeError A → Type 0
Gives Q m = Ends (λ _. Unit) Q m

or_syntax-Gives :
    {A : Type 0} (Q : A → Type 0) (o : Option A)
    → ((a : A) → o ≡ some a → Q a)
    → Gives Q (or_syntax o)
or_syntax-Gives Q none h = tt
or_syntax-Gives Q (some a) h = h a refl

or_syntax-eq-ok : {A : Type 0} (o : Option A) {a : A} → or_syntax o ≡ ok a → o ≡ some a
or_syntax-eq-ok none h = absurd cc
or_syntax-eq-ok (some a) h = cc

pub any : {A : Type 0} (m : Fallible MtreeError A) → Gives (λ _. Unit) m
any (ok a) = tt
any (err e) = tt

-- The value, if there is one, is below a bound.
abbrev Below : ℕ → Option ℕ → Type 0
Below n none = Unit
Below n (some v) = v < n

Below-if :
    (n : ℕ) (c : Bool) (a b : Option ℕ) → Below n a → Below n b → Below n (if c then a else b)
Below-if n true a b p q = p
Below-if n false a b p q = q

in_bits-Below : (bits : ℕ) (o : Option ℕ) → Below (2 ^ bits) (in_bits bits o)
unfolding in_bits
in_bits-Below bits none = tt
in_bits-Below bits (some v) = elim (Bool-cases (ltb v (2 ^ bits))) [
  | inl fits ↦ rw fits (ltb→lt v (2 ^ bits) fits)
  | inr over ↦ rw over tt
]

parse_uint-Below : (base bits : ℕ) (s : Bytes) → Below (2 ^ bits) (parse_uint base bits s)
unfolding parse_uint
parse_uint-Below base bits [] = tt
parse_uint-Below base bits (c ∷ s) = in_bits-Below bits (digits_value base 0 (c ∷ s))

only_zero-Below : (o : Option ℕ) → Below (2 ^ 63) (only_zero o)
unfolding only_zero
only_zero-Below none = tt
only_zero-Below (some zero) = ground arith
only_zero-Below (some (suc v)) = tt

parse_size-Below : (s : Bytes) → Below (2 ^ 63) (parse_size s)
unfolding parse_size
parse_size-Below [] = tt
parse_size-Below (c ∷ s) = Below-if (2 ^ 63) (c == b'+') _ _ (parse_uint-Below 10 63 s) (
    Below-if (2 ^ 63) (c == b'-') _ _ (only_zero-Below (parse_uint 10 63 s))
      (parse_uint-Below 10 63 (c ∷ s)))

Below-some : (n : ℕ) (o : Option ℕ) {v : ℕ} → Below n o → o ≡ some v → v < n
Below-some n none h e = absurd cc
Below-some n (some w) h e = subst (λ x. x < n) (cc) h

check_hex-IsDigestOf : (s : Bytes) (n : ℕ) → check_hex s n ≡ ok tt → IsDigestOf n s
unfolding check_hex
check_hex-IsDigestOf s n h =
    let (a, h1) = refuse_if-eq-ok (not (length s == n)) err_syntax _ h in
    inr (ground arith, ground arith)

mode_of-Gives : (s : Bytes) → Gives (λ n. n ≤ 4095) (mode_of s)
unfolding mode_of
mode_of-Gives s =
    Ends->>= _ (λ n. n ≤ 4095) (or_syntax (parse_uint 8 32 s)) _ (any _)
      λ n e. Ends-refuse_if _ (λ n. n ≤ 4095) (ltb 4095 n) err_syntax _ tt (λ small. ground arith)

module _ (parse_float : Bytes → Option ℕ) where
  apply-IsTyped :
      (kw : Keywords) (key val : Bytes) → IsTyped kw → Gives IsTyped (apply parse_float kw key val)
  unfolding apply
  apply-IsTyped kw key val t =
      Ends-if _ IsTyped (bytes_eq key (codes "type")) _ _
        (typed t.size_fits t.mode_fits t.sha256_ok t.md5_ok)
        (Ends-if _ IsTyped (bytes_eq key (codes "size")) _ _
          (Ends->>= _ IsTyped (or_syntax (parse_size val)) _ (any _) λ n e. record {
            size_fits =
                Below-some (2 ^ 63) (parse_size val) (parse_size-Below val)
                  (or_syntax-eq-ok (parse_size val) e);
            mode_fits = t.mode_fits;
            sha256_ok = t.sha256_ok;
            md5_ok = t.md5_ok;
          })
          (Ends-if _ IsTyped (bytes_eq key (codes "mode")) _ _
            (Ends->>= _ IsTyped (mode_of val) _ (any _) λ n e.
              typed t.size_fits (Ends-ok (λ _. Unit) _ (mode_of val) (mode_of-Gives val) e)
                t.sha256_ok t.md5_ok)
            (Ends-if _ IsTyped (bytes_eq key (codes "time")) _ _
              (Ends->>= _ IsTyped (or_syntax (parse_float val)) _ (any _)
                λ n e. typed t.size_fits t.mode_fits t.sha256_ok t.md5_ok)
              (Ends-if _ IsTyped
                (bytes_eq key (codes "sha256digest") || bytes_eq key (codes "sha256")) _ _
                (Ends->>= _ IsTyped (check_hex val 64) _ (any _)
                  λ u e. typed t.size_fits t.mode_fits (check_hex-IsDigestOf val 64 e) t.md5_ok)
                (Ends-if _ IsTyped (bytes_eq key (codes "md5digest") || bytes_eq key (codes "md5"))
                  _ _
                  (Ends->>= _ IsTyped (check_hex val 32) _ (any _) λ u e.
                    typed t.size_fits t.mode_fits t.sha256_ok (check_hex-IsDigestOf val 32 e))
                  (Ends-if _ IsTyped (bytes_eq key (codes "link")) _ _
                    (Ends->>= _ IsTyped (unvis val) _ (any _)
                      λ s e. typed t.size_fits t.mode_fits t.sha256_ok t.md5_ok)
                    t))))))

  pub set_pairs-IsTyped :
      (kw : Keywords) (ps : List Bytes) → IsTyped kw → Gives IsTyped (set_pairs parse_float kw ps)
  unfolding set_pairs
  set_pairs-IsTyped kw [] t = t
  set_pairs-IsTyped kw (p ∷ ps) t = Ends->>= _ IsTyped (or_syntax (cut b'=' p)) _ (any _) λ kv e.
      Ends->>= _ IsTyped (apply parse_float kw (kv.0) (kv.1)) _ (any _) λ next e'.
        set_pairs-IsTyped next ps (
          Ends-ok (λ _. Unit) IsTyped (apply parse_float kw (kv.0) (kv.1))
            (apply-IsTyped kw (kv.0) (kv.1) t) e')

unset_name-IsTyped : (kw : Keywords) (n : Bytes) → IsTyped kw → IsTyped (unset_name kw n)
unfolding unset_name
unset_name-IsTyped kw n t = kept (bytes_eq n (codes "all")) no_keywords-IsTyped (
    kept (bytes_eq n (codes "type")) (typed t.size_fits t.mode_fits t.sha256_ok t.md5_ok) (
      kept (bytes_eq n (codes "size")) (typed zero_fits t.mode_fits t.sha256_ok t.md5_ok) (
        kept (bytes_eq n (codes "mode")) (typed t.size_fits (omega arith) t.sha256_ok t.md5_ok) (
          kept (bytes_eq n (codes "time")) (typed t.size_fits t.mode_fits t.sha256_ok t.md5_ok) (
            kept (bytes_eq n (codes "sha256digest") || bytes_eq n (codes "sha256"))
              (typed t.size_fits t.mode_fits (inl refl) t.md5_ok)
              (kept (bytes_eq n (codes "md5digest") || bytes_eq n (codes "md5"))
                (typed t.size_fits t.mode_fits t.sha256_ok (inl refl))
                (kept (bytes_eq n (codes "link"))
                  (typed t.size_fits t.mode_fits t.sha256_ok t.md5_ok) t)))))))
  where
    zero_fits : 0 < 2 ^ 63
    zero_fits = ground arith

    kept : {a b : Keywords} (c : Bool) → IsTyped a → IsTyped b → IsTyped (if c then a else b)
    kept true p q = p
    kept false p q = q

unset_names-IsTyped : (kw : Keywords) (ns : List Bytes) → IsTyped kw → IsTyped (unset_names kw ns)
unfolding unset_names
unset_names-IsTyped kw [] t = t
unset_names-IsTyped kw (n ∷ ns) t =
    unset_names-IsTyped (unset_name kw n) ns (unset_name-IsTyped kw n t)

pub unset-IsTyped : (kw : Keywords) (ns : List Bytes) → IsTyped kw → Gives IsTyped (unset kw ns)
unfolding unset
unset-IsTyped kw [] t = tt
unset-IsTyped kw (n ∷ ns) t = unset_names-IsTyped kw (n ∷ ns) t
