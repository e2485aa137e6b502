-- ===== src/Prelude/Failing.antt =====
-- Go functions that return a value or an error: `Fallible E A`, with `do` blocks.
use mathlib.Core.Logic.{◌⊎◌, inl, inr}
use mathlib.Core.Path.{◌≡◌, refl}
use mathlib.Core.Bool.{Bool, true, false}

pub data Fallible {ℓ} (E : Type 0) (A : Type ℓ) : Type ℓ where
  ok : A → Fallible E A
  err : E → Fallible E A

module _ {ℓ κ} {E : Type 0} {A : Type ℓ} {B : Type κ} where
  infixl 5 ◌>>=◌
  abbrev pub ◌>>=◌ : Fallible E A → (A → Fallible E B) → Fallible E B
  ok a >>= f = f a
  err e >>= f = err e

  -- Inversion of a chain that succeeds.
  pub >>=-eq-ok :
      (step : Fallible E A) (next : A → Fallible E B) {end : B}
      → (step >>= next) ≡ ok end
      → (mid : A) × (step ≡ ok mid) × (next mid ≡ ok end)
  >>=-eq-ok (ok mid) next h = (mid, refl, h)
  >>=-eq-ok (err why) next h = absurd cc

infixl 5 ◌>>◌
abbrev pub ◌>>◌ {ℓ} :
    {E : Type 0} {B : Type ℓ} → Fallible E (Unit {0}) → Fallible E B → Fallible E B
m >> k = m >>= λ _. k

-- `if cond { return err }`.
abbrev pub refuse_if : {E : Type 0} → Bool → E → Fallible E (Unit {0})
refuse_if true e = err e
refuse_if false e = ok tt

-- `fmt.Errorf("%w: ...: %v", sentinel, err)`: the error becomes the sentinel.
abbrev pub fail_as {ℓ} : {E F : Type 0} {A : Type ℓ} → F → Fallible E A → Fallible F A
fail_as e (ok a) = ok a
fail_as e (err _) = err e

pub fail_as-eq-ok {ℓ} :
    {E F : Type 0} {A : Type ℓ} (e : F) (m : Fallible E A) {a : A} → fail_as e m ≡ ok a → m ≡ ok a
fail_as-eq-ok e (ok a) h = cc
fail_as-eq-ok e (err _) h = cc

-- A guard that lets the rest succeed did not fire.
pub refuse_if-eq-ok {ℓ} :
    {E : Type 0} {B : Type ℓ} (c : Bool) (e : E) (m : Fallible E B) {b : B}
    → (refuse_if c e >> m) ≡ ok b
    → (c ≡ false) × (m ≡ ok b)
refuse_if-eq-ok true e m h = absurd cc
refuse_if-eq-ok false e m h = (refl, h)

-- Two steps that succeed before the rest, as one step.
pub >>=-eq-ok_nested {ℓ κ μ} :
    {E : Type 0} {A : Type ℓ} {B : Type κ} {D : Type μ} (m : Fallible E A) (f : A → Fallible E B)
    (g : B → Fallible E D) {d : D}
    → (m >>= λ a. f a >>= g) ≡ ok d
    → (b : B) × ((m >>= f) ≡ ok b) × (g b ≡ ok d)
>>=-eq-ok_nested (ok a) f g h = >>=-eq-ok (f a) g h
>>=-eq-ok_nested (err e) f g h = absurd cc

pub Fallible-cases {ℓ} :
    {E : Type 0} {A : Type ℓ} (m : Fallible E A) → ((a : A) × (m ≡ ok a)) ⊎ ((e : E) × (m ≡ err e))
Fallible-cases (ok a) = inl (a, refl)
Fallible-cases (err e) = inr (e, refl)
