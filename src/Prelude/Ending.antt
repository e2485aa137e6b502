-- ===== src/Prelude/Ending.antt =====
-- Claims on how a chain of Go calls ends: a predicate of the error, and a predicate of the value.
use mathlib.Core.Path.{◌≡◌, refl, subst}
use mathlib.Core.Bool.{Bool, true, false}
use aurvet.Prelude.Tests.{if◌then◌else◌}
use aurvet.Prelude.Failing.{Fallible, ok, err, ◌>>=◌, ◌>>◌, refuse_if}

abbrev pub Ends {ℓ} :
    {E : Type 0} {A : Type ℓ} → (E → Type 0) → (A → Type 0) → Fallible E A → Type 0
Ends P Q (ok a) = Q a
Ends P Q (err e) = P e

module _ {ℓ} {E : Type 0} {A : Type ℓ} (P : E → Type 0) (Q : A → Type 0) where
  pub Ends-refuse_if :
      (c : Bool) (e : E) (m : Fallible E A)
      → P e
      → (c ≡ false → Ends P Q m)
      → Ends P Q (refuse_if c e >> m)
  Ends-refuse_if true e m stop next = stop
  Ends-refuse_if false e m stop next = next refl

  pub Ends->>= {κ} :
      {B : Type κ} (m : Fallible E B) (f : B → Fallible E A)
      → Ends P (λ _. Unit) m
      → ((b : B) → m ≡ ok b → Ends P Q (f b))
      → Ends P Q (m >>= f)
  Ends->>= (ok b) f stop next = next b refl
  Ends->>= (err e) f stop next = stop

  pub Ends-ok : (m : Fallible E A) {a : A} → Ends P Q m → m ≡ ok a → Q a
  Ends-ok (ok a) h e = subst Q (cc) h
  Ends-ok (err x) h e = absurd cc

  pub Ends-err : (m : Fallible E A) {x : E} → Ends P Q m → m ≡ err x → P x
  Ends-err (ok a) h e = absurd cc
  Ends-err (err x) h e = subst P (cc) h

  -- What is said of the error alone.
  pub Ends-stop : (m : Fallible E A) → Ends P Q m → Ends P (λ _. Unit) m
  Ends-stop (ok a) h = tt
  Ends-stop (err x) h = h

  pub Ends-if :
      (c : Bool) (m n : Fallible E A) → Ends P Q m → Ends P Q n → Ends P Q (if c then m else n)
  Ends-if true m n p q = p
  Ends-if false m n p q = q
