-- ===== src/Bundle.antt =====
-- internal/bundle: the channel of indicator bundles: the root keys, the delegation that they sign, the
-- bundle that a delegated key signs, the floor under its version, and what a run may conclude.
pub mod Floor
pub mod Roots
pub mod Delegation
pub mod Document
pub mod Verify
pub mod Update
use aurvet.Prelude.{Fallible, Option, err, none, ok, pos, some, ℤ, ◌≡◌}
use aurvet.Baseline.{Error}

-- The sentinels of the package, and the errors of the baseline package, which are passed on.
pub data BundleError : Type 0 where
  err_no_root_keys err_root_set err_delegation err_threshold err_bundle : BundleError
  err_carries_key err_executable err_empty_bundle : BundleError
  err_baseline : Error → BundleError

abbrev pub spec_version : ℤ
spec_version = pos 1

abbrev pub passed_on {ℓ} : {A : Type ℓ} → Fallible Error A → Fallible BundleError A
passed_on (ok a) = ok a
passed_on (err e) = err (err_baseline e)

-- A parser that reports no value, and the sentinel that stands for it.
abbrev pub or_error {ℓ} : {A : Type ℓ} → BundleError → Option A → Fallible BundleError A
or_error e none = err e
or_error e (some a) = ok a

pub or_error-eq-ok {ℓ} :
    {A : Type ℓ} (e : BundleError) (o : Option A) {a : A} → or_error e o ≡ ok a → o ≡ some a
or_error-eq-ok e none h = cc
or_error-eq-ok e (some a) h = cc

pub passed_on-eq-ok {ℓ} :
    {A : Type ℓ} (m : Fallible Error A) {a : A} → passed_on m ≡ ok a → m ≡ ok a
passed_on-eq-ok (ok a) h = cc
passed_on-eq-ok (err e) h = absurd cc
