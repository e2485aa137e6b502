-- ===== src/Mtree/Inflate/Bounds.antt =====
-- `Decompress` of internal/mtree/limits.go: the size of what it returns.
use mathlib.Core.Path.{subst}
use aurvet.Prelude.{
  Bytes, List, [], arith, false, length, length-append, ltb, ok, refl, refuse_if-eq-ok, some, suc,
  zero, ℕ, ◌&&◌, ◌*◌, ◌++◌, ◌+◌, ◌<◌, ◌∷◌, ◌≡◌, ◌≤◌,
}
use aurvet.Mtree.{Limits, err_limit}
use aurvet.Mtree.Inflate.{
  Inflated, ReadEnd, ReadStep, allowance, compressed_too_large, counted, decompress, drain,
  end_of_file, opened, read_error,
}

-- The counts that calls of the counting reader lead to.
pub data Counts (max : ℕ) (taken : ℕ) : ℕ → Type 0 where
  none_yet : Counts max taken taken
  call :
      (before asked given after : ℕ)
      → Counts max taken before
      → counted max before asked given ≡ some after
      → Counts max taken after

-- The compressed bytes behind each read were taken through the counting reader.
abbrev pub AreCounted : ℕ → ℕ → List ReadStep → Type 0
AreCounted max taken [] = Unit
AreCounted max taken (r ∷ rs) = Counts max taken r.consumed × AreCounted max r.consumed rs

counted-bounded :
    (max taken asked given after : ℕ)
    → 1 ≤ max
    → taken ≤ max
    → counted max taken asked given ≡ some after
    → after ≤ max
unfolding counted allowance
counted-bounded max taken asked given after capped below h = ground arith

Counts-bounded :
    {max taken after : ℕ} → 1 ≤ max → taken ≤ max → Counts max taken after → after ≤ max
Counts-bounded capped below none_yet = below
Counts-bounded {max} capped below (call before asked given after earlier h) =
    counted-bounded max before asked given after capped (Counts-bounded capped below earlier) h

*-monotone : (a b k : ℕ) → a ≤ b → a * k ≤ b * k
*-monotone a b zero h = omega arith
*-monotone a b (suc k) h = omega (arith, *-monotone a b k h)

-- What the limits promise of the output.
pub record IsBounded (lim : Limits) (out : Bytes) : Type 0 where
  pub size : length out ≤ lim.max_decompressed
  pub ratio : lim.ratio_floor < length out → length out ≤ lim.max_compressed * lim.max_ratio

module _ (lim : Limits) where
  -- The buffer behind one read is bounded too, and the loop goes on with it.
  drain_step :
      (buf : Bytes) (r : ReadStep) (rs : List ReadStep) (e : ReadEnd) {out : Bytes} (c : Bytes)
      → r.chunk ≡ c
      → r.consumed ≤ lim.max_compressed
      → IsBounded lim buf
      → drain lim buf (r ∷ rs) e ≡ ok out
      → (more : Bytes) × IsBounded lim more × (drain lim more rs e ≡ ok out)
  unfolding drain
  drain_step buf r rs e [] p here bound h = (buf, bound, rw p at h)
  drain_step buf r rs e (b ∷ s) p here bound h =
      let h1 = rw p at h in
      let (small, h2) =
        refuse_if-eq-ok (ltb lim.max_decompressed (length buf + length r.chunk)) err_limit _ h1 in
      let more = buf ++ r.chunk in
      let (fair, h3) =
        refuse_if-eq-ok
          (ltb lim.ratio_floor (length more) && ltb (r.consumed * lim.max_ratio) (length more))
          err_limit _ h2 in
      let m = *-monotone r.consumed lim.max_compressed lim.max_ratio here in
      let n = length-append buf r.chunk in
      (more, record { size = ground (arith, n); ratio = λ big. fair_bound _ _ _ _ fair big m }, h3)
    where
      fair_bound :
          (n floor used most : ℕ)
          → (ltb floor n && ltb used n) ≡ false
          → floor < n
          → used ≤ most
          → n ≤ most
      fair_bound n floor used most fair big m = ground arith

  drain-IsBounded :
      (buf : Bytes) (rs : List ReadStep) (e : ReadEnd) (taken : ℕ) {out : Bytes}
      → 1 ≤ lim.max_compressed
      → taken ≤ lim.max_compressed
      → AreCounted lim.max_compressed taken rs
      → IsBounded lim buf
      → drain lim buf rs e ≡ ok out
      → IsBounded lim out
  unfolding drain
  drain-IsBounded buf [] end_of_file taken capped below counts bound h =
      subst (IsBounded lim) (cc) bound
  drain-IsBounded buf [] compressed_too_large taken capped below counts bound h = absurd cc
  drain-IsBounded buf [] read_error taken capped below counts bound h = absurd cc
  drain-IsBounded buf (r ∷ rs) e taken capped below counts bound h =
      let here = Counts-bounded capped below (counts.0) in
      let (more, bound', h') = drain_step buf r rs e r.chunk refl here bound h in
      drain-IsBounded more rs e r.consumed capped here (counts.1) bound' h'

-- Whatever `Decompress` returns is no longer than the cap on the output, and, once it is over the floor for the
-- ratio, no longer than the cap on the input times the ratio, when the input has a cap and is read through
-- the counting reader.
pub decompress-IsBounded :
    (lim : Limits) (i : Inflated) (out : Bytes)
    → 1 ≤ lim.max_compressed
    → AreCounted lim.max_compressed 0 i.reads
    → decompress lim (opened i) ≡ ok out
    → IsBounded lim out
unfolding decompress
decompress-IsBounded lim i out capped counts h =
    drain-IsBounded lim [] i.reads i.finish 0 capped (omega arith) counts
      (record { size = omega arith; ratio = λ big. omega arith }) h
