-- ===== src/Baseline/Manifest/Built.antt =====
-- What `BuildManifest` of internal/baseline/manifest.go promises of the document that it returns.
use aurvet.Prelude.{
  All, Bool, Bool-cases, Bytes, Fallible, List, Option, [], arith, bytes_differ, bytes_eq,
  bytes_eq_iff, false, fail_as, inl, inr, length, not, ok, refl, refuse_if-eq-ok, true, ℤ,
  >>=-eq-ok, ◌++◌, ◌≡◌, ◌≢◌, ◌≤◌, ◌⊎◌, ◌↔◌, ◌∷◌, All-map, sym,
}
use mathlib.Core.Path.{subst}
use aurvet.Prelude.Text.{is_blank}
use aurvet.Prelude.Sorting.{
  All-sort_by, Has, Has-append_left, Has-append_right, Has-sort_by, count-sort_by, select, sort_by,
}
use aurvet.Baseline.{Error}
use aurvet.Baseline.Manifest.{
  Gap, Manifest, ManifestInput, Package, mtree_gap, check_provenance, check_surfaces,
  check_adjudications, check_window, window_gaps, empty_host, empty_root, bad_created_at,
  empty_tier, not_encodable, seen_name, take_packages, unread_gap, valid_digest, no_gap,
  build_manifest, is_stamp, manifest_schema, gap_before, package_before, assembled,
}

abbrev pub named : Bytes → Package → Bool
named n p = bytes_eq p.name n

-- What the document says of the mtree of a package: a digest of the right form, or why there is none.
abbrev pub IsMeasured : List Gap → Package → Type 0
IsMeasured gaps p =
    ((p.mtree_sha256 ≢ []) × (valid_digest p.mtree_sha256 ≡ true))
    ⊎ ((p.mtree_sha256 ≡ []) × (p.mtree_unread ≢ []) × Has (unread_gap p) gaps)

mtree_gap-IsMeasured : (p : Package) {gs : List Gap} → mtree_gap p ≡ ok gs → IsMeasured gs p
unfolding mtree_gap
mtree_gap-IsMeasured p {gs} h = elim (Bool-cases (bytes_eq p.mtree_sha256 [])) [
  | inl blank ↦ elim (Bool-cases (bytes_eq p.mtree_unread [])) [
    | inl silent ↦ absurd (let k = rw (blank, silent) at h in cc)
    | inr told ↦ inr (
      (bytes_eq_iff p.mtree_sha256 []).0 blank,
      bytes_differ p.mtree_unread [] told,
      (0, let k = rw (blank, told) at h in cc),
    )
  ]
  | inr given ↦ elim (Bool-cases (valid_digest p.mtree_sha256)) [
    | inl good ↦ inl (bytes_differ p.mtree_sha256 [] given, good)
    | inr bad ↦ absurd (let k = rw (given, bad) at h in cc)
  ]
]

IsMeasured-more :
    (gs hs : List Gap)
    → ((g : Gap) → Has g gs → Has g hs)
    → (p : Package) → IsMeasured gs p
    → IsMeasured hs p
IsMeasured-more gs hs f p (inl m) = inl m
IsMeasured-more gs hs f p (inr m) = inr (m.0, m.1, f (unread_gap p) m.2)

-- One package of a list that was taken.
take_packages-step :
    (seen : List Bytes) (p : Package) (ps : List Package) {gs : List Gap}
    → take_packages seen (p ∷ ps) ≡ ok gs
    → (gap more : List Gap) × (bytes_eq p.name [] ≡ false)
      × (seen_name p.name seen ≡ false)
      × (mtree_gap p ≡ ok gap)
      × (take_packages (p.name ∷ seen) ps ≡ ok more)
      × (gs ≡ gap ++ more)
unfolding take_packages
take_packages-step seen p ps h =
    let (present, h1) = refuse_if-eq-ok _ _ _ h in
    let (new, h2) = refuse_if-eq-ok _ _ _ h1 in
    let (gap, got, h3) = >>=-eq-ok (mtree_gap p) _ h2 in
    let (more, rest, h4) = >>=-eq-ok (take_packages (p.name ∷ seen) ps) _ h3 in
    (gap, more, present, new, got, rest, cc)

take_packages-IsMeasured :
    (seen : List Bytes) (ps : List Package) {gs : List Gap}
    → take_packages seen ps ≡ ok gs
    → All (λ p. (p.name ≢ []) × IsMeasured gs p) ps
take_packages-IsMeasured seen [] h = tt
take_packages-IsMeasured seen (p ∷ ps) {gs} h =
    let (gap, more, present, new, got, rest, all) = take_packages-step seen p ps h in
    (
      (
        bytes_differ p.name [] present,
        IsMeasured-more gap gs (λ g k. subst (Has g) (sym all) (Has-append_left gap more {x = g} k))
            p (mtree_gap-IsMeasured p got),
      ),
      All-map _ _ ps
          (λ q m. (
            m.0,
            IsMeasured-more more gs
                (λ g k. subst (Has g) (sym all) (Has-append_right gap more {x = g} k)) q (m.1),
          ))
          (take_packages-IsMeasured (p.name ∷ seen) ps rest),
    )

pub seen_name-cons :
    (n m : Bytes) (seen : List Bytes) → bytes_eq m n ≡ true → seen_name n (m ∷ seen) ≡ true
unfolding seen_name
seen_name-cons n m seen h = rw h

pub seen_name-cons_later :
    (n m : Bytes) (seen : List Bytes) → seen_name n seen ≡ true → seen_name n (m ∷ seen) ≡ true
unfolding seen_name
seen_name-cons_later n m seen h = ground arith

pub take_packages-once :
    (n : Bytes) (seen : List Bytes) (ps : List Package) {gs : List Gap}
    → take_packages seen ps ≡ ok gs
    → (seen_name n seen ≡ true → length (select (named n) ps) ≡ 0)
      × (length (select (named n) ps) ≤ 1)
take_packages-once n seen [] h = (λ _. refl, omega arith)
take_packages-once n seen (p ∷ ps) h =
    let (gap, more, present, new, got, rest, all) = take_packages-step seen p ps h in
    let (none_seen, one) = take_packages-once n (p.name ∷ seen) ps rest in
    elim (Bool-cases (bytes_eq p.name n)) [
      | inl e ↦
          let same = (bytes_eq_iff p.name n).0 e in
          let zero_more = none_seen (seen_name-cons n p.name seen e) in
          rw e (λ s. absurd (let k = rw same at new in cc), rw zero_more (omega arith))
      | inr e ↦ rw e (λ s. none_seen (seen_name-cons_later n p.name seen s), one)
    ]

-- A well-formed document.
pub record IsBuilt (time_parse : Bytes → Bytes → Option ℤ) (m : Manifest) : Type 0 where
  pub schema : m.schema ≡ manifest_schema
  pub created : is_stamp time_parse m.created_at ≡ true
  pub once : (n : Bytes) → length (select (named n) m.packages) ≤ 1
  pub measured : All (λ p. (p.name ≢ []) × IsMeasured m.coverage.gaps p) m.packages
  pub complete : (m.coverage.complete ≡ true) ↔ (m.coverage.gaps ≡ [])

complete_iff : (gaps : List Gap) → (no_gap gaps ≡ true) ↔ (sort_by gap_before gaps ≡ [])
unfolding sort_by
complete_iff [] = (λ _. refl, λ _. refl)
complete_iff (g ∷ gs) = (
  λ h. absurd (cc),
  λ h. absurd (
      let one = count-sort_by (λ _. true) gap_before (g ∷ gs) in
      let bad = rw h at one in omega (arith, bad)),
)

module _ (time_parse : Bytes → Bytes → Option ℤ) (marshal : Manifest → Fallible Error Bytes)
    (unknown_reason bounded_reason : Bytes) where
  -- What an accepted input has gone through.
  pub build_manifest-assembled :
      (q : ManifestInput) {m : Manifest}
      → build_manifest time_parse marshal unknown_reason bounded_reason q ≡ ok m
      → (unread : List Gap) × (is_stamp time_parse q.created_at ≡ true)
        × (take_packages [] q.packages ≡ ok unread)
        × (m
            ≡ assembled time_parse marshal unknown_reason bounded_reason q
                ((q.gaps ++ unread) ++ window_gaps unknown_reason bounded_reason q.log))
  unfolding build_manifest
  build_manifest-assembled q {m = m} h =
      let (_, h1) = refuse_if-eq-ok (is_blank q.host) empty_host _ h in
      let (_, h2) = refuse_if-eq-ok (bytes_eq q.root []) empty_root _ h1 in
      let (stamped, h3) =
        refuse_if-eq-ok (not (is_stamp time_parse q.created_at)) bad_created_at _ h2 in
      let (_, h4) = refuse_if-eq-ok (is_blank q.tier) empty_tier _ h3 in
      let (unread, taken, h5) = >>=-eq-ok (take_packages [] q.packages) _ h4 in
      let (_, _, h6) = >>=-eq-ok (check_provenance time_parse q.provenance) _ h5 in
      let (_, _, h7) = >>=-eq-ok (check_surfaces time_parse q.surfaces) _ h6 in
      let (_, _, h8) = >>=-eq-ok (check_adjudications time_parse q.adjudications) _ h7 in
      let (_, _, h9) = >>=-eq-ok (check_window time_parse q.log) _ h8 in
      let gaps = (q.gaps ++ unread) ++ window_gaps unknown_reason bounded_reason q.log in
      let (raw, _, end) =
        >>=-eq-ok
          (fail_as not_encodable
            (marshal (assembled time_parse marshal unknown_reason bounded_reason q gaps)))
          _ h9 in
      (unread, ground arith, taken, cc)

  -- Whatever `BuildManifest` returns has the schema of this build and a stamp that parses; each
  -- package has a name, which no other has, and either a digest of the right form or a stated reason
  -- that is among the gaps; it is called complete exactly when it has no gap; and its packages are
  -- those of the input, in some order.
  pub build_manifest-IsBuilt :
      (q : ManifestInput) {m : Manifest}
      → build_manifest time_parse marshal unknown_reason bounded_reason q ≡ ok m
      → IsBuilt time_parse m
        × ((p : Package → Bool) → length (select p m.packages) ≡ length (select p q.packages))
  unfolding assembled
  build_manifest-IsBuilt q h =
      let (unread, stamped, taken, built) = build_manifest-assembled q h in
      let gaps = (q.gaps ++ unread) ++ window_gaps unknown_reason bounded_reason q.log in
      subst
        (λ d.
          IsBuilt time_parse d
          × ((p : Package → Bool) → length (select p d.packages) ≡ length (select p q.packages)))
        (sym built)
        (
          record {
            schema = refl;
            created = stamped;
            once = λ n.
                rw (count-sort_by (named n) package_before q.packages)
                  ((take_packages-once n [] q.packages taken).1);
            measured = All-sort_by _ package_before q.packages (
                All-map _ _ q.packages
                  (λ p w. (
                    w.0,
                    IsMeasured-more unread (sort_by gap_before gaps)
                        (λ g k. Has-sort_by gap_before gaps {x = g} (
                          Has-append_left (q.gaps ++ unread) _ {x = g}
                            (Has-append_right q.gaps unread {x = g} k)))
                        p (w.1),
                  ))
                  (take_packages-IsMeasured [] q.packages taken));
            complete = complete_iff gaps;
          },
          λ p. count-sort_by p package_before q.packages,
        )
