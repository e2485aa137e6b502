-- ===== src/Gate/Approvals/Refines.antt =====
-- The store of approvals of internal/gate/approve.go refines a map from package bases to records.
use aurvet.Prelude.{
  All, Bool-cases, Bytes, Fallible-cases, List, Option, [], ap, arith, bytes_differ, codes,
  length-append, bytes_eq, bytes_eq_iff, bytes_eq_refl, false, if◌then◌else◌, inl, inr, length,
  none, ok, refl, some, sym, true, ℤ, ◌≡◌, ◌∙◌, ◌↔◌, ◌∷◌, ◌++◌,
}
use aurvet.Finding.Fingerprint.{hex}
use aurvet.Finding.Fingerprint.Injective.{append_cancel}
use aurvet.Gate.{valid_pkg_base}
use aurvet.Gate.Recipe.{Recipe}
use aurvet.Gate.Approvals.{
  Approval, ApproveOptions, Disk, Slot, Store, StoreError, WriteEnd, RemoveEnd, absent, approval_of,
  approve, check_dir_safe, dir_decision, file, is_silent, lookup, not_exist, read, read_decision,
  read_slot, record_path, revoke, with_slot,
}
use aurvet.Gate.Approvals.Written.{
  Fits, IsApart, IsView, Ledger, Operation, OperationFits, answer, approve-IsWritten, approving,
  may_approve-ok, read_slot-written, recorded, revoke-IsRemoved, revoking, run, withdrawn,
}

some_injective : {a b : Approval} → some a ≡ some b → a ≡ b
some_injective h = cc

module _ (sha256 : Bytes → Bytes) (encode : Approval → Option Bytes)
    (decode : Bytes → Option Approval) (clock : ℤ) where
  path_injective :
      (p q : Bytes)
      → record_path sha256 encode decode clock p ≡ record_path sha256 encode decode clock q
      → hex (sha256 p) ≡ hex (sha256 q)
  path_injective p q e =
      let a = hex (sha256 p) in
      let b = hex (sha256 q) in
      let x = codes ".json" in
      (append_cancel a b x x (omega (arith, length-append a x, length-append b x, ap length e)) e).0

  -- A changed slot is the slot of its package base alone.
  with_slot-at :
      (p q : Bytes) (x : Slot) (slots : Bytes → Slot)
      → (hex (sha256 q) ≡ hex (sha256 p) → q ≡ p)
      → with_slot
          (record_path sha256 encode decode clock p)
          x
          slots
          (record_path sha256 encode decode clock q)
        ≡ (if bytes_eq q p then x else slots (record_path sha256 encode decode clock q))
  with_slot-at p q x slots apart_from =
      let path = record_path sha256 encode decode clock in
      elim (Bool-cases (bytes_eq q p)) [
        | inl e ↦
            let same = (bytes_eq_iff q p).0 e in rw (same, bytes_eq_refl (path p), bytes_eq_refl p)
        | inr e ↦ elim (Bool-cases (bytes_eq (path q) (path p))) [
          | inl clash ↦ absurd (
              bytes_differ q p e
                (apart_from (path_injective q p ((bytes_eq_iff (path q) (path p)).0 clash))))
          | inr apart ↦ rw (apart, e)
        ]
      ]

  read-slots :
      (k : Disk) (p : Bytes) {slots : Bytes → Slot}
      → k.slots ≡ slots
      → read sha256 encode decode clock k p
        ≡ read_slot sha256 encode decode clock p (slots (record_path sha256 encode decode clock p))
  unfolding read
  read-slots k p e =
      ap
        (λ f. read_slot sha256 encode decode clock p (f (record_path sha256 encode decode clock p)))
        e

  approve-IsView :
      (p : Bytes) (s : Store) (k : Disk) (m : Ledger) (r : Recipe) (opts : ApproveOptions)
      (w : WriteEnd)
      → IsApart sha256 encode decode clock p (approving r opts w)
      → Fits sha256 encode decode clock (approval_of sha256 encode decode clock r opts)
      → IsView sha256 encode decode clock p k m
      → IsView sha256 encode decode clock p
          (approve sha256 encode decode clock s k r opts w).0
          (recorded (approve sha256 encode decode clock s k r opts w).1 m)
  unfolding read approval_of
  approve-IsView p s k m r opts w apart fits view =
      let out = approve sha256 encode decode clock s k r opts w in
      elim (approve-IsWritten sha256 encode decode clock s k r opts w) [
        | inl (e, failed, left) ↦ rw failed (read-slots (out.0) p left ∙ view)
        | inr (body, done, made, changed, may) ↦
            let (valid, digest) = may_approve-ok sha256 encode decode clock s r may in
            let whole =
              read-slots (out.0) p changed
              ∙ ap (read_slot sha256 encode decode clock p)
                  (with_slot-at r.pkg_base p _ k.slots apart) in
            elim (Bool-cases (bytes_eq p r.pkg_base)) [
              | inl e ↦
                  let same = (bytes_eq_iff p r.pkg_base).0 e in
                  let a = approval_of sha256 encode decode clock r opts in
                  let back =
                    ap (λ n. read_slot sha256 encode decode clock n (file (body ++ b'\n' ∷ [])))
                      same
                    ∙ read_slot-written sha256 encode decode clock r opts body digest fits made in
                  rw done (rw e ((rw e at whole) ∙ back))
              | inr e ↦ rw done (rw e ((rw e at whole) ∙ view))
            ]
      ]

  revoke-IsView :
      (q : Bytes) (s : Store) (k : Disk) (m : Ledger) (p : Bytes) (e : RemoveEnd)
      → IsApart sha256 encode decode clock q (revoking p e)
      → IsView sha256 encode decode clock q k m
      → IsView sha256 encode decode clock q
          (revoke sha256 encode decode clock s k p e).0
          (withdrawn p (revoke sha256 encode decode clock s k p e).1 m)
  unfolding read read_slot
  revoke-IsView q s k m p e apart view =
      let out = revoke sha256 encode decode clock s k p e in
      elim (revoke-IsRemoved sha256 encode decode clock s k p e) [
        | inl (why, failed, left) ↦ rw failed (read-slots (out.0) q left ∙ view)
        | inr (done, valid, changed) ↦
            let whole =
              read-slots (out.0) q changed
              ∙ ap (read_slot sha256 encode decode clock q)
                  (with_slot-at p q absent k.slots apart) in
            elim (Bool-cases (bytes_eq q p)) [
              | inl hit ↦ rw done (rw hit (rw hit at whole))
              | inr miss ↦ rw done (rw miss ((rw miss at whole) ∙ view))
            ]
      ]

  run-IsView :
      (p : Bytes) (s : Store) (k : Disk) (m : Ledger) (ops : List Operation)
      → All (IsApart sha256 encode decode clock p) ops
      → All (OperationFits sha256 encode decode clock) ops
      → IsView sha256 encode decode clock p k m
      → IsView sha256 encode decode clock p
          (run sha256 encode decode clock s (k, m) ops).0
          (run sha256 encode decode clock s (k, m) ops).1
  run-IsView p s k m [] apart fits view = view
  run-IsView p s k m (approving r opts w ∷ ops) apart fits view =
      let out = approve sha256 encode decode clock s k r opts w in
      run-IsView p s (out.0) (recorded (out.1) m) ops apart.1 fits.1
        (approve-IsView p s k m r opts w apart.0 fits.0 view)
  run-IsView q s k m (revoking p e ∷ ops) apart fits view =
      let out = revoke sha256 encode decode clock s k p e in
      run-IsView q s (out.0) (withdrawn p (out.1) m) ops apart.1 fits.1
        (revoke-IsView q s k m p e apart.0 view)

  blank-IsView :
      (p : Bytes) (k : Disk)
      → ((q : Bytes) → k.slots q ≡ absent)
      → IsView sha256 encode decode clock p k (λ _. none)
  unfolding read read_slot
  blank-IsView p k blank =
      ap (read_slot sha256 encode decode clock p) (blank (record_path sha256 encode decode clock p))

  -- What the status says of the record that was read.
  pub read_decision-silent :
      (p d : Bytes) (o : Option Approval)
      → (is_silent (read_decision sha256 encode decode clock p d (answer o)) ≡ true)
        ↔ ((a : Approval) × (o ≡ some a) × (a.digest ≡ d))
  unfolding read_decision is_silent
  read_decision-silent p d none = (λ h. absurd (cc), λ (a, e, g). absurd (cc))
  read_decision-silent p d (some a) = elim (Bool-cases (bytes_eq a.digest d)) [
    | inl e ↦ rw e (λ _. (a, refl, (bytes_eq_iff a.digest d).0 e), λ _. refl)
    | inr e ↦ rw e (
      λ h. absurd (cc),
      λ (b, f, g).
          let same : a.digest ≡ d = ap (λ (x : Approval). x.digest) (some_injective f) ∙ g in
          absurd (bytes_differ a.digest d e same),
    )
  ]

  dir_decision-loud :
      (p d : Bytes) (e : StoreError)
      → is_silent (dir_decision sha256 encode decode clock p d e) ≡ false
  unfolding dir_decision is_silent
  dir_decision-loud p d not_exist = refl
  dir_decision-loud p d _ = refl

  pub lookup-safe :
      (s : Store) (k : Disk) (p d : Bytes)
      → valid_pkg_base p ≡ true
      → check_dir_safe s k ≡ ok tt
      → lookup sha256 encode decode clock s k p d
        ≡ read_decision sha256 encode decode clock p d (read sha256 encode decode clock k p)
  unfolding lookup
  lookup-safe s k p d valid safe = rw (valid, safe, lookup) refl

  -- From a store without records, after any approvals and revocations, whatever became of each: where
  -- the directory is safe, `Lookup` answers as the map does that the successful operations made; and it
  -- is silent exactly where the directory is safe and the map holds this digest for the package base.
  -- It is assumed that the package base is a valid one and shares its SHA-256 with no other of the
  -- sequence, and that each record to be written is
  -- below the cap and decodes to what was encoded.
  pub lookup-refines :
      (s : Store) (k : Disk)
      → ((q : Bytes) → k.slots q ≡ absent)
      → (ops : List Operation) → All (OperationFits sha256 encode decode clock) ops
      → (p d : Bytes) → All (IsApart sha256 encode decode clock p) ops
      → valid_pkg_base p ≡ true
      → let end = run sha256 encode decode clock s (k, λ _. none) ops in
        (check_dir_safe s (end.0) ≡ ok tt
          → lookup sha256 encode decode clock s (end.0) p d
            ≡ read_decision sha256 encode decode clock p d (answer (end.1 p)))
        × ((is_silent (lookup sha256 encode decode clock s (end.0) p d) ≡ true) ↔ (
            (check_dir_safe s (end.0) ≡ ok tt)
            × ((a : Approval) × (end.1 p ≡ some a) × (a.digest ≡ d))))
  unfolding lookup
  lookup-refines s k blank ops fits p d apart valid =
      let end = run sha256 encode decode clock s (k, λ _. none) ops in
      let view = run-IsView p s k (λ _. none) ops apart fits (blank-IsView p k blank) in
      let answered = λ (safe : check_dir_safe s (end.0) ≡ ok tt).
        lookup-safe s (end.0) p d valid safe
        ∙ ap (read_decision sha256 encode decode clock p d) view in
      (
        answered,
        elim (Fallible-cases (check_dir_safe s (end.0))) [
          | inl (_, safe) ↦
              let (there, back) = read_decision-silent p d (end.1 p) in
              (
                λ h. (safe, there (ap is_silent (sym (answered safe)) ∙ h)),
                λ (_, found_it). ap is_silent (answered safe) ∙ back found_it,
              )
          | inr (e, unsafe) ↦ (
            λ h.
                let k' = rw (valid, unsafe, lookup) at h in
                absurd (let l = dir_decision-loud p d e in cc),
            λ (safe, _). absurd (cc),
          )
        ],
      )
