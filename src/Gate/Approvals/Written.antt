-- ===== src/Gate/Approvals/Written.antt =====
-- What the operations of the store of internal/gate/approve.go leave behind.
use mathlib.Core.Path.{subst}
use aurvet.Prelude.{
  Bool-cases, Bytes, Fallible, Fallible-cases, List, Option, Option-cases, [], arith, bytes_eq,
  bytes_eq_refl, err, false, if◌then◌else◌, inl, inr, length, ltb, none, not, ok, refl,
  refuse_if-eq-ok, some, sym, true, ℤ, ◌&&◌, ◌++◌, ◌≡◌, ◌∷◌, ◌⊎◌,
}
use aurvet.Finding.Fingerprint.{hex}
use aurvet.Gate.{valid_pkg_base}
use aurvet.Gate.Recipe.{Recipe}
use aurvet.Gate.Approvals.{
  Approval, ApproveOptions, Disk, Store, StoreError, WriteEnd, RemoveEnd, absent, approval_of,
  approve, check_dir_safe, check_record, ensured, file, max_record_bytes, may_approve, not_exist,
  read, record_path, removed, remove_failed, removed_slot, revoke, with_slot, write_record,
  read_slot, bad_pkg_base, empty_digest,
}

-- The abstract store.
abbrev pub Ledger : Type 0
Ledger = Bytes → Option Approval

-- What an operation does to the abstract store, by its result.
abbrev pub recorded : Fallible StoreError Approval → Ledger → Ledger
recorded (err e) m = m
recorded (ok a) m = λ q. if bytes_eq q a.pkg_base then some a else m q

abbrev pub withdrawn : Bytes → Fallible StoreError (Unit {0}) → Ledger → Ledger
withdrawn p (err e) m = m
withdrawn p (ok u) m = λ q. if bytes_eq q p then none else m q

-- What is read of an entry.
abbrev pub answer : Option Approval → Fallible StoreError Approval
answer none = err not_exist
answer (some a) = ok a

pub data Operation : Type 0 where
  approving : Recipe → ApproveOptions → WriteEnd → Operation
  revoking : Bytes → RemoveEnd → Operation

module _ (sha256 : Bytes → Bytes) (encode : Approval → Option Bytes)
    (decode : Bytes → Option Approval) (clock : ℤ) where
  -- The disk and the abstract store after a sequence of operations, whatever became of each.
  abbrev pub run : Store → Disk × Ledger → List Operation → Disk × Ledger
  run s (k, m) [] = (k, m)
  run s (k, m) (approving r opts w ∷ ops) =
      let out = approve sha256 encode decode clock s k r opts w in
      run s (out.0, recorded (out.1) m) ops
  run s (k, m) (revoking p e ∷ ops) =
      let out = revoke sha256 encode decode clock s k p e in
      run s (out.0, withdrawn p (out.1) m) ops

  -- A record that is small enough, and that decodes to what was encoded.
  abbrev pub Fits : Approval → Type 0
  Fits a =
      (body : Bytes)
      → encode a ≡ some body
      → (decode (body ++ b'\n' ∷ []) ≡ some a)
        × (ltb max_record_bytes (length (body ++ b'\n' ∷ [])) ≡ false)

  abbrev pub OperationFits : Operation → Type 0
  OperationFits (approving r opts w) = Fits (approval_of sha256 encode decode clock r opts)
  OperationFits (revoking p e) = Unit

  abbrev pub subject_of : Operation → Bytes
  subject_of (approving r opts w) = r.pkg_base
  subject_of (revoking p e) = p

  -- The slot of a package base is not that of another one that an operation is about.
  abbrev pub IsApart : Bytes → Operation → Type 0
  IsApart p op = hex (sha256 p) ≡ hex (sha256 (subject_of op)) → p ≡ subject_of op

  -- The disk holds what the abstract store says of a package base.
  abbrev pub IsView : Bytes → Disk → Ledger → Type 0
  IsView p k m = read sha256 encode decode clock k p ≡ answer (m p)

  pub may_approve-ok :
      (s : Store) (r : Recipe)
      → may_approve sha256 encode decode clock s r ≡ ok tt
      → (valid_pkg_base r.pkg_base ≡ true) × (bytes_eq r.digest [] ≡ false)
  unfolding may_approve
  may_approve-ok s r h =
      let (valid, h1) = refuse_if-eq-ok (not (valid_pkg_base r.pkg_base)) bad_pkg_base _ h in
      let (digest, h2) = refuse_if-eq-ok (bytes_eq r.digest []) empty_digest _ h1 in
      (ground arith, digest)

  -- A record that was written reads back.
  pub read_slot-written :
      (r : Recipe) (opts : ApproveOptions) (body : Bytes)
      → bytes_eq r.digest [] ≡ false
      → Fits (approval_of sha256 encode decode clock r opts)
      → encode (approval_of sha256 encode decode clock r opts) ≡ some body
      → read_slot sha256 encode decode clock r.pkg_base (file (body ++ b'\n' ∷ []))
        ≡ ok (approval_of sha256 encode decode clock r opts)
  unfolding read_slot check_record approval_of
  read_slot-written r opts body digest fits e =
      let (back, small) = fits body e in rw (small, back, bytes_eq_refl r.pkg_base, digest)

  -- An approval either fails and leaves every slot, or it is recorded in its slot.
  abbrev pub IsWritten :
      Store → Disk → Recipe → ApproveOptions → Disk × Fallible StoreError Approval → Type 0
  IsWritten s k r opts out =
      let a = approval_of sha256 encode decode clock r opts in
      ((e : StoreError) × (out.1 ≡ err e) × (out.0.slots ≡ k.slots))
      ⊎ ((body : Bytes) × (out.1 ≡ ok a)
          × (encode a ≡ some body)
          × (out.0.slots
              ≡ with_slot (record_path sha256 encode decode clock r.pkg_base)
                  (file (body ++ b'\n' ∷ [])) k.slots)
          × (may_approve sha256 encode decode clock s r ≡ ok tt))

  pub approve-IsWritten :
      (s : Store) (k : Disk) (r : Recipe) (opts : ApproveOptions) (w : WriteEnd)
      → IsWritten s k r opts (approve sha256 encode decode clock s k r opts w)
  unfolding approve ensured write_record approval_of
  approve-IsWritten s k r opts w =
      let a = approval_of sha256 encode decode clock r opts in
      elim (Fallible-cases (may_approve sha256 encode decode clock s r)) [
        | inr (e, stop) ↦ rw (stop, approve) (inl (e, refl, refl))
        | inl (_, may) ↦ elim (Bool-cases w.mkdir_done) [
          | inr undone ↦ rw (may, undone, approve) (inl (_, refl, refl))
          | inl done ↦
              elim (Fallible-cases (check_dir_safe s (ensured sha256 encode decode clock s k))) [
                | inr (e, stop) ↦ rw (may, done, stop, approve) (inl (e, refl, refl))
                | inl (_, safe) ↦ elim (Option-cases (encode a)) [
                  | inl none_made ↦ rw (may, done, safe, none_made, approve) (inl (_, refl, refl))
                  | inr (body, made) ↦ elim (Bool-cases (w.temporary_written && w.renamed)) [
                    | inr cut_off ↦
                        rw (may, done, safe, made, cut_off, approve) (inl (_, refl, refl))
                    | inl through ↦
                        rw (may, done, safe, made, through, approve)
                          (inr (body, refl, refl, refl, refl))
                  ]
                ]
              ]
        ]
      ]

  -- A removal either fails and leaves every slot, or it empties one.
  abbrev pub IsRemoved : Disk → Bytes → Disk × Fallible StoreError (Unit {0}) → Type 0
  IsRemoved k p out =
      ((e : StoreError) × (out.1 ≡ err e) × (out.0.slots ≡ k.slots))
      ⊎ ((out.1 ≡ ok tt)
          × (valid_pkg_base p ≡ true)
          × (out.0.slots ≡ with_slot (record_path sha256 encode decode clock p) absent k.slots))

  removed_slot-IsRemoved :
      (k : Disk) (p : Bytes) (e : RemoveEnd)
      → valid_pkg_base p ≡ true
      → IsRemoved k p (removed_slot sha256 encode decode clock k p e)
  unfolding removed_slot
  removed_slot-IsRemoved k p removed v = inr (refl, v, refl)
  removed_slot-IsRemoved k p remove_failed v = inl (_, refl, refl)

  pub revoke-IsRemoved :
      (s : Store) (k : Disk) (p : Bytes) (e : RemoveEnd)
      → IsRemoved k p (revoke sha256 encode decode clock s k p e)
  unfolding revoke
  revoke-IsRemoved s k p e = elim (Bool-cases (valid_pkg_base p)) [
    | inr bad ↦ rw (bad, revoke) (inl (_, refl, refl))
    | inl valid ↦ elim (Bool-cases s.is_offline) [
      | inl off ↦ rw (valid, off, revoke) (inl (_, refl, refl))
      | inr live ↦
          let step : revoke sha256 encode decode clock s k p e
              ≡ removed_slot sha256 encode decode clock k p e =
            rw (valid, live, revoke) refl in
          subst (IsRemoved k p) (sym step) (removed_slot-IsRemoved k p e valid)
    ]
  ]
