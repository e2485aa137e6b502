-- ===== src/Baseline/Manifest.antt =====
-- internal/baseline/manifest.go: the signed baseline document, its assembly from measured state, its
-- signing and its authentication. Refusals are modelled by the case that they name. `marshal`,
-- `unmarshal` and `canonical` are the JSON encoding and decoding of the document.
pub mod Built
use aurvet.Prelude.{
  Bool, Bytes, Fallible, List, Option, [], bytes_eq, bytes_lt, codes, err, fail_as, false,
  if◌then◌else◌, leb, length, ltb_ℤ, none, not, ok, refuse_if, some, true, ℕ, ℤ, ◌&&◌, ◌++◌, ◌==◌,
  ◌>>=◌, ◌>>◌, ◌||◌, ◌∷◌, eq_ℤ, pos,
}
use aurvet.Prelude.Text.{is_blank}
use aurvet.Prelude.Sorting.{sort_by}
use aurvet.Baseline.{Error}
use aurvet.Baseline.Format.{namespace_manifest}
use aurvet.Baseline.Key.{PublicKey}
use aurvet.Baseline.Sign.{Crypto, Signer, sign, verify_canonical}
use aurvet.Baseline.Stamp.{parse_stamp}

abbrev pub manifest_schema : ℤ
manifest_schema = pos 1

pub record Package : Type 0 where
  pub name : Bytes
  pub version : Bytes
  pub foreign : Bool
  pub mtree_sha256 : Bytes
  pub mtree_bytes : ℤ
  pub mtree_unread : Bytes

pub record Provenance : Type 0 where
  pub pkg_base : Bytes
  pub snapshot_sha256 : Bytes
  pub captured_at : Bytes

pub record Surface : Type 0 where
  pub kind : Bytes
  pub path : Bytes
  pub owner : Bytes
  pub state : Bytes
  pub sha256 : Bytes

pub record Adjudication : Type 0 where
  pub fingerprint : Bytes
  pub scope : Bytes
  pub reason : Bytes
  pub expires_at : Bytes
  pub fingerprint_epoch : ℤ

pub record LogWindow : Type 0 where
  pub earliest : Bytes
  pub latest : Bytes
  pub files : List Bytes
  pub bounded : Bool

pub record Gap : Type 0 where
  pub rule_id : Bytes
  pub subject : Bytes
  pub reason : Bytes

pub record Coverage : Type 0 where
  pub complete : Bool
  pub gaps : List Gap

pub record Manifest : Type 0 where
  pub schema : ℤ
  pub host : Bytes
  pub root : Bytes
  pub created_at : Bytes
  pub tier : Bytes
  pub packages : List Package
  pub provenance : List Provenance
  pub surfaces : List Surface
  pub adjudications : List Adjudication
  pub log : LogWindow
  pub coverage : Coverage

-- The input types of the parts have the same fields as the parts.
pub record ManifestInput : Type 0 where
  pub host : Bytes
  pub root : Bytes
  pub created_at : Bytes
  pub tier : Bytes
  pub packages : List Package
  pub provenance : List Provenance
  pub surfaces : List Surface
  pub adjudications : List Adjudication
  pub log : LogWindow
  pub gaps : List Gap

-- The cases of `ErrManifest`.
pub data ManifestError : Type 0 where
  empty_host empty_root bad_created_at empty_tier unnamed_package : ManifestError
  package_twice blank_mtree bad_package_digest : Bytes → ManifestError
  unnamed_provenance : ManifestError
  bad_provenance_digest bad_captured_at : Bytes → ManifestError
  unplaced_surface : ManifestError
  bad_surface_digest : Bytes → ManifestError
  unnamed_adjudication : ManifestError
  no_reason bad_scope bad_expires_at : Bytes → ManifestError
  bad_log_earliest bad_log_latest not_encodable : ManifestError
  no_signed_window bad_signed_window no_observed_window bad_observed_window : ManifestError
  not_decodable other_schema other_bytes : ManifestError
  signature : Error → ManifestError

is_lower_hex : ℕ → Bool
is_lower_hex c = (leb b'0' c && leb c b'9') || (leb b'a' c && leb c b'f')

all_lower_hex : Bytes → Bool
unfolding is_lower_hex
all_lower_hex [] = true
all_lower_hex (c ∷ s) = is_lower_hex c && all_lower_hex s

-- `validDigest`.
unfoldable pub valid_digest : Bytes → Bool
unfolding all_lower_hex
valid_digest s = length s == 64 && all_lower_hex s

-- `seen[name]`.
unfoldable pub seen_name : Bytes → List Bytes → Bool
seen_name name [] = false
seen_name name (n ∷ ns) = bytes_eq n name || seen_name name ns

abbrev pub unread_gap : Package → Gap
unread_gap p = record {
  rule_id = codes "baseline.mtree-unread";
  subject = codes "pkg:" ++ p.name;
  reason = p.mtree_unread;
}

-- The switch on the digest of a package: the gap that it adds, if any.
pub mtree_gap : Package → Fallible ManifestError (List Gap)
mtree_gap p =
    if bytes_eq p.mtree_sha256 []
    then (if bytes_eq p.mtree_unread [] then err (blank_mtree p.name) else ok (unread_gap p ∷ []))
    else if valid_digest p.mtree_sha256
    then ok []
    else err (bad_package_digest p.name)

-- The loop over the packages, with the names so far: the gaps that it adds.
pub take_packages : List Bytes → List Package → Fallible ManifestError (List Gap)
unfolding mtree_gap
take_packages seen [] = ok []
take_packages seen (p ∷ ps) = do
  refuse_if (bytes_eq p.name []) unnamed_package
  refuse_if (seen_name p.name seen) (package_twice p.name)
  gap ← mtree_gap p
  more ← take_packages (p.name ∷ seen) ps
  ok (gap ++ more)

pub package_before : Package → Package → Bool
package_before a b = bytes_lt a.name b.name

pub provenance_before : Provenance → Provenance → Bool
provenance_before a b =
    if not (bytes_eq a.pkg_base b.pkg_base)
    then bytes_lt a.pkg_base b.pkg_base
    else bytes_lt a.snapshot_sha256 b.snapshot_sha256

pub surface_before : Surface → Surface → Bool
surface_before a b =
    if not (bytes_eq a.kind b.kind) then bytes_lt a.kind b.kind else bytes_lt a.path b.path

pub adjudication_before : Adjudication → Adjudication → Bool
adjudication_before a b = bytes_lt a.fingerprint b.fingerprint

pub gap_before : Gap → Gap → Bool
gap_before a b =
    if not (bytes_eq a.rule_id b.rule_id)
    then bytes_lt a.rule_id b.rule_id
    else bytes_lt a.subject b.subject

is_scope : Bytes → Bool
is_scope s = bytes_eq s (codes "pin") || (bytes_eq s (codes "subject") || bytes_eq s (codes "rule"))

abbrev pub pacman_log : Bytes
pacman_log = codes "/var/log/pacman.log"

-- The texts of the two gaps on the log are parameters.
pub window_gaps : (unknown_reason bounded_reason : Bytes) → LogWindow → List Gap
window_gaps unknown_reason bounded_reason log =
    (if bytes_eq log.earliest []
      then record {
        rule_id = codes "baseline.log-window-unknown";
        subject = pacman_log;
        reason = unknown_reason;
      }
        ∷ []
      else [])
    ++ (if log.bounded
        then record {
          rule_id = codes "baseline.log-bounded";
          subject = pacman_log;
          reason = bounded_reason;
        }
          ∷ []
        else [])

abbrev pub no_gap : List Gap → Bool
no_gap [] = true
no_gap (g ∷ gs) = false

module _ (time_parse : Bytes → Bytes → Option ℤ) where
  -- `ParseStamp` gives no error.
  unfoldable pub is_stamp : Bytes → Bool
  is_stamp s = elim (parse_stamp time_parse s) [ none ↦ false | some t ↦ true ]

  -- A stamp that may be left out.
  bad_optional : Bytes → Bool
  unfolding is_stamp
  bad_optional s = not (bytes_eq s []) && not (is_stamp s)

  pub check_provenance : List Provenance → Fallible ManifestError (Unit {0})
  unfolding bad_optional
  check_provenance [] = ok tt
  check_provenance (p ∷ ps) = do
    refuse_if (bytes_eq p.pkg_base []) unnamed_provenance
    refuse_if (not (valid_digest p.snapshot_sha256)) (bad_provenance_digest p.pkg_base)
    refuse_if (bad_optional p.captured_at) (bad_captured_at p.pkg_base)
    check_provenance ps

  pub check_surfaces : List Surface → Fallible ManifestError (Unit {0})
  check_surfaces [] = ok tt
  check_surfaces (s ∷ ss) = do
    refuse_if (bytes_eq s.path []) unplaced_surface
    refuse_if (not (bytes_eq s.sha256 []) && not (valid_digest s.sha256))
        (bad_surface_digest s.path)
    check_surfaces ss

  pub check_adjudications : List Adjudication → Fallible ManifestError (Unit {0})
  unfolding bad_optional is_scope
  check_adjudications [] = ok tt
  check_adjudications (a ∷ as_given) = do
    refuse_if (bytes_eq a.fingerprint []) unnamed_adjudication
    refuse_if (is_blank a.reason) (no_reason a.fingerprint)
    refuse_if (not (is_scope a.scope)) (bad_scope a.fingerprint)
    refuse_if (bad_optional a.expires_at) (bad_expires_at a.fingerprint)
    check_adjudications as_given

  pub check_window : LogWindow → Fallible ManifestError (Unit {0})
  unfolding bad_optional
  check_window log = do
    refuse_if (bad_optional log.earliest) bad_log_earliest
    refuse_if (bad_optional log.latest) bad_log_latest

  module _ (marshal : Manifest → Fallible Error Bytes) (unknown_reason bounded_reason : Bytes) where
    -- The document that the parts and the gaps make.
    unfoldable pub assembled : ManifestInput → List Gap → Manifest
    unfolding package_before provenance_before surface_before adjudication_before gap_before
    assembled q gaps = record {
      schema = manifest_schema;
      host = q.host;
      root = q.root;
      created_at = q.created_at;
      tier = q.tier;
      packages = sort_by package_before q.packages;
      provenance = sort_by provenance_before q.provenance;
      surfaces = sort_by surface_before q.surfaces;
      adjudications = sort_by adjudication_before q.adjudications;
      log = record q.log { files = sort_by bytes_lt q.log.files };
      coverage = record { complete = no_gap gaps; gaps = sort_by gap_before gaps };
    }

    -- `BuildManifest`.
    unfoldable pub build_manifest : ManifestInput → Fallible ManifestError Manifest
    unfolding take_packages check_provenance check_surfaces check_adjudications check_window
        window_gaps assembled is_stamp
    build_manifest q = do
      refuse_if (is_blank q.host) empty_host
      refuse_if (bytes_eq q.root []) empty_root
      refuse_if (not (is_stamp q.created_at)) bad_created_at
      refuse_if (is_blank q.tier) empty_tier
      unread ← take_packages [] q.packages
      check_provenance q.provenance
      check_surfaces q.surfaces
      check_adjudications q.adjudications
      check_window q.log
      let gaps = (q.gaps ++ unread) ++ window_gaps unknown_reason bounded_reason q.log
      let m = assembled q gaps
      raw ← fail_as not_encodable (marshal m)
      ok m

  -- `LogTruncatedSince`.
  unfoldable pub log_truncated_since : Manifest → Bytes → Fallible ManifestError Bool
  log_truncated_since m observed_earliest =
      if bytes_eq m.log.earliest []
      then err no_signed_window
      else elim (parse_stamp time_parse m.log.earliest) [
        | none ↦ err bad_signed_window
        | some base ↦
            if bytes_eq observed_earliest []
            then err no_observed_window
            else elim (parse_stamp time_parse observed_earliest) [
              | none ↦ err bad_observed_window
              | some seen ↦ ok (ltb_ℤ base seen)
            ]
      ]

module _ (C : Crypto) (canonical : Bytes → Fallible Error Bytes)
    (marshal : Manifest → Fallible Error Bytes) (unmarshal : Bytes → Option Manifest) where
  -- `SignManifest`: the bytes that are signed, and the signature.
  unfoldable pub sign_manifest : Signer → Manifest → Fallible Error (Bytes × Bytes)
  sign_manifest s m = do raw ← marshal m; sig ← sign C s namespace_manifest raw; ok (raw, sig)

  -- `decodeManifest`; `unmarshal` is the strict decoding of one document with nothing after it.
  unfoldable pub decode_manifest : Bytes → Fallible ManifestError Manifest
  decode_manifest canon = elim (unmarshal canon) [
    | none ↦ err not_decodable
    | some m ↦ do
      refuse_if (not (eq_ℤ m.schema manifest_schema)) other_schema
      again ← fail_as not_encodable (marshal m)
      refuse_if (not (bytes_eq again canon)) other_bytes
      ok m
  ]

  signed : Fallible Error (Bytes × PublicKey) → Fallible ManifestError (Bytes × PublicKey)
  signed (ok p) = ok p
  signed (err e) = err (signature e)

  -- `VerifyManifest`.
  unfoldable pub verify_manifest :
      Bytes → Bytes → List (Option PublicKey) → Fallible ManifestError (Manifest × PublicKey)
  unfolding signed
  verify_manifest sig raw trusted = do
    (canon, key) ← signed (verify_canonical C canonical sig namespace_manifest raw trusted)
    m ← decode_manifest canon
    ok (m, key)
