-- ===== src/Bundle/Document.antt =====
-- internal/bundle/bundle.go: the indicator bundle. As for a delegation the codec is a parameter, and so is
-- `decode_tree`, the decoding into a value that `assertDeclarative` walks.
use aurvet.Chain.{is_digest, genesis_prev}
use aurvet.Prelude.Text.{is_blank}
use aurvet.Finding.Fingerprint.{hex}
use aurvet.Baseline.Json.{
  Json, Items, Members, null, bool, int, text, array, object, nil, item, end, member,
}
use aurvet.Prelude.{
  Bool, Bytes, Fallible, List, Option, [], bytes_eq, bytes_lt, codes, eq_ℤ, err, fail_as, false,
  if◌then◌else◌, leb, length, ltb, ltb_ℤ, map, not, ok, pos, refuse_if, some, suc, ℕ, ℤ, ◌&&◌, ◌++◌,
  ◌+◌, ◌==◌, ◌>>=◌, ◌>>◌, ◌||◌, ◌∷◌,
}
use aurvet.Baseline.{Error}
use aurvet.Baseline.Key.{PublicKey}
use aurvet.Baseline.Sign.{Crypto, verify_canonical}
use aurvet.Bundle.{
  BundleError, err_bundle, err_carries_key, err_executable, or_error, passed_on, spec_version,
}
use aurvet.Bundle.Delegation.{Channel}

pub record HostIndicator : Type 0 where
  pub host : Bytes
  pub match_kind : Bytes
  pub class : Bytes
  pub note : Bytes

pub record NameIndicator : Type 0 where
  pub name : Bytes
  pub note : Bytes

pub record RepoIndicator : Type 0 where
  pub name : Bytes
  pub host : Bytes
  pub class : Bytes
  pub note : Bytes

pub record DigestIndicator : Type 0 where
  pub sha256 : Bytes
  pub note : Bytes

pub record Threshold : Type 0 where
  pub name : Bytes
  pub value : ℤ

pub record Indicators : Type 0 where
  pub source_hosts : List HostIndicator
  pub known_bad_names : List NameIndicator
  pub rebuild_repos : List RepoIndicator
  pub digests : List DigestIndicator
  pub thresholds : List Threshold

-- `spec` is `SpecVersion`.
pub record Bundle : Type 0 where
  pub spec : ℤ
  pub bundle_version : ℤ
  pub issued_at : Bytes
  pub valid_until : Bytes
  pub prev_digest : Bytes
  pub indicators : Indicators

abbrev pub max_bundle_bytes : ℕ
max_bundle_bytes = 4194304

abbrev pub max_indicators : ℕ
max_indicators = 100000

abbrev pub namespace_bundle : Bytes
namespace_bundle = codes "bundle.aurvet.dev"

unfoldable pub is_one_of : Bytes → List Bytes → Bool
is_one_of s [] = false
is_one_of s (t ∷ ts) = bytes_eq t s || is_one_of s ts

known_match : Bytes → Bool
known_match m = is_one_of m (codes "exact" ∷ codes "domain-suffix" ∷ [])

known_host_class : Bytes → Bool
known_host_class c =
    is_one_of c
      (codes "paste-site" ∷ codes "url-shortener" ∷ codes "code-paste" ∷ codes "bare-ip" ∷ [])

known_repo_class : Bytes → Bool
known_repo_class c =
    is_one_of c
      (codes "official" ∷ codes "known-rebuild" ∷ codes "derivative" ∷ codes "known-hostile" ∷ [])

-- The loops of `validateIndicators`: each row's check, and the keys.
require_all {ℓ} :
    {A : Type ℓ} → (A → Bool) → (A → Bytes) → List A → Fallible BundleError (List Bytes)
require_all good key [] = ok []
require_all good key (x ∷ xs) =
    let rest = require_all good key xs in
    if good x then (rest >>= λ ks. ok (key x ∷ ks)) else err err_bundle

-- The order of neighbours.
sorted_unique : List Bytes → Fallible BundleError (Unit {0})
sorted_unique [] = ok tt
sorted_unique (k ∷ []) = ok tt
sorted_unique (j ∷ k ∷ ks) =
    refuse_if (bytes_eq k j || bytes_lt k j) err_bundle >> sorted_unique (k ∷ ks)

host_key : HostIndicator → Bytes
host_key h = h.host ++ (0 ∷ h.match_kind)

indicator_count_of : Indicators → ℕ
indicator_count_of n =
    length n.source_hosts
    + length n.known_bad_names
    + length n.rebuild_repos
    + length n.digests
    + length n.thresholds

unfoldable pub validate_indicators : Indicators → Fallible BundleError (Unit {0})
unfolding require_all sorted_unique host_key indicator_count_of
validate_indicators n = do
  refuse_if (ltb max_indicators (indicator_count_of n)) err_bundle
  hosts ← require_all (λ h. not (is_blank h.host)) host_key n.source_hosts
  names ← require_all (λ m. not (is_blank m.name)) (λ m. m.name) n.known_bad_names
  repos ←
      require_all (λ r. not (is_blank r.name) && not (bytes_eq r.class [])) (λ r. r.name)
        n.rebuild_repos
  digests ← require_all (λ d. is_digest d.sha256) (λ d. d.sha256) n.digests
  thresholds ← require_all (λ t. not (is_blank t.name)) (λ t. t.name) n.thresholds
  sorted_unique hosts
  sorted_unique names
  sorted_unique repos
  sorted_unique digests
  sorted_unique thresholds

-- What this build can act on; the texts about the inert rows are not modelled, but the rows.
pub record Coverage : Type 0 where
  pub active : ℕ
  pub inert_hosts : List HostIndicator
  pub inert_repos : List RepoIndicator

-- The rows that pass a test, counted, and the others.
tally {ℓ} : {A : Type ℓ} → (A → Bool) → List A → ℕ × List A
tally good [] = (0, [])
tally good (x ∷ xs) =
    let (n, inert) = tally good xs in if good x then (suc n, inert) else (n, x ∷ inert)

usable_host : HostIndicator → Bool
usable_host h = known_match h.match_kind && known_host_class h.class

-- `Count`.
unfoldable pub count_coverage : Bundle → Coverage
unfolding tally usable_host known_match known_host_class known_repo_class
count_coverage b =
    let n = b.indicators in
    let (hosts, inert_hosts) = tally usable_host n.source_hosts in
    let (repos, inert_repos) = tally (λ r. known_repo_class r.class) n.rebuild_repos in
    record {
      active = hosts + length n.known_bad_names + repos + length n.digests + length n.thresholds;
      inert_hosts = inert_hosts;
      inert_repos = inert_repos;
    }

abbrev pub denied_key_members : List Bytes
denied_key_members =
    codes "key"
    ∷ codes "keys"
    ∷ codes "publickey"
    ∷ codes "publickeys"
    ∷ codes "privatekey"
    ∷ codes "secretkey"
    ∷ codes "signingkey"
    ∷ codes "signingkeys"
    ∷ codes "rootkey"
    ∷ codes "rootkeys"
    ∷ codes "authorizedkeys"
    ∷ codes "pubkey"
    ∷ codes "delegation"
    ∷ codes "certificate"
    ∷ codes "cert"
    ∷ codes "trustanchor"
    ∷ codes "keyring"
    ∷ []

abbrev pub denied_exec_members : List Bytes
denied_exec_members =
    codes "exec"
    ∷ codes "execute"
    ∷ codes "command"
    ∷ codes "cmd"
    ∷ codes "script"
    ∷ codes "shell"
    ∷ codes "eval"
    ∷ codes "run"
    ∷ codes "program"
    ∷ codes "hook"
    ∷ codes "interpreter"
    ∷ codes "code"
    ∷ codes "expr"
    ∷ codes "expression"
    ∷ codes "lambda"
    ∷ codes "action"
    ∷ codes "plugin"
    ∷ codes "regex"
    ∷ codes "regexp"
    ∷ []

-- `normaliseMember`.
unfoldable pub normalise_member : Bytes → Bytes
normalise_member [] = []
normalise_member (c ∷ s) =
    let rest = normalise_member s in
    if c == b'-' || c == b'_' || c == b' ' || c == b'.'
    then rest
    else (if leb b'A' c && leb c b'Z' then c + 32 else c) ∷ rest

-- The limit of canon.go on nesting.
abbrev pub max_depth : ℕ
max_depth = 64

denied : Bytes → Fallible BundleError (Unit {0})
denied k = do
  let n = normalise_member k
  refuse_if (is_one_of n denied_key_members) err_carries_key
  refuse_if (is_one_of n denied_exec_members) err_executable

mutual
  unfolding denied

  pub walk_members : Json → ℕ → Fallible BundleError (Unit {0})
  walk_members (object ms) depth =
      refuse_if (ltb max_depth depth) err_bundle >> walk_object ms depth
  walk_members (array xs) depth = refuse_if (ltb max_depth depth) err_bundle >> walk_array xs depth
  walk_members null depth = refuse_if (ltb max_depth depth) err_bundle
  walk_members (bool b) depth = refuse_if (ltb max_depth depth) err_bundle
  walk_members (int n) depth = refuse_if (ltb max_depth depth) err_bundle
  walk_members (text s) depth = refuse_if (ltb max_depth depth) err_bundle

  pub walk_object : Members → ℕ → Fallible BundleError (Unit {0})
  walk_object end depth = ok tt
  walk_object (member k v ms) depth =
      denied k >> (walk_members v (suc depth) >> walk_object ms depth)

  pub walk_array : Items → ℕ → Fallible BundleError (Unit {0})
  walk_array nil depth = ok tt
  walk_array (item v xs) depth = walk_members v (suc depth) >> walk_array xs depth

pub record BundleCodec : Type 0 where
  pub marshal : Bundle → Fallible Error Bytes
  pub decode_strict : Bytes → Option Bundle
  pub decode_tree : Bytes → Option Json

module _ (H : Channel) where
  stamp_in : Bytes → Fallible BundleError ℤ
  stamp_in s = or_error err_bundle (H.parse_stamp s)

  unfoldable pub validate_bundle : Bundle → Fallible BundleError (Unit {0})
  unfolding stamp_in
  validate_bundle b = do
    refuse_if (not (eq_ℤ b.spec spec_version)) err_bundle
    refuse_if (ltb_ℤ b.bundle_version (pos 1)) err_bundle
    issued ← stamp_in b.issued_at
    until ← stamp_in b.valid_until
    refuse_if (not (ltb_ℤ issued until)) err_bundle
    refuse_if (not (is_digest b.prev_digest)) err_bundle
    refuse_if (eq_ℤ b.bundle_version (pos 1) && not (bytes_eq b.prev_digest genesis_prev))
        err_bundle
    refuse_if (ltb_ℤ (pos 1) b.bundle_version && bytes_eq b.prev_digest genesis_prev) err_bundle
    validate_indicators b.indicators

  module _ (K : BundleCodec) where
    unfoldable pub assert_declarative : Bytes → Fallible BundleError (Unit {0})
    unfolding walk_members
    assert_declarative canon = do
      tree ← or_error err_bundle (K.decode_tree canon)
      walk_members tree 0

    unfoldable pub decode_bundle : Bytes → Fallible BundleError Bundle
    decode_bundle canon = do
      assert_declarative canon
      b ← or_error err_bundle (K.decode_strict canon)
      again ← fail_as err_bundle (K.marshal b)
      refuse_if (not (bytes_eq again canon)) err_bundle
      validate_bundle b
      ok b

    unfoldable pub parse_bundle :
        Bytes → Bytes → List PublicKey → Fallible BundleError (Bundle × Bytes)
    parse_bundle raw sig trusted = do
      refuse_if (ltb max_bundle_bytes (length raw)) err_bundle
      (canon, key) ←
          passed_on
            (verify_canonical H.crypto H.canonical sig namespace_bundle raw (map some trusted))
      b ← decode_bundle canon
      ok (b, canon)

-- `DigestOf`.
unfoldable pub digest_of_bytes : Crypto → Bytes → Bytes
digest_of_bytes C canon = hex (C.sha256 canon)
