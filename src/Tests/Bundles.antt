-- ===== src/Tests/Bundles.antt =====
-- A channel of one online key and two root keys, with a bundle at version 5 and its successor.
use mathlib.Core.List.{flat_map}
use aurvet.Prelude.{
  Bool, Bytes, List, [], bytes_eq, bytes_lt, codes, false, has_prefix, length, ok, pos, pos_part,
  refl, replicate, some, sym, true, ℕ, ℤ, ◌++◌, ◌+ℤ◌, ◌-◌, ◌∙◌, ◌∷◌, ◌≡◌, ◌≢◌, ◌≤ℤ◌, ◌≤◌,
}
use aurvet.Prelude.Time.{time_sub}
use aurvet.Prelude.Text.{trim_space}
use aurvet.Prelude.Split.{cut, has_byte, trim_right}
use aurvet.Baseline.Json.{Json}
use aurvet.Baseline.Key.{PublicKey, algo_ed25519, parse_public_key_blob, same_key}
use aurvet.Baseline.Wire.{at_end, read_string, read_uint32, write_string, write_uint32}
use aurvet.Baseline.Format.{parse_signature, signature_body, sshsig_hash_algo, valid_namespace}
use aurvet.Baseline.Sign.{
  find_trusted, sshsig_blob, unarmor, verify, verify_canonical, verify_sig_blob,
}
use aurvet.Baseline.KeyLine.{hardware_backed, key_fingerprint, parse_public_key}
use aurvet.Chain.{is_digest, next_int64}
use aurvet.Finding.Fingerprint.{hex}
use aurvet.Bundle.Roots.{RootSet, index, is_empty, key_slice, software_keys}
use aurvet.Bundle.Floor.{Floor}
use aurvet.Bundle.Delegation.{
  Channel, Delegation, DelegationCodec, SigningKey, active_key, active_keys, decode_delegation,
  delegation_expired, max_online_key_lifetime, max_signing_keys, namespace_delegation,
  validate_delegation, validate_key, verify_delegation,
}
use aurvet.Bundle.Delegation.Threshold.{IsDelegated, verify_delegation_threshold}
use aurvet.Bundle.Delegation.Windows.{active_key_bounds}
use aurvet.Bundle.Document.{
  Bundle, BundleCodec, assert_declarative, count_coverage, decode_bundle, digest_of_bytes,
  is_one_of, namespace_bundle, normalise_member, parse_bundle, validate_bundle, validate_indicators,
}
use aurvet.Bundle.Verify.{
  Input, Status, active, against_floor, authenticate, authorise, coverage_complete, max_int64,
  proposed_floor, verify_input, zero_floor,
}
use aurvet.Bundle.Verify.Genuine.{IsGenuine, verify_input-IsGenuine}
use aurvet.Bundle.Verify.Rollback.{Runs, verify_input_no_rollback}
use aurvet.Bundle.Update.{kept_floor}
use aurvet.Tests.{toy_blob, toy_crypto, toy_key, toy_sign, toy_stamp}

abbrev other_blob : Bytes
other_blob = write_string algo_ed25519 ++ write_string (replicate 32 8)

abbrev other_key : PublicKey
other_key = record {
  algorithm = algo_ed25519;
  comment = [];
  application = [];
  key = replicate 32 8;
  blob = other_blob;
}

abbrev signed_by : Bytes → Bytes → Bytes → Bytes
signed_by blob ns message = signature_body blob ns (
    write_string algo_ed25519
    ++ write_string (toy_sign (sshsig_blob toy_crypto ns sshsig_hash_algo message)))

abbrev toy_channel : Channel
toy_channel = record {
  crypto = toy_crypto;
  base64_decode = λ s. some toy_blob;
  parse_stamp = toy_stamp;
  canonical = λ raw. ok raw;
}

abbrev toy_signing_key : SigningKey
toy_signing_key = record {
  public_key = codes "ssh-ed25519 K";
  not_before = codes "t";
  not_after = codes "ttttttttt";
}

abbrev toy_delegation : Delegation
toy_delegation = record {
  spec = pos 1;
  root_generation = pos 1;
  serial = pos 3;
  issued_at = [];
  valid_until = codes "tttttttttt";
  signing_keys = toy_signing_key ∷ [];
  root_set_retired = false;
  upgrade_message = [];
}

abbrev delegations : DelegationCodec
delegations = record { marshal = λ d. ok (codes "d"); decode_strict = λ raw. some toy_delegation }

abbrev toy_bundle : ℕ → Bundle
toy_bundle version = record {
  spec = pos 1;
  bundle_version = pos version;
  issued_at = [];
  valid_until = codes "tttttt";
  prev_digest = digest_of_bytes toy_crypto ((version - 1) ∷ []);
  indicators = record {
    source_hosts = [];
    known_bad_names = record { name = codes "x"; note = [] } ∷ [];
    rebuild_repos = [];
    digests = [];
    thresholds = [];
  };
}

abbrev version_of : Bytes → ℕ
version_of [] = 0
version_of (v ∷ s) = v

abbrev bundles : BundleCodec
bundles = record {
  marshal = λ b. ok (pos_part b.bundle_version ∷ []);
  decode_strict = λ raw. some (toy_bundle (version_of raw));
  decode_tree = λ raw. some Json.null;
}

abbrev toy_roots : RootSet
toy_roots = record { generation = pos 1; threshold = pos 2; keys = toy_key ∷ other_key ∷ [] }

abbrev root_sigs : List Bytes
root_sigs =
    signed_by toy_blob namespace_delegation (codes "d")
    ∷ signed_by other_blob namespace_delegation (codes "d")
    ∷ []

abbrev toy_stamp_of : ℤ → Bytes
toy_stamp_of t = codes "t"

abbrev input_with : Floor → Bool → ℕ → Input
input_with floor present version = record {
  roots = toy_roots;
  delegation_raw = codes "d";
  delegation_sigs = root_sigs;
  bundle_raw = version ∷ [];
  bundle_sig = signed_by toy_blob namespace_bundle (version ∷ []);
  floor = floor;
  floor_present = present;
  now = pos 2;
  max_silence = pos 0;
}

abbrev first_input : Input
first_input = input_with zero_floor false 5

abbrev first_status : Status
first_status = verify_input toy_channel delegations bundles toy_stamp_of first_input

first_active : first_status.state ≡ active
unfolding verify_input authorise authenticate against_floor is_empty software_keys hardware_backed
    key_fingerprint verify_delegation decode_delegation validate_delegation validate_key active_key
    active_keys delegation_expired parse_public_key index key_slice parse_bundle decode_bundle
    validate_bundle validate_indicators assert_declarative count_coverage digest_of_bytes hex
    proposed_floor coverage_complete time_sub max_int64 verify verify_canonical unarmor
    parse_signature signature_body parse_public_key_blob find_trusted verify_sig_blob sshsig_blob
    valid_namespace write_string write_uint32 read_string read_uint32 at_end bytes_eq has_prefix
    same_key trim_space is_digest bytes_lt cut trim_right has_byte normalise_member is_one_of
    flat_map next_int64
first_active = refl

first_advances : first_status.floor_advances ≡ true
unfolding verify_input authorise authenticate against_floor is_empty software_keys hardware_backed
    key_fingerprint verify_delegation decode_delegation validate_delegation validate_key active_key
    active_keys delegation_expired parse_public_key index key_slice parse_bundle decode_bundle
    validate_bundle validate_indicators assert_declarative count_coverage digest_of_bytes hex
    proposed_floor coverage_complete time_sub max_int64 verify verify_canonical unarmor
    parse_signature signature_body parse_public_key_blob find_trusted verify_sig_blob sshsig_blob
    valid_namespace write_string write_uint32 read_string read_uint32 at_end bytes_eq has_prefix
    same_key trim_space is_digest bytes_lt cut trim_right has_byte normalise_member is_one_of
    flat_map next_int64
first_advances = refl

abbrev next_pair : Floor × Bool
next_pair = kept_floor false true first_input first_status

abbrev second_input : Input
second_input = input_with next_pair.0 next_pair.1 6

abbrev second_status : Status
second_status = verify_input toy_channel delegations bundles toy_stamp_of second_input

second_active : second_status.state ≡ active
unfolding verify_input authorise authenticate against_floor is_empty software_keys hardware_backed
    key_fingerprint verify_delegation decode_delegation validate_delegation validate_key active_key
    active_keys delegation_expired parse_public_key index key_slice parse_bundle decode_bundle
    validate_bundle validate_indicators assert_declarative count_coverage digest_of_bytes hex
    proposed_floor coverage_complete time_sub max_int64 kept_floor verify verify_canonical unarmor
    parse_signature signature_body parse_public_key_blob find_trusted verify_sig_blob sshsig_blob
    valid_namespace write_string write_uint32 read_string read_uint32 at_end bytes_eq has_prefix
    same_key trim_space is_digest bytes_lt cut trim_right has_byte normalise_member is_one_of
    flat_map next_int64
second_active = refl

verify_input-IsGenuine_example :
    IsGenuine toy_channel delegations bundles second_input second_status
verify_input-IsGenuine_example =
    verify_input-IsGenuine toy_channel delegations bundles toy_stamp_of second_input second_active

verify_input_no_rollback_example :
    (first_status.bundle_version ≤ℤ second_status.bundle_version)
    × (first_status.delegation_serial ≤ℤ second_status.delegation_serial)
    × (second_status.bundle_version ≡ first_status.bundle_version
        → second_status.digest ≡ first_status.digest)
verify_input_no_rollback_example =
    verify_input_no_rollback toy_channel delegations bundles toy_stamp_of first_input second_input
      false true first_active (λ up. (refl, refl)) Runs.start second_active

-- The first bundle again: it is below the floor.
abbrev replayed : Input
replayed = input_with next_pair.0 next_pair.1 4

abbrev replayed_status : Status
replayed_status = verify_input toy_channel delegations bundles toy_stamp_of replayed

delegation_verified :
    verify_delegation toy_channel delegations (codes "d") root_sigs toy_roots
    ≡ ok (toy_delegation, codes "d")
unfolding verify_input authorise authenticate against_floor is_empty software_keys hardware_backed
    key_fingerprint verify_delegation decode_delegation validate_delegation validate_key active_key
    active_keys delegation_expired parse_public_key index key_slice parse_bundle decode_bundle
    validate_bundle validate_indicators assert_declarative count_coverage digest_of_bytes hex
    proposed_floor coverage_complete time_sub max_int64 verify verify_canonical unarmor
    parse_signature signature_body parse_public_key_blob find_trusted verify_sig_blob sshsig_blob
    valid_namespace write_string write_uint32 read_string read_uint32 at_end bytes_eq has_prefix
    same_key trim_space is_digest bytes_lt cut trim_right has_byte normalise_member is_one_of
    flat_map next_int64
delegation_verified = refl

verify_delegation_threshold_example :
    IsDelegated toy_channel delegations (codes "d") root_sigs toy_roots toy_delegation
    × (codes "d" ≡ codes "d")
verify_delegation_threshold_example =
    verify_delegation_threshold toy_channel delegations (codes "d") root_sigs toy_roots
      toy_delegation (codes "d") delegation_verified

delegation_valid : validate_delegation toy_channel toy_delegation ≡ ok tt
unfolding verify_input authorise authenticate against_floor is_empty software_keys hardware_backed
    key_fingerprint verify_delegation decode_delegation validate_delegation validate_key active_key
    active_keys delegation_expired parse_public_key index key_slice parse_bundle decode_bundle
    validate_bundle validate_indicators assert_declarative count_coverage digest_of_bytes hex
    proposed_floor coverage_complete time_sub max_int64 verify verify_canonical unarmor
    parse_signature signature_body parse_public_key_blob find_trusted verify_sig_blob sshsig_blob
    valid_namespace write_string write_uint32 read_string read_uint32 at_end bytes_eq has_prefix
    same_key trim_space is_digest bytes_lt cut trim_right has_byte normalise_member is_one_of
    flat_map next_int64
delegation_valid = refl

active_at :
    (t : ℕ)
    → (active_key toy_channel (pos t) toy_signing_key).0 ≡ toy_key ∷ []
    → (active_key toy_channel (pos t) toy_signing_key).0 ≢ []
active_at t h e = absurd (let k = sym h ∙ e in cc)

active_early :
    (active_key toy_channel (pos 1) toy_signing_key).0 ≡ record toy_key { comment = [] } ∷ []
unfolding verify_input authorise authenticate against_floor is_empty software_keys hardware_backed
    key_fingerprint verify_delegation decode_delegation validate_delegation validate_key active_key
    active_keys delegation_expired parse_public_key index key_slice parse_bundle decode_bundle
    validate_bundle validate_indicators assert_declarative count_coverage digest_of_bytes hex
    proposed_floor coverage_complete time_sub max_int64 verify verify_canonical unarmor
    parse_signature signature_body parse_public_key_blob find_trusted verify_sig_blob sshsig_blob
    valid_namespace write_string write_uint32 read_string read_uint32 at_end bytes_eq has_prefix
    same_key trim_space is_digest bytes_lt cut trim_right has_byte normalise_member is_one_of
    flat_map next_int64
active_early = refl

active_late :
    (active_key toy_channel (pos 8) toy_signing_key).0 ≡ record toy_key { comment = [] } ∷ []
unfolding verify_input authorise authenticate against_floor is_empty software_keys hardware_backed
    key_fingerprint verify_delegation decode_delegation validate_delegation validate_key active_key
    active_keys delegation_expired parse_public_key index key_slice parse_bundle decode_bundle
    validate_bundle validate_indicators assert_declarative count_coverage digest_of_bytes hex
    proposed_floor coverage_complete time_sub max_int64 verify verify_canonical unarmor
    parse_signature signature_body parse_public_key_blob find_trusted verify_sig_blob sshsig_blob
    valid_namespace write_string write_uint32 read_string read_uint32 at_end bytes_eq has_prefix
    same_key trim_space is_digest bytes_lt cut trim_right has_byte normalise_member is_one_of
    flat_map next_int64
active_late = refl

active_key_bounds_example :
    (length (active_keys toy_channel toy_delegation (pos 1)).0 ≤ max_signing_keys)
    × (pos 8 ≤ℤ pos 1 +ℤ max_online_key_lifetime)
    × (delegation_expired toy_channel toy_delegation (pos 8) ≡ false)
active_key_bounds_example =
    active_key_bounds toy_channel toy_delegation 0 toy_signing_key (pos 1) (pos 8) delegation_valid
      refl (active_at 1 active_early) (active_at 8 active_late)
