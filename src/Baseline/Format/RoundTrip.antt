-- ===== src/Baseline/Format/RoundTrip.antt =====
-- `parseSignature` of internal/baseline/sign.go on what `Sign` writes.
use aurvet.Prelude.{
  Bytes, [], ap, append-nil, arith, bytes_eq, fail_as, false, has_prefix, length, ltb, ok, ℕ, ◌++◌,
  ◌≡◌, ◌≤◌,
}
use aurvet.Baseline.{err_signature}
use aurvet.Baseline.Wire.{
  Fits, at_end, read_string-write_string, read_uint32-write_uint32, write_string, write_uint32,
}
use aurvet.Baseline.Format.{
  max_signature_len, parse_fields, parse_signature, signature_body, sshsig_hash_algo,
  sshsig_version,
}

parse_fields-body :
    (blob ns sig_blob : Bytes)
    → Fits blob
    → Fits ns
    → Fits sig_blob
    → parse_fields (
        write_uint32 sshsig_version
        ++ (write_string blob
            ++ (write_string ns
                ++ (write_string [] ++ (write_string sshsig_hash_algo ++ write_string sig_blob)))))
      ≡ ok (record {
        version = sshsig_version;
        key_blob = blob;
        namespace = ns;
        hash_algo = sshsig_hash_algo;
        sig_blob = sig_blob;
      })
unfolding parse_fields bytes_eq at_end
parse_fields-body blob ns sig_blob hb hn hs =
    rw (read_uint32-write_uint32 sshsig_version _ (omega arith)) (
      rw (read_string-write_string blob _ hb) (
        rw (read_string-write_string ns _ hn) (
          rw (read_string-write_string [] _ (omega arith)) (
            rw (read_string-write_string sshsig_hash_algo _ (omega arith)) (
              rw (← append-nil (write_string sig_blob))
                (rw (read_string-write_string sig_blob [] hs)))))))

-- The body that `Sign` writes, for fields whose lengths fit their prefixes and within the limit on a
-- signature, parses back to those fields.
pub parse_signature-signature_body :
    (blob ns sig_blob : Bytes)
    → Fits blob
    → Fits ns
    → Fits sig_blob
    → length (signature_body blob ns sig_blob) ≤ max_signature_len
    → parse_signature (signature_body blob ns sig_blob)
      ≡ ok (record {
        version = sshsig_version;
        key_blob = blob;
        namespace = ns;
        hash_algo = sshsig_hash_algo;
        sig_blob = sig_blob;
      })
unfolding parse_signature signature_body has_prefix
parse_signature-signature_body blob ns sig_blob hb hn hs small =
    let body = signature_body blob ns sig_blob in
    let fits : ltb max_signature_len (length body) ≡ false = not_ltb _ _ small in
    rw fits (ap (fail_as err_signature) (parse_fields-body blob ns sig_blob hb hn hs))
  where
    not_ltb : (m n : ℕ) → n ≤ m → ltb m n ≡ false
    not_ltb m n h = ground arith
