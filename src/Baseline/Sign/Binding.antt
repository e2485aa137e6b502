-- ===== src/Baseline/Sign/Binding.antt =====
-- `sshsigBlob` of internal/baseline/sign.go.
use aurvet.Prelude.{Bytes, [], ap, append-nil, arith, bytes_eq, drop, length, ok, sym, ◌∙◌, ◌≡◌}
use aurvet.Baseline.Wire.{Fits, write_string_cancel}
use aurvet.Baseline.Format.{sshsig_hash_algo, valid_namespace}
use aurvet.Baseline.Sign.{Crypto, sshsig_blob}

valid_namespace-Fits : (ns : Bytes) → valid_namespace ns ≡ ok tt → Fits ns
unfolding valid_namespace
valid_namespace-Fits ns h = ground arith

-- Two signed blobs of valid namespaces and of SHA-512 digests of 64 bytes are equal only if the
-- namespaces are and the digests are: a raw signature made for one kind of document is over no blob of
-- another kind.
pub sshsig_blob_binds :
    (C : Crypto) (ns ns' message message' : Bytes)
    → valid_namespace ns ≡ ok tt
    → valid_namespace ns' ≡ ok tt
    → length (C.sha512 message) ≡ 64
    → length (C.sha512 message') ≡ 64
    → sshsig_blob C ns sshsig_hash_algo message ≡ sshsig_blob C ns' sshsig_hash_algo message'
    → (ns ≡ ns') × (C.sha512 message ≡ C.sha512 message')
unfolding sshsig_blob bytes_eq
sshsig_blob_binds C ns ns' message message' v v' size size' h =
    let (same, rest) =
      write_string_cancel ns ns' _ _ (valid_namespace-Fits ns v) (valid_namespace-Fits ns' v')
        (ap (drop 6) h) in
    let (_, rest') = write_string_cancel [] [] _ _ (omega arith) (omega arith) rest in
    let (_, digests) =
      write_string_cancel sshsig_hash_algo sshsig_hash_algo _ _ (omega arith) (omega arith) rest' in
    let (digest, _) =
      write_string_cancel (C.sha512 message) (C.sha512 message') [] [] (omega arith) (omega arith)
        (append-nil _ ∙ digests ∙ sym (append-nil _)) in
    (same, digest)
