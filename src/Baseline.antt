-- ===== src/Baseline.antt =====
-- internal/baseline: the SSH wire format, public keys and detached signatures over documents.
pub mod Json
pub mod KeyLine
pub mod Wire
pub mod Key
pub mod Format
pub mod Stamp
pub mod Manifest
pub mod Drift
pub mod Sign

-- The sentinels that callers tell apart with `errors.Is`. The message texts are not modelled.
pub data Error : Type 0 where
  err_signature err_key_format err_unsupported_algorithm err_agent : Error
  err_float err_not_utf8 err_unsupported_type err_duplicate_key err_not_canonical : Error
