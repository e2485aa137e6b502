-- ===== src/Lib.antt =====
-- aurvet audits an Arch Linux system: collectors gather facts, checks turn them into findings and
-- coverage gaps, a report gives an exit code, and signed baselines are kept as an append-only chain
-- of records, which can be pushed elsewhere.
--
-- The files and the code they model:
--   Finding, Finding/*: internal/finding/finding.go. `max_severity` is `MaxSeverity`, `complete` is
--     `Complete`, `fingerprint` is `Fingerprint` over `encode_fields`.
--   Report, Report/*: internal/report/exit.go, since.go, and `Diff` and `FindingID` of store.go and
--     text.go. A Go map of findings is a list with one entry for each id.
--   Baseline, Baseline/*: internal/baseline/keys.go (Wire: the ssh reader and writer; Key: public key
--     blobs; KeyLine: `ParsePublicKey`, `Fingerprint`), sign.go (Format: namespaces and signature bodies; Sign: `Sign`, `Verify` and what they
--     call), manifest.go (Stamp: `ParseStamp`; Manifest: `BuildManifest`, `VerifyManifest`) and drift.go (Drift:
--     the changes; Drift/Classify: the bucket of a change; Drift/Run: `Drift`).
--   Chain, Chain/*: internal/chain/chain.go (Chain: entries, records, `Link`, `ValidateEntry`; Records:
--     `NewRecord` and `ParseRecord`; Verify: `Verify`) and replication.go (Replication: the signed
--     state; Replication/Report: the report, its banner and its findings).
--   Adjudicate, Adjudicate/*: internal/adjudicate/adjudicate.go and epoch.go (Adjudicate: scopes, records,
--     the registry; Reason: `validReason`; Judging: `Validate`, `Matches`, `Current`, `New`) and apply.go
--     (Apply: `evaluate` and `ApplyWith`).
--   Bundle, Bundle/*: internal/bundle: floor.go (Floor: the anti-rollback floor, `OpenFloor`, `Load` and
--     `Save`, over a disk whose locks and writes end in given outcomes), roots.go (Roots), delegation.go
--     (Delegation: `VerifyDelegation`, `ValidateDelegation`, `ActiveKeys`), bundle.go (Document:
--     `ParseBundle` and its checks, `Count`) and verify.go (Verify: `Verify` in the stages `authorise`,
--     `authenticate` and `conclude`); Update: the kept floor and the exit code of cmd/aurvet/update.go.
--   Mtree, Mtree/*: internal/mtree: unvis.go (Unvis), limits.go (Path: `ValidatePath`; Inflate:
--     `Decompress` and the counting reader) and parse.go (Keywords, Parse).
--   Triage, Triage/*: internal/triage: triage.go (Triage: verbs, records, `New`, `Validate`, `Matches`,
--     `Current`) and apply.go (Apply: `evaluate` and `ApplyWith`).
--   Gate, Gate/*: internal/gate: approve.go (Gate: `ValidPkgBase`; Recipe: `DigestRecipe`; Approvals: `Lookup`,
--     `Approve` and `Revoke` over a disk) and vcsdelta.go (Delta: `ReviewDelta`, `Result`, `VCSKind`).
--   Prelude, Prelude/*: Boolean tests, lists, integers, bytes, errors and texts that the others share.
--   Tests, Tests/*: concrete values, at which the theorems with hypotheses are applied.
--
-- A string or byte slice is a list of byte values. Errors are values of `Fallible`; Go's run-time
-- panic on an index out of range is the error `index_panic`. An `int64` is an integer, and the one
-- addition that can overflow, `seq + 1` in `Link`, wraps. The product of the expansion bound of `Decompress`
-- (`in.n * MaxRatio`) is not wrapped: within the limits that the program sets it stays far below 2 ^ 63. A length is written to the wire as 32 bits,
-- which wrap too. Fuel occurs where a loop takes a piece of a text or of a number, with the length
-- of the text, or the number itself, as the bound: the lines of the armour and the runes of a reason
-- or a note (each takes a byte at least), trimming and vis(3) decoding (likewise), and the digits of a
-- number (each divides by ten).
--
-- SHA-2, ed25519, base64, PEM and the parsing of time stamps belong to Go's standard library, and the
-- canonical JSON encoding works by reflection: all of them are parameters, and what a theorem needs of
-- them is among its hypotheses. Texts made with `fmt` are not modelled, except where they are the
-- arguments of a function; the refusals and gaps of bundles, of manifests, of drift and of the gate are modelled by the
-- case that they name. A
-- float64 is its bit pattern. Of files, the disks of the floor and of the approvals are modelled, and what reading the
-- replication state gives; what gzip inflates is given as a sequence of reads. Processes, the network and
-- the rest of the command line are not modelled.
pub mod Prelude
pub mod Finding
pub mod Report
pub mod Baseline
pub mod Chain
pub mod Tests
pub mod Adjudicate
pub mod Bundle
pub mod Mtree
pub mod Triage
pub mod Gate
