-- ===== src/Mtree/Inflate.antt =====
-- `Decompress` and `countingReader` of internal/mtree/limits.go. What `gzip.Reader` gives is a parameter: the
-- reads, each with its bytes and the number of compressed bytes that had been read by then, and how they end.
pub mod Bounds
use aurvet.Prelude.{
  Bytes, Fallible, List, Option, [], err, false, if◌then◌else◌, leb, length, ltb, none, ok,
  refuse_if, some, ℕ, ◌&&◌, ◌*◌, ◌++◌, ◌+◌, ◌-◌, ◌>>=◌, ◌>>◌, ◌∷◌,
}
use aurvet.Mtree.{Entry, Limits, MtreeError, err_gzip, err_limit}
use aurvet.Mtree.Parse.{parse_mtree}

pub data ReadEnd : Type 0 where
  end_of_file compressed_too_large read_error : ReadEnd

pub record ReadStep : Type 0 where
  pub chunk : Bytes
  pub consumed : ℕ

pub record Inflated : Type 0 where
  pub reads : List ReadStep
  pub finish : ReadEnd

-- How many bytes one read of the counting reader may ask for, or that it is over its cap.
unfoldable pub allowance : (max taken asked : ℕ) → Option ℕ
allowance max taken asked =
    if ltb 0 max
    then (if leb max taken
        then none
        else some (if ltb (max - taken) asked then max - taken else asked))
    else some asked

-- `countingReader.Read`, where the source gives no more than it is asked for: the count behind it.
unfoldable pub counted : (max taken asked given : ℕ) → Option ℕ
unfolding allowance
counted max taken asked given = elim (allowance max taken asked) [
  | none ↦ none
  | some n ↦ some (taken + (if ltb n given then n else given))
]

-- The loop of `Decompress`; `out` is the buffer.
pub drain : Limits → Bytes → List ReadStep → ReadEnd → Fallible MtreeError Bytes
drain lim out [] end_of_file = ok out
drain lim out [] compressed_too_large = err err_limit
drain lim out [] read_error = err err_gzip
drain lim out (r ∷ rs) e = elim (r.chunk) [
  | [] ↦ drain lim out rs e
  | c ∷ s ↦
      let more = out ++ r.chunk in
      refuse_if (ltb lim.max_decompressed (length out + length r.chunk)) err_limit
      >> (refuse_if
            (ltb lim.ratio_floor (length more) && ltb (r.consumed * lim.max_ratio) (length more))
            err_limit
          >> drain lim more rs e)
]

-- `gzip.NewReader` on the counting reader: it is over its cap, it is no gzip stream, or there are reads.
pub data Opened : Type 0 where
  over_cap no_gzip : Opened
  opened : Inflated → Opened

-- `Limits.Decompress`.
unfoldable pub decompress : Limits → Opened → Fallible MtreeError Bytes
unfolding drain
decompress lim over_cap = err err_limit
decompress lim no_gzip = err err_gzip
decompress lim (opened i) = drain lim [] i.reads i.finish

-- `Limits.ParseGzip`.
unfoldable pub parse_gzip : (Bytes → Option ℕ) → Limits → Opened → Fallible MtreeError (List Entry)
parse_gzip parse_float lim z = do
  plain ← decompress lim z
  parse_mtree parse_float lim (record { content = plain; fails = false })
