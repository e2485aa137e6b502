-- ===== src/Mtree/Parse.antt =====
-- `Parse` of internal/mtree/parse.go and `scanHeader` of limits.go, on a reader that gives some bytes and then
-- ends or fails. The lines are those of `bufio.Scanner` with a positive cap: a line that fills the buffer is
-- too long.
pub mod Confined
use aurvet.Prelude.{
  Bool, Bytes, Fallible, List, Option, [], bytes_eq, codes, err, false, has_prefix, if◌then◌else◌,
  leb, length, none, not, ok, refuse_if, some, suc, true, zero, ℕ, ◌&&◌, ◌==◌, ◌>>=◌, ◌>>◌, ◌||◌,
  ◌∷◌,
}
use aurvet.Prelude.Split.{has_byte, split_on, trim_right}
use aurvet.Prelude.Text.{space_at}
use aurvet.Mtree.{Entry, Limits, MtreeError, at_line, err_header, err_limit, err_read, index_panic}
use aurvet.Mtree.Unvis.{unvis}
use aurvet.Mtree.Path.{cut_prefix, validate_path}
use aurvet.Mtree.Keywords.{Keywords, no_keywords, set_pairs, unset}

pub record Reader : Type 0 where
  pub content : Bytes
  pub fails : Bool

-- A byte list from the back: whether its last byte is a carriage return is `dropCR`'s question.
drop_cr : Bytes → Bytes
drop_cr [] = []
drop_cr (c ∷ []) = if c == 13 then [] else c ∷ []
drop_cr (c ∷ d ∷ s) = c ∷ drop_cr (d ∷ s)

-- The tokens of the scanner, and whether it stopped at a line that is too long.
scan_parts : ℕ → List Bytes → List Bytes × Bool
unfolding drop_cr
scan_parts cap [] = ([], false)
scan_parts cap (p ∷ []) =
    if leb cap (length p)
    then ([], true)
    else if bytes_eq p []
    then ([], false)
    else (drop_cr p ∷ [], false)
scan_parts cap (p ∷ q ∷ ps) =
    let (rest, long) = scan_parts cap (q ∷ ps) in
    if leb cap (length p) then ([], true) else (drop_cr p ∷ rest, long)

pub scan_lines : ℕ → Bytes → List Bytes × Bool
unfolding scan_parts
scan_lines cap content = scan_parts cap (split_on b'\n' content)

abbrev pub blank : ℕ → Bool
blank c = c == b' ' || c == 9

-- A word in front of others, if it is one.
pushed : Bytes → List Bytes → List Bytes
pushed [] ws = ws
pushed (c ∷ w) ws = (c ∷ w) ∷ ws

-- The word in front, and the words behind it, where `k` bytes of white space are left.
words : ℕ → Bytes → Bytes × List Bytes
unfolding pushed
words k [] = ([], [])
words (suc k) (c ∷ s) = words k s
words zero (c ∷ s) = elim (space_at (c ∷ s)) [
  | zero ↦ (c ∷ (words zero s).0, (words zero s).1)
  | suc n ↦ ([], pushed ((words n s).0) ((words n s).1))
]

-- `strings.Fields`.
pub fields : Bytes → List Bytes
unfolding words pushed
fields s = pushed ((words zero s).0) ((words zero s).1)

-- `isPackageMetadata`.
pub is_package_metadata : Bytes → Bool
is_package_metadata path = elim (cut_prefix (codes "./.") path) [
  | none ↦ false
  | some rest ↦ not (has_byte (λ c. c == b'/') rest)
]

pub or_file : Bytes → Bytes
or_file [] = codes "file"
or_file (c ∷ s) = c ∷ s

-- What a line does: the keywords for the next lines, and the entry that it gives, if it gives one.
abbrev pub Step : Type 0
Step = Keywords × Option Entry

pub scan_header : Bytes → Fallible MtreeError (Unit {0})
scan_header l =
    let line = trim_right blank l in
    refuse_if (not (bytes_eq line (codes "#mtree")) && not (has_prefix line (codes "#mtree ")))
      err_header

module _ (parse_float : Bytes → Option ℕ) where
  pub entry_of : Bytes → Keywords → Entry
  unfolding or_file
  entry_of path kw = record {
    path = path;
    type_name = or_file kw.typ;
    size = kw.size;
    mode = kw.mode;
    time = kw.time;
    sha256 = kw.sha256;
    md5 = kw.md5;
    link = kw.link;
  }

  -- `record`, on the first field and the others.
  pub record_of : Bytes → List Bytes → Keywords → Fallible MtreeError (Option Entry)
  unfolding entry_of is_package_metadata set_pairs
  record_of first pairs kw = do
    path ← unvis first
    validate_path path
    own ← set_pairs parse_float kw pairs
    ok (if is_package_metadata path then none else some (entry_of path own))

  -- The switch on the first field.
  pub parse_fields : List Bytes → Keywords → Fallible MtreeError Step
  unfolding record_of set_pairs unset
  parse_fields [] kw = err index_panic
  parse_fields (first ∷ rest) kw =
      if bytes_eq first (codes "/set")
      then (do next ← set_pairs parse_float kw rest; ok (next, none))
      else if bytes_eq first (codes "/unset")
      then (do next ← unset kw rest; ok (next, none))
      else (do e ← record_of first rest kw; ok (kw, e))

  -- `atLine` on an error; a panic is none.
  pub at_this_line : ℕ → MtreeError → MtreeError
  at_this_line n index_panic = index_panic
  at_this_line n e = at_line n e

  pub with_line : ℕ → Fallible MtreeError Step → Fallible MtreeError Step
  unfolding at_this_line
  with_line n (ok s) = ok s
  with_line n (err e) = err (at_this_line n e)

  pub parse_line : ℕ → Bytes → Keywords → Fallible MtreeError Step
  unfolding parse_fields with_line fields
  parse_line n l kw =
      let text = trim_right blank l in
      if bytes_eq text [] || has_prefix text (codes "#")
      then ok (kw, none)
      else with_line n (parse_fields (fields text) kw)

  -- The loop: `n` is the number of the line before, `have` the number of entries so far.
  pub parse_lines : (cap n have : ℕ) → Keywords → List Bytes → Fallible MtreeError (List Entry)
  unfolding parse_line
  parse_lines cap n have kw [] = ok []
  parse_lines cap n have kw (l ∷ ls) = parse_line (suc n) l kw >>= λ st. elim (st.1) [
    | none ↦ parse_lines cap (suc n) have (st.0) ls
    | some e ↦
        refuse_if (leb cap have) err_limit
        >> (parse_lines cap (suc n) (suc have) (st.0) ls >>= λ es. ok (e ∷ es))
  ]

  -- `Limits.Parse`, on the tokens of the scanner, whether it stopped at one that is too long, and whether the
  -- reader fails.
  pub parse_scanned : Limits → List Bytes → Bool → Bool → Fallible MtreeError (List Entry)
  unfolding scan_header parse_lines
  parse_scanned lim [] long fails = err (if long || fails then err_read else err_header)
  parse_scanned lim (l ∷ ls) long fails = do
    scan_header l
    es ← parse_lines lim.max_entries 1 0 no_keywords ls
    refuse_if long err_limit
    refuse_if fails err_read
    ok es

  -- `Limits.Parse`.
  unfoldable pub parse_mtree : Limits → Reader → Fallible MtreeError (List Entry)
  unfolding scan_lines parse_scanned
  parse_mtree lim r =
      let s = scan_lines lim.max_line_bytes r.content in parse_scanned lim (s.0) (s.1) r.fails
