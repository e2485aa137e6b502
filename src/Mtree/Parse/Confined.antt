-- ===== src/Mtree/Parse/Confined.antt =====
-- `Parse` of internal/mtree/parse.go: the entries that it returns.
use aurvet.Prelude.{
  All, Bool, Bool-cases, Bytes, Fallible, List, Option, [], arith, bytes_eq, codes, err, false,
  has_prefix, inl, inr, leb, length, none, ok, refuse_if, some, suc, ℕ, ◌+◌, ◌<◌, ◌>>=◌, ◌>>◌, ◌^◌,
  ◌||◌, ◌∷◌, ◌≡◌, ◌≢◌, ◌≤◌,
}
use aurvet.Prelude.Split.{trim_right}
use aurvet.Prelude.Ending.{Ends->>=, Ends-if, Ends-ok, Ends-refuse_if}
use aurvet.Mtree.{Entry, Limits, MtreeError, err_limit, err_read}
use aurvet.Mtree.Unvis.{unvis}
use aurvet.Mtree.Path.{validate_path}
use aurvet.Mtree.Keywords.{Keywords, no_keywords, set_pairs, unset}
use aurvet.Mtree.Path.Inside.{IsInside, validate_path-IsInside}
use aurvet.Mtree.Keywords.Typed.{
  Gives, IsDigestOf, IsTyped, any, no_keywords-IsTyped, set_pairs-IsTyped, unset-IsTyped,
}
use aurvet.Mtree.Parse.{
  Reader, Step, blank, entry_of, fields, is_package_metadata, or_file, parse_fields, parse_line,
  parse_lines, parse_mtree, parse_scanned, record_of, scan_header, scan_lines, with_line,
}

-- What every entry that is returned is.
pub record IsEntry (e : Entry) : Type 0 where
  pub inside : IsInside e.path
  pub not_metadata : is_package_metadata e.path ≡ false
  pub has_type : e.type_name ≢ []
  pub size_fits : e.size < 2 ^ 63
  pub mode_fits : e.mode ≤ 4095
  pub sha256_ok : IsDigestOf 64 e.sha256
  pub md5_ok : IsDigestOf 32 e.md5

-- It holds of the entry, if there is one.
abbrev IfEntry : Option Entry → Type 0
IfEntry none = Unit
IfEntry (some e) = IsEntry e

abbrev IsStep : Step → Type 0
IsStep st = IsTyped st.0 × IfEntry st.1

or_file-names : (s : Bytes) → or_file s ≢ []
unfolding or_file
or_file-names [] e = absurd cc
or_file-names (c ∷ s) e = absurd cc

abbrev Room : ℕ → ℕ → List Entry → Type 0
Room cap have es = (have + length es ≤ cap) × All IsEntry es

-- With an entry, the others have one place less.
next_entry :
    (cap have : ℕ) (o : Option Entry) (skip keep : Fallible MtreeError (List Entry))
    → IfEntry o
    → Gives (Room cap have) skip
    → (suc have ≤ cap → Gives (Room cap (suc have)) keep)
    → Gives (Room cap have) (elim o [
      | none ↦ skip
      | some e ↦ refuse_if (leb cap have) err_limit >> (keep >>= λ es. ok (e ∷ es))
    ])
next_entry cap have none skip keep here skipped kept = skipped
next_entry cap have (some e) skip keep here skipped kept =
    Ends-refuse_if _ (Room cap have) (leb cap have) err_limit _ tt λ space.
      let more = kept (ground arith) in
      Ends->>= _ (Room cap have) keep _ (any keep) λ es got.
        let (fits, good) = Ends-ok (λ _. Unit) (Room cap (suc have)) keep more got in
        (omega (arith, fits), (here, good))

module _ (parse_float : Bytes → Option ℕ) where
  record_of-IfEntry :
      (first : Bytes) (pairs : List Bytes) (kw : Keywords)
      → IsTyped kw
      → Gives IfEntry (record_of parse_float first pairs kw)
  unfolding record_of entry_of
  record_of-IfEntry first pairs kw t = Ends->>= _ IfEntry (unvis first) _ (any _) λ path _.
      Ends->>= _ IfEntry (validate_path path) _ (any _) λ u fine.
        Ends->>= _ IfEntry (set_pairs parse_float kw pairs) _ (any _) λ own e.
          let o =
            Ends-ok (λ _. Unit) IsTyped (set_pairs parse_float kw pairs)
              (set_pairs-IsTyped parse_float kw pairs t) e in
          elim (Bool-cases (is_package_metadata path)) [
            | inl meta ↦ rw meta tt
            | inr file ↦ rw file (record {
              inside = validate_path-IsInside path fine;
              not_metadata = file;
              has_type = or_file-names own.typ;
              size_fits = o.size_fits;
              mode_fits = o.mode_fits;
              sha256_ok = o.sha256_ok;
              md5_ok = o.md5_ok;
            })
          ]

  parse_fields-IsStep :
      (fs : List Bytes) (kw : Keywords) → IsTyped kw → Gives IsStep (parse_fields parse_float fs kw)
  unfolding parse_fields
  parse_fields-IsStep [] kw t = tt
  parse_fields-IsStep (first ∷ rest) kw t =
      Ends-if _ IsStep (bytes_eq first (codes "/set")) _ _
        (Ends->>= _ IsStep (set_pairs parse_float kw rest) _ (any _) λ next e. (
          Ends-ok (λ _. Unit) IsTyped (set_pairs parse_float kw rest)
              (set_pairs-IsTyped parse_float kw rest t) e,
          tt,
        ))
        (Ends-if _ IsStep (bytes_eq first (codes "/unset")) _ _
          (Ends->>= _ IsStep (unset kw rest) _ (any _)
            λ next e. (Ends-ok (λ _. Unit) IsTyped (unset kw rest) (unset-IsTyped kw rest t) e, tt))
          (Ends->>= _ IsStep (record_of parse_float first rest kw) _ (any _) λ entry e. (
            t,
            Ends-ok (λ _. Unit) IfEntry (record_of parse_float first rest kw)
                (record_of-IfEntry first rest kw t) e,
          )))

  with_line-Gives :
      (n : ℕ) (m : Fallible MtreeError Step)
      → Gives IsStep m
      → Gives IsStep (with_line parse_float n m)
  unfolding with_line
  with_line-Gives n (ok st) h = h
  with_line-Gives n (err e) h = tt

  parse_line-IsStep :
      (n : ℕ) (l : Bytes) (kw : Keywords)
      → IsTyped kw
      → Gives IsStep (parse_line parse_float n l kw)
  unfolding parse_line
  parse_line-IsStep n l kw t =
      Ends-if _ IsStep
        (bytes_eq (trim_right blank l) [] || has_prefix (trim_right blank l) (codes "#")) _ _
        (t, tt) (with_line-Gives n _ (parse_fields-IsStep (fields (trim_right blank l)) kw t))

  parse_lines-All :
      (cap n have : ℕ) (kw : Keywords) (ls : List Bytes)
      → IsTyped kw
      → have ≤ cap
      → Gives
          (λ es. (have + length es ≤ cap) × All IsEntry es)
          (parse_lines parse_float cap n have kw ls)
  unfolding parse_lines
  parse_lines-All cap n have kw [] t room = (omega (arith, room), tt)
  parse_lines-All cap n have kw (l ∷ ls) t room =
      Ends->>= _ (Room cap have) (parse_line parse_float (suc n) l kw) _ (any _) λ st e.
        let (t', here) =
          Ends-ok (λ _. Unit) IsStep (parse_line parse_float (suc n) l kw)
            (parse_line-IsStep (suc n) l kw t) e in
        next_entry cap have (st.1) (parse_lines parse_float cap (suc n) have (st.0) ls)
          (parse_lines parse_float cap (suc n) (suc have) (st.0) ls) here
          (parse_lines-All cap (suc n) have (st.0) ls t' room)
          (λ space. parse_lines-All cap (suc n) (suc have) (st.0) ls t' space)

  parse_scanned-Room :
      (lim : Limits) (ls : List Bytes) (long fails : Bool)
      → Gives (Room lim.max_entries 0) (parse_scanned parse_float lim ls long fails)
  unfolding parse_scanned
  parse_scanned-Room lim [] long fails = tt
  parse_scanned-Room lim (l ∷ ls) long fails =
      Ends->>= _ (Room lim.max_entries 0) (scan_header l) _ (any _) λ u _.
        let lines = parse_lines parse_float lim.max_entries 1 0 no_keywords ls in
        Ends->>= _ (Room lim.max_entries 0) lines _ (any _) λ es got.
          Ends-refuse_if _ (Room lim.max_entries 0) long err_limit _ tt λ _.
            Ends-refuse_if _ (Room lim.max_entries 0) fails err_read _ tt λ _.
              Ends-ok (λ _. Unit) (Room lim.max_entries 0) lines
                (parse_lines-All lim.max_entries 1 0 no_keywords ls no_keywords-IsTyped
                  (omega arith))
                got

  -- Every entry that `Parse` returns has a path inside the package's root that is not the package's own metadata,
  -- a type, a size of an int64, a mode of twelve bits, and digests of the right form; and there are no more
  -- entries than the limit.
  pub parse_mtree-IsEntry :
      (lim : Limits) (r : Reader) (es : List Entry)
      → parse_mtree parse_float lim r ≡ ok es
      → (length es ≤ lim.max_entries) × All IsEntry es
  unfolding parse_mtree
  parse_mtree-IsEntry lim r es h =
      let s = scan_lines lim.max_line_bytes r.content in
      let (fits, good) =
        Ends-ok (λ _. Unit) (Room lim.max_entries 0)
          (parse_scanned parse_float lim (s.0) (s.1) r.fails)
          (parse_scanned-Room lim (s.0) (s.1) r.fails) h in
      (omega (arith, fits), good)
