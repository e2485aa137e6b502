-- ===== src/Tests/Manifests.antt =====
-- Small mtrees.
use aurvet.Prelude.{
  All, Bool, [], arith, bytes_eq, codes, err, false, has_prefix, length, ok, refl, some, ℕ, ◌++◌,
  ◌==◌, ◌||◌, ◌∷◌, ◌≡◌, ◌≤◌,
}
use aurvet.Prelude.Ending.{Ends}
use aurvet.Prelude.Split.{cut, has_byte, split_on, trim_right}
use aurvet.Prelude.Text.{space_at}
use aurvet.Mtree.{Entry, default_limits, err_vis_escape, index_panic}
use aurvet.Mtree.Unvis.{unvis}
use aurvet.Mtree.Path.{cut_prefix, validate_path}
use aurvet.Mtree.Parse.{Reader, parse_mtree}
use aurvet.Mtree.Inflate.{Inflated, allowance, counted, decompress, end_of_file, opened}
use aurvet.Mtree.Unvis.RoundTrip.{unvis-vis, vis}
use aurvet.Mtree.Unvis.Fuel.{unvis-Ends}
use aurvet.Mtree.Parse.Confined.{IsEntry, parse_mtree-IsEntry}
use aurvet.Mtree.Inflate.Bounds.{Counts, IsBounded, decompress-IsBounded}

parse_test :
    parse_mtree
      (λ s. some 0)
      default_limits
      (record {
        content =
            codes "#mtree\n/set type=dir mode=755\n./usr\\040x type=file size=12\n./.PKGINFO\n";
        fails = false;
      })
    ≡ ok (
        record {
          path = codes "./usr x";
          type_name = codes "file";
          size = 12;
          mode = 493;
          time = 0;
          sha256 = [];
          md5 = [];
          link = [];
        }
        ∷ [])
unfolding parse_mtree split_on bytes_eq trim_right has_prefix space_at cut unvis has_byte
    validate_path cut_prefix
parse_test = refl

-- A vertical tab alone on a line is not blank for the loop, and has no fields.
panic_test :
    parse_mtree
      (λ s. some 0)
      default_limits
      (record { content = codes "#mtree\n" ++ 11 ∷ []; fails = false })
    ≡ err index_panic
unfolding parse_mtree split_on bytes_eq trim_right has_prefix space_at
panic_test = refl

unvis_test : unvis (codes "a\\040b\\^?\\M-a\\$") ≡ ok (codes "a b" ++ 127 ∷ 225 ∷ [])
unfolding unvis has_byte
unvis_test = refl

abbrev small_mtree : Reader
small_mtree = record {
  content = codes "#mtree\n./usr\\040x size=12 mode=755\n./.PKGINFO\n";
  fails = false;
}

abbrev small_entry : Entry
small_entry = record {
  path = codes "./usr x";
  type_name = codes "file";
  size = 12;
  mode = 493;
  time = 0;
  sha256 = [];
  md5 = [];
  link = [];
}

small_parses : parse_mtree (λ s. some 0) default_limits small_mtree ≡ ok (small_entry ∷ [])
unfolding parse_mtree split_on bytes_eq trim_right has_prefix space_at cut unvis has_byte
    validate_path cut_prefix
small_parses = refl

parse_mtree-IsEntry_example : (1 ≤ 1000000) × All IsEntry (small_entry ∷ [])
parse_mtree-IsEntry_example =
    parse_mtree-IsEntry (λ s. some 0) default_limits small_mtree (small_entry ∷ []) small_parses

unvis-Ends_example : Ends (λ e. e ≡ err_vis_escape) (λ out. length out ≤ 4) (unvis (codes "\\040"))
unvis-Ends_example = unvis-Ends (codes "\\040")

abbrev spaces_and_slashes : ℕ → Bool
spaces_and_slashes c = c == 32 || c == b'\\'

unvis-vis_example : unvis (vis spaces_and_slashes (codes "a b")) ≡ ok (codes "a b")
unvis-vis_example =
    unvis-vis spaces_and_slashes (codes "a b") refl (omega arith, (omega arith, (omega arith, tt)))

abbrev two_reads : Inflated
two_reads = record {
  reads =
      record { chunk = codes "abc"; consumed = 2 }
      ∷ record { chunk = codes "d"; consumed = 3 }
      ∷ [];
  finish = end_of_file;
}

two_reads_out : decompress default_limits (opened two_reads) ≡ ok (codes "abcd")
unfolding decompress
two_reads_out = refl

two_counted : counted 16777216 0 10 2 ≡ some 2
unfolding counted allowance
two_counted = refl

three_counted : counted 16777216 2 10 1 ≡ some 3
unfolding counted allowance
three_counted = refl

decompress-IsBounded_example : IsBounded default_limits (codes "abcd")
decompress-IsBounded_example =
    decompress-IsBounded default_limits two_reads (codes "abcd") (omega arith)
      (
        Counts.call 0 10 2 2 Counts.none_yet two_counted,
        (Counts.call 2 10 1 3 Counts.none_yet three_counted, tt),
      )
      two_reads_out
