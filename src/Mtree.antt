-- ===== src/Mtree.antt =====
-- internal/mtree: the records of the mtree that pacman keeps for a package. A float64 is the number of its bit
-- pattern, and `strconv.ParseFloat` is a parameter.
pub mod Unvis
pub mod Path
pub mod Keywords
pub mod Parse
pub mod Inflate
use aurvet.Prelude.{Bytes, ℕ}

-- The sentinels, with the line that `atLine` adds. `index_panic` is Go's panic on `fields[0]` of no fields, and
-- `out_of_fuel` is the model's own.
pub data MtreeError : Type 0 where
  err_syntax err_vis_escape err_path err_limit err_gzip err_header err_read : MtreeError
  at_line : ℕ → MtreeError → MtreeError
  index_panic out_of_fuel : MtreeError

-- `Entry`; `type_name` is `Type`.
pub record Entry : Type 0 where
  pub path : Bytes
  pub type_name : Bytes
  pub size : ℕ
  pub mode : ℕ
  pub time : ℕ
  pub sha256 : Bytes
  pub md5 : Bytes
  pub link : Bytes

pub record Limits : Type 0 where
  pub max_compressed : ℕ
  pub max_decompressed : ℕ
  pub max_ratio : ℕ
  pub ratio_floor : ℕ
  pub max_entries : ℕ
  pub max_line_bytes : ℕ

abbrev pub default_limits : Limits
default_limits = record {
  max_compressed = 16777216;
  max_decompressed = 67108864;
  max_ratio = 100;
  ratio_floor = 1048576;
  max_entries = 1000000;
  max_line_bytes = 65536;
}
