-- ===== src/Baseline/Stamp.antt =====
-- `ParseStamp` of internal/baseline/manifest.go. `time_parse` is `time.Parse`: the instant that a text
-- names under a layout, if it does.
use aurvet.Prelude.{Bytes, List, Option, [], bytes_eq, codes, if◌then◌else◌, none, some, ℤ, ◌∷◌}

abbrev pub stamp_layouts : List Bytes
stamp_layouts =
    codes "2006-01-02T15:04:05-0700"
    ∷ codes "2006-01-02T15:04:05Z07:00"
    ∷ codes "2006-01-02T15:04:05.999999999Z07:00"
    ∷ []

module _ (time_parse : Bytes → Bytes → Option ℤ) where
  first_layout : List Bytes → Bytes → Option ℤ
  first_layout [] s = none
  first_layout (layout ∷ layouts) s = elim (time_parse layout s) [
    | none ↦ first_layout layouts s
    | some t ↦ some t
  ]

  unfoldable pub parse_stamp : Bytes → Option ℤ
  unfolding first_layout bytes_eq
  parse_stamp s = if bytes_eq s [] then none else first_layout stamp_layouts s
