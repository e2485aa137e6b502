-- ===== src/Baseline/Json.antt =====
-- JSON values as internal/baseline/canon.go builds and encodes them. A Go map is a list of members, in
-- the order in which it is gone through.
use aurvet.Prelude.{Bool, Bytes, ℤ}

mutual
  pub data Json : Type 0 where
    null : Json
    bool : Bool → Json
    int : ℤ → Json
    text : Bytes → Json
    array : Items → Json
    object : Members → Json

  pub data Items : Type 0 where
    nil : Items
    item : Json → Items → Items

  pub data Members : Type 0 where
    end : Members
    member : Bytes → Json → Members → Members
