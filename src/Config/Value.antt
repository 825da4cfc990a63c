-- ===== src/Config/Value.antt =====
-- The values that `tomllib` gives for xcesp_l2tpv3d/config.py. A text is the bytes of its UTF-8
-- encoding, and a float is a whole number of milliseconds, an infinity or no number.
use Prim.Native.String.{String}
use text.Mathlib.Text.{◌==◌}
use xcesp_l2tpv3d.Common.{Bool, Option, none, some, if◌then◌else◌}
use xcesp_l2tpv3d.Common.Int.{ℤ}
use xcesp_l2tpv3d.Struct.{Bytes}

pub data Float : Type 0 where
  finite : ℤ → Float
  nan infinite : Float

mutual
  -- `moment` is a date, a time or both, which the code only turns into a text.
  pub data Value : Type 0 where
    string : Bytes → Value
    integer : ℤ → Value
    float : Float → Value
    boolean : Bool → Value
    moment : Bytes → Value
    array : Values → Value
    table : Table → Value

  pub data Values : Type 0 where
    nil : Values
    cons : Value → Values → Values

  pub data Table : Type 0 where
    end : Table
    entry : String → Value → Table → Table

-- `t.get(key)`
unfoldable pub lookup : String → Table → Option Value
lookup key end = none
lookup key (entry name value t) = if name == key then some value else lookup key t

-- `t.get(key, default)`
abbrev pub or_default : Option Value → Value → Value
or_default (some value) default = value
or_default none default = default
