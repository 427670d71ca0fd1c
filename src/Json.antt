-- ===== src/Json.antt =====
-- Decoded JSON as encoding/json gives it to an `interface{}`, and the type assertions that the
-- program makes on it. A finite float64 is an integer multiple of 2^-1074, and JSON has no other.
use syncmesh.Common.{
  ℕ, suc, ◌/◌, ◌^◌, String, ℤ, pos, negsuc, ltb_ℤ, Bool, Option, none, some, List, [], ◌∷◌, ◌==◌,
  if◌then◌else◌,
}

-- The number `scaled n` is n / 2^1074.
pub data Float64 : Type 0 where
  scaled : ℤ → Float64

unfoldable pub float_unit : ℕ
float_unit = 2 ^ 1074

-- `int64(f)`: the part before the point, where it is an int64.
unfoldable pub truncate : Float64 → ℤ
truncate (scaled (pos n)) = pos (n / float_unit)
truncate (scaled (negsuc n)) =
    let whole = suc n / float_unit in elim whole [ ℕ.zero ↦ pos 0 | suc m ↦ negsuc m ]

-- `f > 0`.
abbrev pub is_positive : Float64 → Bool
is_positive (scaled n) = ltb_ℤ (pos 0) n

mutual
  pub data Json : Type 0 where
    null : Json
    boolean : Bool → Json
    number : Float64 → Json
    text : String → Json
    array : Items → Json
    object : Fields → Json

  pub data Items : Type 0 where
    nil : Items
    item : Json → Items → Items

  -- A Go map: a key stands once.
  pub data Fields : Type 0 where
    end : Fields
    field : String → Json → Fields → Fields

pub items : Items → List Json
items nil = []
items (item j js) = j ∷ items js

-- `m[key]`: the nil interface if the key is missing.
unfoldable pub get : String → Fields → Json
get k end = null
get k (field j v fs) = if j == k then v else get k fs

-- `x, ok := v.(T)`: `none` where `ok` is false.
abbrev pub as_text : Json → Option String
as_text (text s) = some s
as_text _ = none

abbrev pub as_boolean : Json → Option Bool
as_boolean (boolean b) = some b
as_boolean _ = none

abbrev pub as_number : Json → Option Float64
as_number (number f) = some f
as_number _ = none

abbrev pub as_object : Json → Option Fields
as_object (object fs) = some fs
as_object _ = none

abbrev pub as_array : Json → Option (List Json)
as_array (array js) = some (items js)
as_array _ = none
