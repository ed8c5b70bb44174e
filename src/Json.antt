-- ===== src/Json.antt =====
-- What Python's json.loads gives, as the metering and the proxy read it. The decoder is a parameter
-- where it is used.
use ctc.Common.{ℕ, String, Bool, Option, none, some, List, ℤ, same_text, if◌then◌else◌}

-- The bytes of a body, or the code points of a text.
abbrev pub Text : Type 0
Text = List ℕ

-- A float: its sign, the whole part of its size, and whether there is a fraction.
pub data Float : Type 0 where
  finite : Bool → ℕ → Bool → Float
  infinite : Bool → Float
  not_a_number : Float

mutual
  pub data Json : Type 0 where
    null : Json
    bool : Bool → Json
    int : ℤ → Json
    float : Float → Json
    str : String → Json
    arr : Items → Json
    obj : Fields → Json

  pub data Items : Type 0 where
    nothing : Items
    item : Json → Items → Items

  pub data Fields : Type 0 where
    empty : Fields
    field : String → Json → Fields → Fields

-- `obj.get(key)`; the decoder keeps the last value of a key that is there twice.
unfoldable pub lookup : String → Fields → Option Json
lookup k empty = none
lookup k (field j v fields) = if same_text j k then some v else lookup k fields

-- `obj.get(key)` where `obj` must be a dict; the outer `none` is the exception at another value.
abbrev pub get_field : String → Json → Option (Option Json)
get_field k (obj fields) = some (lookup k fields)
get_field k _ = none
