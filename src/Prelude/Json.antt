-- ===== src/Prelude/Json.antt =====
-- A JSON value as the programs read and build it. A whole number stands by its value, any other one by
-- its text. `get`, `as_str` and the others are those of `serde_json::Value`.
use Prim.Native.Nat.{ℕ}
use mathlib.Core.Bool.{Bool}
use mathlib.Core.Option.{Option, none, some}
use mathlib.Core.List.{List, [], ◌∷◌}
use mcp_tools.Prelude.Tests.{if◌then◌else◌}
use mcp_tools.Prelude.Text.{Str, str_eq}
use mcp_tools.Prelude.Int.{ℤ, pos}

mutual
  pub data Json : Type 0 where
    null : Json
    boolean : Bool → Json
    number : ℤ → Json
    fraction : Str → Json
    text : Str → Json
    array : Items → Json
    object : Fields → Json

  pub data Items : Type 0 where
    end_items : Items
    item : Json → Items → Items

  pub data Fields : Type 0 where
    end_fields : Fields
    field : Str → Json → Fields → Fields

unfoldable pub find_field : Str → Fields → Option Json
find_field key end_fields = none
find_field key (field name value fields) =
    let later = find_field key fields in if str_eq key name then some value else later

unfoldable pub get : Str → Json → Option Json
unfolding find_field
get key (object fields) = find_field key fields
get key _ = none

abbrev pub as_str : Json → Option Str
as_str (text s) = some s
as_str _ = none

-- The reader keeps a number that does not fit 64 bits as a fraction.
abbrev pub as_u64 : Json → Option ℕ
as_u64 (number (pos n)) = some n
as_u64 _ = none

abbrev pub as_i64 : Json → Option ℤ
as_i64 (number n) = some n
as_i64 _ = none

abbrev pub list_of : Items → List Json
list_of end_items = []
list_of (item value items) = value ∷ list_of items

abbrev pub items_of : List Json → Items
items_of [] = end_items
items_of (value ∷ values) = item value (items_of values)

abbrev pub as_array : Json → Option (List Json)
as_array (array items) = some (list_of items)
as_array _ = none

-- `Option::and_then` and `Option::unwrap_or`
infixl 5 ◌>>=◌
abbrev pub ◌>>=◌ : {A B : Type 0} → Option A → (A → Option B) → Option B
none >>= next = none
some a >>= next = next a

abbrev pub unwrap_or : {A : Type 0} → Option A → A → A
unwrap_or none d = d
unwrap_or (some a) d = a

-- `v.get(key).and_then(Value::as_str)` and its like
abbrev pub get_str : Str → Json → Option Str
get_str key value = get key value >>= as_str

abbrev pub get_u64 : Str → Json → Option ℕ
get_u64 key value = get key value >>= as_u64

-- What stands for an absent text.
abbrev pub text_or_null : Option Str → Json
text_or_null none = null
text_or_null (some s) = text s

abbrev pub nat : ℕ → Json
nat n = number (pos n)
