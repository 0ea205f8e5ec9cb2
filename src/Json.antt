-- ===== src/Json.antt =====
-- `serde_json::Value`. An array or an object holds a list type of its own; `entries` is the object
-- as a map. A number is a `u64`, a negative `i64` (`neg_int n` is -(n + 1)), or a float, kept as the
-- text it prints as.
use contextforge_data_plane.Prelude.{
  ℕ, Str, str_eq, Bool, List, [], ◌∷◌, Option, none, some, if◌then◌else◌,
}
use contextforge_data_plane.Prelude.Map.{Map}

pub data Number : Type 0 where
  pos_int : ℕ → Number
  neg_int : ℕ → Number
  float : Str → Number

mutual
  pub data Value : Type 0 where
    null : Value
    bool : Bool → Value
    number : Number → Value
    string : Str → Value
    array : Items → Value
    object : Fields → Value

  pub data Items : Type 0 where
    nil : Items
    cons : Value → Items → Items

  pub data Fields : Type 0 where
    end : Fields
    field : Str → Value → Fields → Fields

abbrev pub items : Items → List Value
items nil = []
items (cons v vs) = v ∷ items vs

abbrev pub entries : Fields → Map Value
entries end = []
entries (field k v fs) = (k, v) ∷ entries fs

abbrev pub of_items : List Value → Items
of_items [] = nil
of_items (v ∷ vs) = cons v (of_items vs)

abbrev pub of_entries : Map Value → Fields
of_entries [] = end
of_entries ((k, v) ∷ m) = field k v (of_entries m)

-- `Map::get`.
unfoldable pub get : Str → Fields → Option Value
get k end = none
get k (field j v fs) = if str_eq j k then some v else get k fs

-- `Value::as_object`, `Value::as_str`, `Value::as_array`.
abbrev pub as_object : Value → Option Fields
as_object (object fs) = some fs
as_object _ = none

abbrev pub as_str : Value → Option Str
as_str (string s) = some s
as_str _ = none

abbrev pub as_array : Value → Option (List Value)
as_array (array vs) = some (items vs)
as_array _ = none
