-- ===== src/Json.antt =====
-- `serde_json::Value`, as far as the program takes values apart. A number is kept as its text.
use kanbrick_v.Common.{
  Text, List, [], ◌∷◌, Bool, Option, none, some, text_beq, if◌then◌else◌, ◌≡◌, refl, arith,
  text_beq_iff,
}

mutual
  pub data JsonValue : Type 0 where
    null : JsonValue
    boolean : Bool → JsonValue
    number : Text → JsonValue
    string : Text → JsonValue
    array : Items → JsonValue
    object : Fields → JsonValue

  pub data Items : Type 0 where
    nil : Items
    item : JsonValue → Items → Items

  -- The entries of a map, each key once.
  pub data Fields : Type 0 where
    end : Fields
    field : Text → JsonValue → Fields → Fields

-- `Map::get`, `Value::as_str`, `Map::keys`
unfoldable pub get_field : Text → Fields → Option JsonValue
get_field k end = none
get_field k (field j v rest) = if text_beq j k then some v else get_field k rest

abbrev pub as_str : JsonValue → Option Text
as_str (string s) = some s
as_str _ = none

abbrev pub as_object : JsonValue → Option Fields
as_object (object fs) = some fs
as_object _ = none

unfoldable pub keys : Fields → List Text
keys end = []
keys (field k v rest) = k ∷ keys rest

-- `obj.get(k).and_then(as_str)`
unfoldable pub get_str : Text → Fields → Option Text
unfolding get_field
get_str k fs = elim (get_field k fs) [ none ↦ none | some v ↦ as_str v ]

-- `Map::insert`
unfoldable pub set_field : Text → JsonValue → Fields → Fields
set_field k v end = field k v end
set_field k v (field j w rest) =
    if text_beq j k then field k v rest else field j w (set_field k v rest)

pub get_field-set_field :
    (k j : Text) (v : JsonValue) (fs : Fields)
    → get_field j (set_field k v fs) ≡ (if text_beq k j then some v else get_field j fs)
unfolding get_field set_field
get_field-set_field k j v end = refl
get_field-set_field k j v (field i w rest) =
    ground
      (arith, text_beq_iff k j, text_beq_iff i k, text_beq_iff i j, get_field-set_field k j v rest)
