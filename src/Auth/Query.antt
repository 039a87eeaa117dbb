-- ===== src/Auth/Query.antt =====
-- kanbrick-store/src/store.rs, typed queries, and `json_params` of kanbrick-auth/src/guarded.rs. The
-- database is the crate sparrowdb: what it does with a statement is a parameter, and it may change
-- while it answers.
use kanbrick_v.Common.{
  Text, codes, List, [], ◌∷◌, ◌++◌, Option, none, some, Bool, ℤ, Result, ok, err, ◌>>=◌, split_on,
}
use kanbrick_v.Core.Error.{Error, invalid_input, query}
use kanbrick_v.Json.{
  JsonValue, null, boolean, number, string, array, object, Fields, end, field, set_field,
}
use kanbrick_v.Grants.Store.{AuditEntry, Nodes}
use kanbrick_v.Scope.Clearance.{GraphReads}

-- A bound parameter; `F` is the type of floating-point numbers.
pub data ParamValue (F : Type 0) : Type 0 where
  text : Text → ParamValue F
  bool : Bool → ParamValue F
  int : ℤ → ParamValue F
  float : F → ParamValue F

abbrev pub Params : Type 0 → Type 0
Params F = List (Text × ParamValue F)

-- The result of a statement, its cells as JSON.
pub record QueryResult : Type 0 where
  pub columns : List Text
  pub rows : List (List JsonValue)

-- What the database and serde_json do: the reads of a clearance scope, the nodes of the audit log,
-- a statement with its parameters, the readings of a JSON number, and a text as it is debugged.
pub record Database (D : Type 0) (F : Type 0) : Type 0 where
  pub reads : D → GraphReads
  pub audits : Nodes D AuditEntry
  pub query_hash : Text → Text
  pub execute : Text → Params F → D → Result Text QueryResult × D
  pub as_i64 : Text → Option ℤ
  pub as_f64 : Text → Option F
  pub debug : Text → Text

-- The random id and the time of an entry of the audit log.
pub record Stamp : Type 0 where
  pub entry_id : Text
  pub now : Text

abbrev pub json_type_name : JsonValue → Text
json_type_name null = codes "null"
json_type_name (boolean _) = codes "bool"
json_type_name (number _) = codes "number"
json_type_name (string _) = codes "string"
json_type_name (array _) = codes "array"
json_type_name (object _) = codes "object"

-- `rsplit('.').next()`
abbrev last_of : List Text → Text
last_of [] = []
last_of (s ∷ []) = s
last_of (s ∷ t ∷ rest) = last_of (t ∷ rest)

unfoldable pub column_key : Text → Text
unfolding split_on
column_key col = last_of (split_on b'.' col)

-- The columns with the cells of a row, into an object that has some fields already.
unfoldable pub row_object : Fields → List Text → List JsonValue → Fields
unfolding column_key set_field
row_object obj [] cells = obj
row_object obj (col ∷ cols) [] = obj
row_object obj (col ∷ cols) (cell ∷ cells) =
    row_object (set_field (column_key col) cell obj) cols cells

-- `map_err` of a row that is not deserialized
abbrev typed_row {ℓ} : {T : Type ℓ} → Result Text T → Result Error T
typed_row (ok t) = ok t
typed_row (err e) = err (query (codes "row deserialization failed: " ++ e))

unfoldable pub rows_to_typed {ℓ} :
    {T : Type ℓ}
    → (JsonValue → Result Text T)
    → List Text
    → List (List JsonValue)
    → Result Error (List T)
unfolding row_object
rows_to_typed from_value columns [] = ok []
rows_to_typed from_value columns (row ∷ rows) = do
  typed ← typed_row (from_value (object (row_object end columns row)))
  out ← rows_to_typed from_value columns rows
  ok (typed ∷ out)

module _ {D F : Type 0} (db : Database D F) where
  -- `json_params`, for one value and for all.
  unfoldable pub param_value : Text → JsonValue → Result Error (ParamValue F)
  param_value name (string s) = ok (text s)
  param_value name (boolean b) = ok (bool b)
  param_value name (number n) = elim (db.as_i64 n) [
    | some i ↦ ok (int i)
    | none ↦ elim (db.as_f64 n) [
      | some x ↦ ok (float x)
      | none ↦ err (
          invalid_input
            (codes "query parameter " ++ (db.debug name ++ codes " has an unrepresentable number")))
    ]
  ]
  param_value name other = err (
      invalid_input (
        codes "query parameter "
        ++ (db.debug name ++ (codes " has unsupported type " ++ json_type_name other))))

  unfoldable pub json_params : Fields → Result Error (Params F)
  unfolding param_value
  json_params end = ok []
  json_params (field name value rest) = do
    v ← param_value name value
    out ← json_params rest
    ok ((name, v) ∷ out)
