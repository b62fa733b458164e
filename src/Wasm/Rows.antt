-- ===== src/Wasm/Rows.antt =====
-- src/wasm/host_functions.cpp: RowToJson, JsonToRow and SchemaFromJson. The JSON library is a
-- parameter: how its values are made, and what they are made of.
pub mod RoundTrip
mod Tests
use origindb.Prelude.{
  ℕ, ◌+◌, ◌-◌, ◌/◌, ◌%◌, ◌^◌, Bool, true, false, Option, none, some, Text, List, [], ◌∷◌, ltb,
  if◌then◌else◌, Assoc, insert_sorted, assign,
}
use origindb.Table.{
  Value, null, int32, int64, float, double, string, bytes, boolean, timestamp, Row, DataType,
  no_default, Column, TableSchema,
}
use origindb.Document.{
  Kind, json_null, json_boolean, json_integer, json_floating, bytes_object, json_string, nested,
  json_binary, JsonLibrary, sign_extended,
}
use origindb.Wasm.Base64.{base64_encode, base64_decode}

-- `duration_cast` to milliseconds, which rounds towards zero.
unfoldable pub milliseconds : ℕ → ℕ
milliseconds n = if ltb n (2 ^ 63) then n / 1000000 else (2 ^ 64 - (2 ^ 64 - n) / 1000000) % 2 ^ 64

abbrev pub bytes_or_null : Option Text → Value
bytes_or_null none = null
bytes_or_null (some v) = bytes v

unfoldable pub value_of_kind : Kind → Value
unfolding base64_decode
value_of_kind json_null = null
value_of_kind (json_boolean v) = boolean v
value_of_kind (json_integer v) = int64 v
value_of_kind (json_floating v) = double v
value_of_kind (bytes_object text) = bytes_or_null (base64_decode text)
value_of_kind (json_string v) = string v
value_of_kind (nested text) = string text
value_of_kind (json_binary v text) = string text

unfoldable pub type_of_kind : Kind → DataType
type_of_kind (json_boolean v) = DataType.boolean
type_of_kind (json_integer v) = DataType.int64
type_of_kind (json_floating v) = DataType.double
type_of_kind _ = DataType.string

module _ {J : Type 0} (json : JsonLibrary J) where
  -- The lambda of RowToJson.
  unfoldable pub json_of_value : Value → J
  unfolding sign_extended milliseconds base64_encode
  json_of_value null = json.of_null
  json_of_value (int32 v) = json.of_integer (sign_extended v)
  json_of_value (int64 v) = json.of_integer v
  json_of_value (float v) = json.of_floating (json.widened v)
  json_of_value (double v) = json.of_floating v
  json_of_value (string v) = json.of_string v
  json_of_value (bytes v) = json.of_bytes_text (base64_encode v)
  json_of_value (boolean v) = json.of_boolean v
  json_of_value (timestamp v) = json.of_integer (milliseconds v)

  unfoldable pub members_of_columns : Assoc Value → Assoc J → Assoc J
  unfolding json_of_value
  members_of_columns [] obj = obj
  members_of_columns ((name, value) ∷ columns) obj =
      members_of_columns columns (insert_sorted name (json_of_value value) obj)

  unfoldable pub row_to_json : Row → J
  unfolding members_of_columns
  row_to_json row = json.of_members (members_of_columns row.columns [])

  unfoldable pub columns_of_members : Assoc J → Assoc Value → Assoc Value
  unfolding value_of_kind
  columns_of_members [] columns = columns
  columns_of_members ((name, v) ∷ members) columns =
      columns_of_members members (assign name (value_of_kind (json.kind v)) columns)

  -- `columns` is an object, as HostTableWrite has tested.
  unfoldable pub json_to_row : Text → J → Row
  unfolding columns_of_members
  json_to_row key columns = record {
    key = key;
    columns = columns_of_members (json.members columns) [];
    version = 0;
    timestamp = 0;
  }

  unfoldable pub schema_columns : Assoc J → List Column
  unfolding type_of_kind
  schema_columns [] = []
  schema_columns ((name, v) ∷ members) =
      record {
        name = name;
        type = type_of_kind (json.kind v);
        nullable = true;
        is_primary_key = false;
        default_value = no_default;
      }
      ∷ schema_columns members

  unfoldable pub schema_from_json : Text → J → TableSchema
  unfolding schema_columns
  schema_from_json table columns = record {
    name = table;
    columns = schema_columns (json.members columns);
    primary_key = [];
    options = [];
  }
