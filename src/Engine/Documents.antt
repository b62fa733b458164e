-- ===== src/Engine/Documents.antt =====
-- src/storage/storage_engine.cpp: SerializeSchema, DeserializeSchema, SerializeRow and DeserializeRow,
-- which write schemas and rows as JSON. None is an exception.
use origindb.Prelude.{
  ℕ, ◌%◌, ◌^◌, Bool, Option, none, some, Text, List, [], ◌∷◌, map, ascii, Assoc, find, assign,
}
use origindb.Table.{
  Value, null, int32, int64, float, double, string, bytes, boolean, timestamp, Row, Column,
  TableSchema, no_default, type_code, type_of_code,
}
use origindb.Document.{
  Kind, json_null, json_boolean, json_integer, json_floating, bytes_object, json_string, nested,
  json_binary, JsonLibrary, sign_extended, map_values, set_members,
}

infixl 1 ◌>>=◌
abbrev pub ◌>>=◌ {ℓ κ} : {A : Type ℓ} {B : Type κ} → Option A → (A → Option B) → Option B
none >>= f = none
some a >>= f = f a

abbrev pub as_string : Kind → Option Text
as_string (json_string s) = some s
as_string _ = none

abbrev pub as_boolean : Kind → Option Bool
as_boolean (json_boolean b) = some b
as_boolean _ = none

-- A number that is written as a type is an integer.
abbrev pub as_integer : Kind → Option ℕ
as_integer (json_integer n) = some n
as_integer _ = none

-- DeserializeRow's value of a column; none where no branch takes it and the column is left out.
unfoldable pub value_of_cell : Kind → Option Value
value_of_cell json_null = some null
value_of_cell (json_string v) = some (string v)
value_of_cell (json_integer v) = some (int64 v)
value_of_cell (json_floating v) = some (double v)
value_of_cell (json_boolean v) = some (boolean v)
value_of_cell (json_binary v text) = some (bytes v)
value_of_cell (bytes_object text) = none
value_of_cell (nested text) = none

abbrev pub with_cell : Text → Option Value → Assoc Value → Assoc Value
with_cell name none columns = columns
with_cell name (some v) columns = assign name v columns

module _ {J : Type 0} (json : JsonLibrary J) where
  -- The lambda of SerializeRow.
  unfoldable pub cell_of_value : Value → J
  unfolding sign_extended
  cell_of_value null = json.of_null
  cell_of_value (int32 v) = json.of_integer (sign_extended v)
  cell_of_value (int64 v) = json.of_integer v
  cell_of_value (float v) = json.of_floating (json.widened v)
  cell_of_value (double v) = json.of_floating v
  cell_of_value (string v) = json.of_string v
  cell_of_value (bytes v) = json.of_binary v
  cell_of_value (boolean v) = json.of_boolean v
  cell_of_value (timestamp v) = json.of_null

  unfoldable pub row_document : Row → J
  unfolding cell_of_value set_members map_values
  row_document row = json.of_members (
      set_members
        ((ascii "key", json.of_string row.key)
          ∷ (
            ascii "columns",
            json.of_members (set_members (map_values cell_of_value row.columns) []),
          )
          ∷ [])
        [])

  unfoldable pub serialize_row : Row → Option Text
  unfolding row_document
  serialize_row row = json.dump (row_document row)

  abbrev pub member : Text → J → Option J
  member name j = find name (json.members j)

  abbrev pub string_member : Text → J → Option Text
  string_member name j = member name j >>= λ v. as_string (json.kind v)

  -- `operator[]` makes a missing member null, which has no members.
  abbrev pub members_or_none : Option J → Assoc J
  members_or_none none = []
  members_or_none (some j) = json.members j

  unfoldable pub columns_of_cells : Assoc J → Assoc Value → Assoc Value
  unfolding value_of_cell
  columns_of_cells [] columns = columns
  columns_of_cells ((name, v) ∷ cells) columns =
      columns_of_cells cells (with_cell name (value_of_cell (json.kind v)) columns)

  unfoldable pub row_of_document : J → Option Row
  unfolding columns_of_cells
  row_of_document j = string_member (ascii "key") j >>= λ key. some (record {
    key = key;
    columns = columns_of_cells (members_or_none (member (ascii "columns") j)) [];
    version = 0;
    timestamp = 0;
  })

  -- Empty data is an exception too.
  abbrev pub parsed : Text → Option J
  parsed [] = none
  parsed (c ∷ s) = json.parse (c ∷ s)

  unfoldable pub deserialize_row : Text → Option Row
  unfolding row_of_document
  deserialize_row text = parsed text >>= row_of_document

  unfoldable pub column_document : Column → J
  unfolding set_members
  column_document col = json.of_members (
      set_members
        ((ascii "name", json.of_string col.name)
          ∷ (ascii "type", json.of_integer (type_code col.type))
          ∷ (ascii "nullable", json.of_boolean col.nullable)
          ∷ (ascii "is_primary_key", json.of_boolean col.is_primary_key)
          ∷ [])
        [])

  unfoldable pub schema_document : TableSchema → J
  unfolding column_document set_members
  schema_document schema = json.of_members (
      set_members
        ((ascii "name", json.of_string schema.name)
          ∷ (ascii "columns", json.of_array (map column_document schema.columns))
          ∷ (ascii "primary_key", json.of_array (map json.of_string schema.primary_key))
          ∷ [])
        [])

  unfoldable pub serialize_schema : TableSchema → Option Text
  unfolding schema_document
  serialize_schema schema = json.dump (schema_document schema)

  unfoldable pub column_of_document : J → Option Column
  unfolding type_of_code
  column_of_document j = do
    name ← string_member (ascii "name") j
    type ← (member (ascii "type") j >>= λ v. as_integer (json.kind v))
    nullable ← (member (ascii "nullable") j >>= λ v. as_boolean (json.kind v))
    is_primary_key ← (member (ascii "is_primary_key") j >>= λ v. as_boolean (json.kind v))
    some (record {
      name = name;
      type = type_of_code (type % 2 ^ 32);
      nullable = nullable;
      is_primary_key = is_primary_key;
      default_value = no_default;
    })

  unfoldable pub columns_of_documents : List J → Option (List Column)
  unfolding column_of_document
  columns_of_documents [] = some []
  columns_of_documents (j ∷ js) = do
    col ← column_of_document j
    columns ← columns_of_documents js
    some (col ∷ columns)

  unfoldable pub strings_of : List J → Option (List Text)
  strings_of [] = some []
  strings_of (j ∷ js) = do s ← as_string (json.kind j); rest ← strings_of js; some (s ∷ rest)

  abbrev pub elements_or_none : Option J → List J
  elements_or_none none = []
  elements_or_none (some j) = json.elements j

  unfoldable pub schema_of_document : J → Option TableSchema
  unfolding strings_of columns_of_documents
  schema_of_document j = do
    name ← string_member (ascii "name") j
    keys ← member (ascii "primary_key") j
    primary_key ← strings_of (json.elements keys)
    columns ← columns_of_documents (elements_or_none (member (ascii "columns") j))
    some (record { name = name; columns = columns; primary_key = primary_key; options = [] })

  unfoldable pub deserialize_schema : Text → Option TableSchema
  unfolding schema_of_document
  deserialize_schema text = parsed text >>= schema_of_document
