-- ===== src/RowCodec/Schemas.antt =====
-- The schema codec of src/storage/row_codec.cpp reads back what it writes.
use origindb.Prelude.{
  ◌==◌, ◌^◌, ◌<◌, ◌≡◌, refl, ◌∙◌, Bool, true, false, Text, List, [], ◌∷◌, ◌++◌, append_assoc,
  append-nil, length, All, arith, map, not,
}
use origindb.Codec.{ok, put_u8, read_u8}
use origindb.Codec.Laws.{Reads, read_u8-put_u8, read_u32-put_count, read_str-put_string}
use origindb.Table.{
  DataType, int32, unnamed, Column, TableSchema, Fits, type_code, type_of_code, no_default,
}
use origindb.RowCodec.{
  bool_byte, encode_names, encode_schema_columns, encode_schema, decode_names, decode_column,
  decode_schema_columns, decode_schema_from, decode_schema,
}

-- A type that the enum names, or a cast of a byte that it does not name.
abbrev pub IsDataType : DataType → Type 0
IsDataType (unnamed n) = (8 < n) × (n < 256)
IsDataType _ = Unit {0}

type_code-lt : (t : DataType) → IsDataType t → type_code t < 256
unfolding type_code
type_code-lt (unnamed n) h = h.1
type_code-lt _ h = omega arith

pub type_of_code-type_code : (t : DataType) → IsDataType t → type_of_code (type_code t) ≡ t
unfolding type_of_code type_code
type_of_code-type_code (unnamed n) (lo, hi) = ground arith
type_of_code-type_code int32 h = refl
type_of_code-type_code _ h = refl

read_flag :
    (b : Bool) (rest : Text) → read_u8 (put_u8 (bool_byte b) ++ rest) ≡ ok (bool_byte b, rest)
unfolding read_u8 put_u8 bool_byte
read_flag true rest = refl
read_flag false rest = refl

flag-bool_byte : (b : Bool) → not (bool_byte b == 0) ≡ b
unfolding bool_byte
flag-bool_byte true = refl
flag-bool_byte false = refl

pub record IsColumn (col : Column) : Type 0 where
  pub name : Fits col.name
  pub type : IsDataType col.type

-- The default value of a column is not written.
abbrev pub without_default : Column → Column
without_default col = record col { default_value = no_default }

decode_names-encode_names :
    (names done : List Text)
    → All Fits names
    → Reads (decode_names (length names) done) (encode_names names) (done ++ names)
unfolding decode_names encode_names
decode_names-encode_names [] done h rest = rw append-nil
decode_names-encode_names (name ∷ names) done (fits, hs) rest =
    simp (append_assoc, read_str-put_string name fits)
      (decode_names-encode_names names (done ++ name ∷ []) hs rest ∙ rw append_assoc)

decode_schema_columns-encode_schema_columns :
    (cols done : List Column)
    → All IsColumn cols
    → Reads
        (decode_schema_columns (length cols) done)
        (encode_schema_columns cols)
        (done ++ map without_default cols)
unfolding decode_schema_columns encode_schema_columns decode_column
decode_schema_columns-encode_schema_columns [] done h rest = rw append-nil
decode_schema_columns-encode_schema_columns (col ∷ cols) done (hc, hs) rest =
    simp
      (
        append_assoc,
        read_str-put_string col.name hc.name,
        read_flag,
        flag-bool_byte,
        read_u8-put_u8 (type_code col.type) (type_code-lt col.type hc.type),
        type_of_code-type_code col.type hc.type,
      )
      (decode_schema_columns-encode_schema_columns cols (done ++ without_default col ∷ []) hs rest
        ∙ rw append_assoc)

pub record IsSchema (schema : TableSchema) : Type 0 where
  pub name : Fits schema.name
  pub key_count : length schema.primary_key < 2 ^ 32
  pub keys : All Fits schema.primary_key
  pub column_count : length schema.columns < 2 ^ 32
  pub columns : All IsColumn schema.columns

-- What is kept of a schema: its options and the columns' default values are not written.
abbrev pub stored_schema : TableSchema → TableSchema
stored_schema schema = record schema { columns = map without_default schema.columns; options = [] }

-- Decoding the bytes of a schema gives its name, its primary key and its columns back, without the
-- options and the default values, which are not written; bytes that follow are ignored. Lengths and
-- counts fit their 32-bit prefixes and a type's code fits its byte.
pub decode_schema-encode_schema :
    (schema : TableSchema) (rest : Text)
    → IsSchema schema
    → decode_schema (encode_schema schema ++ rest) ≡ ok (stored_schema schema)
unfolding decode_schema decode_schema_from encode_schema
decode_schema-encode_schema schema rest h = simp (
  append_assoc,
  read_str-put_string schema.name h.name,
  read_u32-put_count (length schema.primary_key) h.key_count,
  decode_names-encode_names schema.primary_key [] h.keys,
  read_u32-put_count (length schema.columns) h.column_count,
  decode_schema_columns-encode_schema_columns schema.columns [] h.columns,
)
