-- ===== src/RowCodec.antt =====
-- src/storage/row_codec.cpp: rows and schemas as bytes. A `do` block stands for a body that may
-- throw. `reserve` has no effect that a caller sees and is left out. The clock's period is the
-- nanosecond (libstdc++), so the two casts of a time point keep its count.
pub mod RoundTrip
pub mod Schemas
pub mod Rejects
mod Tests
use origindb.Prelude.{
  ℕ, zero, suc, ◌^◌, ◌%◌, Bool, Text, Assoc, assign, not, List, [], ◌∷◌, ◌++◌, length, ◌==◌, true,
  false, if◌then◌else◌,
}
use origindb.Codec.{
  Reader, Result, ok, err, unknown_tag, bind, pure, raise, ◌>>=◌, put_u8, put_u32, put_u64,
  put_bytes, put_string, read_u8, read_u32, read_u64, read_str, read_bytes,
}
use origindb.Table.{
  Value, null, int32, int64, float, double, string, bytes, boolean, timestamp, Row, Column,
  TableSchema, type_code, type_of_code, no_default,
}

-- `v ? 1 : 0`
unfoldable pub bool_byte : Bool → ℕ
bool_byte true = 1
bool_byte false = 0

-- A number of four or eight bytes is copied as it lies in memory, lowest byte first.
unfoldable pub encode_value : Value → Text
unfolding bool_byte
encode_value null = put_u8 0
encode_value (int32 v) = put_u8 1 ++ put_u32 v
encode_value (int64 v) = put_u8 2 ++ put_u64 v
encode_value (float v) = put_u8 3 ++ put_u32 v
encode_value (double v) = put_u8 4 ++ put_u64 v
encode_value (string s) = put_u8 5 ++ put_string s
encode_value (bytes s) = put_u8 6 ++ put_bytes s
encode_value (boolean b) = put_u8 7 ++ put_u8 (bool_byte b)
encode_value (timestamp v) = put_u8 8 ++ put_u64 v

unfoldable pub decode_tagged : ℕ → Reader Value
decode_tagged tag =
    if tag == 0
    then pure null
    else if tag == 1
    then (do v ← read_u32; pure (int32 v))
    else if tag == 2
    then (do v ← read_u64; pure (int64 v))
    else if tag == 3
    then (do v ← read_u32; pure (float v))
    else if tag == 4
    then (do v ← read_u64; pure (double v))
    else if tag == 5
    then (do s ← read_str; pure (string s))
    else if tag == 6
    then (do s ← read_bytes; pure (bytes s))
    else if tag == 7
    then (do b ← read_u8; pure (boolean (not (b == 0))))
    else if tag == 8
    then (do v ← read_u64; pure (timestamp v))
    else raise unknown_tag

unfoldable pub decode_value : Reader Value
decode_value = do tag ← read_u8; decode_tagged tag

unfoldable pub encode_columns : Assoc Value → Text
encode_columns [] = []
encode_columns ((name, value) ∷ rest) =
    put_string name ++ (encode_value value ++ encode_columns rest)

unfoldable pub encode_row : Row → Text
encode_row row =
    put_string row.key ++ (put_u32 (length row.columns % 2 ^ 32) ++ encode_columns row.columns)

-- `for (i = 0; i < count; i++) row.columns[name] = DecodeValue(r)`, over the rounds that are left.
unfoldable pub decode_columns : ℕ → Assoc Value → Reader (Assoc Value)
decode_columns zero columns = pure columns
decode_columns (suc n) columns = do
  name ← read_str
  value ← decode_value
  decode_columns n (assign name value columns)

unfoldable pub decode_row_from : Reader Row
decode_row_from = do
  key ← read_str
  count ← read_u32
  columns ← decode_columns count []
  pure (record { key = key; columns = columns; version = 0; timestamp = 0 })

-- `DecodeRow(data, len)`: what the reader has not reached is dropped.
unfoldable pub decode_row : Text → Result Row
decode_row data' = bind (decode_row_from data') λ (row, rest). ok row

unfoldable pub encode_names : List Text → Text
encode_names [] = []
encode_names (pk ∷ rest) = put_string pk ++ encode_names rest

unfoldable pub encode_schema_columns : List Column → Text
encode_schema_columns [] = []
encode_schema_columns (col ∷ rest) =
    put_string col.name
    ++ (put_u8 (type_code col.type)
        ++ (put_u8 (bool_byte col.nullable)
            ++ (put_u8 (bool_byte col.is_primary_key) ++ encode_schema_columns rest)))

unfoldable pub encode_schema : TableSchema → Text
encode_schema schema =
    put_string schema.name
    ++ (put_u32 (length schema.primary_key % 2 ^ 32)
        ++ (encode_names schema.primary_key
            ++ (put_u32 (length schema.columns % 2 ^ 32) ++ encode_schema_columns schema.columns)))

-- `push_back` in a loop: what was pushed, and the rounds that are left.
unfoldable pub decode_names : ℕ → List Text → Reader (List Text)
decode_names zero names = pure names
decode_names (suc n) names = do name ← read_str; decode_names n (names ++ name ∷ [])

unfoldable pub decode_column : Reader Column
decode_column = do
  name ← read_str
  type ← read_u8
  nullable ← read_u8
  key ← read_u8
  pure (record {
    name = name;
    type = type_of_code type;
    nullable = not (nullable == 0);
    is_primary_key = not (key == 0);
    default_value = no_default;
  })

unfoldable pub decode_schema_columns : ℕ → List Column → Reader (List Column)
decode_schema_columns zero columns = pure columns
decode_schema_columns (suc n) columns = do
  col ← decode_column
  decode_schema_columns n (columns ++ col ∷ [])

unfoldable pub decode_schema_from : Reader TableSchema
decode_schema_from = do
  name ← read_str
  pk_count ← read_u32
  primary_key ← decode_names pk_count []
  col_count ← read_u32
  columns ← decode_schema_columns col_count []
  pure (record { name = name; columns = columns; primary_key = primary_key; options = [] })

unfoldable pub decode_schema : Text → Result TableSchema
decode_schema data' = bind (decode_schema_from data') λ (schema, rest). ok schema
