-- ===== src/SqlEngine/Results.antt =====
-- src/sql/sql_engine.cpp and include/sql/sql_engine.h: the answers of the SQL engine, and the values of
-- a statement as the columns of a row.
use origindb.Prelude.{
  ℕ, ◌-◌, ◌^◌, Bool, true, false, Text, List, [], ◌∷◌, ◌++◌, ltb, if◌then◌else◌, ascii, to_text,
  Assoc, assign,
}
use origindb.Table.{Value, Row, DataType, Column}

pub record ResultColumn : Type 0 where
  pub name : Text
  pub type : Text
  pub nullable : Bool

-- `needs_redirect` and `leader_address` keep their defaults.
pub record SqlResult : Type 0 where
  pub success : Bool
  pub error : Text
  pub columns : List ResultColumn
  pub rows : List Row
  pub rows_affected : ℕ
  pub execution_time_ms : ℕ

abbrev pub failed : Text → SqlResult
failed error = record {
  success = false;
  error = error;
  columns = [];
  rows = [];
  rows_affected = 0;
  execution_time_ms = 0;
}

-- `{true, "", {}, {}, affected, time}`
abbrev pub done : ℕ → ℕ → SqlResult
done affected time = record {
  success = true;
  error = [];
  columns = [];
  rows = [];
  rows_affected = affected;
  execution_time_ms = time;
}

unfoldable pub data_type_to_string : DataType → Text
data_type_to_string DataType.int32 = ascii "INT32"
data_type_to_string DataType.int64 = ascii "INT64"
data_type_to_string DataType.float = ascii "FLOAT"
data_type_to_string DataType.double = ascii "DOUBLE"
data_type_to_string DataType.string = ascii "STRING"
data_type_to_string DataType.bytes = ascii "BYTES"
data_type_to_string DataType.boolean = ascii "BOOLEAN"
data_type_to_string DataType.timestamp = ascii "TIMESTAMP"
data_type_to_string DataType.json = ascii "JSON"
data_type_to_string (DataType.unnamed n) = ascii "UNKNOWN"

-- `std::to_string` of an int64_t.
unfoldable pub signed_text : ℕ → Text
signed_text n = if ltb n (2 ^ 63) then to_text n else ascii "-" ++ to_text (2 ^ 64 - n)

-- `columns[i] = values[i]` for each index that both have.
unfoldable pub set_columns : List Text → List Value → Assoc Value → Assoc Value
set_columns [] values columns = columns
set_columns (name ∷ names) [] columns = columns
set_columns (name ∷ names) (v ∷ values) columns = set_columns names values (assign name v columns)

-- The loop of ExecuteSelect.
abbrev pub collect_row : List Row → Text → Row → List Row × Bool
collect_row rows key row = (rows ++ row ∷ [], true)

unfoldable pub result_columns : List Column → List ResultColumn
unfolding data_type_to_string
result_columns [] = []
result_columns (col ∷ columns) =
    record { name = col.name; type = data_type_to_string col.type; nullable = col.nullable }
    ∷ result_columns columns
