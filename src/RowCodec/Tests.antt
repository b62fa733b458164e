-- ===== src/RowCodec/Tests.antt =====
-- Runs of src/storage/row_codec.cpp.
use origindb.Prelude.{◌≡◌, refl, true, false, [], ◌∷◌, ◌++◌, ascii, arith, find, text_eq}
use origindb.Codec.{
  ok, err, unknown_tag, put_string, put_bytes, put_u32, read_str, read_u32, read_u8, need_take,
}
use origindb.Table.{Row, int32, string, TableSchema, DataType, no_default}
use origindb.RowCodec.{
  encode_columns, decode_row_from, decode_columns, decode_value, decode_tagged, encode_row,
  decode_row,
}
use origindb.RowCodec.RoundTrip.{IsRow, decode_row-encode_row}
use origindb.RowCodec.Schemas.{IsSchema}

abbrev alice : Row
alice = record {
  key = ascii "a";
  columns = (ascii "age", int32 30) ∷ (ascii "name", string (ascii "Al")) ∷ [];
  version = 3;
  timestamp = 7;
}

alice-IsRow : IsRow alice
unfolding find text_eq
alice-IsRow = record {
  key = omega arith;
  count = omega arith;
  columns = (omega arith, omega arith, refl, (omega arith, omega arith, refl, tt));
}

abbrev people : TableSchema
people = record {
  name = ascii "people";
  columns =
      record {
        name = ascii "age";
        type = DataType.int32;
        nullable = true;
        is_primary_key = false;
        default_value = no_default;
      }
      ∷ [];
  primary_key = ascii "id" ∷ [];
  options = [];
}

people-IsSchema : IsSchema people
people-IsSchema = record {
  name = omega arith;
  key_count = omega arith;
  keys = (omega arith, tt);
  column_count = omega arith;
  columns = (record { name = omega arith; type = tt }, tt);
}

bare-IsRow : IsRow (record alice { columns = [] })
bare-IsRow = record { key = omega arith; count = omega arith; columns = tt }

bare-bytes :
    encode_row (record alice { columns = [] }) ≡ (1 ∷ 0 ∷ 0 ∷ 0 ∷ 97 ∷ 0 ∷ 0 ∷ 0 ∷ []) ++ 0 ∷ []
unfolding encode_row encode_columns put_string put_bytes put_u32
bare-bytes = refl

-- A value tag that the format does not have.
unknown : decode_row (0 ∷ 0 ∷ 0 ∷ 0 ∷ 1 ∷ 0 ∷ 0 ∷ 0 ∷ 0 ∷ 0 ∷ 0 ∷ 0 ∷ 9 ∷ []) ≡ err unknown_tag
unfolding decode_row decode_row_from decode_columns decode_value decode_tagged read_str read_u32
    read_u8 need_take
unknown = refl

decode_row-encode_row_example :
    decode_row (encode_row alice ++ ascii "rest") ≡ ok (record alice { version = 0; timestamp = 0 })
decode_row-encode_row_example = decode_row-encode_row alice (ascii "rest") alice-IsRow
