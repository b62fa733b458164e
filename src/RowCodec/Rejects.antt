-- ===== src/RowCodec/Rejects.antt =====
-- What the row codec refuses: a buffer that ends inside a row or a schema.
use origindb.Prelude.{◌==◌, ℕ, zero, suc, ◌≡◌, Text, Assoc, [], ◌∷◌, ◌++◌, append-nil}
use origindb.Codec.{err, truncated}
use origindb.Codec.Local.{
  IsLocal, bind-IsLocal, pure-IsLocal, raise-IsLocal, if-IsLocal, read_u8-IsLocal, read_u32-IsLocal,
  read_u64-IsLocal, read_str-IsLocal, read_bytes-IsLocal, truncated_of_IsLocal,
}
use origindb.Table.{Value, Row}
use origindb.RowCodec.{
  decode_tagged, decode_value, decode_columns, decode_row_from, decode_row, encode_row,
}
use origindb.RowCodec.RoundTrip.{IsRow, decode_row_from-encode_row}

ruleset local_rules = (
  bind-IsLocal, pure-IsLocal, raise-IsLocal, read_u8-IsLocal, read_u32-IsLocal, read_u64-IsLocal,
  read_str-IsLocal, read_bytes-IsLocal,
)

decode_tagged-IsLocal : (tag : ℕ) → IsLocal (decode_tagged tag)
unfolding decode_tagged
decode_tagged-IsLocal tag = if-IsLocal (tag == 0) (search local_rules) (
    if-IsLocal (tag == 1) (search local_rules) (
      if-IsLocal (tag == 2) (search local_rules) (
        if-IsLocal (tag == 3) (search local_rules) (
          if-IsLocal (tag == 4) (search local_rules) (
            if-IsLocal (tag == 5) (search local_rules) (
              if-IsLocal (tag == 6) (search local_rules) (
                if-IsLocal (tag == 7) (search local_rules)
                  (if-IsLocal (tag == 8) (search local_rules) raise-IsLocal))))))))

decode_value-IsLocal : IsLocal decode_value
unfolding decode_value
decode_value-IsLocal = search (local_rules, decode_tagged-IsLocal)

decode_columns-IsLocal : (n : ℕ) (columns : Assoc Value) → IsLocal (decode_columns n columns)
unfolding decode_columns
decode_columns-IsLocal zero columns = pure-IsLocal columns
decode_columns-IsLocal (suc n) columns =
    search (local_rules, decode_value-IsLocal, decode_columns-IsLocal n)

decode_row_from-IsLocal : IsLocal decode_row_from
unfolding decode_row_from
decode_row_from-IsLocal = search (local_rules, decode_columns-IsLocal) depth 8

-- A buffer that holds only a front of the bytes of a row, with at least one byte missing, is
-- refused as truncated: no proper prefix of an encoded row decodes to anything. The row fits the
-- codec.
pub decode_row_truncated :
    (row : Row) (front : Text) (x : ℕ) (back : Text)
    → IsRow row
    → encode_row row ≡ front ++ x ∷ back
    → decode_row front ≡ err truncated
unfolding decode_row
decode_row_truncated row front x back h e = rw (
    truncated_of_IsLocal decode_row_from _ front x back decode_row_from-IsLocal
      (rw (append-nil, e) at (decode_row_from-encode_row row h [])))
