-- ===== src/RowCodec/RoundTrip.antt =====
-- What the row codec writes, it reads back.
use origindb.Prelude.{
  ◌^◌, ◌<◌, ◌≡◌, refl, ◌∙◌, true, false, Text, Assoc, assign, text_eq, text_eq_iff, none, find, [],
  ◌∷◌, ◌++◌, append_assoc, append-nil, length, arith,
}
use origindb.Codec.{ok, put_u8, read_u8}
use origindb.Codec.Laws.{
  Reads, read_u32-put_u32, read_u32-put_count, read_u64-put_u64, read_str-put_string,
  read_bytes-put_bytes,
}
use origindb.Table.{
  Value, null, int32, int64, float, double, string, bytes, boolean, timestamp, Row, Fits, IsValue,
}
use origindb.RowCodec.{
  encode_value, decode_tagged, decode_value, encode_columns, encode_row, decode_columns,
  decode_row_from, decode_row,
}

pub decode_value-encode_value : (v : Value) → IsValue v → Reads decode_value (encode_value v) v
unfolding decode_value decode_tagged encode_value read_u8 put_u8
decode_value-encode_value null h rest = refl
decode_value-encode_value (int32 v) h rest = rw (read_u32-put_u32 v h)
decode_value-encode_value (int64 v) h rest = rw (read_u64-put_u64 v h)
decode_value-encode_value (float v) h rest = rw (read_u32-put_u32 v h)
decode_value-encode_value (double v) h rest = rw (read_u64-put_u64 v h)
decode_value-encode_value (string s) h rest = rw (read_str-put_string s h)
decode_value-encode_value (bytes s) h rest = rw (read_bytes-put_bytes s h)
decode_value-encode_value (boolean true) h rest = refl
decode_value-encode_value (boolean false) h rest = refl
decode_value-encode_value (timestamp v) h rest = rw (read_u64-put_u64 v h)

-- The columns of a map: every name and value fits, and no name stands twice.
abbrev pub IsColumns : Assoc Value → Type 0
IsColumns [] = Unit {0}
IsColumns ((name, v) ∷ m) = Fits name × IsValue v × (find name m ≡ none) × IsColumns m

abbrev pub Apart : Assoc Value → Assoc Value → Type 0
Apart done [] = Unit {0}
Apart done ((name, v) ∷ m) = (find name done ≡ none) × Apart done m

assign-fresh :
    (name : Text) (v : Value) (done : Assoc Value)
    → find name done ≡ none
    → assign name v done ≡ done ++ (name, v) ∷ []
unfolding assign find
assign-fresh name v [] h = refl
assign-fresh name v ((j, w) ∷ done) h = ground (arith, assign-fresh name v done)

find-append_none :
    (name k : Text) (v : Value) (done : Assoc Value)
    → find name done ≡ none
    → text_eq k name ≡ false
    → find name (done ++ (k, v) ∷ []) ≡ none
unfolding find
find-append_none name k v [] h e = rw e
find-append_none name k v ((j, w) ∷ done) h e = ground (arith, find-append_none name k v done)

Apart-step :
    (done : Assoc Value) (name : Text) (v : Value) (m : Assoc Value)
    → find name m ≡ none
    → Apart done m
    → Apart (done ++ (name, v) ∷ []) m
unfolding find
Apart-step done name v [] h a = tt
Apart-step done name v ((k, w) ∷ m) h (a, as') = ground (
  arith,
  text_eq_iff k name,
  text_eq_iff name k,
  find-append_none k name v done a,
  Apart-step done name v m,
)

decode_columns-encode_columns :
    (m done : Assoc Value)
    → IsColumns m
    → Apart done m
    → Reads (decode_columns (length m) done) (encode_columns m) (done ++ m)
unfolding decode_columns encode_columns
decode_columns-encode_columns [] done h a rest = rw append-nil
decode_columns-encode_columns ((name, v) ∷ m) done (fits, hv, fresh, hm) (new, am) rest =
    simp (append_assoc, read_str-put_string name fits, decode_value-encode_value v hv)
      (rw (assign-fresh name v done new) (
        decode_columns-encode_columns m (done ++ (name, v) ∷ []) hm
          (Apart-step done name v m fresh am) rest
        ∙ rw append_assoc))

-- A row that the C++ types can hold and whose lengths fit their prefixes.
pub record IsRow (row : Row) : Type 0 where
  pub key : Fits row.key
  pub count : length row.columns < 2 ^ 32
  pub columns : IsColumns row.columns

Apart-nil : (m : Assoc Value) → Apart [] m
unfolding find
Apart-nil [] = tt
Apart-nil ((name, v) ∷ m) = (refl, Apart-nil m)

pub decode_row_from-encode_row :
    (row : Row)
    → IsRow row
    → Reads decode_row_from (encode_row row) (record row { version = 0; timestamp = 0 })
unfolding decode_row_from encode_row
decode_row_from-encode_row row h rest = simp (
  append_assoc,
  read_str-put_string row.key h.key,
  read_u32-put_count (length row.columns) h.count,
  decode_columns-encode_columns row.columns [] h.columns (Apart-nil row.columns),
)

-- Decoding the bytes of a row gives the row back, with its version and its timestamp reset to 0,
-- and bytes that follow the row are ignored. The row's key, names and payloads are shorter than
-- 2^32 bytes, it has fewer than 2^32 columns, and no column name stands twice.
pub decode_row-encode_row :
    (row : Row) (rest : Text)
    → IsRow row
    → decode_row (encode_row row ++ rest) ≡ ok (record row { version = 0; timestamp = 0 })
unfolding decode_row
decode_row-encode_row row rest h = rw (decode_row_from-encode_row row h rest)
