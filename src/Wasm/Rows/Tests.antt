-- ===== src/Wasm/Rows/Tests.antt =====
-- A run of RowToJson and JsonToRow.
use origindb.Prelude.{
  ◌^◌, ◌-◌, ◌≡◌, refl, ap, Option, some, none, [], ◌∷◌, ascii, find, text_eq, arith, Text,
}
use mathlib.Core.Option
use mathlib.Core.Path.{subst}
use origindb.Table.{Value, null, int32, bytes, Row}
use origindb.Document.Sample.Library.{
  sample_library, sample_library-IsDocumented, sample_library-IsTextual,
}
use origindb.Document.Sample.{Sample}
use origindb.Wasm.Rows.{json_to_row, row_to_json}
use origindb.Wasm.Rows.RoundTrip.{converted, HasBytes, json_to_row-row_to_json}

abbrev avatar : Row
avatar = record {
  key = ascii "7";
  columns = (ascii "name", bytes (ascii "Ada")) ∷ (ascii "age", int32 (2 ^ 32 - 1)) ∷ [];
  version = 3;
  timestamp = 9;
}

abbrev or_null : Option Value → Value
or_null none = null
or_null (some v) = v

name_bytes : (v : Value) → find (ascii "name") avatar.columns ≡ some v → HasBytes sample_library v
unfolding find text_eq
name_bytes v h =
    let ada : HasBytes sample_library (bytes (ascii "Ada")) = omega arith in
    subst (HasBytes sample_library) (ap or_null h) ada

abbrev text_of : Option Text → Text
text_of none = []
text_of (some text) = text

json_to_row-row_to_json_example :
    (j : Sample) × (sample_library.parse
        (text_of (sample_library.dump (row_to_json sample_library avatar)))
      ≡ some j)
    × (find (ascii "name") (json_to_row sample_library (ascii "7") j).columns
        ≡ Option.map (converted sample_library) (find (ascii "name") avatar.columns))
json_to_row-row_to_json_example =
    json_to_row-row_to_json sample_library sample_library-IsDocumented sample_library-IsTextual
      (ascii "7") (ascii "name") avatar
      (text_of (sample_library.dump (row_to_json sample_library avatar)))
      (unfold find text_eq in (refl, (refl, tt))) name_bytes (unfold sample_library in refl)
