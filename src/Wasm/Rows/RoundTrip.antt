-- ===== src/Wasm/Rows/RoundTrip.antt =====
-- What JsonToRow of src/wasm/host_functions.cpp reads of what RowToJson writes.
use origindb.Prelude.{
  ℕ, Bool-cases, inl, inr, if◌then◌else◌, ◌≡◌, refl, ap, Option, none, some, Text, [], ◌∷◌, All,
  IsByte, text_eq_iff, arith, Assoc, find, assign, insert_sorted, IsSorted, IsSorted-Distinct,
  Distinct, find-assign, find-insert_sorted, insert_sorted-IsSorted,
}
use mathlib.Core.Option
use origindb.Table.{
  Value, null, int32, int64, float, double, string, bytes, boolean, timestamp, Row,
}
use origindb.Wasm.Base64.RoundTrip.{base64_decode-encode}
use origindb.Document.{JsonLibrary, sign_extended, is_finite, map_values, IsDocumented, IsTextual}
use origindb.Document.Members.{members_reread, map_values-IsSorted, find-map_values}
use origindb.Wasm.Rows.{
  milliseconds, json_of_value, members_of_columns, row_to_json, value_of_kind, columns_of_members,
  json_to_row,
}
use origindb.Wasm.Base64.{base64_encode}

module _ {J : Type 0} (json : JsonLibrary J) where
  abbrev pub finite_or_null : ℕ → Value
  finite_or_null v = if is_finite v then double v else null

  -- The value that comes back: numbers become the wide ones, but null where they are not finite, and a
  -- time its milliseconds.
  abbrev pub converted : Value → Value
  converted (int32 v) = int64 (sign_extended v)
  converted (float v) = finite_or_null (json.widened v)
  converted (double v) = finite_or_null v
  converted (timestamp v) = int64 (milliseconds v)
  converted v = v

  -- The elements of a `std::vector<uint8_t>` are bytes.
  abbrev pub HasBytes : Value → Type 0
  HasBytes (bytes v) = All IsByte v
  HasBytes _ = Unit {0}

  module _ (doc : IsDocumented json) (texts : IsTextual json) where
    value_of-floating :
        (v : ℕ) → value_of_kind (json.kind (texts.reread (json.of_floating v))) ≡ finite_or_null v
    unfolding value_of_kind
    value_of-floating v = elim (Bool-cases (is_finite v)) [
      | inl h ↦ rw (texts.reread_floating v, h, doc.floating_kind v) refl
      | inr h ↦ rw (texts.reread_floating v, h, doc.null_kind) refl
    ]

    value_of-json :
        (v : Value)
        → HasBytes v
        → value_of_kind (json.kind (texts.reread (json_of_value json v))) ≡ converted v
    unfolding value_of_kind json_of_value
    value_of-json null h = rw (texts.reread_null, doc.null_kind) refl
    value_of-json (int32 v) h =
        rw (texts.reread_integer (sign_extended v), doc.integer_kind (sign_extended v)) refl
    value_of-json (int64 v) h = rw (texts.reread_integer v, doc.integer_kind v) refl
    value_of-json (float v) h = value_of-floating (json.widened v)
    value_of-json (double v) h = value_of-floating v
    value_of-json (string v) h = rw (texts.reread_string v, doc.string_kind v) refl
    value_of-json (bytes v) h =
        rw
          (
            texts.reread_bytes_text (base64_encode v),
            doc.bytes_kind (base64_encode v),
            base64_decode-encode v h,
          )
          refl
    value_of-json (boolean v) h = rw (texts.reread_boolean v, doc.boolean_kind v) refl
    value_of-json (timestamp v) h =
        rw (texts.reread_integer (milliseconds v), doc.integer_kind (milliseconds v)) refl

  members-IsSorted :
      (columns : Assoc Value) (obj : Assoc J)
      → IsSorted obj
      → IsSorted (members_of_columns json columns obj)
  unfolding members_of_columns
  members-IsSorted [] obj s = s
  members-IsSorted ((name, v) ∷ columns) obj s =
      members-IsSorted columns (insert_sorted name (json_of_value json v) obj)
        (insert_sorted-IsSorted name (json_of_value json v) obj s)

  abbrev or_found : {A B : Type 0} → (A → B) → Option A → Option B → Option B
  or_found f none other = other
  or_found f (some a) other = some (f a)

  find-members :
      (c : Text) (columns : Assoc Value) (obj : Assoc J)
      → Distinct columns
      → find c (members_of_columns json columns obj)
        ≡ or_found (json_of_value json) (find c columns) (find c obj)
  unfolding members_of_columns find
  find-members c [] obj d = refl
  find-members c ((name, v) ∷ columns) obj (new, d) = ground (
    arith,
    find-members c columns (insert_sorted name (json_of_value json v) obj) d,
    find-insert_sorted name c (json_of_value json v) obj,
    text_eq_iff name c,
  )

  find-columns :
      (c : Text) (members : Assoc J) (columns : Assoc Value)
      → Distinct members
      → find c (columns_of_members json members columns)
        ≡ or_found (λ j. value_of_kind (json.kind j)) (find c members) (find c columns)
  unfolding columns_of_members find
  find-columns c [] columns d = refl
  find-columns c ((name, j) ∷ members) columns (new, d) = ground (
    arith,
    find-columns c members (assign name (value_of_kind (json.kind j)) columns) d,
    find-assign name c (value_of_kind (json.kind j)) columns,
    text_eq_iff name c,
  )

  -- A row that a module reads and writes back unchanged, as the text that it was given, has the
  -- columns that it had, by name, except that `int32_t` becomes `int64_t`, `float` becomes `double`, a
  -- number that is not finite becomes null, and a time the number of its milliseconds. The JSON
  -- library is as documented, it writes the text of the row, and the columns have different names.
  pub json_to_row-row_to_json :
      (doc : IsDocumented json) (texts : IsTextual json) (key c : Text) (row : Row) (text : Text)
      → Distinct row.columns
      → ((v : Value) → find c row.columns ≡ some v → HasBytes v)
      → json.dump (row_to_json json row) ≡ some text
      → (j : J) × (json.parse text ≡ some j)
        × (find c (json_to_row json key j).columns ≡ Option.map converted (find c row.columns))
  unfolding json_to_row row_to_json
  json_to_row-row_to_json doc texts key c row text d h dumped =
      let members = members_of_columns json row.columns [] in
      let sorted = members-IsSorted row.columns [] tt in
      let reread = map_values texts.reread members in
      (
        texts.reread (json.of_members members),
        texts.parse_dump (json.of_members members) text dumped,
        rw
            (
              members_reread json doc texts members sorted,
              find-columns c reread []
                  (IsSorted-Distinct reread (map_values-IsSorted texts.reread members sorted)),
              find-map_values texts.reread c members,
              find-members c row.columns [] d,
            )
            (unfold find in back (find c row.columns) h),
      )
    where
      back :
          (o : Option Value)
          → ((v : Value) → o ≡ some v → HasBytes v)
          → or_found
              (λ j. value_of_kind (json.kind j))
              (Option.map texts.reread (or_found (json_of_value json) o none))
              none
            ≡ Option.map converted o
      back none h = refl
      back (some v) h = ap some (value_of-json doc texts v (h v refl))
