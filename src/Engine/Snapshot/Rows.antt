-- ===== src/Engine/Snapshot/Rows.antt =====
-- What DeserializeRow of src/storage/storage_engine.cpp reads of what SerializeRow writes.
use origindb.Prelude.{
  ℕ, ◌≡◌, refl, sym, ap, ◌∙◌, Option, none, some, Text, [], ◌∷◌, ◌++◌, append_assoc, append-nil,
  ascii, Assoc, find, insert_sorted, find-last, assign-new, IsSorted, text_eq, text_ltb,
  if◌then◌else◌, Bool-cases, inl, inr,
}
use mathlib.Core.Path.{subst}
use origindb.Table.{
  Value, null, int32, int64, float, double, string, bytes, boolean, timestamp, Row,
}
use origindb.Document.{
  JsonLibrary, sign_extended, is_finite, map_values, set_members, IsDocumented, IsTextual,
}
use origindb.Document.Members.{
  map_values-IsSorted, set_members-sorted, IsSorted-replaced, IsSorted-removed,
}
use origindb.Engine.Documents.{
  value_of_cell, with_cell, cell_of_value, row_document, serialize_row, columns_of_cells,
  row_of_document, parsed, deserialize_row,
}

module _ {J : Type 0} (json : JsonLibrary J) where
  -- What comes back of a value; nothing of bytes, and of a time only that there was a column.
  unfoldable pub restored_value : Value → Option Value
  unfolding sign_extended
  restored_value (int32 v) = some (int64 (sign_extended v))
  restored_value (float v) =
      some (if is_finite (json.widened v) then double (json.widened v) else null)
  restored_value (double v) = some (if is_finite v then double v else null)
  restored_value (bytes v) = none
  restored_value (timestamp v) = some null
  restored_value v = some v

  abbrev pub kept : Text → Option Value → Assoc Value → Assoc Value
  kept name none rest = rest
  kept name (some v) rest = (name, v) ∷ rest

  unfoldable pub restored_columns : Assoc Value → Assoc Value
  unfolding restored_value
  restored_columns [] = []
  restored_columns ((name, v) ∷ columns) = kept name (restored_value v) (restored_columns columns)

  unfoldable pub restored_row : Row → Row
  restored_row row = record {
    key = row.key;
    columns = restored_columns row.columns;
    version = 0;
    timestamp = 0;
  }

  module _ (doc : IsDocumented json) (texts : IsTextual json) where
    floating_cell :
        (v : ℕ)
        → value_of_cell (json.kind (texts.reread (json.of_floating v)))
          ≡ some (if is_finite v then double v else null)
    unfolding value_of_cell
    floating_cell v = elim (Bool-cases (is_finite v)) [
      | inl h ↦ rw (texts.reread_floating v, h, doc.floating_kind v) refl
      | inr h ↦ rw (texts.reread_floating v, h, doc.null_kind) refl
    ]

    value_of_cell-restored :
        (v : Value)
        → value_of_cell (json.kind (texts.reread (cell_of_value json v))) ≡ restored_value v
    unfolding value_of_cell cell_of_value restored_value
    value_of_cell-restored null = rw (texts.reread_null, doc.null_kind) refl
    value_of_cell-restored (int32 v) =
        rw (texts.reread_integer (sign_extended v), doc.integer_kind (sign_extended v)) refl
    value_of_cell-restored (int64 v) = rw (texts.reread_integer v, doc.integer_kind v) refl
    value_of_cell-restored (float v) = floating_cell (json.widened v)
    value_of_cell-restored (double v) = floating_cell v
    value_of_cell-restored (string v) = rw (texts.reread_string v, doc.string_kind v) refl
    value_of_cell-restored (bytes v) = let (t, e) = texts.reread_binary v in rw e refl
    value_of_cell-restored (boolean v) = rw (texts.reread_boolean v, doc.boolean_kind v) refl
    value_of_cell-restored (timestamp v) = rw (texts.reread_null, doc.null_kind) refl

    cells_of : Assoc Value → Assoc J
    cells_of columns = map_values texts.reread (map_values (cell_of_value json) columns)

    columns_of_cells-restored :
        (columns acc : Assoc Value)
        → IsSorted (acc ++ columns)
        → columns_of_cells json (cells_of columns) acc ≡ acc ++ restored_columns columns
    unfolding columns_of_cells cells_of map_values restored_columns
    columns_of_cells-restored [] acc s = sym (append-nil acc)
    columns_of_cells-restored ((name, v) ∷ columns) acc s =
        ap (λ o. columns_of_cells json (cells_of columns) (with_cell name o acc))
          (value_of_cell-restored v)
        ∙ go (restored_value v) (λ acc' s'. columns_of_cells-restored columns acc' s')
      where
        go :
            (o : Option Value)
            → ((acc' : Assoc Value)
                → IsSorted (acc' ++ columns)
                → columns_of_cells json (cells_of columns) acc' ≡ acc' ++ restored_columns columns)
            → columns_of_cells json (cells_of columns) (with_cell name o acc)
              ≡ acc ++ kept name o (restored_columns columns)
        go none rest = rest acc (IsSorted-removed name v acc columns s)
        go (some w) rest =
            let s' = IsSorted-replaced name v w acc columns s in
            ap (λ m. columns_of_cells json (cells_of columns) m)
              (assign-new name w acc (find-last name w acc columns s'))
            ∙ rest (acc ++ (name, w) ∷ [])
                (subst IsSorted (sym (append_assoc acc ((name, w) ∷ []) columns)) s')
            ∙ append_assoc acc ((name, w) ∷ []) (restored_columns columns)

    -- A text that dump writes is read as its value.
    pub parsed-dump :
        (j : J) (text : Text) → json.dump j ≡ some text → parsed json text ≡ some (texts.reread j)
    parsed-dump j [] h = cc (texts.parse_empty, texts.parse_dump j [] h)
    parsed-dump j (c ∷ s) h = texts.parse_dump j (c ∷ s) h

    abbrev row_members : Row → J → J → Assoc J
    row_members row cells key = (ascii "columns", cells) ∷ (ascii "key", key) ∷ []

    row_document-members :
        (row : Row)
        → IsSorted row.columns
        → row_document json row
          ≡ json.of_members (
              row_members row
                (json.of_members (map_values (cell_of_value json) row.columns))
                (json.of_string row.key))
    unfolding row_document set_members insert_sorted text_eq text_ltb
    row_document-members row s =
        ap (λ m. json.of_members (row_members row (json.of_members m) (json.of_string row.key)))
          (set_members-sorted (map_values (cell_of_value json) row.columns) []
            (map_values-IsSorted (cell_of_value json) row.columns s))

    reread-row_document :
        (row : Row)
        → IsSorted row.columns
        → texts.reread (row_document json row)
          ≡ json.of_members
              (row_members row (json.of_members (cells_of row.columns)) (json.of_string row.key))
    unfolding cells_of map_values text_ltb
    reread-row_document row s =
        let cells = json.of_members (map_values (cell_of_value json) row.columns) in
        rw (row_document-members row s) (
          texts.reread_members (row_members row cells (json.of_string row.key)) (refl, tt)
          ∙ rw
              (
                texts.reread_string row.key,
                texts.reread_members (map_values (cell_of_value json) row.columns)
                    (map_values-IsSorted (cell_of_value json) row.columns s),
              )
              refl)

    row_of_document-reread :
        (row : Row)
        → IsSorted row.columns
        → row_of_document json (texts.reread (row_document json row)) ≡ some (restored_row row)
    unfolding row_of_document find text_eq cells_of text_ltb restored_row
    row_of_document-reread row s =
        let cells = map_values texts.reread (map_values (cell_of_value json) row.columns) in
        let sorted : IsSorted cells =
          map_values-IsSorted texts.reread (map_values (cell_of_value json) row.columns)
            (map_values-IsSorted (cell_of_value json) row.columns s) in
        rw
          (
            reread-row_document row s,
            doc.object_members (row_members row (json.of_members cells) (json.of_string row.key))
                (refl, tt),
            doc.string_kind row.key,
            doc.object_members cells sorted,
            columns_of_cells-restored row.columns [] s,
          )
          refl

    -- In IsDocumented and IsTextual, for a row whose columns have ascending names: where SerializeRow does
    -- not throw, DeserializeRow reads its text as the row with that key, with version and timestamp 0
    -- and these columns: every integer as a 64-bit one of the same sign, every finite number that is not an
    -- integer as a double, null for the others and for every time, and no bytes at all.
    pub deserialize_row-serialize_row :
        (row : Row)
        → (text : Text) → IsSorted row.columns
        → serialize_row json row ≡ some text
        → deserialize_row json text ≡ some (restored_row row)
    unfolding serialize_row deserialize_row
    deserialize_row-serialize_row row text s h =
        rw (parsed-dump (row_document json row) text h) (row_of_document-reread row s)
