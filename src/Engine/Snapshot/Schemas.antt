-- ===== src/Engine/Snapshot/Schemas.antt =====
-- What DeserializeSchema of src/storage/storage_engine.cpp reads of what SerializeSchema writes.
use origindb.Prelude.{
  ◌%◌, ◌^◌, ◌≡◌, refl, some, Text, List, [], ◌∷◌, map, ascii, find, text_eq, text_ltb,
  insert_sorted,
}
use origindb.Table.{Column, TableSchema, no_default, type_code, type_of_code}
use origindb.Document.{JsonLibrary, map_values, set_members, IsDocumented, IsTextual}
use origindb.Document.Members.{members_reread}
use origindb.Engine.Documents.{
  column_document, schema_document, serialize_schema, column_of_document, columns_of_documents,
  strings_of, schema_of_document, deserialize_schema,
}
use origindb.Engine.Snapshot.Rows.{parsed-dump}

-- A column comes back without its default.
unfoldable pub restored_column : Column → Column
restored_column col = record {
  name = col.name;
  type = type_of_code (type_code col.type % 2 ^ 32);
  nullable = col.nullable;
  is_primary_key = col.is_primary_key;
  default_value = no_default;
}

-- And a schema without its options.
unfoldable pub restored_schema : TableSchema → TableSchema
restored_schema schema = record {
  name = schema.name;
  columns = map restored_column schema.columns;
  primary_key = schema.primary_key;
  options = [];
}

module _ {J : Type 0} (json : JsonLibrary J) (doc : IsDocumented json)
    (texts : IsTextual json) where
  column_of_document-reread :
      (col : Column)
      → column_of_document json (texts.reread (column_document json col))
        ≡ some (restored_column col)
  unfolding column_of_document column_document restored_column set_members insert_sorted text_eq
      text_ltb find map_values
  column_of_document-reread col =
      rw
        (
          members_reread json doc texts
              ((ascii "is_primary_key", json.of_boolean col.is_primary_key)
                ∷ (ascii "name", json.of_string col.name)
                ∷ (ascii "nullable", json.of_boolean col.nullable)
                ∷ (ascii "type", json.of_integer (type_code col.type))
                ∷ [])
              (refl, (refl, (refl, tt))),
          texts.reread_string col.name,
          doc.string_kind col.name,
          texts.reread_integer (type_code col.type),
          doc.integer_kind (type_code col.type),
          texts.reread_boolean col.nullable,
          doc.boolean_kind col.nullable,
          texts.reread_boolean col.is_primary_key,
          doc.boolean_kind col.is_primary_key,
        )
        refl

  strings_of-reread :
      (ss : List Text) → strings_of json (map texts.reread (map json.of_string ss)) ≡ some ss
  unfolding strings_of
  strings_of-reread [] = refl
  strings_of-reread (s ∷ ss) =
      rw (texts.reread_string s, doc.string_kind s, strings_of-reread ss) refl

  columns_of_documents-reread :
      (cols : List Column)
      → columns_of_documents json (map texts.reread (map (column_document json) cols))
        ≡ some (map restored_column cols)
  unfolding columns_of_documents
  columns_of_documents-reread [] = refl
  columns_of_documents-reread (col ∷ cols) =
      rw (column_of_document-reread col, columns_of_documents-reread cols) refl

  schema_of_document-reread :
      (schema : TableSchema)
      → schema_of_document json (texts.reread (schema_document json schema))
        ≡ some (restored_schema schema)
  unfolding schema_of_document schema_document restored_schema set_members insert_sorted text_eq
      text_ltb find map_values
  schema_of_document-reread schema =
      rw
        (
          members_reread json doc texts
              ((ascii "columns", json.of_array (map (column_document json) schema.columns))
                ∷ (ascii "name", json.of_string schema.name)
                ∷ (ascii "primary_key", json.of_array (map json.of_string schema.primary_key))
                ∷ [])
              (refl, (refl, tt)),
          texts.reread_string schema.name,
          doc.string_kind schema.name,
          texts.reread_array (map json.of_string schema.primary_key),
          doc.array_elements (map texts.reread (map json.of_string schema.primary_key)),
          strings_of-reread schema.primary_key,
          texts.reread_array (map (column_document json) schema.columns),
          doc.array_elements (map texts.reread (map (column_document json) schema.columns)),
          columns_of_documents-reread schema.columns,
        )
        refl

  -- In IsDocumented and IsTextual: where SerializeSchema does not throw, DeserializeSchema reads its text
  -- as the schema, without its options and the defaults of its columns.
  pub deserialize_schema-serialize_schema :
      (schema : TableSchema)
      → (text : Text) → serialize_schema json schema ≡ some text
      → deserialize_schema json text ≡ some (restored_schema schema)
  unfolding serialize_schema deserialize_schema
  deserialize_schema-serialize_schema schema text h =
      rw (parsed-dump json doc texts (schema_document json schema) text h)
        (schema_of_document-reread schema)
