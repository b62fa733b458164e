-- ===== src/Engine/Snapshot/Restore.antt =====
-- What LoadSnapshotIfPresent of src/storage/storage_engine.cpp makes of the tables that WriteSnapshot
-- wrote.
use origindb.Prelude.{
  ℕ, ◌+◌, ◌%◌, ◌^◌, ◌≡◌, refl, sym, ap, ◌∙◌, Option, none, some, Text, List, [], ◌∷◌, ◌++◌,
  append_assoc, append-nil, map, ascii, Assoc, find, assign, find-assign, erase, insert_sorted-last,
  find-last, IsSorted, Distinct, text_eq, text_ltb, text_eq_iff, Option-cases, Bool-cases, inl, inr,
  insert_sorted, if◌then◌else◌,
}
use mathlib.Core.Path.{subst}
use origindb.Table.{Row, TableSchema}
use origindb.MemTable.{MemTable, new_table, insert, store_row, has_row, scan}
use origindb.MemTable.Scan.{visit, range-all, scan-visit}
use origindb.Wal.Log.{Log}
use origindb.Engine.{Json, Engine, Tables, increment}
use origindb.Document.{JsonLibrary, map_values, set_members, IsDocumented, IsTextual}
use origindb.Document.Members.{members_reread, IsSorted-replaced}
use origindb.Engine.Documents.{◌>>=◌, serialize_row, serialize_schema}
use origindb.Engine.Snapshot.{
  add_text, add_row, table_document, table_documents, restore_rows, restore_table, restore_tables,
}
use origindb.Engine.Snapshot.Rows.{restored_row, deserialize_row-serialize_row}
use origindb.Engine.Snapshot.Schemas.{restored_schema, deserialize_schema-serialize_schema}

-- Rows under their own keys, with the columns of each in the order of their names.
abbrev pub AreFiled : Assoc Row → Type 0
AreFiled [] = Unit {0}
AreFiled ((key, row) ∷ rows) = (row.key ≡ key) × IsSorted row.columns × AreFiled rows

-- Tables under the names in their schemas, with their rows filed.
abbrev pub AreTables : Tables → Type 0
AreTables [] = Unit {0}
AreTables ((name, t) ∷ tables) =
    (t.schema.name ≡ name) × AreFiled t.rows × IsSorted t.rows × AreTables tables

abbrev table_of : TableSchema → Assoc Row → MemTable
table_of schema rows = record { schema = schema; rows = rows; indexes = []; json_cache = [] }

pub bind-some {ℓ κ} :
    {A : Type ℓ} {B : Type κ} (o : Option A) (f : A → Option B) {b : B}
    → (o >>= f) ≡ some b
    → (a : A) × (o ≡ some a) × (f a ≡ some b)
bind-some none f h = absurd (cc h)
bind-some (some a) f h = (a, refl, h)

abbrev or_none {ℓ} : {A : Type ℓ} → Option (List A) → List A
or_none none = []
or_none (some l) = l

module _ {J : Type 0} (json : JsonLibrary J) where
  -- What a table comes back as.
  unfoldable pub restored_table : MemTable → MemTable
  restored_table t = table_of (restored_schema t.schema) (map_values (restored_row json) t.rows)

  abbrev pub restored_in : Option MemTable → Option MemTable → Option MemTable
  restored_in none old = old
  restored_in (some t) old = some (restored_table t)

module _ {J : Type 0} (json : JsonLibrary J) (doc : IsDocumented json)
    (texts : IsTextual json) where
  insert_restored :
      (schema : TableSchema) (key : Text) (row : Row) (rows m : Assoc Row)
      → row.key ≡ key
      → IsSorted (rows ++ (key, row) ∷ m)
      → (insert (restored_row json row) (table_of schema rows)).0
        ≡ table_of schema (rows ++ (key, restored_row json row) ∷ [])
  unfolding insert store_row has_row restored_row erase
  insert_restored schema key row rows m at_key s =
      let restored = restored_row json row in
      let s' : IsSorted (rows ++ (row.key, restored) ∷ m) =
        IsSorted-replaced row.key row restored rows m
          (subst (λ k. IsSorted (rows ++ (k, row) ∷ m)) (sym at_key) s) in
      subst
        (λ k.
          (insert restored (table_of schema rows)).0 ≡ table_of schema (rows ++ (k, restored) ∷ []))
        at_key
        (rw (find-last row.key restored rows m s', insert_sorted-last row.key restored rows m s')
          refl)

  -- The rest of a scan behind a row of this text.
  abbrev after_text : Assoc Row → List J → Option Text → Option (List J)
  unfolding visit add_row
  after_text m acc text =
      let (s', more) = add_text json (some acc) text in
      let rest = visit (add_row json) s' m in if more then rest else s'

  -- The rows of a scan, restored behind those that are there.
  restore_rows-add_row :
      (schema : TableSchema) (m : Assoc Row) (acc docs : List J) (rows : Assoc Row) (n : ℕ)
      → AreFiled m
      → IsSorted (rows ++ m)
      → visit (add_row json) (some acc) m ≡ some docs
      → (ds : List J) × (n' : ℕ) × (docs ≡ acc ++ ds)
        × (restore_rows json (map texts.reread ds) (table_of schema rows) n
            ≡ some (table_of schema (rows ++ map_values (restored_row json) m), n'))
  unfolding visit add_row restore_rows map_values
  restore_rows-add_row schema [] acc docs rows n filed s h = (
    [],
    n,
    ap (λ o. or_none o) (sym h) ∙ sym (append-nil acc),
    ap (λ r. some (table_of schema r, n)) (sym (append-nil rows)),
  )
  restore_rows-add_row schema ((key, row) ∷ m) acc docs rows n (at_key, columns, filed) s h =
      elim (Option-cases (serialize_row json row)) [
        | inl e ↦ absurd (cc (ap (after_text m acc) (sym e) ∙ h))
        | inr (text, e) ↦
            let x = json.of_string text in
            let (ds, n', docs_are, restored) =
              restore_rows-add_row schema m (acc ++ x ∷ []) docs
                (rows ++ (key, restored_row json row) ∷ []) ((n + 1) % 2 ^ 64) filed
                (subst IsSorted (sym (append_assoc rows ((key, restored_row json row) ∷ []) m))
                  (IsSorted-replaced key row (restored_row json row) rows m s))
                (ap (after_text m acc) (sym e) ∙ h) in
            (
              x ∷ ds,
              n',
              docs_are ∙ append_assoc acc (x ∷ []) ds,
              rw
                  (
                    texts.reread_string text,
                    doc.string_kind text,
                    deserialize_row-serialize_row json doc texts row text columns e,
                    insert_restored schema key row rows m at_key s,
                  )
                  (restored
                    ∙ ap (λ r. some (table_of schema r, n'))
                        (append_assoc rows ((key, restored_row json row) ∷ [])
                          (map_values (restored_row json) m))),
            )
      ]

  restore_table-table_document :
      (t : MemTable) (j : J) (n : ℕ)
      → AreFiled t.rows
      → IsSorted t.rows
      → table_document json t ≡ some j
      → (n' : ℕ) × (restore_table json (texts.reread j) n
          ≡ some (restored_schema t.schema, restored_table json t, n'))
  unfolding restore_table table_document restored_table new_table set_members insert_sorted text_eq
      text_ltb find map_values
  restore_table-table_document t j n filed sorted h =
      let (schema, written, h') = bind-some (serialize_schema json t.schema) _ h in
      let (docs, scanned, made) = bind-some (scan [] [] (add_row json) (some []) t) _ h' in
      let visited =
        sym (
          scan-visit [] (add_row json) [] (some []) t sorted
          ∙ ap (visit (add_row json) (some [])) (range-all t.rows))
        ∙ scanned in
      let (ds, n', docs_are, restored) =
        restore_rows-add_row (restored_schema t.schema) t.rows [] docs [] n filed sorted visited in
      (
        n',
        ap (λ o. o >>= λ j'. restore_table json (texts.reread j') n) (sym made)
            ∙ rw
                (
                  members_reread json doc texts
                      ((ascii "rows", json.of_array docs)
                        ∷ (ascii "schema", json.of_string schema)
                        ∷ [])
                      (refl, tt),
                  texts.reread_string schema,
                  doc.string_kind schema,
                  deserialize_schema-serialize_schema json doc texts t.schema schema written,
                  texts.reread_array docs,
                  doc.array_elements (map texts.reread docs),
                  docs_are,
                  restored,
                )
                refl,
      )

  -- The first table is found at its own name only, and the others elsewhere.
  restored_in-assign :
      (name k : Text) (t : MemTable) (tables old : Tables)
      → t.schema.name ≡ k
      → find k tables ≡ none
      → restored_in json
          (find name tables)
          (find name (assign t.schema.name (restored_table json t) old))
        ≡ restored_in json (find name ((k, t) ∷ tables)) (find name old)
  unfolding find
  restored_in-assign name k t tables old at_name fresh =
      rw (find-assign t.schema.name name (restored_table json t) old, at_name)
        (elim (Bool-cases (text_eq k name)) [
          | inl same ↦
              rw (same, subst (λ i. find i tables ≡ none) ((text_eq_iff k name).0 same) fresh) refl
          | inr other ↦ rw other refl
        ])

  module _ (L : Log) (codec : Json) where
    -- The engine with a table more.
    abbrev with_table : TableSchema → MemTable → Engine L.State → Engine L.State
    unfolding increment
    with_table schema t e = record e {
      tables = assign schema.name t e.tables;
      stats = record e.stats { total_tables = increment e.stats.total_tables };
    }

    pub restore_tables-table_documents :
        (tables : Tables) (docs : List J) (n : ℕ) (e : Engine L.State)
        → AreTables tables
        → Distinct tables
        → table_documents json tables ≡ some docs
        → (e' : Engine L.State) × (n' : ℕ) × (restore_tables L codec json
              (map texts.reread docs)
              n
              e
            ≡ some (e', n'))
          × (e'.wal ≡ e.wal)
          × ((name : Text)
              → find name e'.tables ≡ restored_in json (find name tables) (find name e.tables))
    unfolding restore_tables table_documents find restored_schema
    restore_tables-table_documents [] docs n e are distinct h = (
      e,
      n,
      ap (λ o. o >>= λ ds. restore_tables L codec json (map texts.reread ds) n e) (sym h),
      refl,
      λ name. refl,
    )
    restore_tables-table_documents ((k, t) ∷ tables) docs n e (at_name, filed, sorted, are)
          (fresh, distinct) h =
        let (j, made, h') = bind-some (table_document json t) _ h in
        let (js, rest_made, are_docs) = bind-some (table_documents json tables) _ h' in
        let (n1, restored) = restore_table-table_document t j n filed sorted made in
        let (e', n', rest, same_wal, finds) =
          restore_tables-table_documents tables js n1
            (with_table (restored_schema t.schema) (restored_table json t) e) are distinct
            rest_made in
        (
          e',
          n',
          ap (λ o. o >>= λ ds. restore_tables L codec json (map texts.reread ds) n e) (sym are_docs)
              ∙ rw restored rest,
          same_wal,
          λ name. finds name ∙ restored_in-assign name k t tables e.tables at_name fresh,
        )
