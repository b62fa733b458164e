-- ===== src/Engine/Snapshot.antt =====
-- src/storage/storage_engine.cpp: WriteSnapshot, LoadSnapshotIfPresent and Initialize. The file of the
-- snapshot is its text, none where there is no file. None as an answer is an exception, and so is the
-- undefined behaviour of a table without rows.
pub mod Rows
pub mod Schemas
pub mod Restore
pub mod Restart
pub mod Checkpoint
mod Tests
use origindb.Prelude.{
  ℕ, ◌+◌, ◌%◌, ◌^◌, Bool, true, false, Option, none, some, Text, List, [], ◌∷◌, ◌++◌, ascii, Assoc,
  find, assign, if◌then◌else◌,
}
use origindb.Table.{Row, TableSchema}
use origindb.MemTable.{MemTable, new_table}
use origindb.MemTable as Mem
use origindb.Wal.Log.{Log}
use origindb.Engine.{Json, Engine, Tables, increment}
use origindb.Engine.Replay.{recover_from_wal}
use origindb.Document.{JsonLibrary, set_members}
use origindb.Engine.Documents.{
  ◌>>=◌, as_string, member, string_member, elements_or_none, serialize_row, deserialize_row,
  serialize_schema, deserialize_schema,
}

-- What WriteSnapshot leaves and answers.
pub record Snapshot (State : Type 0) : Type 0 where
  pub engine : Engine State
  pub file : Option Text
  pub success : Bool

abbrev pub is_empty : Tables → Bool
is_empty [] = true
is_empty (t ∷ tables) = false

module _ {J : Type 0} (json : JsonLibrary J) where
  -- The callback of the scan; an exception ends it.
  abbrev pub add_text : Option (List J) → Option Text → Option (List J) × Bool
  add_text none text = (none, false)
  add_text (some rows) none = (none, false)
  add_text (some rows) (some text) = (some (rows ++ json.of_string text ∷ []), true)

  abbrev pub add_row : Option (List J) → Text → Row → Option (List J) × Bool
  unfolding serialize_row
  add_row rows key row = add_text rows (serialize_row json row)

  unfoldable pub table_document : MemTable → Option J
  unfolding add_row Mem.scan serialize_schema set_members
  table_document t = do
    schema ← serialize_schema json t.schema
    rows ← Mem.scan [] [] add_row (some []) t
    some (
        json.of_members (
          set_members
            ((ascii "schema", json.of_string schema) ∷ (ascii "rows", json.of_array rows) ∷ []) []))

  unfoldable pub table_documents : Tables → Option (List J)
  unfolding table_document
  table_documents [] = some []
  table_documents ((name, t) ∷ tables) = do
    document ← table_document t
    documents ← table_documents tables
    some (document ∷ documents)

  unfoldable pub snapshot_document : ℕ → Tables → Option J
  unfolding table_documents set_members
  snapshot_document last_sequence tables = do
    documents ← table_documents tables
    some (
        json.of_members (
          set_members
            ((ascii "last_sequence", json.of_integer last_sequence)
              ∷ (ascii "tables", json.of_array documents)
              ∷ [])
            []))

  -- A row of the snapshot: the number of rows counts it whether or not it is inserted.
  unfoldable pub restore_rows : List J → MemTable → ℕ → Option (MemTable × ℕ)
  unfolding deserialize_row Mem.insert
  restore_rows [] t n = some (t, n)
  restore_rows (j ∷ js) t n = do
    text ← as_string (json.kind j)
    row ← deserialize_row json text
    restore_rows js (Mem.insert row t).0 ((n + 1) % 2 ^ 64)

  -- A document without the member "schema" has the empty schema, which cannot be read.
  unfoldable pub restore_table : J → ℕ → Option (TableSchema × MemTable × ℕ)
  unfolding restore_rows deserialize_schema
  restore_table j n = do
    text ← string_member json (ascii "schema") j
    schema ← deserialize_schema json text
    rows ← member json (ascii "rows") j
    restored ← restore_rows (json.elements rows) (new_table schema) n
    some (schema, restored.0, restored.1)

module _ (L : Log) (texts : Json) {J : Type 0} (json : JsonLibrary J) where
  abbrev pub unwritten : Option Text → Engine L.State → Snapshot L.State
  unwritten file e = record { engine = e; file = file; success = false }

  -- The log is truncated behind the new file.
  abbrev pub replaced :
      Bool → Bool → (Text → Text) → Option Text → Engine L.State → Text → Snapshot L.State
  replaced wrote renamed stored file e text =
      if wrote
      then if renamed
        then record {
          engine = record e { wal = L.truncate e.wal };
          file = some (stored text);
          success = true;
        }
        else unwritten file e
      else unwritten file e

  abbrev pub write_document :
      Bool
      → Bool
      → Bool
      → (Text → Text)
      → Option Text
      → Engine L.State
      → J
      → Option (Snapshot L.State)
  write_document opened wrote renamed stored file e document =
      if opened
      then (json.dump document >>= λ text. some (replaced wrote renamed stored file e text))
      else some (unwritten file e)

  -- Whether the file opens, the stream takes the text and the file is renamed, and what the file has
  -- when it is closed, which is not checked; `last_sequence` is what the log tells.
  unfoldable pub write_snapshot :
      (L.State → ℕ)
      → Bool
      → Bool
      → Bool
      → (Text → Text)
      → Option Text
      → Engine L.State
      → Option (Snapshot L.State)
  unfolding snapshot_document
  write_snapshot last_sequence opened wrote renamed stored file e =
      if is_empty e.tables
      then some (record { engine = e; file = file; success = true })
      else (snapshot_document json (last_sequence e.wal) e.tables
          >>= write_document opened wrote renamed stored file e)

  unfoldable pub restore_tables : List J → ℕ → Engine L.State → Option (Engine L.State × ℕ)
  unfolding restore_table increment
  restore_tables [] n e = some (e, n)
  restore_tables (j ∷ js) n e = do
    restored ← restore_table json j n
    restore_tables js restored.2 (record e {
      tables = assign restored.0.name restored.1 e.tables;
      stats = record e.stats { total_tables = increment e.stats.total_tables };
    })

  abbrev pub counted : Option (Engine L.State × ℕ) → Option (Engine L.State)
  counted none = none
  counted (some (e, n)) =
      some (record e { stats = record e.stats { total_rows = (e.stats.total_rows + n) % 2 ^ 64 } })

  abbrev pub restore_document : Option J → Engine L.State → Option (Engine L.State)
  unfolding restore_tables
  restore_document none e = some e
  restore_document (some tables) e = counted (restore_tables (json.elements tables) 0 e)

  abbrev pub restore_parsed : Option J → Engine L.State → Option (Engine L.State)
  unfolding restore_document
  restore_parsed none e = some e
  restore_parsed (some j) e = restore_document (member json (ascii "tables") j) e

  -- A text that does not parse, or has no tables, is ignored.
  unfoldable pub load_snapshot : Option Text → Engine L.State → Option (Engine L.State)
  unfolding restore_parsed
  load_snapshot none e = some e
  load_snapshot (some text) e = restore_parsed (json.parse text) e

  -- Initialize, of an engine whose log is open: the snapshot first, the log on top of it.
  unfoldable pub initialize : (ℕ → ℕ) → Option Text → Engine L.State → Option (Engine L.State)
  unfolding load_snapshot recover_from_wal
  initialize clock file e =
      load_snapshot file e >>= λ restored. some (recover_from_wal L texts clock restored)
