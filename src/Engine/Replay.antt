-- ===== src/Engine/Replay.antt =====
-- RecoverFromWAL of src/storage/storage_engine.cpp. An exception skips its entry.
use origindb.Prelude.{ℕ, ◌+◌, Option, none, some, Text, find, assign, List, [], ◌∷◌, if◌then◌else◌}
use origindb.Codec.{ok, err}
use origindb.Table.{Row, TableSchema}
use origindb.RowCodec.{decode_row}
use origindb.MemTable as Mem
use origindb.MemTable.{MemTable, new_table}
use origindb.Wal.Record.{WalEntryType, create_table, drop_table, insert, update, delete}
use origindb.Wal.Log.{Change, Log}
use origindb.Engine.{Json, Engine, increment, subtract}
use origindb.Engine.Methods.{has_table, schema_of_payload, drop}

-- The case of an INSERT or an UPDATE entry: the table's name, what to do to it with the row, and
-- how the count of rows changes.
abbrev pub with_row :
    {S : Type 0} → Text → (Row → MemTable → MemTable) → (ℕ → ℕ) → Text → Engine S → Engine S
with_row name write count payload e = elim (find name e.tables) [
  | none ↦ e
  | some t ↦ elim (decode_row payload) [
    | err x ↦ e
    | ok row ↦ record e {
      tables = assign name (write row t) e.tables;
      stats = record e.stats { total_rows = count e.stats.total_rows };
    }
  ]
]

module _ (L : Log) (json : Json) where
  unfoldable pub recover_table : Option TableSchema → Engine L.State → Engine L.State
  unfolding has_table
  recover_table none e = e
  recover_table (some schema) e = if has_table (find schema.name e.tables) then e else record e {
    tables = assign schema.name (new_table schema) e.tables;
    stats = record e.stats { total_tables = increment e.stats.total_tables };
  }

  unfoldable pub recover_delete : Text → Text → Engine L.State → Engine L.State
  recover_delete name key e = elim (find name e.tables) [
    | none ↦ e
    | some t ↦ record e {
      tables = assign name (Mem.delete key t).0 e.tables;
      stats = record e.stats { total_rows = subtract e.stats.total_rows 1 };
    }
  ]

  -- The switch over the entry's type.
  unfoldable pub recover_as : WalEntryType → ℕ → Change → Engine L.State → Engine L.State
  unfolding recover_table recover_delete schema_of_payload drop
  recover_as create_table now c e = recover_table (schema_of_payload json c.payload) e
  recover_as drop_table now c e = (drop L json c.table_name e).0
  recover_as insert now c e =
      with_row c.table_name (λ row t. (Mem.insert row t).0) increment c.payload e
  recover_as update now c e =
      with_row c.table_name (λ row t. (Mem.update now c.key row t).0) (λ n. n) c.payload e
  recover_as delete now c e = recover_delete c.table_name c.key e
  recover_as _ now c e = e

  unfoldable pub recover_change : ℕ → Change → Engine L.State → Engine L.State
  unfolding recover_as
  recover_change now c e = recover_as c.type now c e

  -- The clock's reading at each entry comes first.
  unfoldable pub recover_changes : (ℕ → ℕ) → ℕ → List Change → Engine L.State → Engine L.State
  unfolding recover_change
  recover_changes clock i [] e = e
  recover_changes clock i (c ∷ cs) e =
      recover_changes clock (i + 1) cs (recover_change (clock i) c e)

  unfoldable pub recover_from_wal : (ℕ → ℕ) → Engine L.State → Engine L.State
  unfolding recover_changes
  recover_from_wal clock e = recover_changes clock 0 (L.contents e.wal) e
