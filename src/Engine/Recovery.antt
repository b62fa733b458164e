-- ===== src/Engine/Recovery.antt =====
-- What a restart of src/storage/storage_engine.cpp makes of the tables when it replays the log.
pub mod Steps
pub mod Entries
pub mod Restart
pub mod History
use origindb.Prelude.{
  ℕ, ◌+◌, ◌≡◌, refl, sym, ap, ◌∙◌, Bool, true, false, Option, none, some, Text, find, assign, erase,
  List, [], ◌∷◌, ◌++◌, append_assoc, append-nil, map, All, if◌then◌else◌, arith, Option-cases, inl,
  inr,
}
use mathlib.Core.Option
use origindb.Codec.{Result, ok, err}
use origindb.Table.{Row, TableSchema}
use origindb.RowCodec.{decode_row}
use origindb.MemTable.{MemTable, new_table}
use origindb.MemTable as Mem
use origindb.Wal.Record.{WalEntryType, create_table, drop_table, insert, update, delete}
use origindb.Wal.Log.{Change, Log, change_of}
use origindb.Engine.{Json, Engine, Tables}
use origindb.Engine.Methods.{has_table, schema_of_payload, drop, drop_found}
use origindb.Engine.Replay.{
  recover_table, recover_delete, recover_as, recover_change, recover_changes, recover_from_wal,
  with_row,
}

-- What recovery makes of the tables alone.
abbrev pub on_table : Text → (MemTable → MemTable) → Tables → Tables
on_table name f tables = elim (find name tables) [
  | none ↦ tables
  | some t ↦ assign name (f t) tables
]

abbrev pub on_row : Text → (Row → MemTable → MemTable) → Result Row → Tables → Tables
on_row name f (err e) tables = tables
on_row name f (ok row) tables = on_table name (f row) tables

abbrev pub new_if_absent : Option TableSchema → Tables → Tables
new_if_absent none tables = tables
new_if_absent (some schema) tables =
    if has_table (find schema.name tables)
    then tables
    else assign schema.name (new_table schema) tables

unfoldable pub replay_as : Json → WalEntryType → ℕ → Change → Tables → Tables
unfolding has_table schema_of_payload
replay_as json create_table now c tables = new_if_absent (schema_of_payload json c.payload) tables
replay_as json drop_table now c tables = elim (find c.table_name tables) [
  | none ↦ tables
  | some t ↦ erase c.table_name tables
]
replay_as json insert now c tables =
    on_row c.table_name (λ row t. (Mem.insert row t).0) (decode_row c.payload) tables
replay_as json update now c tables =
    on_row c.table_name (λ row t. (Mem.update now c.key row t).0) (decode_row c.payload) tables
replay_as json delete now c tables = on_table c.table_name (λ t. (Mem.delete c.key t).0) tables
replay_as json _ now c tables = tables

unfoldable pub replay : Json → (ℕ → ℕ) → ℕ → List Change → Tables → Tables
unfolding replay_as
replay json clock i [] tables = tables
replay json clock i (c ∷ cs) tables =
    replay json clock (i + 1) cs (replay_as json c.type (clock i) c tables)

module _ (L : Log) (json : Json) where
  tables-recover_as :
      (type : WalEntryType) (now : ℕ) (c : Change) (e : Engine L.State)
      → (recover_as L json type now c e).tables ≡ replay_as json type now c e.tables
  unfolding recover_as recover_table recover_delete replay_as drop drop_found
  tables-recover_as create_table now c e = ground arith
  tables-recover_as drop_table now c e = ground arith
  tables-recover_as insert now c e = ground arith
  tables-recover_as update now c e = ground arith
  tables-recover_as delete now c e = ground arith
  tables-recover_as _ now c e = refl

  pub tables-recover_changes :
      (clock : ℕ → ℕ) (i : ℕ) (cs : List Change) (e : Engine L.State)
      → (recover_changes L json clock i cs e).tables ≡ replay json clock i cs e.tables
  unfolding recover_changes replay recover_change
  tables-recover_changes clock i [] e = refl
  tables-recover_changes clock i (c ∷ cs) e =
      tables-recover_changes clock (i + 1) cs (recover_change L json (clock i) c e)
      ∙ ap (replay json clock (i + 1) cs) (tables-recover_as c.type (clock i) c e)
