-- ===== src/Engine/Snapshot/Tests.antt =====
-- A snapshot and a restart over a small JSON library and a log in memory.
use origindb.Prelude.{
  arith, text_eq, ◌^◌, ◌-◌, ◌≡◌, refl, true, false, Option, none, some, Text, List, [], ◌∷◌, ascii,
  find, text_ltb,
}
use mathlib.Core.Option
use origindb.Table.{int32, int64, bytes, timestamp, Row, TableSchema}
use origindb.MemTable.{MemTable, scan_loop}
use origindb.MemTable as Mem
use origindb.Wal.Memory.{memory_log}
use origindb.Wal.Record.{WalEntry}
use origindb.Engine.{Json, Engine}
use origindb.RowCodec.RoundTrip.{IsRow}
use origindb.Transaction.{Transaction, active, read_committed, is_active}
use origindb.Engine.{apply_op, apply_write, apply_writes}
use origindb.Engine.Methods.{commit, commit_writes, run_loop, after_loop, submit, finish}
use origindb.Engine.Rows.{SameTables}
use origindb.Engine.Flaws.{insert_of}
use origindb.Engine.Recovery.Steps.{NoUpsert}
use origindb.Engine.Recovery.Restart.{restarted, start_of}
use origindb.Engine.Recovery.History.{History, start, then, commits}
use origindb.Document.Sample.Library.{
  sample_library, sample_library-IsDocumented, sample_library-IsTextual,
}
use origindb.Engine.Snapshot.{Snapshot, write_snapshot, initialize}
use origindb.Engine.Snapshot.Rows.{restored_columns}
use origindb.Engine.Snapshot.Restore.{restored_table}
use origindb.Engine.Snapshot.Restart.{initialize-write_snapshot}
use origindb.Engine.Snapshot.Checkpoint.{initialize-History}

abbrev ann : Row
ann = record {
  key = ascii "ann";
  columns =
      (ascii "age", int32 (2 ^ 32 - 1))
      ∷ (ascii "at", timestamp 7)
      ∷ (ascii "face", bytes (ascii "x"))
      ∷ [];
  version = 3;
  timestamp = 9;
}

abbrev texts : Json
texts = record {
  schema_text = λ schema. some schema.name;
  schema_of_text = λ text. none;
  row_text = λ row. some row.key;
}

abbrev users : TableSchema
users = record { name = ascii "users"; columns = []; primary_key = []; options = [] }

abbrev storage : Engine (List WalEntry)
storage = record {
  tables =
      (
        ascii "users",
        record { schema = users; rows = (ascii "ann", ann) ∷ []; indexes = []; json_cache = [] },
      )
      ∷ [];
  active_transactions = [];
  wal = [];
  next_txn_id = 1;
  next_timestamp = 1;
  stats = record {
    total_tables = 1;
    total_rows = 1;
    total_bytes = 0;
    transactions_committed = 0;
    transactions_aborted = 0;
  };
  has_changefeed = false;
}

abbrev snapshot_or_none : Option (Snapshot (List WalEntry)) → Snapshot (List WalEntry)
snapshot_or_none none = record { engine = storage; file = none; success = false }
snapshot_or_none (some s) = s

abbrev snapshot : Snapshot (List WalEntry)
unfolding write_snapshot
snapshot = snapshot_or_none (
    write_snapshot memory_log texts sample_library (λ wal. 0) true true true (λ text. text) none
      storage)

initialize-write_snapshot_example :
    (e' : Engine (List WalEntry)) × (initialize memory_log texts sample_library
        (λ n. n)
        snapshot.file
        (restarted memory_log texts [] snapshot.engine)
      ≡ some e')
    × ((name : Text)
        → find name e'.tables
          ≡ Option.map (restored_table sample_library) (find name storage.tables))
initialize-write_snapshot_example =
    initialize-write_snapshot sample_library sample_library-IsDocumented sample_library-IsTextual
      memory_log texts (λ wal. 0) (λ text. text) none storage snapshot (λ n. n) (λ text. refl) tt
      (refl, (refl, (unfold text_ltb in (refl, (refl, tt))), tt), tt, tt)
      (unfold find in (refl, tt)) refl
      (unfold write_snapshot sample_library scan_loop Mem.is_empty Mem.past_end in refl)

-- A storage whose rows come back as they are.
abbrev bob : Row
bob = record {
  key = ascii "bob";
  columns = (ascii "age", int64 30) ∷ [];
  version = 1;
  timestamp = 4;
}

abbrev kept_storage : Engine (List WalEntry)
kept_storage = record storage {
  tables =
      (
        ascii "users",
        record { schema = users; rows = (ascii "bob", bob) ∷ []; indexes = []; json_cache = [] },
      )
      ∷ [];
}

abbrev kept_snapshot : Snapshot (List WalEntry)
unfolding write_snapshot
kept_snapshot = record {
  engine = kept_storage;
  file =
      (snapshot_or_none (
        write_snapshot memory_log texts sample_library (λ wal. 0) true true true (λ text. text) none
          kept_storage)).file;
  success = true;
}

abbrev cleo : Row
cleo = record { key = ascii "cleo"; columns = []; version = 1; timestamp = 0 }

cleo-IsRow : IsRow cleo
cleo-IsRow = record { key = omega arith; count = omega arith; columns = tt }

abbrev one_insert : Transaction
one_insert = record {
  id = 1;
  timestamp = 1;
  level = read_committed;
  state = active;
  read_only = false;
  write_set = insert_of (ascii "users") cleo ∷ [];
}

cleo-NoUpsert :
    NoUpsert texts false 1 (λ n. 9) one_insert.write_set 0 (start_of memory_log texts kept_storage)
unfolding find text_eq Mem.get
cleo-NoUpsert = (refl, λ q e. tt)

committed : (commit memory_log texts (λ n. 9) one_insert kept_storage).success ≡ true
unfolding commit commit_writes run_loop after_loop submit finish apply_writes apply_write apply_op
    Mem.insert Mem.has_row Mem.store_row find text_eq is_active
committed = refl

after_snapshot :
    History memory_log texts kept_storage
      (commit memory_log texts (λ n. 9) one_insert kept_storage).engine
after_snapshot =
    then start (commits (λ n. 9) one_insert (cleo-IsRow, tt) cleo-NoUpsert tt committed)

initialize-History_example :
    (let f = (commit memory_log texts (λ n. 9) one_insert kept_storage).engine in
      (e' : Engine (List WalEntry)) × (initialize memory_log texts sample_library
          (λ n. n)
          kept_snapshot.file
          (restarted memory_log texts [] f)
        ≡ some e')
      × SameTables f.tables e'.tables)
initialize-History_example =
    initialize-History sample_library sample_library-IsDocumented sample_library-IsTextual
      memory_log texts (λ wal. 0) (λ text. text) none kept_storage kept_snapshot (λ n. n)
      (commit memory_log texts (λ n. 9) one_insert kept_storage).engine (λ text. refl) tt
      (refl, (refl, tt, tt), tt, tt) ((unfold restored_columns in refl, tt), tt)
      (unfold find in (refl, tt)) refl
      (unfold write_snapshot sample_library scan_loop Mem.is_empty Mem.past_end in refl)
      (unfold kept_snapshot in after_snapshot)
