-- ===== src/Engine/Tests.antt =====
-- Runs of src/storage/storage_engine.cpp over the log of src/storage/wal_impl.cpp.
mod Flaws
use origindb.Prelude.{
  ℕ, ◌≡◌, refl, true, false, none, some, Text, text_eq, find, assign, insert_sorted, List, [], ◌∷◌,
  ◌++◌, ascii, arith,
}
use origindb.Codec.{read_u32, put_u8, put_u32, put_u64, put_u64_loop, put_bytes, put_string}
use origindb.Table.{Row, TableSchema}
use origindb.RowCodec.{encode_row, encode_columns}
use origindb.RowCodec.RoundTrip.{IsRow}
use origindb.MemTable.{MemTable, new_table, get, is_empty, has_row, store_row}
use origindb.MemTable as Mem
use origindb.Transaction.{insert, WriteOperation, Transaction, active, read_committed, is_active}
use origindb.Wal.Record.{WalEntry, WalEntryType, create_table, drop_table, record_bytes, entry_code}
use origindb.Wal.File.{serialize_all, read_file, read_records}
use origindb.Wal.Writer.{
  new_writer, synced, stamp, next_after, append_batch_async, is_synced, write_and_sync, drain_queue,
}
use origindb.Wal.Log.{change_of}
use origindb.Wal.Service.{
  Session, CanAppend, append_and_wait, writer_round, stored_entries, entries_or_none, wal_log,
}
use origindb.Engine.{Json, Engine, apply_op, apply_write, apply_writes, wal_entry}
use origindb.Engine.Methods.{
  create, drop, commit, commit_writes, after_loop, run_loop, submit, finish, has_table, get_row,
  metadata_entry,
}
use origindb.Engine.Replay.{recover_as, recover_from_wal, recover_changes}
use origindb.Engine.Rows.{content_of, contents_of}
use origindb.Engine.Recovery.{replay_as}
use origindb.Engine.Recovery.Steps.{NoUpsert, logged}
use origindb.Engine.Recovery.Restart.{
  Recoverable, start_of, commit-Recoverable, create-Recoverable, drop-Recoverable,
}
use origindb.Engine.Recovery.History.{History, start, then, creates, commits, History-Recoverable}
use origindb.Engine.Flaws.{insert_of, partial_commit, resolved_insert_lost}

abbrev schema_named : Text → TableSchema
schema_named name = record { name = name; columns = []; primary_key = []; options = [] }

-- A schema is its name here.
abbrev json : Json
json = record {
  schema_text = λ s. some s.name;
  schema_of_text = λ text. some (schema_named text);
  row_text = λ row. some row.key;
}

abbrev users : Text
users = ascii "users"

abbrev session : Session
session = record { writer = new_writer; disk = λ n. synced; clock = λ n. 4; calls = 0 }

abbrev empty_engine : Engine Session
empty_engine = record {
  tables = [];
  active_transactions = [];
  wal = session;
  next_txn_id = 1;
  next_timestamp = 1;
  stats = record {
    total_tables = 0;
    total_rows = 0;
    total_bytes = 0;
    transactions_committed = 0;
    transactions_aborted = 0;
  };
  has_changefeed = false;
}

empty_engine-Recoverable : Recoverable wal_log json [] empty_engine
unfolding serialize_all recover_from_wal recover_changes stored_entries entries_or_none read_file
    read_records text_eq read_u32
empty_engine-Recoverable =
    (([], record { file = refl; queue = refl; logged = tt }), λ clock name. refl)

abbrev created : Engine Session
created = (create wal_log json (schema_named users) empty_engine).0

abbrev create_entry : WalEntry
create_entry = metadata_entry create_table users users

create_can : CanAppend (create_entry ∷ []) session
unfolding stamp record_bytes put_u8 put_u32 put_u64 put_u64_loop put_bytes put_string entry_code
create_can = (
  record {
    fits = record {
      type = tt;
      sequence = omega arith;
      transaction_id = omega arith;
      timestamp = omega arith;
      table_name = omega arith;
      key = omega arith;
      payload = omega arith;
      fits = omega arith;
    };
    numbered = omega arith;
  },
  tt,
)

append_ok : (entries : List WalEntry) → (append_and_wait entries session).1 ≡ true
unfolding append_and_wait is_synced
append_ok entries = refl

nothing_there : find users empty_engine.tables ≡ none
unfolding find
nothing_there = refl

not_empty : is_empty users ≡ false
unfolding is_empty
not_empty = refl

created-Recoverable : Recoverable wal_log json [] created
created-Recoverable =
    create-Recoverable wal_log json [] (schema_named users) (schema_named users) users empty_engine
      empty_engine-Recoverable nothing_there refl not_empty refl refl create_can
      (append_ok (create_entry ∷ []))

abbrev alice : Row
alice = record { key = ascii "a"; columns = []; version = 1; timestamp = 0 }

alice-IsRow : IsRow alice
alice-IsRow = record { key = omega arith; count = omega arith; columns = tt }

abbrev inserting : List WriteOperation → Transaction
inserting writes = record {
  id = 1;
  timestamp = 1;
  level = read_committed;
  state = active;
  read_only = false;
  write_set = writes;
}

abbrev one_insert : Transaction
one_insert = inserting (insert_of users alice ∷ [])

abbrev clock : ℕ → ℕ
clock n = 9

created_table : find users created.tables ≡ some (new_table (schema_named users))
unfolding create has_table find assign text_eq
created_table = refl

new_key : get (new_table (schema_named users)) alice.key ≡ none
unfolding new_table get find
new_key = refl

one_insert-NoUpsert :
    NoUpsert json created.has_changefeed 1 clock one_insert.write_set 0
      (start_of wal_log json created)
unfolding create has_table find assign text_eq new_table get
one_insert-NoUpsert = (refl, λ q e. tt)

commit_can : CanAppend (logged json 1 one_insert.write_set) created.wal
unfolding create has_table find append_and_wait writer_round append_batch_async stamp next_after
    wal_entry encode_row encode_columns record_bytes put_u8 put_u32 put_u64 put_u64_loop put_bytes
    put_string entry_code write_and_sync drain_queue is_synced
commit_can = (
  record {
    fits = record {
      type = tt;
      sequence = omega arith;
      transaction_id = omega arith;
      timestamp = omega arith;
      table_name = omega arith;
      key = omega arith;
      payload = omega arith;
      fits = omega arith;
    };
    numbered = omega arith;
  },
  tt,
)

committed : (commit wal_log json clock one_insert created).success ≡ true
unfolding commit commit_writes run_loop after_loop submit finish apply_writes apply_write apply_op
    Mem.insert has_row store_row create has_table find assign text_eq new_table append_and_wait
    writer_round append_batch_async is_synced is_active write_and_sync drain_queue
committed = refl

commit-Recoverable_example :
    Recoverable wal_log json [] (commit wal_log json clock one_insert created).engine
commit-Recoverable_example =
    commit-Recoverable wal_log json [] clock one_insert created created-Recoverable
      (alice-IsRow, tt) one_insert-NoUpsert commit_can committed

whole_run : History wal_log json empty_engine (commit wal_log json clock one_insert created).engine
whole_run =
    then
      (then start (
        creates (schema_named users) (schema_named users) users nothing_there refl not_empty refl
          refl create_can (append_ok (create_entry ∷ []))))
      (commits clock one_insert (alice-IsRow, tt) one_insert-NoUpsert commit_can committed)

History-Recoverable_example :
    Recoverable wal_log json [] (commit wal_log json clock one_insert created).engine
History-Recoverable_example = History-Recoverable wal_log json [] whole_run empty_engine-Recoverable

abbrev drop_entry : WalEntry
drop_entry = metadata_entry drop_table users []

drop_can : CanAppend (drop_entry ∷ []) created.wal
unfolding create has_table find append_and_wait writer_round append_batch_async stamp next_after
    record_bytes put_u8 put_u32 put_u64 put_u64_loop put_bytes put_string entry_code write_and_sync
    drain_queue is_synced
drop_can = (
  record {
    fits = record {
      type = tt;
      sequence = omega arith;
      transaction_id = omega arith;
      timestamp = omega arith;
      table_name = omega arith;
      key = omega arith;
      payload = omega arith;
      fits = omega arith;
    };
    numbered = omega arith;
  },
  tt,
)

drop_ok : (append_and_wait (drop_entry ∷ []) created.wal).1 ≡ true
unfolding create has_table find append_and_wait writer_round append_batch_async write_and_sync
    drain_queue is_synced
drop_ok = refl
