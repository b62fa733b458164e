-- ===== src/Engine/Methods.antt =====
-- The methods of StorageEngine::Impl and StorageEngine (src/storage/storage_engine.cpp). A method
-- returns the engine after it beside its result.
use origindb.Prelude.{
  ℕ, Bool, true, false, Option, none, some, Text, find, assign, erase, List, [], ◌∷◌, map, ◌==◌,
  if◌then◌else◌,
}
use origindb.Table.{Row, TableSchema}
use origindb.MemTable.{MemTable, new_table, get, get_row_count, get_size_bytes, is_empty}
use origindb.Transaction.{
  WriteOperation, Transaction, IsolationLevel, read_committed, new_transaction, is_active,
  set_committed, set_aborted, insert_row, update_row, delete_row,
}
use origindb.Wal.Record.{WalEntry, WalEntryType, create_table, drop_table}
use origindb.Wal.Log.{Log}
use origindb.Changefeed.Event.{ChangefeedEvent}
use origindb.Engine.{
  Json, Engine, Progress, Loop, completed, stopped, broken_off, apply_writes, Committed, increment,
  subtract,
}

unfoldable pub has_table : Option MemTable → Bool
has_table none = false
has_table (some t) = true

unfoldable pub remove_timestamp : ℕ → List ℕ → List ℕ
remove_timestamp ts [] = []
remove_timestamp ts (t ∷ rest) =
    let more = remove_timestamp ts rest in if t == ts then more else t ∷ more

abbrev pub metadata_entry : WalEntryType → Text → Text → WalEntry
metadata_entry type name payload = record {
  type = type;
  sequence = 0;
  transaction_id = 0;
  timestamp = 0;
  table_name = name;
  key = [];
  payload = payload;
}

-- DeserializeSchema; `none` where it throws, as it does on empty data.
unfoldable pub schema_of_payload : Json → Text → Option TableSchema
unfolding is_empty
schema_of_payload json payload = if is_empty payload then none else json.schema_of_text payload

-- What CreateTable answers: true, false, or an exception.
pub data Creation : Type 0 where
  created existing thrown : Creation

module _ (L : Log) (json : Json) where
  -- The table is there before the text of its schema is made: where that throws, it stays, and is
  -- neither logged nor counted.
  unfoldable pub create_missing :
      TableSchema → Engine L.State → Option Text → Engine L.State × Creation
  create_missing schema e none =
      (record e { tables = assign schema.name (new_table schema) e.tables }, thrown)
  create_missing schema e (some text) = (
    record e {
      tables = assign schema.name (new_table schema) e.tables;
      wal = (L.append (metadata_entry create_table schema.name text ∷ []) e.wal).0;
      stats = record e.stats { total_tables = increment e.stats.total_tables };
    },
    created,
  )

  -- A table that is not there is made and logged; the answer of the log is not looked at.
  unfoldable pub create : TableSchema → Engine L.State → Engine L.State × Creation
  unfolding has_table create_missing
  create schema e =
      if has_table (find schema.name e.tables)
      then (e, existing)
      else create_missing schema e (json.schema_text schema)

  unfoldable pub drop_found : Text → Engine L.State → Option MemTable → Engine L.State × Bool
  drop_found name e none = (e, false)
  drop_found name e (some t) = (
    record e {
      tables = erase name e.tables;
      wal = (L.append (metadata_entry drop_table name [] ∷ []) e.wal).0;
      stats = record e.stats {
        total_rows = subtract e.stats.total_rows (get_row_count t);
        total_bytes = subtract e.stats.total_bytes (get_size_bytes t);
        total_tables = subtract e.stats.total_tables 1;
      };
    },
    true,
  )

  unfoldable pub drop : Text → Engine L.State → Engine L.State × Bool
  unfolding drop_found
  drop name e = drop_found name e (find name e.tables)

  unfoldable pub get_table : Text → Engine L.State → Option MemTable
  get_table name e = find name e.tables

  unfoldable pub list_tables : Engine L.State → List Text
  list_tables e = map (λ t. t.0) e.tables

  unfoldable pub begin_transaction : IsolationLevel → Engine L.State → Engine L.State × Transaction
  begin_transaction level e = (
    record e {
      next_txn_id = increment e.next_txn_id;
      next_timestamp = increment e.next_timestamp;
      active_transactions =
          e.next_timestamp ∷ remove_timestamp e.next_timestamp e.active_transactions;
    },
    new_transaction e.next_txn_id e.next_timestamp level,
  )

  -- The end of Commit, with the events that are published.
  unfoldable pub finish : List ChangefeedEvent → Transaction → Engine L.State → Committed L.State
  finish events txn e = record {
    engine = record e {
      active_transactions = remove_timestamp txn.timestamp e.active_transactions;
      stats = record e.stats { transactions_committed = increment e.stats.transactions_committed };
    };
    transaction = set_committed txn;
    published = events;
    success = true;
    thrown = false;
  }

  abbrev pub refused : Transaction → Engine L.State → Committed L.State
  refused txn e = record {
    engine = e;
    transaction = txn;
    published = [];
    success = false;
    thrown = false;
  }

  abbrev pub with_progress : Progress → Engine L.State → Engine L.State
  with_progress p e = record e {
    tables = p.tables;
    stats = record e.stats { total_rows = p.total_rows };
  }

  -- The batch is submitted and waited for; the events are published if it is durable.
  unfoldable pub submit : Progress → Transaction → Engine L.State → Committed L.State
  unfolding finish
  submit p txn e =
      let (wal, durable) = L.append p.entries e.wal in
      let e' = record (with_progress p e) { wal = wal } in
      if durable then finish p.events txn e' else refused txn e'

  unfoldable pub after_loop : Loop → Transaction → Engine L.State → Committed L.State
  unfolding submit
  after_loop (stopped p) txn e = refused txn (with_progress p e)
  after_loop (broken_off p) txn e = record (refused txn (with_progress p e)) { thrown = true }
  after_loop (completed p) txn e = submit p txn e

  unfoldable pub run_loop : (ℕ → ℕ) → Transaction → Engine L.State → Loop
  unfolding apply_writes
  run_loop clock txn e =
      apply_writes json e.has_changefeed txn.timestamp clock txn.write_set 0
        (record { tables = e.tables; total_rows = e.stats.total_rows; entries = []; events = [] })

  unfoldable pub commit_writes :
      (ℕ → ℕ) → List WriteOperation → Transaction → Engine L.State → Committed L.State
  unfolding finish after_loop run_loop
  commit_writes clock [] txn e = finish [] txn e
  commit_writes clock (w ∷ ws) txn e = after_loop (run_loop clock txn e) txn e

  unfoldable pub commit : (ℕ → ℕ) → Transaction → Engine L.State → Committed L.State
  unfolding commit_writes is_active
  commit clock txn e =
      if is_active txn then commit_writes clock txn.write_set txn e else refused txn e

  unfoldable pub rollback : Transaction → Engine L.State → Committed L.State
  unfolding is_active
  rollback txn e =
      if is_active txn
      then record {
        engine = record e {
          active_transactions = remove_timestamp txn.timestamp e.active_transactions;
          stats = record e.stats { transactions_aborted = increment e.stats.transactions_aborted };
        };
        transaction = set_aborted txn;
        published = [];
        success = true;
        thrown = false;
      }
      else refused txn e

  -- A direct write: a transaction of its own, staged by `op` and committed, or rolled back where the
  -- staging fails.
  unfoldable pub direct :
      (Transaction → Transaction × Bool) → (ℕ → ℕ) → Engine L.State → Committed L.State
  unfolding begin_transaction commit rollback
  direct op clock e =
      let (e', txn) = begin_transaction read_committed e in
      let (txn', staged) = op txn in
      if staged then commit clock txn' e' else record (rollback txn' e') { success = false }

  unfoldable pub direct_insert : Text → Row → (ℕ → ℕ) → Engine L.State → Committed L.State
  unfolding direct
  direct_insert table row = direct (insert_row table row)

  unfoldable pub direct_update : Text → Text → Row → (ℕ → ℕ) → Engine L.State → Committed L.State
  unfolding direct
  direct_update table key row = direct (update_row table key row)

  unfoldable pub direct_delete : Text → Text → (ℕ → ℕ) → Engine L.State → Committed L.State
  unfolding direct
  direct_delete table key = direct (delete_row table key)

  unfoldable pub get_row : Text → Text → Engine L.State → Option Row
  get_row table key e = elim (find table e.tables) [ none ↦ none | some t ↦ get t key ]
