-- ===== src/Engine.antt =====
-- src/storage/storage_engine.cpp: tables, transactions, the log and the events of a commit. The
-- engine's locks make each method one step. The log is a parameter (its interface is `Wal.Log`),
-- and so are the texts that nlohmann::json makes and parses: the schema of a CREATE_TABLE entry and
-- the row of an event.
pub mod Methods
pub mod Replay
pub mod Rows
pub mod Commit
pub mod Single
pub mod Documents
pub mod Snapshot
pub mod Recovery
pub mod Flaws
mod Tests
use origindb.Prelude.{
  ℕ, zero, suc, ◌+◌, ◌-◌, ◌%◌, ◌^◌, Bool, true, false, not, Option, none, some, Text, text_eq,
  Assoc, find, assign, erase, List, [], ◌∷◌, ◌++◌, map, ◌==◌, if◌then◌else◌, to_text,
}
use origindb.Codec.{Result, ok, err}
use mathlib.Core.Option
use origindb.Table.{Row, TableSchema}
use origindb.RowCodec.{encode_row, decode_row}
use origindb.MemTable.{MemTable, new_table, get, get_row_count, get_size_bytes}
use origindb.MemTable as Mem
use origindb.Transaction.{
  WriteOp, insert, update, delete, WriteOperation, Transaction, IsolationLevel, new_transaction,
  is_active, set_committed, set_aborted,
}
use origindb.Wal.Record.{WalEntry, WalEntryType}
use origindb.Wal.Log.{Change, Log}
use origindb.Changefeed.Event.{ChangefeedEvent, insert_text, update_text, delete_text}

-- The JSON texts of SerializeSchema, DeserializeSchema and SerializeRow: `none` where they throw, as
-- `dump` does on a text that is not UTF-8.
pub record Json : Type 0 where
  pub schema_text : TableSchema → Option Text
  pub schema_of_text : Text → Option TableSchema
  pub row_text : Row → Option Text

pub record Stats : Type 0 where
  pub total_tables : ℕ
  pub total_rows : ℕ
  pub total_bytes : ℕ
  pub transactions_committed : ℕ
  pub transactions_aborted : ℕ

abbrev pub Tables : Type 0
Tables = Assoc MemTable

-- `active_transactions` is the list of the keys of `active_transactions_`, whose values are only
-- kept. The values of `State` are the states of the log.
pub record Engine (State : Type 0) : Type 0 where
  pub tables : Tables
  pub active_transactions : List ℕ
  pub wal : State
  pub next_txn_id : ℕ
  pub next_timestamp : ℕ
  pub stats : Stats
  pub has_changefeed : Bool

-- `++` and `--` on a uint64_t.
unfoldable pub increment : ℕ → ℕ
increment n = (n + 1) % 2 ^ 64

unfoldable pub subtract : ℕ → ℕ → ℕ
subtract n m = (n + 2 ^ 64 - m % 2 ^ 64) % 2 ^ 64

abbrev pub entry_type : WriteOp → WalEntryType
entry_type insert = WalEntryType.insert
entry_type update = WalEntryType.update
entry_type delete = WalEntryType.delete

abbrev pub operation_text : WriteOp → Text
operation_text insert = insert_text
operation_text update = update_text
operation_text delete = delete_text

-- How `stats_.total_rows` changes.
pub data RowCount : Type 0 where
  one_more one_less unchanged : RowCount

unfoldable pub counted : RowCount → ℕ → ℕ
unfolding increment subtract
counted one_more n = increment n
counted one_less n = subtract n 1
counted unchanged n = n

-- One write of the write set on its table: the table, whether it succeeded, the row that was there
-- before (for an event), and the change of the count. An insert of a key that is there is resolved
-- as an update.
pub record Applied : Type 0 where
  pub table : MemTable
  pub success : Bool
  pub old_row : Option Row
  pub count : RowCount

unfoldable pub resolve_insert : ℕ → Row → MemTable → Option Row → Applied
resolve_insert now row t none = record {
  table = t;
  success = false;
  old_row = none;
  count = unchanged;
}
resolve_insert now row t (some old) =
    let (t', done) = Mem.update now row.key row t in
    record { table = t'; success = done; old_row = some old; count = unchanged }

unfoldable pub apply_op : ℕ → WriteOp → Row → MemTable → Applied
unfolding resolve_insert
apply_op now insert row t =
    let (t', done) = Mem.insert row t in
    if done
    then record { table = t'; success = true; old_row = none; count = one_more }
    else resolve_insert now row t' (get t' row.key)
apply_op now update row t =
    let (t', done) = Mem.update now row.key row t in
    record { table = t'; success = done; old_row = get t row.key; count = unchanged }
apply_op now delete row t =
    let (t', done) = Mem.delete row.key t in
    record {
      table = t';
      success = done;
      old_row = get t row.key;
      count = if done then one_less else unchanged;
    }

-- What the loop of Commit has built up so far.
pub record Progress : Type 0 where
  pub tables : Tables
  pub total_rows : ℕ
  pub entries : List WalEntry
  pub events : List ChangefeedEvent

unfoldable pub wal_entry : ℕ → WriteOperation → WalEntry
wal_entry timestamp write = record {
  type = entry_type write.op;
  sequence = 0;
  transaction_id = timestamp;
  timestamp = 0;
  table_name = write.table_name;
  key = write.row.key;
  payload = encode_row write.row;
}

unfoldable pub old_text : Json → Option Row → Option Text
old_text json none = some []
old_text json (some row) = json.row_text row

unfoldable pub new_text : Json → WriteOp → Row → Option Text
new_text json delete row = some []
new_text json insert row = json.row_text row
new_text json update row = json.row_text row

unfoldable pub change_event : Json → ℕ → ℕ → WriteOperation → Option Row → Option ChangefeedEvent
unfolding old_text new_text
change_event json now timestamp write old_row =
    Option.bind (new_text json write.op write.row) λ new_value.
      Option.map
        (λ old_value. record {
          offset = 0;
          transaction_id = to_text timestamp;
          table = write.table_name;
          operation = operation_text write.op;
          key = write.row.key;
          old_value = old_value;
          new_value = new_value;
          timestamp = now;
        })
        (old_text json old_row)

-- The state after the loop, and whether it came to its end; it stops at the first failure, or is
-- broken off by an exception, and keeps what was done before it.
pub data Loop : Type 0 where
  completed stopped broken_off : Progress → Loop

-- The event of a write is added, unless the text of a row throws.
unfoldable pub buffered : Progress → Option ChangefeedEvent → Loop
buffered p none = broken_off p
buffered p (some event) = completed (record p { events = p.events ++ event ∷ [] })

-- The clock's reading at each write comes first.
unfoldable pub apply_write :
    Json → Bool → ℕ → ℕ → WriteOperation → Progress → Option MemTable → Loop
apply_write json feed timestamp now write p none = stopped p
apply_write json feed timestamp now write p (some t) =
    let a = apply_op now write.op write.row t in
    let tables = assign write.table_name a.table p.tables in
    if a.success
    then (let q : Progress = record {
      tables = tables;
      total_rows = counted a.count p.total_rows;
      entries = p.entries ++ wal_entry timestamp write ∷ [];
      events = p.events;
    } in
        if feed then buffered q (change_event json now timestamp write a.old_row) else completed q)
    else stopped (record p { tables = tables; total_rows = counted a.count p.total_rows })

unfoldable pub apply_writes : Json → Bool → ℕ → (ℕ → ℕ) → List WriteOperation → ℕ → Progress → Loop
unfolding apply_write apply_op counted wal_entry change_event buffered
apply_writes json feed timestamp clock [] i p = completed p
apply_writes json feed timestamp clock (write ∷ writes) i p =
    elim (apply_write json feed timestamp (clock i) write p (find write.table_name p.tables)) [
      | stopped q ↦ stopped q
      | broken_off q ↦ broken_off q
      | completed q ↦ apply_writes json feed timestamp clock writes (i + 1) q
    ]

-- What a method of the engine gives back besides the engine. `thrown` is that an exception left it.
pub record Committed (State : Type 0) : Type 0 where
  pub engine : Engine State
  pub transaction : Transaction
  pub published : List ChangefeedEvent
  pub success : Bool
  pub thrown : Bool
