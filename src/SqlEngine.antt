-- ===== src/SqlEngine.antt =====
-- src/sql/sql_engine.cpp: SqlEngine::Impl, which runs statements and transactions on the storage
-- engine. `clock` is the clock of the first write of a call and `later` that of the second. The logging
-- is left out.
pub mod Statements
pub mod Results
pub mod Inserts
pub mod Isolation
mod Tests
use origindb.Prelude.{
  ℕ, ◌+◌, ◌-◌, ◌%◌, ◌^◌, Bool, true, false, Option, none, some, Text, List, [], ◌∷◌, ◌++◌, map, ltb,
  if◌then◌else◌, ascii, to_text, Assoc, find, assign, erase,
}
use origindb.Table.{
  Value, null, int32, int64, float, double, string, bytes, boolean, timestamp, Row, DataType, json,
  unnamed, Column, TableSchema,
}
use origindb.MemTable.{MemTable}
use origindb.MemTable as Mem
use origindb.Transaction.{IsolationLevel, Transaction}
use origindb.Wal.Log.{Log}
use origindb.Engine.{Json, Engine, Committed, increment}
use origindb.Engine.Methods.{
  Creation, created, existing, thrown, create, get_table, begin_transaction, commit, rollback,
  direct_insert, direct_update, get_row,
}
use origindb.SqlEngine.Results.{
  SqlResult, failed, done, signed_text, set_columns, collect_row, result_columns,
}
use origindb.SqlEngine.Statements.{
  SqlStatement, StatementType, Parsed, statement, no_statement, undefined, Regexes, parse, unquote,
  is_quoted,
}

-- What a call leaves: the storage and the answer, undefined behaviour, or the storage and an exception.
pub data Ran (State : Type 0) : Type 0 where
  answered : Engine State → SqlResult → Ran State
  ran_undefined : Ran State
  -- An exception leaves the call.
  ran_thrown : Engine State → Ran State

-- The transactions, by the names that clients have of them.
pub record SqlEngine (State : Type 0) : Type 0 where
  pub storage : Engine State
  pub active_transactions : Assoc Transaction
  pub next_txn_id : ℕ

-- `double_text` is `std::to_string` of a double.
module _ (L : Log) (json_texts : Json) (regexes : Regexes) (double_text : ℕ → Text) where
  unfoldable pub key_of_value : Value → Text
  unfolding signed_text
  key_of_value (string v) = v
  key_of_value (int64 v) = signed_text v
  key_of_value (double v) = double_text v
  key_of_value _ = ascii "unknown"

  abbrev pub answer_of : Engine L.State × Creation → Ran L.State
  answer_of (e, created) = answered e (done 0 0)
  answer_of (e, existing) = answered e (failed (ascii "Failed to create table"))
  answer_of (e, thrown) = ran_thrown e

  unfoldable pub execute_create_table : SqlStatement → Engine L.State → Ran L.State
  unfolding create
  execute_create_table stmt e = answer_of (create L json_texts stmt.table_schema e)

  abbrev pub converted : Committed L.State → Ran L.State
  converted c =
      if c.thrown
      then ran_thrown c.engine
      else answered c.engine
          (if c.success then done 0 1 else failed (ascii "Failed to convert INSERT to UPDATE"))

  -- After an insert that failed: the row that is there, else the new one, is updated.
  abbrev pub insert_as_update :
      SqlStatement → Row → (ℕ → ℕ) → Engine L.State → Option Row → Ran L.State
  unfolding set_columns direct_update
  insert_as_update stmt row later e none =
      converted (direct_update L json_texts stmt.table_name row.key row later e)
  insert_as_update stmt row later e (some old_row) = converted (
      direct_update L json_texts stmt.table_name row.key
        (record old_row { columns = set_columns stmt.columns stmt.values old_row.columns }) later e)

  abbrev pub inserted : SqlStatement → Row → (ℕ → ℕ) → Committed L.State → Ran L.State
  unfolding insert_as_update get_row
  inserted stmt row later c =
      if c.success
      then answered c.engine (done 1 0)
      else if c.thrown
      then ran_thrown c.engine
      else insert_as_update stmt row later c.engine
          (get_row L json_texts stmt.table_name row.key c.engine)

  abbrev pub insert_into :
      SqlStatement → Row → (ℕ → ℕ) → (ℕ → ℕ) → Engine L.State → Option MemTable → Ran L.State
  unfolding inserted direct_insert
  insert_into stmt row clock later e none =
      answered e (failed (ascii "Table not found: " ++ stmt.table_name))
  insert_into stmt row clock later e (some t) =
      inserted stmt row later (direct_insert L json_texts stmt.table_name row clock e)

  abbrev pub inserted_row : SqlStatement → Value → Row
  unfolding set_columns key_of_value
  inserted_row stmt v = record {
    key = key_of_value v;
    columns = set_columns stmt.columns stmt.values [];
    version = 0;
    timestamp = 0;
  }

  abbrev pub insert_values :
      SqlStatement → List Value → (ℕ → ℕ) → (ℕ → ℕ) → Engine L.State → Ran L.State
  unfolding insert_into inserted_row get_table
  insert_values stmt [] clock later e = ran_undefined
  insert_values stmt (v ∷ values) clock later e =
      insert_into stmt (inserted_row stmt v) clock later e
        (get_table L json_texts stmt.table_name e)

  -- `stmt.values[0]` is read whatever the number of values.
  unfoldable pub execute_insert : SqlStatement → (ℕ → ℕ) → (ℕ → ℕ) → Engine L.State → Ran L.State
  unfolding insert_values
  execute_insert stmt clock later e = insert_values stmt stmt.values clock later e

  abbrev pub selected : Text → Option MemTable → SqlResult
  unfolding result_columns Mem.scan
  selected table none = failed (ascii "Table not found: " ++ table)
  selected table (some t) = record {
    success = true;
    error = [];
    columns = result_columns t.schema.columns;
    rows = Mem.scan [] [] collect_row [] t;
    rows_affected = 0;
    execution_time_ms = 0;
  }

  unfoldable pub execute_select : SqlStatement → Engine L.State → Ran L.State
  unfolding selected get_table
  execute_select stmt e =
      answered e (selected stmt.table_name (get_table L json_texts stmt.table_name e))

  abbrev pub update_row_found :
      SqlStatement → Text → Text → (ℕ → ℕ) → Engine L.State → Option Row → Ran L.State
  unfolding set_columns direct_update
  update_row_found stmt column key clock e none =
      answered e (failed (ascii "No row found with " ++ (column ++ (ascii "=" ++ key))))
  update_row_found stmt column key clock e (some old_row) =
      let c =
        direct_update L json_texts stmt.table_name key
          (record old_row { columns = set_columns stmt.columns stmt.values old_row.columns }) clock
          e in
      if c.thrown
      then ran_thrown c.engine
      else answered c.engine (if c.success then done 1 0 else failed (ascii "Failed to update row"))

  abbrev pub without_quotes : Text → Option Bool → Text
  unfolding unquote
  without_quotes s (some true) = unquote s
  without_quotes s _ = s

  -- The pattern finds no empty value, so that `front` may be called.
  abbrev pub update_where :
      SqlStatement → (ℕ → ℕ) → Engine L.State → Option (Text × Text) → Ran L.State
  unfolding update_row_found without_quotes is_quoted get_row
  update_where stmt clock e none =
      answered e (failed (ascii "Invalid WHERE clause format. Expected: column=value"))
  update_where stmt clock e (some (column, value)) =
      let key = without_quotes value (is_quoted value) in
      update_row_found stmt column key clock e (get_row L json_texts stmt.table_name key e)

  abbrev pub update_clause : SqlStatement → Text → (ℕ → ℕ) → Engine L.State → Ran L.State
  unfolding update_where
  update_clause stmt [] clock e =
      answered e (failed (ascii "UPDATE requires WHERE clause to specify which rows to update"))
  update_clause stmt (c ∷ s) clock e = update_where stmt clock e (regexes.search_equation (c ∷ s))

  abbrev pub update_table : SqlStatement → (ℕ → ℕ) → Engine L.State → Option MemTable → Ran L.State
  unfolding update_clause
  update_table stmt clock e none =
      answered e (failed (ascii "Table not found: " ++ stmt.table_name))
  update_table stmt clock e (some t) = update_clause stmt stmt.where_clause clock e

  unfoldable pub execute_update : SqlStatement → (ℕ → ℕ) → Engine L.State → Ran L.State
  unfolding update_table get_table
  execute_update stmt clock e = update_table stmt clock e (get_table L json_texts stmt.table_name e)

  unfoldable pub execute_delete : SqlStatement → Engine L.State → Ran L.State
  execute_delete stmt e = answered e (failed (ascii "DELETE not implemented in prototype"))

  abbrev pub execute_as :
      StatementType → SqlStatement → (ℕ → ℕ) → (ℕ → ℕ) → Engine L.State → Ran L.State
  unfolding execute_create_table execute_insert execute_select execute_update execute_delete
  execute_as StatementType.create_table stmt clock later e = execute_create_table stmt e
  execute_as StatementType.insert stmt clock later e = execute_insert stmt clock later e
  execute_as StatementType.select stmt clock later e = execute_select stmt e
  execute_as StatementType.update stmt clock later e = execute_update stmt clock e
  execute_as StatementType.delete stmt clock later e = execute_delete stmt e
  execute_as _ stmt clock later e =
      answered e (failed (ascii "Statement type not supported in prototype"))

  abbrev pub execute_parsed : Parsed → (ℕ → ℕ) → (ℕ → ℕ) → Engine L.State → Ran L.State
  unfolding execute_as
  execute_parsed no_statement clock later e =
      answered e (failed (ascii "Failed to parse SQL statement"))
  execute_parsed undefined clock later e = ran_undefined
  execute_parsed (statement stmt) clock later e = execute_as stmt.type stmt clock later e

  -- The parameters and the name of the transaction are not used.
  unfoldable pub execute :
      Text → List Value → Text → (ℕ → ℕ) → (ℕ → ℕ) → Engine L.State → Ran L.State
  unfolding execute_parsed parse
  execute sql params transaction_id clock later e = execute_parsed (parse regexes sql) clock later e

  unfoldable pub begin_sql : IsolationLevel → SqlEngine L.State → SqlEngine L.State × Text
  unfolding begin_transaction increment
  begin_sql level s =
      let txn_id = ascii "txn-" ++ to_text s.next_txn_id in
      let (e, txn) = begin_transaction L json_texts level s.storage in
      (
        record {
          storage = e;
          active_transactions = assign txn_id txn s.active_transactions;
          next_txn_id = increment s.next_txn_id;
        },
        txn_id,
      )

  abbrev pub ended :
      Text
      → (Transaction → Engine L.State → Committed L.State)
      → SqlEngine L.State
      → Option Transaction
      → SqlEngine L.State × Bool
  ended txn_id finish s none = (s, false)
  ended txn_id finish s (some txn) =
      let c = finish txn s.storage in
      (
        record s { storage = c.engine; active_transactions = erase txn_id s.active_transactions },
        c.success,
      )

  unfoldable pub commit_sql : Text → (ℕ → ℕ) → SqlEngine L.State → SqlEngine L.State × Bool
  unfolding commit
  commit_sql txn_id clock s =
      ended txn_id (commit L json_texts clock) s (find txn_id s.active_transactions)

  unfoldable pub rollback_sql : Text → SqlEngine L.State → SqlEngine L.State × Bool
  unfolding rollback
  rollback_sql txn_id s = ended txn_id (rollback L json_texts) s (find txn_id s.active_transactions)
