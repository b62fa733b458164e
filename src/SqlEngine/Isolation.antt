-- ===== src/SqlEngine/Isolation.antt =====
-- The transactions and the queries of src/sql/sql_engine.cpp.
use origindb.Prelude.{
  ℕ, ◌≡◌, refl, sym, ap, ◌∙◌, some, Text, List, [], ◌∷◌, ◌++◌, append-nil, append_assoc, map,
  text_eq_refl, true, find, assign, find-assign, to_text, ascii, arith, Assoc, IsSorted,
}
use origindb.Table.{Value, Row}
use origindb.MemTable.{MemTable}
use origindb.MemTable.Scan.{visit, range-all, scan-visit}
use origindb.Transaction.{IsolationLevel, Transaction, new_transaction}
use origindb.Wal.Log.{Log}
use origindb.Engine.{Json, Engine, increment}
use origindb.Engine.Methods.{get_table, begin_transaction, commit, commit_writes, finish, rollback}
use origindb.SqlEngine.Results.{collect_row, result_columns, SqlResult}
use origindb.SqlEngine.Statements.{Regexes, SqlStatement}
use origindb.SqlEngine.{
  SqlEngine, answered, execute, begin_sql, commit_sql, rollback_sql, ended, execute_select,
  selected,
}

module _ (L : Log) (json : Json) (regexes : Regexes) (double_text : ℕ → Text) where
  found :
      (id : Text) (txn : Transaction) (m : Assoc Transaction) → find id (assign id txn m) ≡ some txn
  found id txn m = rw (find-assign id id txn m, text_eq_refl id) refl

  rollback-tables :
      (txn : Transaction) (e : Engine L.State) → (rollback L json txn e).engine.tables ≡ e.tables
  unfolding rollback
  rollback-tables txn e = ground arith

  empty_commit-tables :
      (clock : ℕ → ℕ) (txn : Transaction) (e : Engine L.State)
      → txn.write_set ≡ []
      → (commit L json clock txn e).engine.tables ≡ e.tables
  unfolding commit commit_writes finish
  empty_commit-tables clock txn e none_staged = rw none_staged (ground arith)

  -- Statements do not belong to transactions. A statement that names a transaction just begun, and
  -- whose execution is defined, does what it does with any other name, and when that transaction is
  -- rolled back or committed next, the tables are left as the statement left them.
  pub execute_autocommits :
      (level : IsolationLevel) (sql other : Text) (params : List Value) (clock later clock' : ℕ → ℕ)
      (s : SqlEngine L.State) (e : Engine L.State) (r : SqlResult)
      → execute L json regexes double_text sql params
          (begin_sql L json regexes double_text level s).1
          clock
          later
          (begin_sql L json regexes double_text level s).0.storage
        ≡ answered e r
      → (let (begun, txn_id) = begin_sql L json regexes double_text level s in
          (execute L json regexes double_text sql params other clock later begun.storage
            ≡ answered e r)
          × ((rollback_sql L json regexes double_text txn_id
                (record begun { storage = e })).0.storage.tables
              ≡ e.tables)
          × ((commit_sql L json regexes double_text txn_id clock'
                (record begun { storage = e })).0.storage.tables
              ≡ e.tables))
  unfolding execute begin_sql rollback_sql commit_sql begin_transaction new_transaction
  execute_autocommits level sql other params clock later clock' s e r ran =
      let txn_id = ascii "txn-" ++ to_text s.next_txn_id in
      let txn = new_transaction s.storage.next_txn_id s.storage.next_timestamp level in
      let s' : SqlEngine L.State = record {
        storage = e;
        active_transactions = assign txn_id txn s.active_transactions;
        next_txn_id = increment s.next_txn_id;
      } in
      let known = found txn_id txn s.active_transactions in
      (
        ran,
        ap (λ o. (ended L json regexes double_text txn_id (rollback L json) s' o).0.storage.tables)
              known
            ∙ rollback-tables txn e,
        ap
              (λ o.
                (ended L json regexes double_text txn_id (commit L json clock') s'
                  o).0.storage.tables)
              known
            ∙ empty_commit-tables clock' txn e refl,
      )

visit-collect :
    (rows : List Row) (m : Assoc Row)
    → visit collect_row rows m ≡ rows ++ map (λ (p : Text × Row). p.1) m
unfolding visit
visit-collect rows [] = sym (append-nil rows)
visit-collect rows ((key, row) ∷ m) =
    visit-collect (rows ++ row ∷ []) m
    ∙ append_assoc rows (row ∷ []) (map (λ (p : Text × Row). p.1) m)

module _ (L : Log) (json : Json) (regexes : Regexes) (double_text : ℕ → Text) where
  -- A SELECT of a table that is there and whose rows ascend answers every row of it, in the order of
  -- the keys, with the columns of its schema, and changes nothing.
  pub execute_select-rows :
      (stmt : SqlStatement) (e : Engine L.State) (t : MemTable)
      → find stmt.table_name e.tables ≡ some t
      → IsSorted t.rows
      → execute_select L json regexes double_text stmt e
        ≡ answered e (record {
          success = true;
          error = [];
          columns = result_columns t.schema.columns;
          rows = map (λ (p : Text × Row). p.1) t.rows;
          rows_affected = 0;
          execution_time_ms = 0;
        })
  unfolding execute_select get_table
  execute_select-rows stmt e t there sorted =
      ap (λ o. answered e (selected L json regexes double_text stmt.table_name o)) there
      ∙ ap
          (λ rows. answered e (record {
            success = true;
            error = [];
            columns = result_columns t.schema.columns;
            rows = rows;
            rows_affected = 0;
            execution_time_ms = 0;
          }))
          (scan-visit [] collect_row [] [] t sorted
            ∙ ap (visit collect_row []) (range-all t.rows)
            ∙ visit-collect [] t.rows)
