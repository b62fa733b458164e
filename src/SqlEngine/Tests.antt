-- ===== src/SqlEngine/Tests.antt =====
-- Runs of the SQL engine over a log in memory.
use origindb.Prelude.{
  ℕ, ◌≡◌, refl, true, false, none, some, Text, text_eq, List, [], ◌∷◌, find, ascii, if◌then◌else◌,
  to_upper,
}
use origindb.Table.{string, Row}
use origindb.MemTable.{MemTable, new_table, store_row, has_row, update_found}
use origindb.MemTable as Mem
use origindb.Transaction.{read_committed, new_transaction, is_active, insert_row, stage}
use origindb.Wal.Record.{WalEntry}
use origindb.Wal.Memory.{memory_log}
use origindb.Engine.{Json, Engine, apply_op, apply_write, apply_writes, resolve_insert}
use origindb.Engine.Methods.{
  direct, direct_insert, commit, commit_writes, run_loop, after_loop, submit, finish,
  begin_transaction, create, has_table,
}
use origindb.SqlEngine.Results.{done, result_columns, set_columns}
use origindb.SqlEngine.Statements.{
  Regexes, SqlStatement, statement_on, StatementType, quoted, created_schema, to_upper_text,
}
use origindb.SqlEngine.{
  SqlEngine, answered, ran_undefined, inserted_row, key_of_value, execute, execute_insert,
  execute_select, begin_sql, commit_sql, rollback_sql,
}
use origindb.SqlEngine.Inserts.{shown, execute_insert_replaces, execute_undefined}
use origindb.SqlEngine.Isolation.{execute_autocommits, execute_select-rows}

abbrev texts : Json
texts = record {
  schema_text = λ schema. some schema.name;
  schema_of_text = λ text. none;
  row_text = λ row. some row.key;
}

-- The patterns find one INSERT, in upper case only.
abbrev patterns : Regexes
patterns = record {
  search_insert = λ text.
      if text_eq text (ascii "INSERT INTO T VALUES ('A')")
      then some (record {
        table = record { position = 12; length = 1 };
        column_list = none;
        value_list = ascii "'A'";
      })
      else none;
  search_create = λ text. none;
  search_select = λ text. none;
  search_update = λ text. none;
  search_equation = λ text. none;
  words = λ text. [];
  value_tokens = λ text. quoted (ascii "A") ∷ [];
  assignments = λ text. [];
  stod = λ text. none;
  stoll = λ text. none;
}

abbrev number_text : ℕ → Text
number_text n = []

abbrev old_row : Row
old_row = record {
  key = ascii "ann";
  columns = (ascii "id", string (ascii "ann")) ∷ (ascii "email", string (ascii "a@b")) ∷ [];
  version = 1;
  timestamp = 0;
}

abbrev users : MemTable
users = record {
  schema = record { name = ascii "users"; columns = []; primary_key = []; options = [] };
  rows = (ascii "ann", old_row) ∷ [];
  indexes = [];
  json_cache = [];
}

abbrev storage : Engine (List WalEntry)
storage = record {
  tables = (ascii "users", users) ∷ [];
  active_transactions = [];
  wal = [];
  next_txn_id = 1;
  next_timestamp = 1;
  stats = record {
    total_tables = 1;
    total_rows = 1;
    total_bytes = 0;
    transactions_committed = 0;
    transactions_aborted = 0;
  };
  has_changefeed = false;
}

abbrev insert_ann : SqlStatement
insert_ann = record (statement_on StatementType.insert (ascii "users") []) {
  columns = ascii "id" ∷ [];
  values = string (ascii "ann") ∷ [];
}

insert_succeeds :
    (direct_insert memory_log texts
      (ascii "users")
      (inserted_row memory_log texts patterns number_text insert_ann (string (ascii "ann")))
      (λ n. n)
      storage).success
    ≡ true
unfolding direct_insert direct begin_transaction new_transaction insert_row stage is_active commit
    commit_writes run_loop apply_writes apply_write apply_op resolve_insert after_loop submit finish
    find text_eq inserted_row key_of_value Mem.insert has_row Mem.update update_found store_row
    Mem.get
insert_succeeds = refl

execute_insert_replaces_example :
    (let row =
        inserted_row memory_log texts patterns number_text insert_ann (string (ascii "ann")) in
      let c = direct_insert memory_log texts (ascii "users") row (λ n. n) storage in
      (execute_insert memory_log texts patterns number_text insert_ann (λ n. n) (λ n. n) storage
        ≡ answered c.engine (done 1 0))
      × (shown c.engine.tables (ascii "users") (ascii "ann") ≡ (
          if text_eq (ascii "users") (ascii "users")
          then (if text_eq row.key (ascii "ann")
              then some (record {
                key = row.key;
                columns = set_columns insert_ann.columns insert_ann.values [];
              })
              else shown storage.tables (ascii "users") (ascii "ann"))
          else shown storage.tables (ascii "users") (ascii "ann"))))
execute_insert_replaces_example =
    execute_insert_replaces memory_log texts patterns number_text insert_ann (string (ascii "ann"))
      [] (λ n. n) (λ n. n) storage users (ascii "users") (ascii "ann") refl
      (unfold find text_eq in refl) insert_succeeds

execute_undefined_example :
    execute memory_log texts patterns number_text
      (ascii "insert into t values ('a')")
      []
      []
      (λ n. n)
      (λ n. n)
      storage
    ≡ ran_undefined
execute_undefined_example =
    execute_undefined memory_log texts patterns number_text (ascii "insert into t values ('a')")
      (record {
        table = record { position = 12; length = 1 };
        column_list = none;
        value_list = ascii "'A'";
      })
      [] [] (λ n. n) (λ n. n) storage (unfold to_upper_text text_eq to_upper in refl)
      (unfold text_eq in refl)

execute_select-rows_example :
    execute_select memory_log texts patterns number_text insert_ann storage
    ≡ answered storage (record {
      success = true;
      error = [];
      columns = result_columns [];
      rows = old_row ∷ [];
      rows_affected = 0;
      execution_time_ms = 0;
    })
execute_select-rows_example =
    execute_select-rows memory_log texts patterns number_text insert_ann storage users
      (unfold find text_eq in refl) tt

-- A CREATE TABLE in a transaction that is rolled back, or committed.
abbrev creating : Regexes
creating = record patterns { search_create = λ text. some (record { position = 13; length = 1 }) }

abbrev sql_engine : SqlEngine (List WalEntry)
sql_engine = record { storage = storage; active_transactions = []; next_txn_id = 1 }

execute_autocommits_example :
    (let (begun, txn_id) =
        begin_sql memory_log texts creating number_text read_committed sql_engine in
      let e = (create memory_log texts (created_schema (ascii "t")) begun.storage).0 in
      (execute memory_log texts creating number_text
          (ascii "create table t (x)")
          []
          []
          (λ n. n)
          (λ n. n)
          begun.storage
        ≡ answered e (done 0 0))
      × ((rollback_sql memory_log texts creating number_text txn_id
            (record begun { storage = e })).0.storage.tables
          ≡ e.tables)
      × ((commit_sql memory_log texts creating number_text txn_id
            (λ n. n)
            (record begun { storage = e })).0.storage.tables
          ≡ e.tables))
execute_autocommits_example =
    let begun = begin_sql memory_log texts creating number_text read_committed sql_engine in
    execute_autocommits memory_log texts creating number_text read_committed
      (ascii "create table t (x)") [] [] (λ n. n) (λ n. n) (λ n. n) sql_engine
      (create memory_log texts (created_schema (ascii "t")) begun.0.storage).0 (done 0 0)
      (unfold execute create begin_sql begin_transaction created_schema to_upper_text to_upper find
          text_eq has_table in
        refl)
