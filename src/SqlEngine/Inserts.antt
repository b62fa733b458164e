-- ===== src/SqlEngine/Inserts.antt =====
-- What an INSERT of src/sql/sql_engine.cpp does to the storage.
use origindb.Prelude.{
  ℕ, ◌≡◌, refl, ap, ◌∙◌, true, Option, none, some, Text, find, assign, find-assign, List, [], ◌∷◌,
  text_eq, text_eq_iff, arith, if◌then◌else◌,
}
use origindb.Table.{Value, Row}
use origindb.MemTable.{MemTable}
use origindb.Transaction.{insert}
use origindb.Wal.Log.{Log}
use origindb.Engine.{Json, Engine, Committed, Tables, apply_op}
use origindb.Engine.Methods.{direct_insert, get_table}
use origindb.Engine.Rows.{Content, contents_of}
use origindb.Engine.Single.{apply_insert-content, direct_insert-IsWritten}
use origindb.SqlEngine.Results.{done, set_columns}
use origindb.SqlEngine.Statements.{insert_values as insert_values_of}
use origindb.SqlEngine.Statements.{
  SqlStatement, StatementType, Regexes, InsertMatch, statement, to_upper_text, parse, parse_upper,
  parse_insert,
}
use origindb.SqlEngine.{
  answered, ran_undefined, inserted_row, inserted, insert_values, insert_into, execute_insert,
  execute_as, execute_parsed, execute,
}

-- What a client reads of a table at a key.
abbrev pub shown_in : Option MemTable → Text → Option Content
shown_in none key = none
shown_in (some t) key = contents_of t key

abbrev pub shown : Tables → Text → Text → Option Content
shown tables table key = shown_in (find table tables) key

shown-assign :
    (name table key : Text) (t : MemTable) (tables : Tables)
    → shown (assign name t tables) table key
      ≡ (if text_eq name table then contents_of t key else shown tables table key)
shown-assign name table key t tables = ground (arith, find-assign name table t tables)

shown-found :
    (tables : Tables) (table key : Text) (t : MemTable)
    → find table tables ≡ some t
    → shown tables table key ≡ contents_of t key
shown-found tables table key t h = ap (λ o. shown_in o key) h

module _ (L : Log) (json : Json) (regexes : Regexes) (double_text : ℕ → Text) where
  inserted-done :
      (stmt : SqlStatement) (row : Row) (later : ℕ → ℕ) (c : Committed L.State)
      → c.success ≡ true
      → inserted L json regexes double_text stmt row later c ≡ answered c.engine (done 1 0)
  unfolding inserted
  inserted-done stmt row later c ok = rw ok refl

  -- An INSERT with a value into a table that is there, whose write succeeds, answers one row, and the
  -- row of its key has afterwards the named columns only, whatever columns a row of that key had before:
  -- the merging of the two rows that follows in the code is not reached. Every other row of every
  -- table stays as it was.
  pub execute_insert_replaces :
      (stmt : SqlStatement) (v : Value) (values : List Value) (clock later : ℕ → ℕ)
      (e : Engine L.State) (t : MemTable) (table key : Text)
      → stmt.values ≡ v ∷ values
      → find stmt.table_name e.tables ≡ some t
      → (direct_insert L json stmt.table_name
          (inserted_row L json regexes double_text stmt v)
          clock
          e).success
        ≡ true
      → (let row = inserted_row L json regexes double_text stmt v in
          let c = direct_insert L json stmt.table_name row clock e in
          (execute_insert L json regexes double_text stmt clock later e
            ≡ answered c.engine (done 1 0))
          × (shown c.engine.tables table key ≡ (
              if text_eq stmt.table_name table
              then (if text_eq row.key key
                  then some
                      (record { key = row.key; columns = set_columns stmt.columns stmt.values [] })
                  else shown e.tables table key)
              else shown e.tables table key)))
  unfolding execute_insert get_table
  execute_insert_replaces stmt v values clock later e t table key vs found ok =
      let row = inserted_row L json regexes double_text stmt v in
      let c = direct_insert L json stmt.table_name row clock e in
      let wrote = direct_insert-IsWritten L json stmt.table_name row clock e ok in
      (
        ap (λ vs'. insert_values L json regexes double_text stmt vs' clock later e) vs
            ∙ ap (insert_into L json regexes double_text stmt row clock later e) found
            ∙ inserted-done stmt row later c ok,
        ground (
          arith,
          found,
          wrote.found,
          wrote.tables,
          text_eq_iff stmt.table_name table,
          shown-assign stmt.table_name table key (apply_op (clock 0) insert row wrote.table).table
              e.tables,
          apply_insert-content (clock 0) row wrote.table key,
          shown-found e.tables stmt.table_name key wrote.table wrote.found,
        ),
      )

  parse-values :
      (sql : Text) (m : InsertMatch)
      → regexes.search_insert (to_upper_text sql) ≡ some m
      → regexes.search_insert sql ≡ none
      → (stmt : SqlStatement) × (parse regexes sql ≡ statement stmt)
        × (stmt.type ≡ StatementType.insert)
        × (stmt.values ≡ [])
  unfolding parse parse_insert
  parse-values sql m upper lower = (
    parse_insert regexes sql m,
    ap (parse_upper regexes sql (to_upper_text sql)) upper,
    refl,
    ap (insert_values_of regexes) lower,
  )

  -- A text in which the pattern of INSERT is found only after the text was put in upper case is read as
  -- a statement without values, and its execution takes the first of them, which is undefined.
  pub execute_undefined :
      (sql : Text) (m : InsertMatch) (params : List Value) (transaction_id : Text)
      (clock later : ℕ → ℕ) (e : Engine L.State)
      → regexes.search_insert (to_upper_text sql) ≡ some m
      → regexes.search_insert sql ≡ none
      → execute L json regexes double_text sql params transaction_id clock later e ≡ ran_undefined
  unfolding execute execute_insert
  execute_undefined sql m params transaction_id clock later e upper lower =
      let (stmt, parsed, type, values) = parse-values sql m upper lower in
      ap (λ p. execute_parsed L json regexes double_text p clock later e) parsed
      ∙ ap (λ type'. execute_as L json regexes double_text type' stmt clock later e) type
      ∙ ap (λ vs. insert_values L json regexes double_text stmt vs clock later e) values
