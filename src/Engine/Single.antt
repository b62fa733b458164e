-- ===== src/Engine/Single.antt =====
-- A transaction of one write, as the direct writes of src/storage/storage_engine.cpp commit it.
use origindb.Prelude.{
  ℕ, ◌+◌, ◌%◌, ◌^◌, ◌≡◌, refl, sym, ap, ◌∙◌, true, some, Text, find, assign, [], ◌∷◌, text_eq,
  text_eq_iff, arith, find-insert_sorted, Option-cases, inl, inr, if◌then◌else◌,
}
use mathlib.Core.Path.{subst}
use origindb.Table.{Row}
use origindb.MemTable.{MemTable, get, has_row, store_row, update_found}
use origindb.MemTable as Mem
use origindb.Transaction.{
  insert, WriteOperation, Transaction, is_active, read_committed, new_transaction, insert_row,
  stage,
}
use origindb.Wal.Log.{Log}
use origindb.Engine.{
  Json, Engine, Committed, Loop, completed, stopped, broken_off, apply_op, apply_write,
  apply_writes, resolve_insert,
}
use origindb.Engine.Methods.{
  commit, commit_writes, run_loop, after_loop, begin_transaction, direct, direct_insert,
}
use origindb.Engine.Commit.{apply_write-completed}
use origindb.Engine.Rows.{contents_of, content_of}
use origindb.Engine.Recovery.Restart.{start_of, submit-success}

-- What a table shows after an insert, whether or not its key was there: the row at its key.
pub apply_insert-content :
    (now : ℕ) (row : Row) (t : MemTable) (j : Text)
    → contents_of (apply_op now insert row t).table j
      ≡ (if text_eq row.key j then some (content_of row) else contents_of t j)
unfolding apply_op resolve_insert get Mem.insert has_row store_row Mem.update update_found
apply_insert-content now row t j = elim (Option-cases (find row.key t.rows)) [
  | inl e ↦ ground (arith, find-insert_sorted row.key j row t.rows, text_eq_iff row.key j)
  | inr (old, e) ↦ ground (
    arith,
    text_eq_iff row.key j,
    find-insert_sorted row.key j
        (record row { version = (old.version + 1) % 2 ^ 64; timestamp = now }) t.rows,
  )
]

module _ (L : Log) (json : Json) where
  -- What a successful transaction of one write has done.
  pub record IsWritten (w : WriteOperation) (now : ℕ) (e e' : Engine L.State) : Type 0 where
    pub table : MemTable
    pub found : find w.table_name e.tables ≡ some table
    pub success : (apply_op now w.op w.row table).success ≡ true
    pub tables : e'.tables ≡ assign w.table_name (apply_op now w.op w.row table).table e.tables

  -- The loop over one write is its only round.
  run_loop-one :
      (w : WriteOperation) (clock : ℕ → ℕ) (txn : Transaction) (e : Engine L.State)
      → txn.write_set ≡ w ∷ []
      → run_loop L json clock txn e
        ≡ apply_write json e.has_changefeed txn.timestamp
            (clock 0)
            w
            (start_of L json e)
            (find w.table_name e.tables)
  unfolding run_loop apply_writes
  run_loop-one w clock txn e one = rw one (
      only (
        apply_write json e.has_changefeed txn.timestamp (clock 0) w (start_of L json e)
          (find w.table_name e.tables)))
    where
      only :
          (x : Loop)
          → (elim x [
            | stopped q ↦ stopped q
            | broken_off q ↦ broken_off q
            | completed q ↦ apply_writes json e.has_changefeed txn.timestamp clock [] 1 q
          ])
            ≡ x
      only (stopped q) = refl
      only (broken_off q) = refl
      only (completed q) = refl

  after_one :
      (w : WriteOperation) (clock : ℕ → ℕ) (txn : Transaction) (e : Engine L.State)
      → txn.write_set ≡ w ∷ []
      → (x : Loop) → run_loop L json clock txn e ≡ x
      → (after_loop L json x txn e).success ≡ true
      → IsWritten w (clock 0) e (after_loop L json x txn e).engine
  unfolding after_loop
  after_one w clock txn e one (stopped p) r done = absurd (ground (arith, done))
  after_one w clock txn e one (broken_off p) r done = absurd (ground (arith, done))
  after_one w clock txn e one (completed p) r done =
      let (t, round) =
        apply_write-completed json e.has_changefeed txn.timestamp (clock 0) w (start_of L json e) p
          (find w.table_name e.tables) refl (sym (run_loop-one w clock txn e one) ∙ r) in
      let (logged, wal, tables) = submit-success L json p txn e done in
      record {
        table = t;
        found = round.found;
        success = round.success;
        tables = tables ∙ round.tables;
      }

  pub commit-IsWritten :
      (w : WriteOperation) (clock : ℕ → ℕ) (txn : Transaction) (e : Engine L.State)
      → txn.write_set ≡ w ∷ []
      → is_active txn ≡ true
      → (commit L json clock txn e).success ≡ true
      → IsWritten w (clock 0) e (commit L json clock txn e).engine
  unfolding commit commit_writes
  commit-IsWritten w clock txn e one a done =
      let shape : commit L json clock txn e
          ≡ after_loop L json (run_loop L json clock txn e) txn e =
        rw (a, one) refl in
      subst (λ (c : Committed L.State). IsWritten w (clock 0) e c.engine) (sym shape)
        (after_one w clock txn e one (run_loop L json clock txn e) refl
          (ap (λ (c : Committed L.State). c.success) (sym shape) ∙ done))

  -- A direct write that succeeds is its write on its table.
  pub direct-IsWritten :
      (w : WriteOperation) (clock : ℕ → ℕ) (e : Engine L.State)
      → (direct L json (stage w) clock e).success ≡ true
      → IsWritten w (clock 0) e (direct L json (stage w) clock e).engine
  unfolding direct stage begin_transaction new_transaction is_active
  direct-IsWritten w clock e done =
      let (e', txn) = begin_transaction L json read_committed e in
      let wrote = commit-IsWritten w clock (record txn { write_set = w ∷ [] }) e' refl refl done in
      record {
        table = wrote.table;
        found = wrote.found;
        success = wrote.success;
        tables = wrote.tables;
      }

  pub direct_insert-IsWritten :
      (table : Text) (row : Row) (clock : ℕ → ℕ) (e : Engine L.State)
      → (direct_insert L json table row clock e).success ≡ true
      → IsWritten
          (record { op = insert; table_name = table; row = row })
          (clock 0)
          e
          (direct_insert L json table row clock e).engine
  unfolding direct_insert insert_row
  direct_insert-IsWritten table row clock e done =
      direct-IsWritten (record { op = insert; table_name = table; row = row }) clock e done
