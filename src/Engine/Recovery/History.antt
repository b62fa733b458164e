-- ===== src/Engine/Recovery/History.antt =====
-- Any sequence of operations on the storage engine (src/storage/storage_engine.cpp), and a restart
-- after it.
use origindb.Prelude.{arith, ℕ, ◌≡◌, refl, true, false, none, some, Text, find, [], ◌∷◌}
use origindb.Table.{TableSchema}
use origindb.MemTable.{MemTable, is_empty}
use origindb.Transaction.{Transaction, IsolationLevel}
use origindb.Wal.Record.{create_table, drop_table}
use origindb.Wal.Log.{Log}
use origindb.Engine.{Json, Tables, Engine}
use origindb.Engine.Methods.{metadata_entry, create, drop, commit, rollback, begin_transaction}
use origindb.Engine.Recovery.Restart.{
  Recoverable, start_of, kept, commit-Recoverable, create-Recoverable, drop-Recoverable,
}
use origindb.Engine.Recovery.Steps.{NoUpsert, AllRows, logged}

module _ (L : Log) (json : Json) where
  -- An operation of the engine. What is logged can be appended and is acknowledged, a created table
  -- has a schema that its text gives back, and a commit succeeds, with rows that fit the codec and
  -- no insert of a key that is there. A begin and a rollback are of any transaction.
  pub data Operation (e : Engine L.State) : Engine L.State → Type 0 where
    creates :
        (schema parsed : TableSchema) (text : Text)
        → find schema.name e.tables ≡ none
        → json.schema_text schema ≡ some text
        → is_empty text ≡ false
        → json.schema_of_text text ≡ some parsed
        → parsed.name ≡ schema.name
        → L.CanAppend (metadata_entry create_table schema.name text ∷ []) e.wal
        → (L.append (metadata_entry create_table schema.name text ∷ []) e.wal).1 ≡ true
        → Operation e (create L json schema e).0
    drops :
        (name : Text) (t : MemTable)
        → find name e.tables ≡ some t
        → L.CanAppend (metadata_entry drop_table name [] ∷ []) e.wal
        → (L.append (metadata_entry drop_table name [] ∷ []) e.wal).1 ≡ true
        → Operation e (drop L json name e).0
    commits :
        (clock : ℕ → ℕ) (txn : Transaction)
        → AllRows json txn.write_set
        → NoUpsert json e.has_changefeed txn.timestamp clock txn.write_set 0 (start_of L json e)
        → L.CanAppend (logged json txn.timestamp txn.write_set) e.wal
        → (commit L json clock txn e).success ≡ true
        → Operation e (commit L json clock txn e).engine
    begins : (level : IsolationLevel) → Operation e (begin_transaction L json level e).0
    rolls_back : (txn : Transaction) → Operation e (rollback L json txn e).engine

  pub data History (e : Engine L.State) : Engine L.State → Type 0 where
    start : History e e
    then : {f g : Engine L.State} → History e f → Operation f g → History e g

-- Over a snapshot of `base`.
module _ (L : Log) (json : Json) (base : Tables) where
  rollback-Recoverable :
      (txn : Transaction) (e : Engine L.State)
      → Recoverable L json base e
      → Recoverable L json base (rollback L json txn e).engine
  unfolding rollback
  rollback-Recoverable txn e h =
      kept L json base e (rollback L json txn e).engine (ground arith) (ground arith) h

  begin_transaction-Recoverable :
      (level : IsolationLevel) (e : Engine L.State)
      → Recoverable L json base e
      → Recoverable L json base (begin_transaction L json level e).0
  unfolding begin_transaction
  begin_transaction-Recoverable level e h =
      kept L json base e (begin_transaction L json level e).0 refl refl h

  Operation-Recoverable :
      {e f : Engine L.State}
      → Operation L json e f
      → Recoverable L json base e
      → Recoverable L json base f
  Operation-Recoverable {e} (creates schema parsed text a s t p n c d) h =
      create-Recoverable L json base schema parsed text e h a s t p n c d
  Operation-Recoverable {e} (drops name t f c d) h = drop-Recoverable L json base name t e h f c d
  Operation-Recoverable {e} (commits clock txn r n c d) h =
      commit-Recoverable L json base clock txn e h r n c d
  Operation-Recoverable {e} (begins level) h = begin_transaction-Recoverable level e h
  Operation-Recoverable {e} (rolls_back txn) h = rollback-Recoverable txn e h

  -- After any sequence of operations on an engine that can be recovered, a restart over the snapshot and
  -- the log brings back the tables that there are, and each row's key and columns (not its version and
  -- time). The operations are creations and drops of tables, begun and rolled back transactions and
  -- successful commits, where the log takes what is logged, the text of a schema gives its name back, no
  -- table is created over another, the rows written fit the codec, and no commit inserts a key that is
  -- there at its turn.
  pub History-Recoverable :
      {e f : Engine L.State}
      → History L json e f
      → Recoverable L json base e
      → Recoverable L json base f
  History-Recoverable start h = h
  History-Recoverable (then past op) h = Operation-Recoverable op (History-Recoverable past h)
