-- ===== src/Wasm/Commit/Staging.antt =====
-- CommitHostCall of src/wasm/host_functions.cpp is one transaction of the storage engine.
use origindb.Prelude.{
  ℕ, ◌≡◌, Option, none, some, Text, [], ◌∷◌, ◌++◌, List, if◌then◌else◌, Assoc, ◌⊎◌,
}
use origindb.Changefeed.Event.{ChangefeedEvent}
use origindb.Transaction.{
  WriteOperation, Transaction, insert, update, delete, read_committed, empty_row,
}
use origindb.Wal.Log.{Log}
use origindb.Engine.{Json, Engine}
use origindb.Engine.Methods.{begin_transaction, commit, get_row}
use origindb.Document.{JsonLibrary}
use origindb.Wasm.Rows.{json_to_row}
use origindb.Wasm.Commit.{succeeded, broken_off, CallCommitted, is_found, auto_create, with_custom}

abbrev pub appended : Transaction → List WriteOperation → Transaction
appended txn writes = record txn { write_set = txn.write_set ++ writes }

module _ (L : Log) (json : Json) {J : Type 0} (library : JsonLibrary J) where
  -- The write of the transaction for a staged write.
  unfoldable pub planned_write : Text → Text → Option J → Engine L.State → WriteOperation
  planned_write table key none e = record {
    op = delete;
    table_name = table;
    row = record empty_row { key = key };
  }
  planned_write table key (some value) e = record {
    op = if is_found (get_row L json table key e) then update else insert;
    table_name = table;
    row = json_to_row library key value;
  }

  -- In the order of the tables, and of the keys of each.
  unfoldable pub planned_writes : Text → Assoc (Option J) → Engine L.State → List WriteOperation
  planned_writes table [] e = []
  planned_writes table ((key, value) ∷ writes) e =
      planned_write table key value e ∷ planned_writes table writes e

  unfoldable pub planned : Assoc (Assoc (Option J)) → Engine L.State → List WriteOperation
  planned [] e = []
  planned ((table, writes) ∷ overlay) e = planned_writes table writes e ++ planned overlay e

  -- The transaction that a call's staged writes are committed by, on the engine with their tables.
  abbrev pub one_transaction :
      (ℕ → ℕ)
      → List ChangefeedEvent
      → Assoc (Assoc (Option J))
      → Engine L.State
      → CallCommitted L.State
  unfolding planned begin_transaction auto_create
  one_transaction clock custom overlay e =
      let (e', txn) =
        begin_transaction L json read_committed (auto_create L json library overlay e).0 in
      with_custom L json library custom (commit L json clock (appended txn (planned overlay e')) e')

  -- The call is committed by one transaction on the engine with its tables, or ends with the
  -- exception that broke their creation off.
  abbrev pub IsCommitted :
      (ℕ → ℕ)
      → List ChangefeedEvent
      → Assoc (Assoc (Option J))
      → Engine L.State
      → CallCommitted L.State
      → Type 0
  unfolding one_transaction
  IsCommitted clock custom overlay e run =
      let made = auto_create L json library overlay e in
      ((made.1 ≡ succeeded) × (run ≡ one_transaction clock custom overlay e))
      ⊎ ((made.1 ≡ broken_off)
          × (run ≡ record { engine = made.0; published = []; outcome = broken_off }))
