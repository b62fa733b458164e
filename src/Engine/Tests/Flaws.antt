-- ===== src/Engine/Tests/Flaws.antt =====
-- Runs of src/storage/storage_engine.cpp in which a commit is not atomic or not durable.
use origindb.Prelude.{
  ◌≡◌, refl, true, false, none, some, text_eq, find, assign, insert_sorted, [], ◌∷◌, ascii, arith,
}
use origindb.MemTable.{MemTable, new_table, get, is_empty, has_row, store_row}
use origindb.MemTable as Mem
use origindb.Transaction.{insert}
use origindb.Wal.Record.{WalEntryType}
use origindb.Wal.Log.{change_of}
use origindb.Wal.Service.{wal_log}
use origindb.Engine.{apply_op, wal_entry}
use origindb.Engine.Methods.{create, commit, has_table, get_row}
use origindb.Engine.Rows.{content_of, contents_of}
use origindb.Engine.Recovery.{replay_as}
use origindb.Engine.Flaws.{insert_of, partial_commit, resolved_insert_lost}
use origindb.Engine.Tests.{
  json, users, schema_named, created, created_table, new_key, alice, inserting, clock,
}

missing : find (ascii "orders") created.tables ≡ none
unfolding create has_table find assign text_eq
missing = refl

partial_commit_example :
    ((commit wal_log json clock
        (inserting (insert_of users alice ∷ insert_of (ascii "orders") alice ∷ []))
        created).success
      ≡ false)
    × ((commit wal_log json clock
          (inserting (insert_of users alice ∷ insert_of (ascii "orders") alice ∷ []))
          created).engine.wal
        ≡ created.wal)
    × (get_row wal_log json users
          (ascii "a")
          (commit wal_log json clock
            (inserting (insert_of users alice ∷ insert_of (ascii "orders") alice ∷ []))
            created).engine
        ≡ some alice)
partial_commit_example =
    partial_commit wal_log json clock
      (inserting (insert_of users alice ∷ insert_of (ascii "orders") alice ∷ [])) created
      (new_table (schema_named users)) users (ascii "orders") alice alice refl refl created_table
      new_key missing

abbrev with_alice : MemTable
with_alice = (Mem.insert alice (new_table (schema_named users))).0

alice_there : get with_alice (ascii "a") ≡ some alice
unfolding Mem.insert has_row store_row new_table get find insert_sorted text_eq
alice_there = refl

alice_table : find users ((users, with_alice) ∷ []) ≡ some with_alice
unfolding find text_eq
alice_table = refl

resolved_insert_lost_example :
    ((apply_op 9 insert (record alice { version = 2 }) with_alice).success ≡ true)
    × (contents_of (apply_op 9 insert (record alice { version = 2 }) with_alice).table (ascii "a")
        ≡ some (content_of (record alice { version = 2 })))
    × (replay_as json WalEntryType.insert 9
          (change_of (wal_entry 1 (insert_of users (record alice { version = 2 }))))
          ((users, with_alice) ∷ [])
        ≡ assign users with_alice ((users, with_alice) ∷ []))
resolved_insert_lost_example =
    resolved_insert_lost wal_log json 9 9 1 users (record alice { version = 2 }) alice with_alice
      ((users, with_alice) ∷ []) (record { key = omega arith; count = omega arith; columns = tt })
      alice_table alice_there
