-- ===== src/Engine/Recovery/Restart.antt =====
-- A restart of the storage engine after each of its operations (src/storage/storage_engine.cpp).
use origindb.Prelude.{
  ℕ, ◌≡◌, refl, sym, ap, ◌∙◌, true, false, none, some, Text, find, List, [], ◌∷◌, map, arith, inl,
  inr, Bool-cases,
}
use mathlib.Core.Path.{subst, subst₂}
use origindb.Table.{TableSchema}
use origindb.MemTable.{MemTable, new_table, is_empty}
use origindb.Transaction.{WriteOperation, Transaction, is_active}
use origindb.Wal.Record.{WalEntry, create_table, drop_table}
use origindb.Wal.Log.{change_of, Log}
use origindb.Engine.{Json, Tables, Engine, Progress, Loop, completed, stopped, broken_off}
use origindb.Engine.Methods.{
  has_table, metadata_entry, create, create_missing, drop, drop_found, commit, commit_writes,
  after_loop, run_loop, submit, finish,
}
use origindb.Engine.Replay.{recover_from_wal}
use origindb.Engine.Rows.{SameTables, SameTables-assign, SameTables-erase}
use origindb.Engine.Recovery.{replay, tables-recover_changes}
use origindb.Engine.Recovery.Steps.{NoUpsert, AllRows, logged, loop_replays}
use origindb.Engine.Recovery.Entries.{
  replay-append, SameTables-refl, missing, present, new_table-empty, replay-create_table,
  replay-drop_table,
}

module _ (L : Log) (json : Json) where
  abbrev pub start_of : Engine L.State → Progress
  start_of e = record {
    tables = e.tables;
    total_rows = e.stats.total_rows;
    entries = [];
    events = [];
  }

  pub submit-success :
      (p : Progress) (txn : Transaction) (e : Engine L.State)
      → (submit L json p txn e).success ≡ true
      → ((L.append p.entries e.wal).1 ≡ true)
        × ((submit L json p txn e).engine.wal ≡ (L.append p.entries e.wal).0)
        × ((submit L json p txn e).engine.tables ≡ p.tables)
  unfolding submit finish
  submit-success p txn e done = elim (Bool-cases (L.append p.entries e.wal).1) [
    | inl s ↦ (s, rw s refl, rw s refl)
    | inr s ↦ absurd (ground arith)
  ]

-- `base` is what the snapshot has.
module _ (L : Log) (json : Json) (base : Tables) where
  -- The engine of a new process over the log that an engine leaves behind, with its snapshot loaded.
  abbrev pub restarted : Engine L.State → Engine L.State
  restarted e = record e { tables = base }

  -- A restart over `base` brings back the tables that there are, and what each shows at each key: its rows'
  -- keys and columns, not their versions and times of update, which the log does not have.
  abbrev pub Recoverable : Engine L.State → Type 0
  Recoverable e =
      L.Intact e.wal
      × ((clock : ℕ → ℕ) → SameTables e.tables (recover_from_wal L json clock (restarted e)).tables)

  recovered :
      (clock : ℕ → ℕ) (e : Engine L.State)
      → (recover_from_wal L json clock (restarted e)).tables
        ≡ replay json clock 0 (L.contents e.wal) base
  unfolding recover_from_wal
  recovered clock e = tables-recover_changes L json clock 0 (L.contents e.wal) (restarted e)

  -- The log has grown by a batch whose replay does to the tables what was done to them.
  grown :
      (e e' : Engine L.State) (es : List WalEntry)
      → Recoverable e
      → L.CanAppend es e.wal
      → (L.append es e.wal).1 ≡ true
      → e'.wal ≡ (L.append es e.wal).0
      → ((clock : ℕ → ℕ) (j : ℕ) (tables : Tables)
          → SameTables e.tables tables
          → SameTables e'.tables (replay json clock j (map change_of es) tables))
      → Recoverable e'
  grown e e' es (intact, same) can done wal step =
      let (intact', contents) = L.append_true es e.wal intact can done in
      (
        subst L.Intact (sym wal) intact',
        λ clock.
            subst (SameTables e'.tables)
              (sym (
                recovered clock e'
                ∙ ap (λ w. replay json clock 0 (L.contents w) base) wal
                ∙ ap (λ cs. replay json clock 0 cs base) contents
                ∙ replay-append json clock 0 (L.contents e.wal) (map change_of es) base))
              (step clock _ _ (subst (SameTables e.tables) (recovered clock e) (same clock))),
      )

  -- An engine with the tables and the log of another.
  pub kept :
      (e e' : Engine L.State)
      → e'.tables ≡ e.tables
      → e'.wal ≡ e.wal
      → Recoverable e
      → Recoverable e'
  kept e e' tables wal (intact, same) = (
    subst L.Intact (sym wal) intact,
    λ clock.
        subst₂ SameTables (sym tables)
          (recovered clock e
            ∙ ap (λ w. replay json clock 0 (L.contents w) base) (sym wal)
            ∙ sym (recovered clock e'))
          (same clock),
  )

  writes-Recoverable :
      (clock : ℕ → ℕ) (writes : List WriteOperation) (txn : Transaction) (e : Engine L.State)
      → Recoverable e
      → AllRows json txn.write_set
      → NoUpsert json e.has_changefeed txn.timestamp clock txn.write_set 0 (start_of L json e)
      → L.CanAppend (logged json txn.timestamp txn.write_set) e.wal
      → (commit_writes L json clock writes txn e).success ≡ true
      → Recoverable (commit_writes L json clock writes txn e).engine
  unfolding commit_writes finish after_loop run_loop
  writes-Recoverable clock [] txn e h rows fresh can done =
      kept e (finish L json [] txn e).engine refl refl h
  writes-Recoverable clock (w ∷ ws) txn e h rows fresh can done =
      split (run_loop L json clock txn e) refl done
    where
      steps :
          (p : Progress)
          → run_loop L json clock txn e ≡ completed p
          → (clock' : ℕ → ℕ) (j : ℕ) (from : Tables) → SameTables e.tables from
          → (p.entries ≡ logged json txn.timestamp txn.write_set)
            × SameTables p.tables (
                replay json clock' j (map change_of (logged json txn.timestamp txn.write_set)) from)
      steps p eq clock' j from same =
          loop_replays json e.has_changefeed txn.timestamp clock clock' txn.write_set 0 j
            (start_of L json e) p from eq fresh rows same

      split :
          (x : Loop)
          → run_loop L json clock txn e ≡ x
          → (after_loop L json x txn e).success ≡ true
          → Recoverable (after_loop L json x txn e).engine
      split (stopped p) eq d = absurd (ground (arith, d))
      split (broken_off p) eq d = absurd (ground (arith, d))
      split (completed p) eq d =
          let (appended, wal, tables) = submit-success L json p txn e d in
          let entries = (steps p eq clock 0 e.tables (SameTables-refl e.tables)).0 in
          grown e (submit L json p txn e).engine (logged json txn.timestamp txn.write_set) h can
            (ap (λ es. (L.append es e.wal).1) (sym entries) ∙ appended)
            (wal ∙ ap (λ es. (L.append es e.wal).0) entries)
            (λ clock' j from same.
              subst
                (λ ts. SameTables ts (
                  replay json clock' j (map change_of (logged json txn.timestamp txn.write_set))
                    from))
                (sym tables) ((steps p eq clock' j from same).1))

  -- A commit that succeeds keeps an engine recoverable: a restart over the snapshot and the log then
  -- brings back the tables that there are, and each row's key and columns (not its version and time).
  -- The rows of the transaction fit the codec, each of its inserts is of a key that is not there at its
  -- turn, and the log can take its entries.
  pub commit-Recoverable :
      (clock : ℕ → ℕ) (txn : Transaction) (e : Engine L.State)
      → Recoverable e
      → AllRows json txn.write_set
      → NoUpsert json e.has_changefeed txn.timestamp clock txn.write_set 0 (start_of L json e)
      → L.CanAppend (logged json txn.timestamp txn.write_set) e.wal
      → (commit L json clock txn e).success ≡ true
      → Recoverable (commit L json clock txn e).engine
  unfolding commit is_active
  commit-Recoverable clock txn e h rows fresh can done = elim (Bool-cases (is_active txn)) [
    | inl active ↦ rw active (
        writes-Recoverable clock txn.write_set txn e h rows fresh can (rw (commit, active) at done))
    | inr idle ↦ absurd (ground (arith, done, idle))
  ]

  -- Create keeps an engine recoverable, so that a restart has the new table too. No table has the
  -- name, the log takes the entry, and the text of the schema is not empty and parses to a schema
  -- of the same name.
  pub create-Recoverable :
      (schema parsed : TableSchema) (text : Text) (e : Engine L.State)
      → Recoverable e
      → find schema.name e.tables ≡ none
      → json.schema_text schema ≡ some text
      → is_empty text ≡ false
      → json.schema_of_text text ≡ some parsed
      → parsed.name ≡ schema.name
      → L.CanAppend (metadata_entry create_table schema.name text ∷ []) e.wal
      → (L.append (metadata_entry create_table schema.name text ∷ []) e.wal).1 ≡ true
      → Recoverable (create L json schema e).0
  unfolding create create_missing has_table
  create-Recoverable schema parsed text e h absent written full parses named can done =
      grown e (create L json schema e).0 _ h can done (rw (absent, written) refl)
        (λ clock j tables same.
          rw
            (
              absent,
              written,
              replay-create_table json clock j schema parsed text tables
                  (missing schema.name e.tables tables same absent) full parses named,
            )
            (SameTables-assign schema.name (new_table schema) (new_table parsed) e.tables tables
              (new_table-empty schema parsed) same))

  -- Drop keeps an engine recoverable, so that a restart does not have the dropped table. The table
  -- is there, and the log takes the entry.
  pub drop-Recoverable :
      (name : Text) (t : MemTable) (e : Engine L.State)
      → Recoverable e
      → find name e.tables ≡ some t
      → L.CanAppend (metadata_entry drop_table name [] ∷ []) e.wal
      → (L.append (metadata_entry drop_table name [] ∷ []) e.wal).1 ≡ true
      → Recoverable (drop L json name e).0
  unfolding drop drop_found
  drop-Recoverable name t e h there can done =
      grown e (drop L json name e).0 _ h can done (rw there refl) (λ clock j tables same.
        let (u, found) = present name t e.tables tables same there in
        rw (there, replay-drop_table json clock j name u tables found)
          (SameTables-erase name e.tables tables same))
