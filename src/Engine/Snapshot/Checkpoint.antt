-- ===== src/Engine/Snapshot/Checkpoint.antt =====
-- The storage engine (src/storage/storage_engine.cpp) from one snapshot on: the operations after it, and
-- a restart over the snapshot and the log.
use origindb.Prelude.{
  ℕ, ◌≡◌, refl, sym, ap, ◌∙◌, true, false, Option, none, some, Text, [], ◌∷◌, Assoc, find, Distinct,
  text_eq, Bool-cases, inl, inr,
}
use mathlib.Core.Option
use mathlib.Core.Path.{subst}
use origindb.Table.{Row}
use origindb.MemTable.{get}
use origindb.Wal.Log.{Log}
use origindb.Engine.{Json, Engine, Tables}
use origindb.Engine.Rows.{content_of, contents_of, SameTables}
use origindb.Engine.Replay.{recover_from_wal}
use origindb.Engine.Recovery.{replay, tables-recover_changes}
use origindb.Engine.Recovery.Restart.{restarted, Recoverable}
use origindb.Engine.Recovery.History.{History, History-Recoverable}
use origindb.Document.{JsonLibrary, map_values, IsDocumented, IsTextual}
use origindb.Engine.Snapshot.{Snapshot, is_empty, write_snapshot, initialize}
use origindb.Engine.Snapshot.Rows.{restored_columns, restored_row}
use origindb.Engine.Snapshot.Restore.{AreTables, restored_table}
use origindb.Engine.Snapshot.Restart.{write_snapshot-replaced, load_snapshot-snapshot_document}

module _ {J : Type 0} (json : JsonLibrary J) where
  -- Rows whose columns come back from their texts as they are: without bytes and times, with 64-bit
  -- integers and finite doubles.
  abbrev pub AreKept : Assoc Row → Type 0
  AreKept [] = Unit {0}
  AreKept ((key, row) ∷ rows) = (restored_columns json row.columns ≡ row.columns) × AreKept rows

  abbrev pub AreKeptIn : Tables → Type 0
  AreKeptIn [] = Unit {0}
  AreKeptIn ((name, t) ∷ tables) = AreKept t.rows × AreKeptIn tables

  restored_row-content :
      (key : Text) (rows : Assoc Row)
      → AreKept rows
      → Option.map content_of (find key (map_values (restored_row json) rows))
        ≡ Option.map content_of (find key rows)
  unfolding find map_values restored_row
  restored_row-content key [] kept = refl
  restored_row-content key ((j, row) ∷ rows) (same, kept) = elim (Bool-cases (text_eq j key)) [
    | inl h ↦ rw h (ap (λ columns. some (record { key = row.key; columns = columns })) same)
    | inr h ↦ rw h (restored_row-content key rows kept)
  ]

  restored_table-contents :
      (name : Text) (tables : Tables)
      → AreKeptIn tables
      → Option.map contents_of (Option.map (restored_table json) (find name tables))
        ≡ Option.map contents_of (find name tables)
  unfolding find restored_table get
  restored_table-contents name [] kept = refl
  restored_table-contents name ((k, t) ∷ tables) (rows, kept) = elim (Bool-cases (text_eq k name)) [
    | inl h ↦ rw h (ap some (λ i key. restored_row-content key t.rows rows i))
    | inr h ↦ rw h (restored_table-contents name tables kept)
  ]

abbrev get_or {ℓ} : {A : Type ℓ} → A → Option A → A
get_or a none = a
get_or a (some b) = b

module _ {J : Type 0} (json : JsonLibrary J) (doc : IsDocumented json) (texts : IsTextual json)
    (L : Log) (codec : Json) where
  -- An engine whose log was truncated can be recovered over tables that show what its own do.
  truncated-Recoverable :
      (base : Tables) (e : Engine L.State)
      → L.Intact e.wal
      → SameTables e.tables base
      → Recoverable L codec base (record e { wal = L.truncate e.wal })
  unfolding recover_from_wal replay
  truncated-Recoverable base e intact same =
      let (intact', empty) = L.truncate_lem e.wal intact in
      (
        intact',
        λ clock.
            subst (SameTables e.tables)
              (sym (
                tables-recover_changes L codec clock 0 (L.contents (L.truncate e.wal))
                  (restarted L codec base (record e { wal = L.truncate e.wal }))
                ∙ ap (λ cs. replay codec clock 0 cs base) empty))
              same,
      )

  -- After a snapshot was written, its file renamed and so the log truncated, and then any sequence of
  -- operations, under the conditions of `History-Recoverable`, a restart over the snapshot and the log
  -- does not fail, and brings back the tables that there are, and each row's key and columns (not its
  -- version and time). The columns in the snapshot come back from their texts as they are: they are
  -- not bytes, times, 32-bit integers, floats or numbers that are not finite. The other conditions
  -- are those of `initialize-write_snapshot`.
  pub initialize-History :
      (last_sequence : L.State → ℕ) (stored : Text → Text) (file : Option Text) (e : Engine L.State)
      (snapshot : Snapshot L.State) (clock : ℕ → ℕ) (f : Engine L.State)
      → ((text : Text) → stored text ≡ text)
      → L.Intact e.wal
      → AreTables e.tables
      → AreKeptIn json e.tables
      → Distinct e.tables
      → is_empty e.tables ≡ false
      → write_snapshot L codec json last_sequence true true true stored file e ≡ some snapshot
      → History L codec snapshot.engine f
      → (e' : Engine L.State) × (initialize L codec json clock snapshot.file
            (restarted L codec [] f)
          ≡ some e')
        × SameTables f.tables e'.tables
  unfolding initialize recover_from_wal
  initialize-History last_sequence stored file e snapshot clock f whole intact are kept distinct
        some_table h history =
      let (d, text, documented, dumped, made) =
        write_snapshot-replaced json doc texts L codec last_sequence stored file e snapshot
          some_table h in
      let is_snapshot = ap (get_or snapshot) made in
      let (g, loaded, same_wal, finds) =
        load_snapshot-snapshot_document json doc texts L codec (last_sequence e.wal) e.tables d text
          (restarted L codec [] f) are distinct refl documented dumped in
      let base_same : SameTables e.tables g.tables = λ name.
        sym (restored_table-contents json name e.tables kept)
        ∙ ap (Option.map contents_of) (sym (finds name)) in
      let recovered =
        (History-Recoverable L codec g.tables
            (subst (λ s. History L codec s.engine f) (sym is_snapshot) history)
            (truncated-Recoverable g.tables e intact base_same)).1
          clock in
      subst
        (λ s.
          (e' : Engine L.State) × (initialize L codec json clock s.file (restarted L codec [] f)
            ≡ some e')
          × SameTables f.tables e'.tables)
        is_snapshot
        (
          recover_from_wal L codec clock g,
          rw (whole text, loaded) refl,
          subst (SameTables f.tables)
              (tables-recover_changes L codec clock 0 (L.contents f.wal)
                  (restarted L codec g.tables f)
                ∙ ap (λ w. replay codec clock 0 (L.contents w) g.tables) (sym same_wal)
                ∙ sym (tables-recover_changes L codec clock 0 (L.contents g.wal) g))
              recovered,
        )
