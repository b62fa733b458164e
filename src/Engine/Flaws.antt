-- ===== src/Engine/Flaws.antt =====
-- Where src/storage/storage_engine.cpp falls short of an atomic and durable commit.
use origindb.Prelude.{
  ℕ, ◌≡◌, refl, ap, ◌∙◌, Bool, true, false, Option, none, some, Text, find, find-assign, assign,
  List, [], ◌∷◌, if◌then◌else◌, arith, text_eq_refl, text_eq_iff, ◌⊎◌, inl, inr, ◌≢◌,
}
use origindb.Table.{Row}
use origindb.RowCodec.RoundTrip.{IsRow}
use origindb.MemTable.{MemTable, get, has_row, new_table}
use origindb.MemTable as Mem
use origindb.MemTable.Maps
use origindb.MemTable.Maps.{get-apply_write}
use origindb.Transaction.{insert, WriteOperation, Transaction, active, is_active, active_state}
use origindb.Wal.Record.{WalEntryType}
use origindb.Wal.Log.{change_of, Log}
use origindb.Engine.{
  Json, Engine, Tables, wal_entry, apply_op, apply_write, apply_writes, resolve_insert, Progress,
  Loop, completed, stopped, broken_off, buffered, Committed,
}
use origindb.Engine.Commit.{buffered-completed, buffered-broken_off}
use origindb.Engine.Methods.{
  commit, commit_writes, run_loop, after_loop, get_row, refused, with_progress,
}
use origindb.Engine.Rows.{content_of, contents_of}
use origindb.Engine.Recovery.{replay_as}
use origindb.Engine.Recovery.Steps.{logged_row, replay_as-write, on_table-found}
use origindb.Engine.Recovery.Restart.{start_of}

abbrev pub insert_of : Text → Row → WriteOperation
insert_of table row = record { op = insert; table_name = table; row = row }

insert-new :
    (row : Row) (t : MemTable)
    → get t row.key ≡ none
    → ((Mem.insert row t).1 ≡ true) × (get (Mem.insert row t).0 row.key ≡ some row)
unfolding Maps.apply_write Maps.written Maps.accepted Maps.row_after
insert-new row t h =
    let (done, now) = get-apply_write (Maps.insert_row row) t row.key in
    (done ∙ rw h refl, now ∙ rw (text_eq_refl row.key, h) refl)

new_row :
    (now : ℕ) (row : Row) (t : MemTable)
    → get t row.key ≡ none
    → ((apply_op now insert row t).success ≡ true)
      × (get (apply_op now insert row t).table row.key ≡ some row)
unfolding apply_op
new_row now row t h = let (done, there) = insert-new row t h in rw done (refl, there)

row_in : Text → Text → Tables → Option Row
row_in table key tables = elim (find table tables) [ none ↦ none | some t ↦ get t key ]

first_tables :
    (json : Json) (feed : Bool) (timestamp now : ℕ) (p q : Progress) (t : MemTable) (table : Text)
    (row : Row)
    → get t row.key ≡ none
    → (apply_write json feed timestamp now (insert_of table row) p (some t) ≡ completed q)
      ⊎ (apply_write json feed timestamp now (insert_of table row) p (some t) ≡ broken_off q)
    → q.tables ≡ assign table (apply_op now insert row t).table p.tables
unfolding apply_write
first_tables json feed timestamp now p q t table row fresh (inl e) =
    (buffered-completed feed _ q _ (rw (new_row now row t fresh).0 at e)).0
first_tables json feed timestamp now p q t table row fresh (inr e) =
    buffered-broken_off feed _ q _ (rw (new_row now row t fresh).0 at e)

not_stopped :
    (json : Json) (feed : Bool) (timestamp now : ℕ) (p q : Progress) (t : MemTable) (table : Text)
    (row : Row)
    → get t row.key ≡ none
    → apply_write json feed timestamp now (insert_of table row) p (some t) ≢ stopped q
unfolding apply_write buffered
not_stopped json feed timestamp now p q t table row fresh e =
    ground (arith, e, (new_row now row t fresh).0)

still_missing :
    (table other : Text) (t u : MemTable) (tables : Tables)
    → find table tables ≡ some t
    → find other tables ≡ none
    → find other (assign table u tables) ≡ none
still_missing table other t u tables found missing =
    ground (arith, text_eq_iff table other, find-assign table other u tables)

-- The loop ended before its last write, with this progress.
IsHalted : Loop → Progress → Type 0
IsHalted x q = (x ≡ stopped q) ⊎ (x ≡ broken_off q)

stops :
    (json : Json) (feed : Bool) (timestamp : ℕ) (clock : ℕ → ℕ) (i : ℕ) (p : Progress)
    (t : MemTable) (table other : Text) (row row' : Row)
    → find table p.tables ≡ some t
    → get t row.key ≡ none
    → find other p.tables ≡ none
    → (q : Progress) × IsHalted
        (apply_writes json feed timestamp clock
          (insert_of table row ∷ insert_of other row' ∷ [])
          i
          p)
        q
      × (row_in table row.key q.tables ≡ some row)
unfolding apply_writes apply_write row_in IsHalted
stops json feed timestamp clock i p t table other row row' found fresh missing =
    go (apply_write json feed timestamp (clock i) (insert_of table row) p (some t)) refl
  where
    shown :
        (u : MemTable) (q : Progress)
        → q.tables ≡ assign table u p.tables
        → get u row.key ≡ some row
        → row_in table row.key q.tables ≡ some row
    shown u q tables there =
        ground (arith, tables, find-assign table table u p.tables, text_eq_refl table)

    go :
        (x : Loop)
        → apply_write json feed timestamp (clock i) (insert_of table row) p (some t) ≡ x
        → (q : Progress) × IsHalted
            (apply_writes json feed timestamp clock
              (insert_of table row ∷ insert_of other row' ∷ [])
              i
              p)
            q
          × (row_in table row.key q.tables ≡ some row)
    go (stopped q) e = absurd (not_stopped json feed timestamp (clock i) p q t table row fresh e)
    go (broken_off q) e =
        let tables = first_tables json feed timestamp (clock i) p q t table row fresh (inr e) in
        (
          q,
          inr (rw (apply_writes, found, e) refl),
          shown (apply_op (clock i) insert row t).table q tables
              ((new_row (clock i) row t fresh).1),
        )
    go (completed q) e =
        let tables = first_tables json feed timestamp (clock i) p q t table row fresh (inl e) in
        let gone = ap (find other) tables ∙ still_missing table other t _ p.tables found missing in
        (
          q,
          inl (rw (apply_writes, found, e, gone) refl),
          shown (apply_op (clock i) insert row t).table q tables
              ((new_row (clock i) row t fresh).1),
        )

refused_insert :
    (row old : Row) (t : MemTable)
    → get t row.key ≡ some old
    → ((Mem.insert row t).0 ≡ t) × ((Mem.insert row t).1 ≡ false)
unfolding Mem.insert get has_row
refused_insert row old t h = rw h (refl, refl)

resolved :
    (now : ℕ) (row old : Row) (t : MemTable)
    → get t row.key ≡ some old
    → ((apply_op now insert row t).success ≡ true)
      × (contents_of (apply_op now insert row t).table row.key ≡ some (content_of row))
unfolding apply_op resolve_insert Maps.apply_write Maps.written Maps.accepted Maps.row_after
resolved now row old t h =
    let (same, refused) = refused_insert row old t h in
    let (done, shown) = get-apply_write (Maps.update_row now row.key row) t row.key in
    rw (refused, same, h) (done ∙ rw h refl, rw (shown, text_eq_refl row.key, h) refl)

kept :
    (row old : Row) (t : MemTable)
    → get t row.key ≡ some old
    → (Maps.apply_write (Maps.insert_row (logged_row row)) t).0 ≡ t
unfolding Maps.apply_write
kept row old t h = (refused_insert (logged_row row) old t h).0

replayed :
    (json : Json) (now timestamp : ℕ) (table : Text) (row old : Row) (t : MemTable)
    (tables : Tables)
    → IsRow row
    → find table tables ≡ some t
    → get t row.key ≡ some old
    → replay_as json WalEntryType.insert now
        (change_of (wal_entry timestamp (insert_of table row)))
        tables
      ≡ assign table t tables
replayed json now timestamp table row old t tables h found there =
    replay_as-write json now timestamp (insert_of table row) tables h
    ∙ on_table-found json table (λ u. (Maps.apply_write (Maps.insert_row (logged_row row)) u).0) t
        tables found
    ∙ ap (λ u. assign table u tables) (kept row old t there)

module _ (L : Log) (json : Json) where
  commit-halted :
      (clock : ℕ → ℕ) (txn : Transaction) (e : Engine L.State) (w : WriteOperation)
      (ws : List WriteOperation) (q : Progress)
      → is_active txn ≡ true
      → txn.write_set ≡ w ∷ ws
      → IsHalted
          (apply_writes json e.has_changefeed txn.timestamp clock (w ∷ ws) 0 (start_of L json e))
          q
      → ((commit L json clock txn e).success ≡ false)
        × ((commit L json clock txn e).engine ≡ with_progress L json q e)
  unfolding commit commit_writes run_loop after_loop IsHalted
  commit-halted clock txn e w ws q a writes halted =
      let looped =
        ap (λ b. if b then commit_writes L json clock txn.write_set txn e else refused L json txn e)
          a
        ∙ ap (λ l. commit_writes L json clock l txn e) writes
        ∙ ap (λ l. after_loop L json l txn e)
            (ap
              (λ l. apply_writes json e.has_changefeed txn.timestamp clock l 0 (start_of L json e))
              writes) in
      elim halted [
        | inl h ↦
            let same = looped ∙ ap (λ l. after_loop L json l txn e) h in
            (
              ap (λ (c : Committed L.State). c.success) same,
              ap (λ (c : Committed L.State). c.engine) same,
            )
        | inr h ↦
            let same = looped ∙ ap (λ l. after_loop L json l txn e) h in
            (
              ap (λ (c : Committed L.State). c.success) same,
              ap (λ (c : Committed L.State). c.engine) same,
            )
      ]

  -- A commit is not atomic: of two inserts of an active transaction, the first of a new key and
  -- the second into a table that is not there, the commit fails, and yet the first row can be read
  -- and the log is as it was.
  pub partial_commit :
      (clock : ℕ → ℕ) (txn : Transaction) (e : Engine L.State) (t : MemTable) (table other : Text)
      (row row' : Row)
      → txn.state ≡ active
      → txn.write_set ≡ insert_of table row ∷ insert_of other row' ∷ []
      → find table e.tables ≡ some t
      → get t row.key ≡ none
      → find other e.tables ≡ none
      → ((commit L json clock txn e).success ≡ false)
        × ((commit L json clock txn e).engine.wal ≡ e.wal)
        × (get_row L json table row.key (commit L json clock txn e).engine ≡ some row)
  unfolding get_row is_active row_in
  partial_commit clock txn e t table other row row' active' writes found fresh missing =
      let (q, loop, shown) =
        stops json e.has_changefeed txn.timestamp clock 0 (start_of L json e) t table other row row'
          found fresh missing in
      let (fails, left) =
        commit-halted clock txn e (insert_of table row) (insert_of other row' ∷ []) q
          (ap active_state active') writes loop in
      (
        fails,
        ap (λ (f : Engine L.State). f.wal) left,
        ap (λ (f : Engine L.State). get_row L json table row.key f) left ∙ shown,
      )

  -- An insert of a key that is there is resolved by Commit as an update, which succeeds and shows
  -- the new row, and logged as an insert, of which a replay leaves the table with the old row: the
  -- update is lost. The row fits the codec.
  pub resolved_insert_lost :
      (now now' timestamp : ℕ) (table : Text) (row old : Row) (t : MemTable) (tables : Tables)
      → IsRow row
      → find table tables ≡ some t
      → get t row.key ≡ some old
      → ((apply_op now insert row t).success ≡ true)
        × (contents_of (apply_op now insert row t).table row.key ≡ some (content_of row))
        × (replay_as json WalEntryType.insert now'
              (change_of (wal_entry timestamp (insert_of table row)))
              tables
            ≡ assign table t tables)
  resolved_insert_lost now now' timestamp table row old t tables h found there =
      let (done, shown) = resolved now row old t there in
      (done, shown, replayed json now' timestamp table row old t tables h found there)
