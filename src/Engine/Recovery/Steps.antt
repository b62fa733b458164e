-- ===== src/Engine/Recovery/Steps.antt =====
-- Replaying the entries of a commit repeats what its loop did to the tables.
use origindb.Prelude.{
  ℕ, ◌+◌, ◌≡◌, refl, sym, ap, ◌∙◌, Bool, Option, none, some, Text, find, assign, List, [], ◌∷◌,
  ◌++◌, append_assoc, append-nil, map, All, arith, Option-cases, inl, inr,
}
use mathlib.Core.Path.{subst, subst₂}
use mathlib.Core.Option.{some-injective}
use origindb.Codec.{ok}
use origindb.Table.{Row}
use origindb.RowCodec.{encode_row, decode_row}
use origindb.RowCodec.RoundTrip.{IsRow, decode_row-encode_row}
use origindb.MemTable.{MemTable}
use origindb.MemTable.Maps
use origindb.MemTable.Maps.{Write}
use origindb.Transaction.{WriteOp, insert, update, delete, WriteOperation}
use origindb.Wal.Record.{WalEntry}
use origindb.Wal.Log.{change_of}
use origindb.Engine.{
  Json, Tables, Progress, Loop, completed, stopped, broken_off, wal_entry, apply_write,
  apply_writes, entry_type,
}
use origindb.Engine.Rows.{
  contents_of, SameTables, SameTables-assign, contents-apply_write, SameWrite, inserts, updates,
  deletes,
}
use origindb.Engine.Commit.{write_of, Fresh, apply_op-table, Round, apply_write-completed}
use origindb.Engine.Recovery.{replay_as, replay, on_table}

-- The row as the log keeps it.
abbrev pub logged_row : Row → Row
logged_row row = record row { version = 0; timestamp = 0 }

pub decode_logged : (row : Row) → IsRow row → decode_row (encode_row row) ≡ ok (logged_row row)
decode_logged row h = rw append-nil at (decode_row-encode_row row [] h)

write_of-logged :
    (now now' : ℕ) (op : WriteOp) (row : Row)
    → SameWrite (write_of now op row) (write_of now' op (logged_row row))
write_of-logged now now' insert row = inserts row (logged_row row) refl
write_of-logged now now' update row = updates now now' row.key row (logged_row row) refl
write_of-logged now now' delete row = deletes row.key

module _ (json : Json) where
  pub replay_as-write :
      (now timestamp : ℕ) (write : WriteOperation) (tables : Tables)
      → IsRow write.row
      → replay_as json (entry_type write.op) now (change_of (wal_entry timestamp write)) tables
        ≡ on_table write.table_name
            (λ t. (Maps.apply_write (write_of now write.op (logged_row write.row)) t).0)
            tables
  replay_as-write now timestamp write tables h = go write.op
    where
      go :
          (op : WriteOp)
          → replay_as json (entry_type op) now (change_of (wal_entry timestamp write)) tables
            ≡ on_table write.table_name
                (λ t. (Maps.apply_write (write_of now op (logged_row write.row)) t).0)
                tables
      go insert = unfold replay_as wal_entry Maps.apply_write in rw (decode_logged write.row h)
      go update = unfold replay_as wal_entry Maps.apply_write in rw (decode_logged write.row h)
      go delete = unfold replay_as wal_entry Maps.apply_write in refl

  pub on_table-found :
      (name : Text) (f : MemTable → MemTable) (u : MemTable) (b : Tables)
      → find name b ≡ some u
      → on_table name f b ≡ assign name (f u) b
  on_table-found name f u b n = ground arith

  on_table-same :
      (name : Text) (f : MemTable → MemTable) (t t' : MemTable) (a b : Tables)
      → find name a ≡ some t
      → ((u : MemTable) → contents_of t ≡ contents_of u → contents_of t' ≡ contents_of (f u))
      → SameTables a b
      → SameTables (assign name t' a) (on_table name f b)
  on_table-same name f t t' a b e k h = elim (Option-cases (find name b)) [
    | inl n ↦ absurd (ground (arith, h name))
    | inr (u, n) ↦
        subst (SameTables (assign name t' a)) (sym (on_table-found name f u b n))
          (SameTables-assign name t' (f u) a b (k u (some-injective _ _ (rw (e, n) at (h name)))) h)
  ]

  progress_of : Loop → Progress
  progress_of (completed p) = p
  progress_of (stopped p) = p
  progress_of (broken_off p) = p

  progress_eq : {p q : Progress} → completed p ≡ completed q → p ≡ q
  unfolding progress_of
  progress_eq e = ap progress_of e

  -- One write of the loop and its entry.
  Round-same :
      (now now' timestamp : ℕ) (write : WriteOperation) (p q : Progress) (t : MemTable)
      (tables : Tables)
      → Round timestamp now write p q t
      → Fresh write.op write.row t
      → IsRow write.row
      → SameTables p.tables tables
      → SameTables q.tables
          (replay_as json (entry_type write.op) now' (change_of (wal_entry timestamp write)) tables)
  Round-same now now' timestamp write p q t tables r fresh row h =
      subst₂ SameTables (sym r.tables) (sym (replay_as-write now' timestamp write tables row)) (
        on_table-same write.table_name _ t _ p.tables tables r.found
          (λ u e.
            rw (apply_op-table now write.op write.row t fresh)
              (contents-apply_write _ _ t u (write_of-logged now now' write.op write.row) e))
          h)

  -- Every insert is of a key that its table does not have when its turn comes.
  abbrev pub FreshIn : WriteOperation → Option MemTable → Type 0
  FreshIn write none = Unit {0}
  FreshIn write (some t) = Fresh write.op write.row t

  abbrev pub NoUpsert : Bool → ℕ → (ℕ → ℕ) → List WriteOperation → ℕ → Progress → Type 0
  NoUpsert feed timestamp clock [] i p = Unit {0}
  NoUpsert feed timestamp clock (write ∷ writes) i p =
      FreshIn write (find write.table_name p.tables)
      × ((q : Progress)
          → apply_write json feed timestamp (clock i) write p (find write.table_name p.tables)
            ≡ completed q
          → NoUpsert feed timestamp clock writes (i + 1) q)

  abbrev pub logged : ℕ → List WriteOperation → List WalEntry
  logged timestamp [] = []
  logged timestamp (write ∷ writes) = wal_entry timestamp write ∷ logged timestamp writes

  abbrev pub AllRows : List WriteOperation → Type 0
  AllRows = All (λ w. IsRow w.row)

  -- The loop, and the replay of the entries that it has built.
  pub loop_replays :
      (feed : Bool) (timestamp : ℕ) (clock clock' : ℕ → ℕ) (writes : List WriteOperation) (i j : ℕ)
      (p q : Progress) (tables : Tables)
      → apply_writes json feed timestamp clock writes i p ≡ completed q
      → NoUpsert feed timestamp clock writes i p
      → AllRows writes
      → SameTables p.tables tables
      → (q.entries ≡ p.entries ++ logged timestamp writes)
        × SameTables q.tables
            (replay json clock' j (map change_of (logged timestamp writes)) tables)
  unfolding apply_writes replay
  loop_replays feed timestamp clock clock' [] i j p q tables e f r h = (
    rw (progress_eq e, append-nil) refl,
    subst (λ x. SameTables x.tables tables) (progress_eq e) h,
  )
  loop_replays feed timestamp clock clock' (w ∷ ws) i j p q tables e (f, fs) (r, rs) h =
      split (apply_write json feed timestamp (clock i) w p (find w.table_name p.tables)) refl
        (λ x e' fs' h'.
          loop_replays feed timestamp clock clock' ws (i + 1) (j + 1) x q
            (replay_as json (entry_type w.op) (clock' j) (change_of (wal_entry timestamp w)) tables)
            e' fs' rs h')
    where
      split :
          (x : Loop)
          → apply_write json feed timestamp (clock i) w p (find w.table_name p.tables) ≡ x
          → ((x : Progress)
              → apply_writes json feed timestamp clock ws (i + 1) x ≡ completed q
              → NoUpsert feed timestamp clock ws (i + 1) x
              → SameTables x.tables (
                  replay_as json
                    (entry_type w.op)
                    (clock' j)
                    (change_of (wal_entry timestamp w))
                    tables)
              → (q.entries ≡ x.entries ++ logged timestamp ws)
                × SameTables q.tables (
                    replay json clock' (j + 1) (map change_of (logged timestamp ws)) (
                      replay_as json
                        (entry_type w.op)
                        (clock' j)
                        (change_of (wal_entry timestamp w))
                        tables)))
          → (q.entries ≡ p.entries ++ wal_entry timestamp w ∷ logged timestamp ws)
            × SameTables q.tables (
                replay json clock' j
                  (map change_of (wal_entry timestamp w ∷ logged timestamp ws))
                  tables)
      split (stopped x) e' recur = absurd (ground (arith, e, e'))
      split (broken_off x) e' recur = absurd (ground (arith, e, e'))
      split (completed x) e' recur =
          let (t, round) =
            apply_write-completed json feed timestamp (clock i) w p x (find w.table_name p.tables)
              refl e' in
          let (entries, same) = recur x (rw (apply_writes, e') at e) (fs x e') (
            Round-same (clock i) (clock' j) timestamp w p x t tables round
              (subst (FreshIn w) round.found f) r h) in
          (entries ∙ rw (round.entries, append_assoc) refl, same)
