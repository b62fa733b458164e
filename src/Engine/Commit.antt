-- ===== src/Engine/Commit.antt =====
-- The loop of Commit writes to the log what it does to the tables.
use origindb.Prelude.{
  ℕ, ◌≡◌, refl, Bool, true, Option, none, some, find, assign, [], ◌∷◌, ◌++◌, arith, Bool-cases, inl,
  if◌then◌else◌, false, inr,
}
use origindb.Table.{Row}
use origindb.MemTable.{MemTable, get, has_row, store_row}
use origindb.MemTable as Mem
use origindb.MemTable.Maps
use origindb.MemTable.Maps.{Write}
use origindb.Transaction.{WriteOp, insert, update, delete, WriteOperation}
use origindb.Changefeed.Event.{ChangefeedEvent}
use origindb.Engine.{
  Json, Progress, completed, broken_off, buffered, resolve_insert, apply_op, wal_entry, apply_write,
}

-- A staged write as a write of the table.
abbrev pub write_of : ℕ → WriteOp → Row → Write
write_of now insert row = Maps.insert_row row
write_of now update row = Maps.update_row now row.key row
write_of now delete row = Maps.delete_row row.key

-- An insert is of a key that the table does not have, so that it is not resolved as an update.
abbrev pub Fresh : WriteOp → Row → MemTable → Type 0
Fresh insert row t = get t row.key ≡ none
Fresh update row t = Unit {0}
Fresh delete row t = Unit {0}

pub apply_op-table :
    (now : ℕ) (op : WriteOp) (row : Row) (t : MemTable)
    → Fresh op row t
    → (apply_op now op row t).table ≡ (Maps.apply_write (write_of now op row) t).0
unfolding apply_op Maps.apply_write get Mem.insert resolve_insert
apply_op-table now insert row t h = ground arith
apply_op-table now update row t h = refl
apply_op-table now delete row t h = refl

-- One round of the loop that did not fail.
pub record Round (timestamp now : ℕ) (write : WriteOperation) (p q : Progress) (t : MemTable)
    : Type 0 where
  pub found : find write.table_name p.tables ≡ some t
  pub success : (apply_op now write.op write.row t).success ≡ true
  pub tables : q.tables ≡ assign write.table_name (apply_op now write.op write.row t).table p.tables
  pub entries : q.entries ≡ p.entries ++ wal_entry timestamp write ∷ []

-- Adding the event of a write changes neither the tables nor the entries.
pub buffered-completed :
    (feed : Bool) (p q : Progress) (event : Option ChangefeedEvent)
    → (if feed then buffered p event else completed p) ≡ completed q
    → (q.tables ≡ p.tables) × (q.entries ≡ p.entries)
unfolding buffered
buffered-completed false p q event e = (ground (arith, e), ground (arith, e))
buffered-completed true p q none e = absurd (ground (arith, e))
buffered-completed true p q (some event) e = (ground (arith, e), ground (arith, e))

pub buffered-broken_off :
    (feed : Bool) (p q : Progress) (event : Option ChangefeedEvent)
    → (if feed then buffered p event else completed p) ≡ broken_off q
    → q.tables ≡ p.tables
unfolding buffered
buffered-broken_off false p q event e = absurd (ground (arith, e))
buffered-broken_off true p q none e = ground (arith, e)
buffered-broken_off true p q (some event) e = absurd (ground (arith, e))

Round-intro :
    (json : Json) (feed : Bool) (timestamp now : ℕ) (write : WriteOperation) (p q : Progress)
    (t : MemTable)
    → find write.table_name p.tables ≡ some t
    → apply_write json feed timestamp now write p (some t) ≡ completed q
    → Round timestamp now write p q t
unfolding apply_write
Round-intro json feed timestamp now write p q t f e =
    elim (Bool-cases (apply_op now write.op write.row t).success) [
      | inl s ↦
          let (tables, entries) = buffered-completed feed _ q _ (rw s at e) in
          record { found = f; success = s; tables = tables; entries = entries }
      | inr s ↦ absurd (ground arith)
    ]

pub apply_write-completed :
    (json : Json) (feed : Bool) (timestamp now : ℕ) (write : WriteOperation) (p q : Progress)
    (o : Option MemTable)
    → find write.table_name p.tables ≡ o
    → apply_write json feed timestamp now write p o ≡ completed q
    → (t : MemTable) × Round timestamp now write p q t
unfolding apply_write
apply_write-completed json feed timestamp now write p q none f e = absurd (ground arith)
apply_write-completed json feed timestamp now write p q (some t) f e =
    (t, Round-intro json feed timestamp now write p q t f e)
