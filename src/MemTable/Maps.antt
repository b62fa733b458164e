-- ===== src/MemTable/Maps.antt =====
-- A table in memory refines a map from keys to rows.
use origindb.Prelude.{
  Option-cases, inl, inr, ℕ, ◌+◌, ◌%◌, ◌^◌, ◌≡◌, Bool, true, false, Option, none, some, Text,
  text_eq, text_eq_iff, find, find-insert_sorted, find-erase, if◌then◌else◌, arith,
}
use origindb.Table.{Row}
use origindb.MemTable.{MemTable, get, has_row, store_row, insert, update, update_found, delete}

-- The writes of the interface.
pub data Write : Type 0 where
  insert_row : Row → Write
  -- The clock, the key and the row.
  update_row : ℕ → Text → Row → Write
  delete_row : Text → Write

unfoldable pub apply_write : Write → MemTable → MemTable × Bool
apply_write (insert_row row) t = insert row t
apply_write (update_row now key row) t = update now key row t
apply_write (delete_row key) t = delete key t

abbrev pub write_key : Write → Text
write_key (insert_row row) = row.key
write_key (update_row now key row) = key
write_key (delete_row key) = key

-- What a write makes of the row at its key; `none` for the first part is a refusal.
unfoldable pub written : Write → Option Row → Option (Option Row)
written (insert_row row) none = some (some row)
written (insert_row row) (some old) = none
written (update_row now key row) none = none
written (update_row now key row) (some old) =
    some (some (record row { version = (old.version + 1) % 2 ^ 64; timestamp = now }))
written (delete_row key) none = none
written (delete_row key) (some old) = some none

unfoldable pub accepted : Option (Option Row) → Bool
accepted none = false
accepted (some o) = true

unfoldable pub row_after : Option (Option Row) → Option Row → Option Row
row_after none old = old
row_after (some new) old = new

-- Every write answers true exactly where it is allowed (an insert of a new key, an update or a
-- delete of a present one), leaves at its key the row of the map specification, an update with
-- the old version plus one and the time of the write, and leaves every other key alone.
pub get-apply_write :
    (w : Write) (t : MemTable) (j : Text)
    → ((apply_write w t).1 ≡ accepted (written w (get t (write_key w))))
      × (get (apply_write w t).0 j ≡ (
          if text_eq (write_key w) j
          then row_after (written w (get t (write_key w))) (get t (write_key w))
          else get t j))
unfolding get apply_write written accepted row_after insert has_row store_row update update_found
    delete
get-apply_write (insert_row row) t j =
    ground (arith, find-insert_sorted row.key j row t.rows, text_eq_iff row.key j)
get-apply_write (update_row now key row) t j = elim (Option-cases (find key t.rows)) [
  | inl e ↦ ground (arith, text_eq_iff key j)
  | inr (old, e) ↦ ground (
    arith,
    text_eq_iff key j,
    find-insert_sorted key j (record row { version = (old.version + 1) % 2 ^ 64; timestamp = now })
        t.rows,
  )
]
get-apply_write (delete_row key) t j = ground (arith, find-erase key j t.rows, text_eq_iff key j)
