-- ===== src/MemTable/Tests.antt =====
-- Runs of src/storage/mem_table.cpp.
use origindb.Prelude.{
  ◌≡◌, refl, Bool, true, Text, find, insert_sorted, text_eq, text_ltb, List, [], ◌∷◌, ◌++◌, ascii,
  if◌then◌else◌,
}
use origindb.Table.{Row, TableSchema}
use origindb.MemTable.{
  MemTable, new_table, insert, get, has_row, store_row, scan, scan_loop, is_empty, past_end,
}
use origindb.MemTable.Maps.{
  insert_row, update_row, apply_write, written, accepted, row_after, get-apply_write,
}
use origindb.MemTable.Cache.{IsTable, new_table-IsTable, apply_write-IsTable}

abbrev row_at : Text → Row
row_at key = record { key = key; columns = []; version = 1; timestamp = 5 }

abbrev schema : TableSchema
schema = record { name = ascii "t"; columns = []; primary_key = []; options = [] }

abbrev ser : Row → Text
ser row = ascii "json " ++ row.key

-- Two rows, inserted in descending order of their keys.
abbrev one_row : MemTable
one_row = (apply_write (insert_row (row_at (ascii "b"))) (new_table schema)).0

abbrev two_rows : MemTable
two_rows = (apply_write (insert_row (row_at (ascii "a"))) one_row).0

two_rows-IsTable : IsTable ser two_rows
two_rows-IsTable = apply_write-IsTable ser (insert_row (row_at (ascii "a"))) one_row (
    apply_write-IsTable ser (insert_row (row_at (ascii "b"))) (new_table schema)
      (new_table-IsTable ser schema))

abbrev collect : List Text → Text → Text → List Text × Bool
collect seen key json = (seen ++ json ∷ [], true)

abbrev collect_rows : List Text → Text → Row → List Text × Bool
collect_rows seen key row = (seen ++ row.key ∷ [], true)

get-apply_write_example :
    ((apply_write (update_row 8 (ascii "a") (row_at (ascii "a"))) two_rows).1
      ≡ accepted
          (written (update_row 8 (ascii "a") (row_at (ascii "a"))) (get two_rows (ascii "a"))))
    × (get (apply_write (update_row 8 (ascii "a") (row_at (ascii "a"))) two_rows).0 (ascii "b") ≡ (
        if text_eq (ascii "a") (ascii "b")
        then row_after
            (written (update_row 8 (ascii "a") (row_at (ascii "a"))) (get two_rows (ascii "a")))
            (get two_rows (ascii "a"))
        else get two_rows (ascii "b")))
get-apply_write_example =
    get-apply_write (update_row 8 (ascii "a") (row_at (ascii "a"))) two_rows (ascii "b")

-- The scan runs in the order of the keys.
in_order : scan [] [] collect_rows [] two_rows ≡ ascii "a" ∷ ascii "b" ∷ []
unfolding scan apply_write insert store_row has_row new_table find insert_sorted text_eq text_ltb
    scan_loop is_empty past_end
in_order = refl
