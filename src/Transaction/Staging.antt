-- ===== src/Transaction/Staging.antt =====
-- What a transaction stages, and what it reads of its own writes.
use origindb.Prelude.{
  ◌≡◌, refl, Bool, false, ◌&&◌, ◌||◌, none, Text, text_eq, List, [], ◌∷◌, ◌++◌, if◌then◌else◌,
  arith,
}
use origindb.Transaction.{
  WriteOperation, Transaction, is_active, stage, find_staged, get_staged, staged_row,
}

abbrev pub is_write_of : Text → Text → WriteOperation → Bool
is_write_of table key write = text_eq write.table_name table && text_eq write.row.key key

unfoldable pub has_write : Text → Text → List WriteOperation → Bool
has_write table key [] = false
has_write table key (write ∷ writes) = is_write_of table key write || has_write table key writes

find_staged-append :
    (table key : Text) (write : WriteOperation) (writes : List WriteOperation)
    → find_staged table key (writes ++ write ∷ []) ≡ (
        if has_write table key writes
        then find_staged table key writes
        else if is_write_of table key write
        then staged_row write
        else none)
unfolding find_staged has_write
find_staged-append table key write [] = refl
find_staged-append table key write (w ∷ writes) =
    ground (arith, find_staged-append table key write writes)

-- Staging answers whether the transaction is active. What an active transaction reads at a key
-- after one more write is staged is the row of that write (none for a delete) if it is the first
-- staged write of the key, and otherwise what it read before: a transaction reads its own first
-- write of a key, and a later write of that key does not change what it reads. A transaction that
-- has ended reads nothing of its own.
pub get_staged-stage :
    (table key : Text) (write : WriteOperation) (txn : Transaction)
    → ((stage write txn).1 ≡ is_active txn)
      × (get_staged table key (stage write txn).0 ≡ (
          if is_active txn
          then (if has_write table key txn.write_set
              then get_staged table key txn
              else if is_write_of table key write
              then staged_row write
              else none)
          else none))
unfolding get_staged stage is_active
get_staged-stage table key write txn =
    (ground arith, ground (arith, find_staged-append table key write txn.write_set))
