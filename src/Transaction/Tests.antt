-- ===== src/Transaction/Tests.antt =====
-- Runs of src/storage/transaction_impl.cpp.
use origindb.Prelude.{◌≡◌, refl, false, none, some, Text, if◌then◌else◌, text_eq, ascii}
use origindb.Table.{Row}
use origindb.Transaction.{
  update, Transaction, read_committed, new_transaction, is_active, stage, insert_row, update_row,
  get_staged, staged_row, empty_row, set_aborted,
}
use origindb.Transaction.Staging.{is_write_of, has_write, get_staged-stage}

abbrev users : Text
users = ascii "users"

abbrev alice : Row
alice = record empty_row { key = ascii "a"; version = 1 }

abbrev fresh : Transaction
fresh = new_transaction 1 1 read_committed

abbrev with_insert : Transaction
with_insert = (insert_row users alice fresh).0

-- The second write of a key is staged and not read.
stale :
    get_staged users alice.key
      (update_row users alice.key (record alice { version = 9 }) with_insert).0
    ≡ some alice
unfolding get_staged update_row insert_row new_transaction text_eq
stale = refl

ended : (insert_row users alice (set_aborted fresh)).1 ≡ false
unfolding insert_row set_aborted new_transaction
ended = refl

get_staged-stage_example :
    ((stage (record { op = update; table_name = users; row = alice }) with_insert).1
      ≡ is_active with_insert)
    × (get_staged users alice.key
          (stage (record { op = update; table_name = users; row = alice }) with_insert).0
        ≡ (if is_active with_insert
            then (if has_write users alice.key with_insert.write_set
                then get_staged users alice.key with_insert
                else if is_write_of users alice.key
                    (record { op = update; table_name = users; row = alice })
                then staged_row (record { op = update; table_name = users; row = alice })
                else none)
            else none))
get_staged-stage_example =
    get_staged-stage users alice.key (record { op = update; table_name = users; row = alice })
      with_insert
