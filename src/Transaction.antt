-- ===== src/Transaction.antt =====
-- src/storage/transaction_impl.cpp: a transaction stages its writes. `engine_` is never read, and
-- GetId is used in log messages only.
pub mod Staging
mod Tests
use origindb.Prelude.{
  ℕ, Bool, true, false, ◌&&◌, Option, none, some, Text, text_eq, List, [], ◌∷◌, ◌++◌, if◌then◌else◌,
}
use origindb.Table.{Row}

pub data WriteOp : Type 0 where
  insert update delete : WriteOp

pub record WriteOperation : Type 0 where
  pub op : WriteOp
  pub table_name : Text
  pub row : Row

pub data IsolationLevel : Type 0 where
  read_uncommitted read_committed repeatable_read snapshot serializable : IsolationLevel

pub data TransactionState : Type 0 where
  active committed aborted : TransactionState

pub record Transaction : Type 0 where
  pub id : ℕ
  pub timestamp : ℕ
  pub level : IsolationLevel
  pub state : TransactionState
  pub read_only : Bool
  pub write_set : List WriteOperation

unfoldable pub new_transaction : ℕ → ℕ → IsolationLevel → Transaction
new_transaction id timestamp level = record {
  id = id;
  timestamp = timestamp;
  level = level;
  state = active;
  read_only = false;
  write_set = [];
}

abbrev pub active_state : TransactionState → Bool
active_state active = true
active_state committed = false
active_state aborted = false

unfoldable pub is_active : Transaction → Bool
is_active txn = active_state txn.state

abbrev pub empty_row : Row
empty_row = record { key = []; columns = []; version = 0; timestamp = 0 }

-- `if (state_ != ACTIVE) return false; write_set_.push_back(op); return true;`
unfoldable pub stage : WriteOperation → Transaction → Transaction × Bool
unfolding is_active
stage op txn =
    if is_active txn
    then (record txn { write_set = txn.write_set ++ op ∷ [] }, true)
    else (txn, false)

unfoldable pub insert_row : Text → Row → Transaction → Transaction × Bool
unfolding stage
insert_row table row = stage (record { op = insert; table_name = table; row = row })

unfoldable pub update_row : Text → Text → Row → Transaction → Transaction × Bool
unfolding stage
update_row table key row =
    stage (record { op = update; table_name = table; row = record row { key = key } })

unfoldable pub delete_row : Text → Text → Transaction → Transaction × Bool
unfolding stage
delete_row table key =
    stage (record { op = delete; table_name = table; row = record empty_row { key = key } })

unfoldable pub staged_row : WriteOperation → Option Row
staged_row write = elim write.op [ delete ↦ none | _ ↦ some write.row ]

-- The loop of Get: it returns at the first write of the table and the key.
unfoldable pub find_staged : Text → Text → List WriteOperation → Option Row
unfolding staged_row
find_staged table key [] = none
find_staged table key (write ∷ writes) =
    if text_eq write.table_name table && text_eq write.row.key key
    then staged_row write
    else find_staged table key writes

unfoldable pub get_staged : Text → Text → Transaction → Option Row
unfolding find_staged is_active
get_staged table key txn = if is_active txn then find_staged table key txn.write_set else none

unfoldable pub set_read_only : Bool → Transaction → Transaction
set_read_only read_only txn = record txn { read_only = read_only }

unfoldable pub set_committed : Transaction → Transaction
set_committed txn = record txn { state = committed }

unfoldable pub set_aborted : Transaction → Transaction
set_aborted txn = record txn { state = aborted }
