-- ===== src/Wal/Log.antt =====
-- What the storage engine uses of the log. An entry's sequence number and timestamps are the log's
-- own affair: the engine's recovery reads its type, table, key and payload, its `Change`.
use origindb.Prelude.{◌≡◌, Bool, true, Text, List, [], ◌++◌, map}
use origindb.Wal.Record.{WalEntryType, WalEntry}

pub record Change : Type 0 where
  pub type : WalEntryType
  pub table_name : Text
  pub key : Text
  pub payload : Text

abbrev pub change_of : WalEntry → Change
change_of e = record { type = e.type; table_name = e.table_name; key = e.key; payload = e.payload }

-- `append` submits a batch and waits for its future; `contents` is what a restart would read.
pub record Log : Type 1 where
  pub State : Type 0
  pub append : List WalEntry → State → State × Bool
  pub truncate : State → State
  pub contents : State → List Change
  -- The batch can be written: its records fit, and the counter has not wrapped.
  pub CanAppend : List WalEntry → State → Type 0
  pub Intact : State → Type 0
  pub append_true :
      (es : List WalEntry) (s : State)
      → Intact s
      → CanAppend es s
      → (append es s).1 ≡ true
      → Intact (append es s).0 × (contents (append es s).0 ≡ contents s ++ map change_of es)
  pub truncate_lem : (s : State) → Intact s → Intact (truncate s) × (contents (truncate s) ≡ [])
