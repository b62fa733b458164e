-- ===== src/Wasm/Commit/Tests.antt =====
-- A run of CommitHostCall on the storage engine, with the write-ahead log of the repository.
use origindb.Prelude.{true, false, none, some, Text, [], ◌∷◌, ascii, Assoc, Option}
use origindb.Wal.Writer.{new_writer, synced}
use origindb.Wal.Service.{Session}
use origindb.Engine.{Json, Engine}
use origindb.Wasm.Host.{HostCall}
use origindb.Document.{json_null}
use origindb.Document.Sample.{Sample, leaf}

abbrev texts : Json
texts = record {
  schema_text = λ schema. some schema.name;
  schema_of_text = λ text. none;
  row_text = λ row. some row.key;
}

abbrev storage : Engine Session
storage = record {
  tables = [];
  active_transactions = [];
  wal = record { writer = new_writer; disk = λ n. synced; clock = λ n. n; calls = 0 };
  next_txn_id = 1;
  next_timestamp = 1;
  stats = record {
    total_tables = 0;
    total_rows = 0;
    total_bytes = 0;
    transactions_committed = 0;
    transactions_aborted = 0;
  };
  has_changefeed = true;
}

abbrev scores : Text × Assoc (Option Sample)
scores = (ascii "scores", (ascii "ada", some (leaf json_null)) ∷ (ascii "bob", none) ∷ [])

abbrev scored : HostCall Sample
scored = record {
  overlay = scores ∷ [];
  events = record { topic = ascii "win"; key = ascii "ada"; payload = [] } ∷ [];
  result = [];
  has_result = false;
  abort_msg = [];
}
