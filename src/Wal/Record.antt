-- ===== src/Wal/Record.antt =====
-- SerializeRecord and DeserializeRecord of src/storage/wal_impl.cpp, over the writes and reads of
-- `Codec`, which the source repeats there.
pub mod RoundTrip
use origindb.Prelude.{ℕ, ◌%◌, ◌^◌, ◌<◌, Text, ◌++◌, length, ◌==◌, if◌then◌else◌}
use origindb.Codec.{
  Reader, Result, ok, bind, pure, ◌>>=◌, put_u8, put_u32, put_u64, put_bytes, put_string, read_u8,
  read_u64, read_str, read_bytes,
}

pub data WalEntryType : Type 0 where
  create_table drop_table insert update delete create_index drop_index : WalEntryType
  begin_txn commit_txn rollback_txn : WalEntryType
  -- A value of the enum that has no name: a cast from any other byte.
  unnamed : ℕ → WalEntryType

pub record WalEntry : Type 0 where
  pub type : WalEntryType
  pub sequence : ℕ
  pub transaction_id : ℕ
  pub timestamp : ℕ
  pub table_name : Text
  pub key : Text
  pub payload : Text

unfoldable pub entry_code : WalEntryType → ℕ
entry_code create_table = 0
entry_code drop_table = 1
entry_code insert = 2
entry_code update = 3
entry_code delete = 4
entry_code create_index = 5
entry_code drop_index = 6
entry_code begin_txn = 7
entry_code commit_txn = 8
entry_code rollback_txn = 9
entry_code (unnamed n) = n

unfoldable pub entry_type_of_code : ℕ → WalEntryType
entry_type_of_code n =
    if n == 0
    then create_table
    else if n == 1
    then drop_table
    else if n == 2
    then insert
    else if n == 3
    then update
    else if n == 4
    then delete
    else if n == 5
    then create_index
    else if n == 6
    then drop_index
    else if n == 7
    then begin_txn
    else if n == 8
    then commit_txn
    else if n == 9
    then rollback_txn
    else unnamed n

-- The record without its length prefix.
unfoldable pub record_bytes : WalEntry → Text
record_bytes entry =
    put_u8 (entry_code entry.type)
    ++ (put_u64 entry.sequence
        ++ (put_u64 entry.transaction_id
            ++ (put_u64 entry.timestamp
                ++ (put_string entry.table_name
                    ++ (put_string entry.key ++ put_bytes entry.payload)))))

unfoldable pub serialize_record : WalEntry → Text
serialize_record entry = put_u32 (length (record_bytes entry) % 2 ^ 32) ++ record_bytes entry

unfoldable pub read_record : Reader WalEntry
read_record = do
  type ← read_u8
  sequence ← read_u64
  transaction_id ← read_u64
  timestamp ← read_u64
  table_name ← read_str
  key ← read_str
  payload ← read_bytes
  pure (record {
    type = entry_type_of_code type;
    sequence = sequence;
    transaction_id = transaction_id;
    timestamp = timestamp;
    table_name = table_name;
    key = key;
    payload = payload;
  })

-- Bytes of the record that the reads have not reached are dropped.
unfoldable pub deserialize_record : Text → Result WalEntry
deserialize_record rec = bind (read_record rec) λ (entry, rest). ok entry
