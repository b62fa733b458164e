-- ===== src/Wal/Record/RoundTrip.antt =====
-- A record of the log reads back as the entry that was written.
use origindb.Prelude.{[], ◌^◌, ◌<◌, ◌≡◌, refl, append_assoc, append-nil, length, arith}
use origindb.Codec.{ok}
use origindb.Codec.Laws.{
  Reads, read_u8-put_u8, read_u64-put_u64, read_str-put_string, read_bytes-put_bytes,
}
use origindb.Table.{Fits}
use origindb.Wal.Record.{
  WalEntryType, create_table, unnamed, WalEntry, entry_code, entry_type_of_code, record_bytes,
  read_record, deserialize_record,
}

-- A type that the enum names, or a cast of a byte that it does not name.
abbrev pub IsEntryType : WalEntryType → Type 0
IsEntryType (unnamed n) = (9 < n) × (n < 256)
IsEntryType _ = Unit {0}

-- An entry that the C++ types can hold and whose record fits its 32-bit length.
pub record IsEntry (entry : WalEntry) : Type 0 where
  pub type : IsEntryType entry.type
  pub sequence : entry.sequence < 2 ^ 64
  pub transaction_id : entry.transaction_id < 2 ^ 64
  pub timestamp : entry.timestamp < 2 ^ 64
  pub table_name : Fits entry.table_name
  pub key : Fits entry.key
  pub payload : Fits entry.payload
  pub fits : length (record_bytes entry) < 2 ^ 32

entry_code-lt : (t : WalEntryType) → IsEntryType t → entry_code t < 256
unfolding entry_code
entry_code-lt (unnamed n) h = h.1
entry_code-lt _ h = omega arith

entry_type_of_code-entry_code :
    (t : WalEntryType) → IsEntryType t → entry_type_of_code (entry_code t) ≡ t
unfolding entry_type_of_code entry_code
entry_type_of_code-entry_code (unnamed n) (lo, hi) = ground arith
entry_type_of_code-entry_code create_table h = refl
entry_type_of_code-entry_code _ h = refl

pub read_record-record_bytes :
    (entry : WalEntry) → IsEntry entry → Reads read_record (record_bytes entry) entry
unfolding read_record record_bytes
read_record-record_bytes entry h rest = simp (
  append_assoc,
  read_u8-put_u8 (entry_code entry.type) (entry_code-lt entry.type h.type),
  entry_type_of_code-entry_code entry.type h.type,
  read_u64-put_u64 entry.sequence h.sequence,
  read_u64-put_u64 entry.transaction_id h.transaction_id,
  read_u64-put_u64 entry.timestamp h.timestamp,
  read_str-put_string entry.table_name h.table_name,
  read_str-put_string entry.key h.key,
  read_bytes-put_bytes entry.payload h.payload,
)

-- Deserializing the bytes of a record gives the entry back. Its numbers have 64 bits, its texts
-- and its record are shorter than 2^32 bytes, and its type fits a byte.
pub deserialize_record-record_bytes :
    (entry : WalEntry) → IsEntry entry → deserialize_record (record_bytes entry) ≡ ok entry
unfolding deserialize_record
deserialize_record-record_bytes entry h =
    rw (rw append-nil at (read_record-record_bytes entry h []))
