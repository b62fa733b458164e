-- ===== src/Wal/File.antt =====
-- ReadAll, RecoverSequenceNumber and WriteMagicIfEmpty of src/storage/wal_impl.cpp, on the bytes of
-- wal.log. `none` for the file is a file that cannot be opened.
pub mod Tail
pub mod Append
pub mod Loss
use origindb.Prelude.{
  ℕ, zero, suc, ◌+◌, ◌^◌, ◌%◌, Bool, true, false, Option, none, some, Text, text_eq, List, [], ◌∷◌,
  ◌++◌, length, take, drop, ltb, if◌then◌else◌,
}
use Prim.Native.Nat.{max}
use origindb.Codec.{Result, ok, err, read_u32}
use origindb.Wal.Record.{WalEntry, deserialize_record, serialize_record}

-- {'O', 'R', 'W', 'A', 'L', 0x01, 0, 0}
abbrev pub wal_magic : Text
wal_magic = b'O' ∷ b'R' ∷ b'W' ∷ b'A' ∷ b'L' ∷ 1 ∷ 0 ∷ 0 ∷ []

-- `if (entry.sequence > 0) push_back`; a record that does not parse is skipped.
unfoldable pub keep_entry : Result WalEntry → List WalEntry → List WalEntry
keep_entry (ok entry) rest = if ltb 0 entry.sequence then entry ∷ rest else rest
keep_entry (err e) rest = rest

-- The loop over [u32 record_len][record_bytes]; a short read ends it. `none`: the fuel ran out.
unfoldable pub read_records : ℕ → Text → Option (List WalEntry)
read_records zero file = none
read_records (suc fuel) file = elim (read_u32 file) [
  | err e ↦ some []
  | ok (rlen, rest) ↦
      let next = read_records fuel (drop rlen rest) in
      if ltb (length rest) rlen then some [] else elim next [
        | none ↦ none
        | some entries ↦ some (keep_entry (deserialize_record (take rlen rest)) entries)
      ]
]

-- Each round takes four bytes at least, so one round more than there are bytes is enough.
unfoldable pub read_file : Text → Option (List WalEntry)
read_file file =
    if text_eq (take 8 file) wal_magic
    then read_records (suc (length file)) (drop 8 file)
    else some []

unfoldable pub read_all : Option Text → Option (List WalEntry)
read_all none = some []
read_all (some file) = read_file file

unfoldable pub max_sequence : List WalEntry → ℕ
max_sequence [] = 0
max_sequence (e ∷ es) = max e.sequence (max_sequence es)

-- `next_sequence_` after RecoverSequenceNumber; it is a 64-bit counter.
unfoldable pub recovered_sequence : List WalEntry → ℕ
recovered_sequence entries = (max_sequence entries + 1) % 2 ^ 64

-- The file's bytes after WriteMagicIfEmpty, where the write succeeds.
unfoldable pub write_magic_if_empty : Text → Text
write_magic_if_empty [] = wal_magic
write_magic_if_empty (b ∷ file) = b ∷ file

-- The records of a list of entries, one behind the other.
unfoldable pub serialize_all : List WalEntry → Text
serialize_all [] = []
serialize_all (e ∷ es) = serialize_record e ++ serialize_all es
