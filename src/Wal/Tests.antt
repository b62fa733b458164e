-- ===== src/Wal/Tests.antt =====
-- Runs of src/storage/wal_impl.cpp.
use origindb.Prelude.{
  All, ℕ, ◌+◌, ◌≤◌, ◌<◌, ◌≡◌, refl, true, false, some, Text, List, [], ◌∷◌, ◌++◌, length, take,
  drop, ◌^◌, ascii, arith, map,
}
use origindb.Codec.{put_u8, put_u32, put_u64, put_u64_loop, put_bytes, put_string}
use origindb.Wal.Record.{insert, WalEntry, record_bytes, serialize_record, entry_code}
use origindb.Wal.File.{max_sequence, wal_magic, read_all, read_file, serialize_all}
use origindb.Wal.File.Tail.{IsLogged, complete, read_all-crash}
use origindb.Wal.Writer.{
  Writer, synced, is_synced, new_writer, stamp, append_batch_async, drain_queue, write_and_sync,
}
use origindb.Wal.Writer.Durable.{
  submissions, batch_of, append, drain, write, Reach, here, next, Submitted, acknowledged,
  entries_of, group_commit_durable,
}
use origindb.Wal.Writer.Race.{after_race, acknowledged_and_lost}
use origindb.Wal.Log.{change_of}
use origindb.Wal.Service.Restart.{restarted, initialize-IsIntact}
use origindb.Wal.Service.{
  Session, append_and_wait, stored_entries, IsIntact, CanAppend, append_and_wait-contents,
}

-- An entry as the engine makes it, with a payload of `n` bytes; it is not stamped yet.
abbrev entry_of : Text → WalEntry
entry_of payload = record {
  type = insert;
  sequence = 0;
  transaction_id = 1;
  timestamp = 0;
  table_name = ascii "t";
  key = ascii "k";
  payload = payload;
}

abbrev logged_entry : ℕ → Text → WalEntry
logged_entry sequence payload = record (entry_of payload) { sequence = sequence; timestamp = 4 }

abbrev long : Text
long = ascii "0123456789012345678901234567890123456789012345678901234567890123456789"

-- Entries whose payload is short enough and whose number fits 64 bits are kept by the reader.
logged :
    (sequence : ℕ) (payload : Text)
    → 0 < sequence
    → sequence < 2 ^ 64
    → length payload < 2 ^ 20
    → IsLogged (logged_entry sequence payload)
unfolding record_bytes put_u8 put_u32 put_u64 put_u64_loop put_bytes put_string entry_code
logged sequence payload p s l = record {
  fits = record {
    type = tt;
    sequence = s;
    transaction_id = omega arith;
    timestamp = omega arith;
    table_name = omega arith;
    key = omega arith;
    payload = omega arith;
    fits = omega arith;
  };
  numbered = p;
}

abbrev short : WalEntry
short = logged_entry 1 (ascii "x")

short-IsLogged : IsLogged short
short-IsLogged = logged 1 (ascii "x") (omega arith) (omega arith) (omega arith)

abbrev torn : WalEntry
torn = logged_entry 2 long

torn-IsLogged : IsLogged torn
torn-IsLogged = logged 2 long (omega arith) (omega arith) (omega arith)

abbrev session : Session
session = record { writer = new_writer; disk = λ n. synced; clock = λ n. 4; calls = 0 }

session-IsIntact : IsIntact session []
unfolding serialize_all
session-IsIntact = record { file = refl; queue = refl; logged = tt }

can_append : CanAppend (entry_of (ascii "x") ∷ []) session
unfolding stamp
can_append = (short-IsLogged, tt)

-- A commit is queued, drained and written.
abbrev busy : Writer
busy =
    write_and_sync synced
      (drain_queue (append_batch_async 4 0 (entry_of (ascii "x") ∷ []) new_writer))

busy-Reach : Reach new_writer busy
unfolding append_batch_async stamp drain_queue
busy-Reach =
    next
      (next (next here (append 4 0 (entry_of (ascii "x") ∷ []) new_writer (short-IsLogged, tt)))
        (drain (append_batch_async 4 0 (entry_of (ascii "x") ∷ []) new_writer) refl))
      (write (drain_queue (append_batch_async 4 0 (entry_of (ascii "x") ∷ []) new_writer)))

acknowledged_1 : (append_and_wait (entry_of (ascii "x") ∷ []) session).1 ≡ true
unfolding append_and_wait is_synced
acknowledged_1 = refl

cut : serialize_record torn ≡ take 10 (serialize_record torn) ++ 0 ∷ drop 11 (serialize_record torn)
unfolding serialize_record record_bytes put_u8 put_u32 put_u64 put_u64_loop put_bytes put_string
    entry_code
cut = refl

front_long : 4 ≤ length (take 10 (serialize_record torn))
unfolding serialize_record record_bytes put_u8 put_u32 put_u64 put_u64_loop put_bytes put_string
    entry_code
front_long = omega arith

room : length (serialize_record (logged_entry 2 [])) ≤ length (drop 11 (serialize_record torn))
unfolding serialize_record record_bytes put_u8 put_u32 put_u64 put_u64_loop put_bytes put_string
    entry_code
room = omega arith

race_room :
    10 + length (serialize_all (stamp 4 3 (entry_of [] ∷ []))) < length (serialize_record torn)
unfolding serialize_all stamp serialize_record record_bytes put_u8 put_u32 put_u64 put_u64_loop
    put_bytes put_string entry_code
race_room = omega arith

read_all-crash_example :
    read_all (some (wal_magic ++ take 50 (serialize_all (short ∷ torn ∷ []))))
    ≡ some (complete 50 (short ∷ torn ∷ []))
read_all-crash_example = read_all-crash (short ∷ torn ∷ []) 50 (short-IsLogged, (torn-IsLogged, tt))

group_commit_durable_example :
    (done : List Submitted) × (pending : List Submitted) × (submissions busy-Reach
      ≡ done ++ pending)
    × (busy.fulfilled ≡ acknowledged done)
    × (read_file busy.file ≡ some (entries_of done))
    × (busy.in_flight ++ busy.queue ≡ map batch_of pending)
group_commit_durable_example = group_commit_durable busy busy-Reach

append_and_wait-contents_example :
    IsIntact
      (append_and_wait (entry_of (ascii "x") ∷ []) session).0
      ([] ++ stamp 4 1 (entry_of (ascii "x") ∷ []))
    × (map change_of (stored_entries (append_and_wait (entry_of (ascii "x") ∷ []) session).0)
        ≡ map change_of (stored_entries session) ++ map change_of (entry_of (ascii "x") ∷ []))
append_and_wait-contents_example =
    append_and_wait-contents (entry_of (ascii "x") ∷ []) [] session session-IsIntact can_append
      acknowledged_1

-- The batch of `torn` is drained, and the file holds `short`.
abbrev writing : Writer
writing = record new_writer {
  file = wal_magic ++ serialize_all (short ∷ []);
  in_flight = record { bytes = serialize_record torn; ticket = 1 } ∷ [];
  next_sequence = 3;
}

acknowledged_and_lost_example :
    ((after_race 10 4 2 (entry_of [] ∷ []) writing).fulfilled ≡ [] ++ (1, false) ∷ (2, true) ∷ [])
    × (read_all (some (after_race 10 4 2 (entry_of [] ∷ []) writing).file) ≡ some (short ∷ []))
acknowledged_and_lost_example =
    acknowledged_and_lost (short ∷ []) torn 10 4 2 (entry_of [] ∷ []) writing
      (record { bytes = serialize_record torn; ticket = 1 }) (short-IsLogged, tt) torn-IsLogged refl
      refl refl refl refl (omega arith) race_room

-- The file holds `short`, as a process left it.
abbrev left_behind : Session
left_behind = record session {
  writer = record new_writer { file = wal_magic ++ serialize_all (short ∷ []); next_sequence = 2 };
}

left_behind-IsIntact : IsIntact left_behind (short ∷ [])
left_behind-IsIntact = record { file = refl; queue = refl; logged = (short-IsLogged, tt) }

counter_room : max_sequence (short ∷ []) + 1 < 2 ^ 64
unfolding max_sequence
counter_room = omega arith

initialize-IsIntact_example :
    IsIntact (restarted left_behind) (short ∷ [])
    × All (λ (e : WalEntry). e.sequence < (restarted left_behind).writer.next_sequence) (short ∷ [])
    × (0 < (restarted left_behind).writer.next_sequence)
initialize-IsIntact_example =
    initialize-IsIntact left_behind (short ∷ []) left_behind-IsIntact counter_room
