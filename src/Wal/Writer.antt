-- ===== src/Wal/Writer.antt =====
-- The submission queue and the writer thread of src/storage/wal_impl.cpp. Each definition is one
-- atomic step of the program: what a thread does under one hold of `queue_mutex_` or `file_mutex_`.
-- `in_flight` is what WriterLoop has drained and not yet written. A promise is its ticket, and
-- `fulfilled` lists the promises in the order of their `set_value`.
pub mod Durable
pub mod Race
use origindb.Prelude.{
  ℕ, zero, suc, ◌+◌, ◌%◌, ◌^◌, Bool, true, false, not, Text, List, [], ◌∷◌, ◌++◌, take, map,
  if◌then◌else◌,
}
use origindb.Wal.Record.{WalEntry}
use origindb.Wal.File.{wal_magic, serialize_all}

pub record PendingBatch : Type 0 where
  pub bytes : Text
  pub ticket : ℕ

pub record Writer : Type 0 where
  pub file : Text
  pub queue : List PendingBatch
  pub in_flight : List PendingBatch
  pub next_sequence : ℕ
  pub fatal : Bool
  -- A write has failed and `fatal_` is not set yet.
  pub failing : Bool
  pub fulfilled : List (ℕ × Bool)

-- A new log, after WriteMagicIfEmpty and RecoverSequenceNumber.
abbrev pub new_writer : Writer
new_writer = record {
  file = wal_magic;
  queue = [];
  in_flight = [];
  next_sequence = 1;
  fatal = false;
  failing = false;
  fulfilled = [];
}

-- The loop of AppendBatchAsync: `e.sequence = next_sequence_++; e.timestamp = ts`. The counter has
-- 64 bits.
unfoldable pub stamp : ℕ → ℕ → List WalEntry → List WalEntry
stamp ts next [] = []
stamp ts next (e ∷ es) =
    record e { sequence = next; timestamp = ts } ∷ stamp ts ((next + 1) % 2 ^ 64) es

unfoldable pub next_after : ℕ → List WalEntry → ℕ
next_after next [] = next
next_after next (e ∷ es) = next_after ((next + 1) % 2 ^ 64) es

-- AppendBatchAsync at the time `ts`, with the promise `ticket`.
unfoldable pub append_batch_async : ℕ → ℕ → List WalEntry → Writer → Writer
unfolding stamp next_after
append_batch_async ts ticket entries w =
    if w.fatal then record w { fulfilled = w.fulfilled ++ (ticket, false) ∷ [] } else record w {
      queue =
          w.queue
          ++ record { bytes = serialize_all (stamp ts w.next_sequence entries); ticket = ticket }
            ∷ [];
      next_sequence = next_after w.next_sequence entries;
    }

-- WriterLoop, first half: `drained.swap(queue_)`.
unfoldable pub drain_queue : Writer → Writer
drain_queue w = record w { queue = []; in_flight = w.queue }

-- What the disk does with a blob: all of it is written and synced, or an error comes back after
-- the first `n` bytes have reached the file.
pub data Disk : Type 0 where
  synced : Disk
  failed_after : ℕ → Disk

unfoldable pub blob_of : List PendingBatch → Text
blob_of [] = []
blob_of (p ∷ ps) = p.bytes ++ blob_of ps

unfoldable pub reaches_file : Disk → Text → Text
reaches_file synced blob = blob
reaches_file (failed_after n) blob = take n blob

unfoldable pub is_synced : Disk → Bool
is_synced synced = true
is_synced (failed_after n) = false

-- WriterLoop, second half: WriteAndSync of the drained batches, and `set_value` of each promise.
unfoldable pub write_and_sync : Disk → Writer → Writer
unfolding blob_of reaches_file is_synced
write_and_sync disk w = record w {
  file = w.file ++ reaches_file disk (blob_of w.in_flight);
  in_flight = [];
  failing = not (is_synced disk);
  fulfilled = w.fulfilled ++ map (λ p. (p.ticket, is_synced disk)) w.in_flight;
}

-- `fatal_ = true`, which WriterLoop does after it has fulfilled the promises of a failed write.
unfoldable pub mark_fatal : Writer → Writer
mark_fatal w = record w { fatal = true; failing = false }
