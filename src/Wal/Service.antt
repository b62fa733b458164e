-- ===== src/Wal/Service.antt =====
-- Append, AppendBatchAsync and the wait on its future, Truncate and ReadAll of
-- src/storage/wal_impl.cpp as the storage engine calls them: one call at a time, with the writer
-- thread's rounds in between. It implements the interface of `Wal.Log`. The outcomes of the disk
-- and the readings of the clock are streams, which `calls` indexes.
pub mod Restart
use origindb.Prelude.{
  Text, ℕ, ◌+◌, ◌≡◌, refl, sym, ap, ◌∙◌, Bool, true, false, Option, none, some, List, [], ◌∷◌, ◌++◌,
  map, if◌then◌else◌, arith, append-nil, append_assoc, All-append, Bool-cases, inl, inr, ◌%◌, ◌^◌,
}
use mathlib.Core.List.{map-append}
use mathlib.Core.Path.{ap₂}
use origindb.Wal.Record.{WalEntry}
use origindb.Wal.File.{
  write_magic_if_empty, recovered_sequence, wal_magic, read_file, serialize_all,
}
use origindb.Wal.File.Tail.{IsLogged, AllLogged}
use origindb.Wal.File.Append.{read_file-serialize_all}
use origindb.Wal.Writer.{
  new_writer, Writer, Disk, synced, failed_after, append_batch_async, stamp, drain_queue,
  write_and_sync, mark_fatal, is_synced, reaches_file, blob_of,
}
use origindb.Wal.Writer.Durable.{serialize_all-append}
use origindb.Wal.Log.{change_of, Log}

pub record Session : Type 0 where
  pub writer : Writer
  pub disk : ℕ → Disk
  pub clock : ℕ → ℕ
  pub calls : ℕ

-- The writer thread's round on the queue: it drains, writes, fulfils and notes a failure.
unfoldable pub writer_round : Disk → Writer → Writer
unfolding drain_queue write_and_sync mark_fatal
writer_round disk w =
    let w' = write_and_sync disk (drain_queue w) in if w'.failing then mark_fatal w' else w'

-- A batch is submitted and its future is waited for; a fatal log refuses it.
unfoldable pub append_and_wait : List WalEntry → Session → Session × Bool
unfolding append_batch_async writer_round is_synced
append_and_wait entries s =
    let w = append_batch_async (s.clock s.calls) s.calls entries s.writer in
    if s.writer.fatal then (record s { writer = w; calls = s.calls + 1 }, false) else (
      record s { writer = writer_round (s.disk s.calls) w; calls = s.calls + 1 },
      is_synced (s.disk s.calls),
    )

unfoldable pub entries_or_none : Option (List WalEntry) → List WalEntry
entries_or_none none = []
entries_or_none (some entries) = entries

unfoldable pub stored_entries : Session → List WalEntry
unfolding entries_or_none
stored_entries s = entries_or_none (read_file s.writer.file)

-- Truncate from the last sequence number on, where the file can be reopened: what is queued is
-- written first (a fatal log writes nothing more), and then the file is cut to its magic.
unfoldable pub truncate : Session → Session
unfolding writer_round
truncate s =
    let w = if s.writer.fatal then s.writer else writer_round (s.disk s.calls) s.writer in
    record s { writer = record w { file = wal_magic }; calls = s.calls + 1 }

-- Initialize on the bytes of wal.log, where it can be opened: the magic is written if there are
-- none, and the numbers go on after the highest that is read.
unfoldable pub initialize : Text → Writer
unfolding entries_or_none
initialize file =
    let file' = write_magic_if_empty file in
    record new_writer {
      file = file';
      next_sequence = recovered_sequence (entries_or_none (read_file file'));
    }

-- Nothing is queued or in flight, and the file holds whole records.
pub record IsIntact (s : Session) (entries : List WalEntry) : Type 0 where
  pub file : s.writer.file ≡ wal_magic ++ serialize_all entries
  pub queue : s.writer.queue ≡ []
  pub logged : AllLogged entries

pub stored_entries-IsIntact :
    (s : Session) (entries : List WalEntry) → IsIntact s entries → stored_entries s ≡ entries
unfolding stored_entries entries_or_none
stored_entries-IsIntact s entries h = rw (h.file, read_file-serialize_all entries h.logged) refl

change_of-stamp :
    (ts next : ℕ) (entries : List WalEntry)
    → map change_of (stamp ts next entries) ≡ map change_of entries
unfolding stamp
change_of-stamp ts next [] = refl
change_of-stamp ts next (e ∷ es) =
    ap (λ cs. change_of e ∷ cs) (change_of-stamp ts ((next + 1) % 2 ^ 64) es)

abbrev pub CanAppend : List WalEntry → Session → Type 0
CanAppend entries s = AllLogged (stamp (s.clock s.calls) s.writer.next_sequence entries)

synced_of : (d : Disk) → is_synced d ≡ true → d ≡ synced
unfolding is_synced
synced_of synced h = refl
synced_of (failed_after n) h = cc

after_append :
    (new : List WalEntry) (s : Session)
    → s.writer.fatal ≡ false
    → s.disk s.calls ≡ synced
    → s.writer.queue ≡ []
    → ((append_and_wait new s).0.writer.file
        ≡ s.writer.file ++ serialize_all (stamp (s.clock s.calls) s.writer.next_sequence new))
      × ((append_and_wait new s).0.writer.queue ≡ [])
unfolding append_and_wait append_batch_async writer_round drain_queue write_and_sync blob_of
    reaches_file is_synced
after_append new s running disk empty = rw (running, disk, empty, append-nil) (refl, refl)

acknowledged_only :
    (new : List WalEntry) (s : Session)
    → (append_and_wait new s).1 ≡ true
    → (s.writer.fatal ≡ false) × (s.disk s.calls ≡ synced)
unfolding append_and_wait
acknowledged_only new s done = elim (Bool-cases s.writer.fatal) [
  | inl f ↦ absurd (ground (arith, done, f))
  | inr f ↦ (f, synced_of (s.disk s.calls) (ground (arith, done, f)))
]

appended :
    (new entries : List WalEntry) (s : Session)
    → IsIntact s entries
    → CanAppend new s
    → (append_and_wait new s).1 ≡ true
    → IsIntact
        (append_and_wait new s).0
        (entries ++ stamp (s.clock s.calls) s.writer.next_sequence new)
appended new entries s h can done =
    let (running, disk) = acknowledged_only new s done in
    let (file, queue) = after_append new s running disk h.queue in
    let stamped = stamp (s.clock s.calls) s.writer.next_sequence new in
    record {
      file =
          file
          ∙ ap (λ f. f ++ serialize_all stamped) h.file
          ∙ append_assoc wal_magic (serialize_all entries) (serialize_all stamped)
          ∙ ap (λ t. wal_magic ++ t) (sym (serialize_all-append entries stamped));
      queue = queue;
      logged = All-append IsLogged entries stamped h.logged can;
    }

-- A batch that is acknowledged is at the end of what a restart reads, its entries unchanged but for
-- the sequence numbers and times that the log gives them, and the file stays whole. Before it, the
-- file held whole records and nothing was queued; the stamped entries fit their records.
pub append_and_wait-contents :
    (new entries : List WalEntry) (s : Session)
    → IsIntact s entries
    → CanAppend new s
    → (append_and_wait new s).1 ≡ true
    → IsIntact
        (append_and_wait new s).0
        (entries ++ stamp (s.clock s.calls) s.writer.next_sequence new)
      × (map change_of (stored_entries (append_and_wait new s).0)
          ≡ map change_of (stored_entries s) ++ map change_of new)
append_and_wait-contents new entries s h can done =
    let stamped = stamp (s.clock s.calls) s.writer.next_sequence new in
    let intact = appended new entries s h can done in
    (
      intact,
      ap (map change_of) (stored_entries-IsIntact _ (entries ++ stamped) intact)
          ∙ map-append change_of entries stamped
          ∙ ap₂ (λ a b. map change_of a ++ b) (sym (stored_entries-IsIntact s entries h))
              (change_of-stamp (s.clock s.calls) s.writer.next_sequence new),
    )

pub truncated-IsIntact :
    (s : Session) (entries : List WalEntry) → IsIntact s entries → IsIntact (truncate s) []
unfolding truncate writer_round drain_queue write_and_sync mark_fatal serialize_all
truncated-IsIntact s entries h = record {
  file = refl;
  queue = ground (arith, h.queue);
  logged = tt;
}

-- The write-ahead log as the storage engine's log.
abbrev pub wal_log : Log
wal_log = record {
  State = Session;
  append = append_and_wait;
  truncate = truncate;
  contents = λ s. map change_of (stored_entries s);
  CanAppend = CanAppend;
  Intact = λ s. (entries : List WalEntry) × IsIntact s entries;
  append_true = λ new s (entries, h) can done.
      let (intact, contents) = append_and_wait-contents new entries s h can done in
      ((entries ++ stamp (s.clock s.calls) s.writer.next_sequence new, intact), contents);
  truncate_lem = λ s (entries, h). (
    ([], truncated-IsIntact s entries h),
    ap (map change_of) (stored_entries-IsIntact (truncate s) [] (truncated-IsIntact s entries h)),
  );
}
