-- ===== src/Wal/Writer/Race.antt =====
-- A gap of the writer thread: WriterLoop fulfils the promises of a failed write before it sets
-- `fatal_`, and does not look at `fatal_` before it drains again. A commit that is queued in between
-- is written behind the torn record and acknowledged.
use origindb.Prelude.{
  ℕ, ◌+◌, ◌<◌, ◌≤◌, ◌≡◌, refl, ap, true, false, some, Text, List, [], ◌∷◌, ◌++◌, append_assoc,
  append-nil, length, take, cut_split, length-take, arith, length-append,
}
use origindb.Wal.Record.{WalEntry, serialize_record}
use origindb.Wal.File.{wal_magic, read_all, serialize_all}
use origindb.Wal.File.Tail.{IsLogged, AllLogged}
use origindb.Wal.File.Loss.{read_all-append_torn}
use origindb.Wal.Writer.{
  PendingBatch, Writer, stamp, append_batch_async, drain_queue, failed_after, synced,
  write_and_sync, mark_fatal, blob_of, reaches_file, is_synced,
}

-- A write fails, a commit is queued before `fatal_` is set, and the writer goes on.
abbrev pub after_race : ℕ → ℕ → ℕ → List WalEntry → Writer → Writer
after_race n ts ticket entries w = write_and_sync synced (
    drain_queue
      (mark_fatal (append_batch_async ts ticket entries (write_and_sync (failed_after n) w))))

race_state :
    (n ts ticket : ℕ) (entries : List WalEntry) (w : Writer) (p : PendingBatch)
    → w.fatal ≡ false
    → w.queue ≡ []
    → w.in_flight ≡ p ∷ []
    → ((after_race n ts ticket entries w).fulfilled
        ≡ w.fulfilled ++ (p.ticket, false) ∷ (ticket, true) ∷ [])
      × ((after_race n ts ticket entries w).file
          ≡ w.file ++ (take n p.bytes ++ serialize_all (stamp ts w.next_sequence entries)))
unfolding write_and_sync drain_queue mark_fatal append_batch_async reaches_file is_synced blob_of
race_state n ts ticket entries w p f q i = simp (f, q, i, append_assoc, append-nil) (refl, refl)

-- The log holds the records of `es`, and the writer has drained one batch, the record of `e`. Its
-- write fails behind the record's length prefix and before its end, and a commit that is queued
-- before `fatal_` is set takes at most the bytes that are missing behind the first missing one.
-- Then the writer answers false to the drained batch and true to that commit, and the file reads as
-- `es` alone: the acknowledged commit is lost.
pub acknowledged_and_lost :
    (es : List WalEntry) (e : WalEntry) (n ts ticket : ℕ) (entries : List WalEntry) (w : Writer)
    (p : PendingBatch)
    → AllLogged es
    → IsLogged e
    → w.fatal ≡ false
    → w.queue ≡ []
    → w.in_flight ≡ p ∷ []
    → p.bytes ≡ serialize_record e
    → w.file ≡ wal_magic ++ serialize_all es
    → 4 ≤ n
    → n + length (serialize_all (stamp ts w.next_sequence entries)) < length (serialize_record e)
    → ((after_race n ts ticket entries w).fulfilled
        ≡ w.fulfilled ++ (p.ticket, false) ∷ (ticket, true) ∷ [])
      × (read_all (some (after_race n ts ticket entries w).file) ≡ some es)
acknowledged_and_lost es e n ts ticket entries w p hs h f q i b file four short =
    let (x, back, cut) = cut_split n (serialize_record e) (omega arith) in
    let more = serialize_all (stamp ts w.next_sequence entries) in
    let front = length-take n (serialize_record e) (omega arith) in
    let (answers, bytes) = race_state n ts ticket entries w p f q i in
    (
      answers,
      rw (bytes, file, b)
          (read_all-append_torn es e (take n (serialize_record e)) x back more hs h cut
            (omega (arith, front))
            (omega (
              arith,
              front,
              ap (λ (t : Text). length t) cut,
              length-append (take n (serialize_record e)) (x ∷ back),
            ))),
    )
