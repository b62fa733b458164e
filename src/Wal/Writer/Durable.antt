-- ===== src/Wal/Writer/Durable.antt =====
-- Group commit: while no write fails, what is acknowledged can be read back.
use origindb.Prelude.{
  ℕ, ◌≡◌, refl, sym, ap, ◌∙◌, Bool, true, false, some, List, [], ◌∷◌, ◌++◌, append_assoc,
  append-nil, map, All-append, All-front, arith,
}
use mathlib.Core.Path.{subst}
use mathlib.Core.List.{map-append}
use origindb.Wal.Record.{WalEntry}
use origindb.Wal.File.{wal_magic, read_file, serialize_all}
use origindb.Wal.File.Tail.{IsLogged, AllLogged}
use origindb.Wal.File.Append.{read_file-serialize_all}
use origindb.Wal.Writer.{
  PendingBatch, Writer, new_writer, stamp, append_batch_async, drain_queue, synced, blob_of,
  reaches_file, is_synced, next_after, write_and_sync,
}

-- A commit's call of AppendBatchAsync: its promise, and its entries as they were stamped.
abbrev pub Submitted : Type 0
Submitted = ℕ × List WalEntry

abbrev pub batch_of : Submitted → PendingBatch
batch_of (ticket, es) = record { bytes = serialize_all es; ticket = ticket }

abbrev pub entries_of : List Submitted → List WalEntry
entries_of [] = []
entries_of ((ticket, es) ∷ ss) = es ++ entries_of ss

abbrev pub acknowledged : List Submitted → List (ℕ × Bool)
acknowledged [] = []
acknowledged ((ticket, es) ∷ ss) = (ticket, true) ∷ acknowledged ss

-- Committers append, and the writer thread drains and writes, in any interleaving, with no failed
-- write. The premise of `append`: the stamped entries fit their records, and the counter has not
-- wrapped round to 0. The writer drains again only when it has written.
pub data Step : Writer → Writer → Type 0 where
  append :
      (ts ticket : ℕ) (entries : List WalEntry) (w : Writer)
      → AllLogged (stamp ts w.next_sequence entries)
      → Step w (append_batch_async ts ticket entries w)
  drain : (w : Writer) → w.in_flight ≡ [] → Step w (drain_queue w)
  write : (w : Writer) → Step w (write_and_sync synced w)

pub data Reach (s : Writer) : Writer → Type 0 where
  here : Reach s s
  next : {w v : Writer} → Reach s w → Step w v → Reach s v

unfoldable pub submitted_by : {w v : Writer} → Step w v → List Submitted
submitted_by (append ts ticket entries w l) = (ticket, stamp ts w.next_sequence entries) ∷ []
submitted_by (drain w e) = []
submitted_by (write w) = []

-- What the committers have submitted on the way, in the order of their calls: each promise with the
-- entries of its call, stamped with the numbers that were next.
unfoldable pub submissions : {s w : Writer} → Reach s w → List Submitted
unfolding submitted_by
submissions here = []
submissions (next r st) = submissions r ++ submitted_by st

-- The commits that are acknowledged, drained and queued, in the order of their calls.
pub record Holds (w : Writer) (done flying queued : List Submitted) : Type 0 where
  pub file : w.file ≡ wal_magic ++ serialize_all (entries_of done)
  pub in_flight : w.in_flight ≡ map batch_of flying
  pub queue : w.queue ≡ map batch_of queued
  pub fulfilled : w.fulfilled ≡ acknowledged done
  pub running : w.fatal ≡ false
  pub logged : AllLogged (entries_of (done ++ (flying ++ queued)))

pub serialize_all-append :
    (xs ys : List WalEntry) → serialize_all (xs ++ ys) ≡ serialize_all xs ++ serialize_all ys
unfolding serialize_all
serialize_all-append [] ys = refl
serialize_all-append (e ∷ xs) ys = rw (serialize_all-append xs ys, append_assoc)

entries_of-append :
    (xs ys : List Submitted) → entries_of (xs ++ ys) ≡ entries_of xs ++ entries_of ys
entries_of-append [] ys = refl
entries_of-append ((t, es) ∷ xs) ys = rw (entries_of-append xs ys, append_assoc)

blob_of-batches : (ss : List Submitted) → blob_of (map batch_of ss) ≡ serialize_all (entries_of ss)
unfolding blob_of
blob_of-batches [] = unfold serialize_all in refl
blob_of-batches ((t, es) ∷ ss) = rw (blob_of-batches ss, serialize_all-append es (entries_of ss))

abbrev fulfil : PendingBatch → ℕ × Bool
fulfil p = (p.ticket, is_synced synced)

tickets-batches : (ss : List Submitted) → map fulfil (map batch_of ss) ≡ acknowledged ss
unfolding is_synced
tickets-batches [] = refl
tickets-batches ((t, es) ∷ ss) = ap (λ u. (t, true) ∷ u) (tickets-batches ss)

acknowledged-append :
    (xs ys : List Submitted) → acknowledged (xs ++ ys) ≡ acknowledged xs ++ acknowledged ys
acknowledged-append [] ys = refl
acknowledged-append ((t, es) ∷ xs) ys = ap (λ u. (t, true) ∷ u) (acknowledged-append xs ys)

-- A split of the commits into acknowledged, drained and queued ones.
abbrev pub Sound : Writer → List Submitted → Type 0
Sound w all =
    (done : List Submitted) × (flying : List Submitted) × (queued : List Submitted) × (all
      ≡ done ++ (flying ++ queued))
    × Holds w done flying queued

entries_of-new :
    (done flying queued : List Submitted) (ticket : ℕ) (es : List WalEntry)
    → entries_of (done ++ (flying ++ (queued ++ (ticket, es) ∷ [])))
      ≡ entries_of (done ++ (flying ++ queued)) ++ es
entries_of-new done flying queued ticket es = simp (entries_of-append, append_assoc, append-nil)

append_running :
    (ts ticket : ℕ) (entries : List WalEntry) (w : Writer)
    → w.fatal ≡ false
    → append_batch_async ts ticket entries w ≡ record w {
      queue = w.queue ++ batch_of (ticket, stamp ts w.next_sequence entries) ∷ [];
      next_sequence = next_after w.next_sequence entries;
    }
unfolding append_batch_async
append_running ts ticket entries w h = ground arith

append-Sound :
    (ts ticket : ℕ) (entries : List WalEntry) (w : Writer) (all : List Submitted)
    → AllLogged (stamp ts w.next_sequence entries)
    → Sound w all
    → Sound
        (append_batch_async ts ticket entries w)
        (all ++ (ticket, stamp ts w.next_sequence entries) ∷ [])
append-Sound ts ticket entries w all l (done, flying, queued, split, h) =
    let new : List Submitted = (ticket, stamp ts w.next_sequence entries) ∷ [] in
    (
      done,
      flying,
      queued ++ new,
      rw (split, append_assoc, append_assoc) refl,
      subst (λ v. Holds v done flying (queued ++ new))
          (sym (append_running ts ticket entries w h.running))
          (record {
            file = h.file;
            in_flight = h.in_flight;
            queue = rw (h.queue, map-append) refl;
            fulfilled = h.fulfilled;
            running = h.running;
            logged =
                rw (entries_of-new done flying queued ticket (stamp ts w.next_sequence entries))
                  (All-append IsLogged _ _ h.logged l);
          }),
    )

Step-Sound :
    {w v : Writer} (all : List Submitted) (st : Step w v)
    → Sound w all
    → Sound v (all ++ submitted_by st)
unfolding submitted_by drain_queue write_and_sync reaches_file is_synced
Step-Sound all (append ts ticket entries w l) h = append-Sound ts ticket entries w all l h
Step-Sound all (drain w e) (done, [], queued, split, h) = (
  done,
  queued,
  [],
  append-nil all ∙ split ∙ ap (λ l. done ++ l) (sym (append-nil queued)),
  record {
    file = h.file;
    in_flight = h.queue;
    queue = refl;
    fulfilled = h.fulfilled;
    running = h.running;
    logged = rw append-nil h.logged;
  },
)
Step-Sound all (drain w e) (done, s ∷ flying, queued, split, h) = cc (e, h.in_flight)
Step-Sound all (write w) (done, flying, queued, split, h) = (
  done ++ flying,
  [],
  queued,
  append-nil all ∙ split ∙ sym (append_assoc done flying queued),
  record {
    file = rw (
      h.file,
      h.in_flight,
      blob_of-batches flying,
      entries_of-append done flying,
      serialize_all-append (entries_of done) (entries_of flying),
    );
    in_flight = refl;
    queue = h.queue;
    fulfilled =
        rw (h.fulfilled, h.in_flight, tickets-batches flying, acknowledged-append done flying);
    running = h.running;
    logged = rw append_assoc h.logged;
  },
)

new_writer-Sound : Sound new_writer []
new_writer-Sound = (
  [],
  [],
  [],
  refl,
  record {
    file = unfold serialize_all in refl;
    in_flight = refl;
    queue = refl;
    fulfilled = refl;
    running = refl;
    logged = tt;
  },
)

Reach-Sound : {w : Writer} (r : Reach new_writer w) → Sound w (submissions r)
unfolding submissions
Reach-Sound here = new_writer-Sound
Reach-Sound (next r st) = Step-Sound (submissions r) st (Reach-Sound r)

-- Group commit is durable. Whatever the committers and the writer thread did to a new log, in any
-- interleaving and with no failed write: the promises that are fulfilled are those of the first of the
-- commits that were submitted, every one of them with true; reading the file gives exactly the
-- entries of these commits, stamped, in the order in which they were submitted; and the bytes of all the
-- other commits are still drained or queued, in that order.
pub group_commit_durable :
    (w : Writer) (r : Reach new_writer w)
    → (done : List Submitted) × (pending : List Submitted) × (submissions r ≡ done ++ pending)
      × (w.fulfilled ≡ acknowledged done)
      × (read_file w.file ≡ some (entries_of done))
      × (w.in_flight ++ w.queue ≡ map batch_of pending)
group_commit_durable w r =
    let (done, flying, queued, split, h) = Reach-Sound r in
    (
      done,
      flying ++ queued,
      split,
      h.fulfilled,
      rw h.file (
          read_file-serialize_all (entries_of done) (
            All-front IsLogged (entries_of done) (entries_of (flying ++ queued))
              (rw (entries_of-append done (flying ++ queued)) at h.logged))),
      rw (h.in_flight, h.queue, map-append) refl,
    )
