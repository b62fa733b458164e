-- ===== src/Wal/Service/Restart.antt =====
-- Initialize of src/storage/wal_impl.cpp on the log that a process has left behind.
use origindb.Prelude.{ℕ, ◌+◌, ◌^◌, ◌<◌, ◌≡◌, refl, ◌∙◌, List, [], ◌∷◌, All, arith}
use origindb.Wal.Record.{WalEntry}
use origindb.Wal.File.{max_sequence, recovered_sequence, write_magic_if_empty}
use origindb.Wal.File.Append.{read_file-serialize_all}
use origindb.Wal.Service.{Session, IsIntact, initialize, entries_or_none}

below_max :
    (bound : ℕ) (es : List WalEntry) → max_sequence es < bound → All (λ e. e.sequence < bound) es
unfolding max_sequence
below_max bound [] h = tt
below_max bound (e ∷ es) h = (omega arith, below_max bound es (omega arith))

abbrev pub restarted : Session → Session
restarted s = record s { writer = initialize s.writer.file }

numbered :
    (s : Session) (entries : List WalEntry)
    → IsIntact s entries
    → ((initialize s.writer.file).file ≡ s.writer.file)
      × ((initialize s.writer.file).next_sequence ≡ recovered_sequence entries)
unfolding initialize entries_or_none write_magic_if_empty
numbered s entries h = rw (h.file, read_file-serialize_all entries h.logged) (refl, refl)

recovered :
    (es : List WalEntry)
    → max_sequence es + 1 < 2 ^ 64
    → recovered_sequence es ≡ max_sequence es + 1
unfolding recovered_sequence
recovered es r = omega arith

empty_queue : (s : Session) → (restarted s).writer.queue ≡ []
unfolding initialize
empty_queue s = refl

-- A restart keeps the entries of a log that holds whole records, and the numbers that it will give
-- out are above all of theirs and not 0, while the counter of 64 bits has room.
pub initialize-IsIntact :
    (s : Session) (entries : List WalEntry)
    → IsIntact s entries
    → max_sequence entries + 1 < 2 ^ 64
    → IsIntact (restarted s) entries
      × All (λ e. e.sequence < (restarted s).writer.next_sequence) entries
      × (0 < (restarted s).writer.next_sequence)
initialize-IsIntact s entries h room =
    let (file, next) = numbered s entries h in
    let number = next ∙ recovered entries room in
    (
      record { file = file ∙ h.file; queue = empty_queue s; logged = h.logged },
      below_max (restarted s).writer.next_sequence entries (omega (arith, number)),
      omega (arith, number),
    )
