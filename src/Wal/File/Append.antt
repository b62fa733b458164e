-- ===== src/Wal/File/Append.antt =====
-- Reading a log whose front holds whole records.
use origindb.Prelude.{
  ℕ, zero, suc, ◌<◌, ◌≡◌, ap, some, Text, text_eq, List, [], ◌∷◌, ◌++◌, length, length-append,
  append_assoc, append-nil, arith,
}
use origindb.Wal.Record.{WalEntry, serialize_record}
use origindb.Wal.File.{wal_magic, read_records, read_file, serialize_all}
use origindb.Wal.File.Tail.{AllLogged, read_records-cons, read_records-nil, length-serialize_record}

-- Whole records in front of a tail: the tail is read as if it stood alone.
pub read_records-append :
    (es : List WalEntry) (tail : Text) (ts : List WalEntry) (fuel : ℕ)
    → AllLogged es
    → ((f : ℕ) → length tail < f → read_records f tail ≡ some ts)
    → length (serialize_all es ++ tail) < fuel
    → read_records fuel (serialize_all es ++ tail) ≡ some (es ++ ts)
unfolding serialize_all
read_records-append es tail ts zero h k f = absurd (omega arith)
read_records-append [] tail ts (suc fuel) h k f = k (suc fuel) f
read_records-append (e ∷ es) tail ts (suc fuel) (h, hs) k f =
    rw (append_assoc (serialize_record e) (serialize_all es) tail) (
      read_records-cons e h fuel (serialize_all es ++ tail) (es ++ ts) (
        read_records-append es tail ts fuel hs k (
          omega (
            arith,
            ap (λ (t : Text). length t) (append_assoc (serialize_record e) (serialize_all es) tail),
            length-append (serialize_record e) (serialize_all es ++ tail),
            length-serialize_record e,
          ))))

-- A log of whole records reads as its entries.
pub read_file-serialize_all :
    (es : List WalEntry) → AllLogged es → read_file (wal_magic ++ serialize_all es) ≡ some es
unfolding read_file text_eq
read_file-serialize_all es h =
    rw (append-nil, append-nil) at
      (read_records-append es [] [] (suc (length (wal_magic ++ serialize_all es))) h nothing
        (rw append-nil (omega arith)))
  where
    nothing : (f : ℕ) → length {A = ℕ} [] < f → read_records f [] ≡ some []
    nothing zero h' = absurd (omega arith)
    nothing (suc f) h' = read_records-nil f
