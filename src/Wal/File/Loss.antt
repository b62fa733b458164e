-- ===== src/Wal/File/Loss.antt =====
-- What `Initialize` of src/storage/wal_impl.cpp does not do: it reopens wal.log for appending and
-- leaves a record that a crash cut off in its place, so what is appended is read as the rest of it.
use origindb.Prelude.{
  ℕ, zero, suc, ◌≤◌, ◌<◌, ◌≡◌, ap, some, Text, text_eq, List, [], ◌∷◌, ◌++◌, length, length-append,
  append-nil, arith,
}
use origindb.Codec.{ok, read_u32}
use origindb.Wal.Record.{WalEntry, record_bytes, serialize_record}
use origindb.Wal.File.{wal_magic, read_records, read_file, read_all, serialize_all}
use origindb.Wal.File.Tail.{IsLogged, AllLogged, read_length_alone, read_records-short}
use origindb.Wal.File.Append.{read_records-append}

-- The length prefix survived the crash: the reader takes it from the front, whatever follows.
front_length :
    (front tail tail' : Text) (n : ℕ) (body : Text)
    → 4 ≤ length front
    → read_u32 (front ++ tail) ≡ ok (n, body)
    → (rest : Text) × (body ≡ rest ++ tail) × (read_u32 (front ++ tail') ≡ ok (n, rest ++ tail'))
unfolding read_u32
front_length (a ∷ b ∷ c ∷ d ∷ rest) tail tail' n body h e = (rest, ground arith, ground arith)
front_length [] tail tail' n body h e = absurd (omega arith)
front_length (a ∷ []) tail tail' n body h e = absurd (omega arith)
front_length (a ∷ b ∷ []) tail tail' n body h e = absurd (omega arith)
front_length (a ∷ b ∷ c ∷ []) tail tail' n body h e = absurd (omega arith)

module _ (e : WalEntry) (h : IsLogged e) (front : Text) (x : ℕ) (back more : Text) where
  torn-append :
      serialize_record e ≡ front ++ x ∷ back
      → 4 ≤ length front
      → length more ≤ length back
      → (fuel : ℕ) → length (front ++ more) < fuel
      → read_records fuel (front ++ more) ≡ some []
  torn-append cut four short zero f = absurd (omega arith)
  torn-append cut four short (suc fuel) f =
      let (rest, body, r) = front_length front (x ∷ back) more _ _ four whole in
      read_records-short fuel (front ++ more) (length (record_bytes e)) (rest ++ more) r (
        omega (
          arith,
          ap (λ (t : Text). length t) body,
          length-append rest more,
          length-append rest (x ∷ back),
        ))
    where
      whole : read_u32 (front ++ x ∷ back) ≡ ok (length (record_bytes e), record_bytes e)
      whole = rw cut at (read_length_alone e h)

-- A log holds the records of `es` and a front of a further record, cut off behind its length
-- prefix, and behind that `more`, of at most as many bytes as are missing behind the first missing
-- one. Then it reads as `es` alone: every record in `more` is lost.
pub read_all-append_torn :
    (es : List WalEntry) (e : WalEntry) (front : Text) (x : ℕ) (back more : Text)
    → AllLogged es
    → IsLogged e
    → serialize_record e ≡ front ++ x ∷ back
    → 4 ≤ length front
    → length more ≤ length back
    → read_all (some (wal_magic ++ (serialize_all es ++ (front ++ more)))) ≡ some es
unfolding read_all read_file text_eq
read_all-append_torn es e front x back more hs h cut four short = rw append-nil at (
    read_records-append es (front ++ more) []
      (suc (length (wal_magic ++ (serialize_all es ++ (front ++ more))))) hs
      (torn-append e h front x back more cut four short) (omega arith))
