-- ===== src/Wal/File/Tail.antt =====
-- Reading a log whose last record may be cut off.
use origindb.Prelude.{
  cut_split, take-append_le, take-append_ge, ℕ, zero, suc, ◌+◌, ◌-◌, ◌≤◌, ◌<◌, ◌≡◌, refl, ap, some,
  Text, text_eq, List, [], ◌∷◌, ◌++◌, length, take, drop, length-append, length-drop,
  take-length-append, drop-length-append, append_assoc, All, arith, if◌then◌else◌, lt→ltb, leb, inl,
  inr, ◌⊎◌, ◌∙◌,
}
use native.Mathlib.Decide.{dec_lt}
use origindb.Codec.{Result, Error, ok, err, read_u32, put_u32}
use origindb.Codec.Local.{read_u32-IsLocal}
use origindb.Codec.Laws.{read_u32-put_count}
use origindb.Wal.Record.{WalEntry, record_bytes, serialize_record, deserialize_record}
use origindb.Wal.Record.RoundTrip.{IsEntry, deserialize_record-record_bytes}
use origindb.Wal.File.{wal_magic, keep_entry, read_records, read_file, read_all, serialize_all}

Result-cases {ℓ} :
    {A : Type ℓ} (r : Result A) → ((a : A) × (r ≡ ok a)) ⊎ ((e : Error) × (r ≡ err e))
Result-cases (ok a) = inl (a, refl)
Result-cases (err e) = inr (e, refl)

pub read_u32-shorter :
    (ts : Text) (v : ℕ) (rest : Text) → read_u32 ts ≡ ok (v, rest) → length ts ≡ length rest + 4
unfolding read_u32
read_u32-shorter (a ∷ b ∷ c ∷ d ∷ more) v rest e = ground arith
read_u32-shorter _ v rest e = cc

-- An entry that the reader keeps: it fits its record, and its sequence number is not 0.
pub record IsLogged (e : WalEntry) : Type 0 where
  pub fits : IsEntry e
  pub numbered : 0 < e.sequence

module _ (fuel : ℕ) (file : Text) where
  read_records-stop : (e : Error) → read_u32 file ≡ err e → read_records (suc fuel) file ≡ some []
  unfolding read_records
  read_records-stop e h = ground arith

  module _ (n : ℕ) (rest : Text) (h : read_u32 file ≡ ok (n, rest)) where
    pub read_records-short : length rest < n → read_records (suc fuel) file ≡ some []
    unfolding read_records
    read_records-short s = ground arith

    read_records-next :
        (es : List WalEntry)
        → n ≤ length rest
        → read_records fuel (drop n rest) ≡ some es
        → read_records (suc fuel) file ≡ some (keep_entry (deserialize_record (take n rest)) es)
    unfolding read_records
    read_records-next es s k = ground arith

-- More fuel than the file has bytes is enough: the reading of the records ends with a result.
pub read_records_total :
    (fuel : ℕ) (file : Text)
    → length file < fuel
    → (es : List WalEntry) × (read_records fuel file ≡ some es)
read_records_total zero file h = absurd (omega arith)
read_records_total (suc fuel) file h = elim (Result-cases (read_u32 file)) [
  | inr (e, r) ↦ ([], read_records-stop fuel file e r)
  | inl ((n, rest), r) ↦ elim (dec_lt (length rest) n) [
    | yes s ↦ ([], read_records-short fuel file n rest r s)
    | no s ↦
        let (es, k) =
          read_records_total fuel (drop n rest)
            (omega (arith, length-drop n rest, read_u32-shorter file n rest r)) in
        (_, read_records-next fuel file n rest r es (omega arith) k)
  ]
]

module _ (e : WalEntry) (h : IsLogged e) where
  pub read_length :
      (rest : Text)
      → read_u32 (serialize_record e ++ rest) ≡ ok (length (record_bytes e), record_bytes e ++ rest)
  unfolding serialize_record
  read_length rest = simp (append_assoc, read_u32-put_count (length (record_bytes e)) h.fits.fits)

  pub read_length_alone :
      read_u32 (serialize_record e) ≡ ok (length (record_bytes e), record_bytes e)
  unfolding serialize_record
  read_length_alone = read_u32-put_count (length (record_bytes e)) h.fits.fits (record_bytes e)

  keep-logged : (es : List WalEntry) → keep_entry (deserialize_record (record_bytes e)) es ≡ e ∷ es
  unfolding keep_entry
  keep-logged es = rw (deserialize_record-record_bytes e h.fits, lt→ltb _ _ h.numbered)

  pub read_records-cons :
      (fuel : ℕ) (rest : Text) (es : List WalEntry)
      → read_records fuel rest ≡ some es
      → read_records (suc fuel) (serialize_record e ++ rest) ≡ some (e ∷ es)
  read_records-cons fuel rest es k =
      read_records-next fuel (serialize_record e ++ rest) (length (record_bytes e))
        (record_bytes e ++ rest) (read_length rest) es
        (omega (arith, length-append (record_bytes e) rest))
        (rw (drop-length-append (record_bytes e) rest) k)
      ∙ rw (take-length-append (record_bytes e) rest) (ap some (keep-logged es))

  -- A record that is cut off ends the reading.
  read_records-torn :
      (fuel : ℕ) (front : Text) (x : ℕ) (back : Text)
      → serialize_record e ≡ front ++ x ∷ back
      → read_records (suc fuel) front ≡ some []
  read_records-torn fuel front x back cut = elim (Result-cases (read_u32 front)) [
    | inr (c, r) ↦ read_records-stop fuel front c r
    | inl ((n, rest), r) ↦ read_records-short fuel front n rest r (short n rest r)
  ]
    where
      whole : read_u32 (front ++ x ∷ back) ≡ ok (length (record_bytes e), record_bytes e)
      whole = rw cut at read_length_alone

      extended :
          (n : ℕ) (rest : Text)
          → read_u32 front ≡ ok (n, rest)
          → read_u32 (front ++ x ∷ back) ≡ ok (n, rest ++ x ∷ back)
      extended n rest r = rw r at (read_u32-IsLocal.at front (x ∷ back))

      short : (n : ℕ) (rest : Text) → read_u32 front ≡ ok (n, rest) → length rest < n
      short n rest r = ground (arith, whole, extended n rest r, length-append rest (x ∷ back))

-- The entries whose records lie whole in the first `n` bytes.
abbrev pub complete : ℕ → List WalEntry → List WalEntry
complete n [] = []
complete n (e ∷ es) =
    let rest = complete (n - length (serialize_record e)) es in
    if leb (length (serialize_record e)) n then e ∷ rest else []

abbrev pub AllLogged : List WalEntry → Type 0
AllLogged = All IsLogged

take-nil : (n : ℕ) → take {A = ℕ} n [] ≡ []
take-nil zero = refl
take-nil (suc n) = refl

module _ (e : WalEntry) (es : List WalEntry) (n : ℕ) where
  complete-cut : n < length (serialize_record e) → complete n (e ∷ es) ≡ []
  complete-cut s = ground arith

  complete-whole :
      length (serialize_record e) ≤ n
      → complete n (e ∷ es) ≡ e ∷ complete (n - length (serialize_record e)) es
  complete-whole s = ground arith

pub read_records-nil : (fuel : ℕ) → read_records (suc fuel) [] ≡ some []
unfolding read_records read_u32
read_records-nil fuel = refl

take-serialize_all_cut :
    (e : WalEntry) (es : List WalEntry) (n : ℕ)
    → n < length (serialize_record e)
    → take n (serialize_all (e ∷ es)) ≡ take n (serialize_record e)
unfolding serialize_all
take-serialize_all_cut e es n s =
    take-append_le n (serialize_record e) (serialize_all es) (omega arith)

take-serialize_all_whole :
    (e : WalEntry) (es : List WalEntry) (n : ℕ)
    → length (serialize_record e) ≤ n
    → take n (serialize_all (e ∷ es))
      ≡ serialize_record e ++ take (n - length (serialize_record e)) (serialize_all es)
unfolding serialize_all
take-serialize_all_whole e es n s = take-append_ge n (serialize_record e) (serialize_all es) s

pub length-serialize_record : (e : WalEntry) → 4 ≤ length (serialize_record e)
unfolding serialize_record put_u32
length-serialize_record e = omega arith

pub read_records-take :
    (es : List WalEntry) (n fuel : ℕ)
    → AllLogged es
    → length (take n (serialize_all es)) < fuel
    → read_records fuel (take n (serialize_all es)) ≡ some (complete n es)
read_records-take es n zero h f = absurd (omega arith)
read_records-take [] n (suc fuel) h f =
    unfold serialize_all in rw (take-nil n) (read_records-nil fuel)
read_records-take (e ∷ es) n (suc fuel) (h, hs) f = elim (dec_lt n (length (serialize_record e))) [
  | yes s ↦
      let (x, back, cut) = cut_split n (serialize_record e) s in
      rw (take-serialize_all_cut e es n s, complete-cut e es n s)
        (read_records-torn e h fuel (take n (serialize_record e)) x back cut)
  | no s ↦
      let m = n - length (serialize_record e) in
      rw (take-serialize_all_whole e es n (omega arith), complete-whole e es n (omega arith))
        (read_records-cons e h fuel (take m (serialize_all es)) (complete m es) (
          read_records-take es m fuel hs (
            omega (
              arith,
              ap (λ (t : Text). length t) (take-serialize_all_whole e es n (omega arith)),
              length-append (serialize_record e) (take m (serialize_all es)),
              length-serialize_record e,
            ))))
]

-- After a crash that leaves the first `n` bytes of the records that were written, the log reads as
-- exactly the entries whose records are whole, in their order; a record that is cut off anywhere
-- is dropped and disturbs none before it. The reading always ends. The entries fit their records
-- and have sequence numbers above 0.
pub read_all-crash :
    (es : List WalEntry) (n : ℕ)
    → AllLogged es
    → read_all (some (wal_magic ++ take n (serialize_all es))) ≡ some (complete n es)
unfolding read_all read_file text_eq
read_all-crash es n h = read_records-take es n _ h (omega arith)
