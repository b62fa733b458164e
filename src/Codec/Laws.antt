-- ===== src/Codec/Laws.antt =====
-- Each primitive read takes back what its write appended, and leaves what follows.
use origindb.Prelude.{
  ℕ, ◌+◌, ◌%◌, ◌^◌, ◌<◌, ◌≡◌, Text, ◌++◌, append_assoc, length, length-append, take-length-append,
  drop-length-append, arith, All, IsByte,
}
use origindb.Codec.{
  Reader, ok, put_u8, put_u32, put_u64, put_bytes, put_string, need_take, read_u8, read_u32,
  read_u64, read_str, read_bytes,
}

-- `p` reads `a` off `printed` and leaves what follows.
abbrev pub Reads {ℓ} : {A : Type ℓ} → Reader A → Text → A → Type ℓ
Reads p printed a = (rest : Text) → p (printed ++ rest) ≡ ok (a, rest)

pub read_u8-put_u8 : (v : ℕ) → v < 256 → Reads read_u8 (put_u8 v) v
unfolding read_u8 put_u8
read_u8-put_u8 v h rest = ground arith

pub read_u32-put_u32 : (v : ℕ) → v < 2 ^ 32 → Reads read_u32 (put_u32 v) v
unfolding read_u32 put_u32
read_u32-put_u32 v h rest = ground arith

-- A length or a count that is cut to 32 bits and fits them.
pub read_u32-put_count : (n : ℕ) → n < 2 ^ 32 → Reads read_u32 (put_u32 (n % 2 ^ 32)) n
read_u32-put_count n h rest = rw small (read_u32-put_u32 n h rest)
  where
    small : n % 2 ^ 32 ≡ n
    small = omega arith

pub read_u64-put_u64 : (v : ℕ) → v < 2 ^ 64 → Reads read_u64 (put_u64 v) v
unfolding read_u64 put_u64
read_u64-put_u64 v h rest = ground arith

pub need_take-append : (s rest : Text) → need_take (length s) (s ++ rest) ≡ ok (s, rest)
unfolding need_take
need_take-append s rest =
    ground (arith, length-append s rest, take-length-append s rest, drop-length-append s rest)

pub read_str-put_string : (s : Text) → length s < 2 ^ 32 → Reads read_str (put_string s) s
unfolding read_str put_string put_bytes
read_str-put_string s h rest =
    simp (append_assoc, read_u32-put_count (length s) h) (need_take-append s rest)

pub read_bytes-put_bytes : (s : Text) → length s < 2 ^ 32 → Reads read_bytes (put_bytes s) s
unfolding read_bytes read_str put_string
read_bytes-put_bytes s h = read_str-put_string s h

put_u32-IsByte : (v : ℕ) → All IsByte (put_u32 v)
unfolding put_u32
put_u32-IsByte v = omega arith

pub length-put_bytes : (s : Text) → length (put_bytes s) ≡ 4 + length s
unfolding put_bytes put_u32
length-put_bytes s = omega arith
