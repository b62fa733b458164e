-- ===== src/Wasm/Versions/Missing.antt =====
-- CompareVersions of src/wasm/wasm_engine.cpp on a version with a segment less.
use origindb.Prelude.{
  List, All, append_assoc, ◌∙◌, ℕ, zero, suc, ◌+◌, ◌≤◌, ◌≡◌, refl, true, some, Text, [], ◌∷◌,
  length, drop, arith, text_eq, text_ltb, take_while, ascii, ◌++◌, drop-length-append,
  length-append, is_digit,
}
use origindb.Wasm.Versions.{
  older, same, segment, after_segment, compare_segments, compare_from, compare_versions, is_numeric,
  to_long, all_digits,
}

segment-digits : (s t : Text) → all_digits s ≡ true → segment (s ++ b'.' ∷ t) ≡ s
unfolding segment take_while is_digit
segment-digits [] t h = refl
segment-digits (c ∷ s) t h = ground (arith, segment-digits s t)

segment-all : (s : Text) → all_digits s ≡ true → segment s ≡ s
unfolding segment take_while is_digit
segment-all [] h = refl
segment-all (c ∷ s) h = ground (arith, segment-all s)

after_dot : (s t : Text) → all_digits s ≡ true → after_segment (s ++ b'.' ∷ t) ≡ t
unfolding after_segment
after_dot s t h = rw (segment-digits s t h, drop-length-append s (b'.' ∷ t))

after_all : (s : Text) → all_digits s ≡ true → after_segment s ≡ []
unfolding after_segment
after_all s h = rw (segment-all s h) (dropped s)
  where
    dropped : (l : Text) → drop 1 (drop (length l) l) ≡ []
    dropped [] = refl
    dropped (c ∷ l) = dropped l

missing_older : (f : ℕ) → compare_from (suc f) [] (ascii "0") ≡ older
unfolding compare_from compare_segments after_segment is_numeric segment take_while text_eq text_ltb
missing_older f = refl

same_segment :
    (n c : ℕ) (s : Text)
    → all_digits (c ∷ s) ≡ true
    → to_long (c ∷ s) ≡ some n
    → compare_segments (c ∷ s) (c ∷ s) ≡ same
unfolding compare_segments is_numeric
same_segment n c s d v = rw (d, v) (ground arith)

first_same :
    (f n : ℕ) (c : ℕ) (s : Text)
    → all_digits (c ∷ s) ≡ true
    → to_long (c ∷ s) ≡ some n
    → compare_from (suc (suc f)) (c ∷ s) ((c ∷ s) ++ ascii ".0") ≡ older
unfolding compare_from
first_same f n c s d v =
    rw
      (
        segment-digits (c ∷ s) (ascii "0") d,
        segment-all (c ∷ s) d,
        after_dot (c ∷ s) (ascii "0") d,
        after_all (c ∷ s) d,
        same_segment n c s d v,
      )
      (missing_older f)

next_same :
    (f n : ℕ) (c : ℕ) (s r r' : Text)
    → all_digits (c ∷ s) ≡ true
    → to_long (c ∷ s) ≡ some n
    → compare_from (suc f) ((c ∷ s) ++ b'.' ∷ r) ((c ∷ s) ++ b'.' ∷ r') ≡ compare_from f r r'
unfolding compare_from
next_same f n c s r r' d v =
    rw
      (
        segment-digits (c ∷ s) r d,
        segment-digits (c ∷ s) r' d,
        after_dot (c ∷ s) r d,
        after_dot (c ∷ s) r' d,
        same_segment n c s d v,
      )
      refl

-- A segment is digits of a number that a `long` holds.
abbrev pub IsSegment : Text → Type 0
IsSegment s = (is_numeric s ≡ true) × ((n : ℕ) × (to_long s ≡ some n))

-- A version of one segment and those that follow it.
abbrev pub version : Text → List Text → Text
version s [] = s
version s (t ∷ ts) = s ++ b'.' ∷ version t ts

version-length : (s : Text) (ts : List Text) → length ts ≤ length (version s ts)
version-length s [] = omega arith
version-length s (t ∷ ts) =
    omega (arith, length-append s (b'.' ∷ version t ts), version-length t ts)

missing_from :
    (fuel : ℕ) (s : Text) (ts : List Text)
    → IsSegment s
    → All IsSegment ts
    → length ts + 2 ≤ fuel
    → compare_from fuel (version s ts) (version s ts ++ ascii ".0") ≡ older
unfolding is_numeric
missing_from zero s ts d ds h = absurd (omega arith)
missing_from (suc fuel) [] ts (d, v) ds h = absurd (ground (arith, d))
missing_from (suc zero) (c ∷ s) ts d ds h = absurd (omega arith)
missing_from (suc (suc fuel)) (c ∷ s) [] (d, (n, v)) ds h = first_same fuel n c s d v
missing_from (suc (suc fuel)) (c ∷ s) (t ∷ ts) (d, (n, v)) (e, es) h =
    rw (append_assoc s (b'.' ∷ version t ts) (ascii ".0")) (
      next_same (suc fuel) n c s (version t ts) (version t ts ++ ascii ".0") d v
      ∙ missing_from (suc fuel) t ts e es (omega (arith, h)))

-- A missing segment is not zero: a version of any number of segments, each of digits that fit a
-- `long`, is older than itself with ".0" behind it.
pub compare_versions-missing :
    (s : Text) (ts : List Text)
    → IsSegment s
    → All IsSegment ts
    → compare_versions (version s ts) (version s ts ++ ascii ".0") ≡ older
unfolding compare_versions
compare_versions-missing s ts h hs =
    missing_from _ s ts h hs
      (omega (arith, version-length s ts, length-append (version s ts) (ascii ".0")))
