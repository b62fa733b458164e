-- ===== src/Wasm/Versions.antt =====
-- CompareVersions of src/wasm/wasm_engine.cpp.
pub mod Missing
pub mod Order
use origindb.Prelude.{
  ℕ, zero, suc, ◌+◌, ◌-◌, ◌*◌, ◌^◌, Bool, true, false, not, ◌&&◌, Option, none, some, Text, [], ◌∷◌,
  length, drop, ltb, ◌==◌, if◌then◌else◌, text_eq, text_ltb, is_digit, take_while,
}

-- The results -1, 0 and 1; the exception of `std::stol`; and the end of the fuel, which has no
-- counterpart in the code.
pub data Comparison : Type 0 where
  older same newer : Comparison
  number_too_large : Comparison
  out_of_fuel : Comparison

abbrev pub not_dot : ℕ → Bool
not_dot c = not (c == b'.')

unfoldable pub segment : Text → Text
unfolding take_while
segment s = take_while not_dot s

-- What follows the segment and its dot.
unfoldable pub after_segment : Text → Text
unfolding segment
after_segment s = drop 1 (drop (length (segment s)) s)

abbrev pub all_digits : Text → Bool
unfolding is_digit
all_digits [] = true
all_digits (c ∷ s) = is_digit c && all_digits s

unfoldable pub is_numeric : Text → Bool
unfolding all_digits
is_numeric [] = false
is_numeric (c ∷ s) = all_digits (c ∷ s)

unfoldable pub number_of : ℕ → Text → ℕ
number_of acc [] = acc
number_of acc (c ∷ s) = number_of (acc * 10 + (c - b'0')) s

-- `std::stol` of digits, where a long has 64 bits.
unfoldable pub to_long : Text → Option ℕ
unfolding number_of
to_long s = let n = number_of 0 s in if ltb n (2 ^ 63) then some n else none

abbrev pub compare_longs : Option ℕ → Option ℕ → Comparison
compare_longs none vb = number_too_large
compare_longs (some a) none = number_too_large
compare_longs (some a) (some b) = if ltb a b then older else if ltb b a then newer else same

abbrev pub compare_texts : Text → Text → Comparison
compare_texts a b = if text_eq a b then same else if text_ltb a b then older else newer

unfoldable pub compare_segments : Text → Text → Comparison
unfolding is_numeric to_long
compare_segments a b =
    if is_numeric a && is_numeric b
    then compare_longs (to_long a) (to_long b)
    else compare_texts a b

-- The next round is run where the segments are the same.
abbrev pub or_next : Comparison → Comparison → Comparison
or_next same next = next
or_next other next = other

abbrev pub is_empty : Text → Bool
is_empty [] = true
is_empty (c ∷ s) = false

unfoldable pub compare_from : ℕ → Text → Text → Comparison
compare_from zero a b = if is_empty a && is_empty b then same else out_of_fuel
compare_from (suc fuel) a b =
    let next = compare_from fuel (after_segment a) (after_segment b) in
    if is_empty a && is_empty b
    then same
    else or_next (compare_segments (segment a) (segment b)) next

unfoldable pub compare_versions : Text → Text → Comparison
unfolding compare_from
compare_versions a b = compare_from (length a + length b) a b
