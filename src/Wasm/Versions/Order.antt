-- ===== src/Wasm/Versions/Order.antt =====
-- CompareVersions of src/wasm/wasm_engine.cpp as an order.
use origindb.Prelude.{
  ℕ, zero, suc, ◌+◌, ◌≤◌, ◌≡◌, ◌≢◌, refl, Option, none, some, Text, [], ◌∷◌, length, drop,
  length-drop, arith, text_eq_iff, text_ltb_total, text_ltb_irrefl, text_ltb_trans, take_while,
}
use origindb.Wasm.Versions.{
  Comparison, older, same, newer, number_too_large, out_of_fuel, segment, after_segment,
  compare_longs, compare_texts, compare_segments, compare_from, compare_versions, or_next, to_long,
  not_dot,
}

-- The comparison with its sides exchanged.
abbrev pub swapped : Comparison → Comparison
swapped older = newer
swapped newer = older
swapped same = same
swapped number_too_large = number_too_large
swapped out_of_fuel = out_of_fuel

compare_longs-swapped : (a b : Option ℕ) → compare_longs b a ≡ swapped (compare_longs a b)
compare_longs-swapped none none = refl
compare_longs-swapped none (some b) = refl
compare_longs-swapped (some a) none = refl
compare_longs-swapped (some a) (some b) = ground arith

compare_texts-swapped : (a b : Text) → compare_texts b a ≡ swapped (compare_texts a b)
compare_texts-swapped a b = ground (
  arith,
  text_eq_iff a b,
  text_eq_iff b a,
  text_ltb_total a b,
  text_ltb_trans a b a,
  text_ltb_irrefl a,
)

compare_segments-swapped : (a b : Text) → compare_segments b a ≡ swapped (compare_segments a b)
unfolding compare_segments
compare_segments-swapped a b =
    ground (arith, compare_longs-swapped (to_long a) (to_long b), compare_texts-swapped a b)

or_next-swapped : (c d : Comparison) → or_next (swapped c) (swapped d) ≡ swapped (or_next c d)
or_next-swapped older d = refl
or_next-swapped same d = refl
or_next-swapped newer d = refl
or_next-swapped number_too_large d = refl
or_next-swapped out_of_fuel d = refl

compare_from-swapped :
    (fuel : ℕ) (a b : Text) → compare_from fuel b a ≡ swapped (compare_from fuel a b)
unfolding compare_from
compare_from-swapped zero a b = ground arith
compare_from-swapped (suc fuel) a b = ground (
  arith,
  compare_segments-swapped (segment a) (segment b),
  compare_from-swapped fuel (after_segment a) (after_segment b),
  or_next-swapped (compare_segments (segment a) (segment b))
      (compare_from fuel (after_segment a) (after_segment b)),
)

after_segment-shorter : (c : ℕ) (s : Text) → length (after_segment (c ∷ s)) ≤ length s
unfolding after_segment segment take_while
after_segment-shorter c s = ground (
  arith,
  length-drop 1 (drop (length (take_while not_dot s)) s),
  length-drop (length (take_while not_dot s)) s,
)

after_segment-le : (s : Text) → length (after_segment s) ≤ length s
after_segment-le [] = unfold after_segment segment take_while in omega arith
after_segment-le (c ∷ s) = omega (arith, after_segment-shorter c s)

compare_longs-runs : (a b : Option ℕ) → compare_longs a b ≢ out_of_fuel
compare_longs-runs none b = cc
compare_longs-runs (some a) none = cc
compare_longs-runs (some a) (some b) = ground arith

compare_segments-runs : (a b : Text) → compare_segments a b ≢ out_of_fuel
unfolding compare_segments
compare_segments-runs a b = ground (arith, compare_longs-runs (to_long a) (to_long b))

or_next-runs : (c d : Comparison) → c ≢ out_of_fuel → d ≢ out_of_fuel → or_next c d ≢ out_of_fuel
or_next-runs older d h k = cc
or_next-runs same d h k = k
or_next-runs newer d h k = cc
or_next-runs number_too_large d h k = cc
or_next-runs out_of_fuel d h k = h

compare_from-runs :
    (fuel : ℕ) (a b : Text) → length a + length b ≤ fuel → compare_from fuel a b ≢ out_of_fuel
unfolding compare_from
compare_from-runs zero [] [] h = cc
compare_from-runs zero [] (c ∷ b) h = absurd (omega arith)
compare_from-runs zero (c ∷ a) b h = absurd (omega arith)
compare_from-runs (suc fuel) [] [] h = cc
compare_from-runs (suc fuel) [] (c ∷ b) h =
    or_next-runs _ _ (compare_segments-runs (segment []) (segment (c ∷ b))) (
      compare_from-runs fuel (after_segment []) (after_segment (c ∷ b))
        (omega (arith, after_segment-le [], after_segment-shorter c b)))
compare_from-runs (suc fuel) (c ∷ a) b h =
    or_next-runs _ _ (compare_segments-runs (segment (c ∷ a)) (segment b)) (
      compare_from-runs fuel (after_segment (c ∷ a)) (after_segment b)
        (omega (arith, after_segment-shorter c a, after_segment-le b)))

add_swap : (n m : ℕ) → n + m ≡ m + n
add_swap n m = omega arith

-- The comparison ends, and exchanging the versions exchanges older and newer.
pub compare_versions-swapped :
    (a b : Text)
    → (compare_versions b a ≡ swapped (compare_versions a b)) × (compare_versions a b ≢ out_of_fuel)
unfolding compare_versions
compare_versions-swapped a b = (
  rw (add_swap (length b) (length a)) (compare_from-swapped (length a + length b) a b),
  compare_from-runs (length a + length b) a b (omega arith),
)
