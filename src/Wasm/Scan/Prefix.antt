-- ===== src/Wasm/Scan/Prefix.antt =====
-- The range that HostTableScan of src/wasm/host_functions.cpp scans holds every key with the prefix.
use mathlib.Core.List.{reverse, reverse-cons, reverse-reverse}
use origindb.Prelude.{
  ℕ, ◌+◌, ◌≡◌, refl, sym, ◌∙◌, ap, true, false, Text, [], ◌∷◌, ◌++◌, ltb, if◌then◌else◌, arith,
  text_ltb,
}
use origindb.MemTable.{is_empty, past_end}
use origindb.MemTable.Scan.{in_range}
use origindb.Wasm.Host.{prefix_end_reversed, prefix_end, has_prefix}

-- The bound computed from the front.
bump : ℕ → Text → Text
bump c [] = if ltb c 0xFF then (c + 1) ∷ [] else []
bump c (d ∷ e) = c ∷ d ∷ e

forward : Text → Text
forward [] = []
forward (c ∷ s) = bump c (forward s)

forward-snoc :
    (s : Text) (c : ℕ)
    → forward (s ++ c ∷ []) ≡ (if ltb c 0xFF then s ++ (c + 1) ∷ [] else forward s)
unfolding forward bump
forward-snoc [] c = ground arith
forward-snoc (d ∷ []) c = ground arith
forward-snoc (d ∷ e ∷ s) c = ground (arith, forward-snoc (e ∷ s) c)

reversed-forward : (r : Text) → reverse (prefix_end_reversed r) ≡ forward (reverse r)
unfolding prefix_end_reversed
reversed-forward [] = unfold forward in refl
reversed-forward (c ∷ r) = ground (
  arith,
  reversed-forward r,
  reverse-cons c r,
  reverse-cons (c + 1) r,
  forward-snoc (reverse r) c,
)

prefix_end-forward : (prefix : Text) → prefix_end prefix ≡ forward prefix
unfolding prefix_end
prefix_end-forward prefix = reversed-forward (reverse prefix) ∙ ap forward (reverse-reverse prefix)

bump-past_end :
    (c : ℕ) (e key : Text) → past_end e key ≡ false → past_end (bump c e) (c ∷ key) ≡ false
unfolding past_end is_empty text_ltb bump
bump-past_end c [] key h = ground arith
bump-past_end c (d ∷ e) key h = ground arith

has_prefix-not-below :
    (prefix key : Text) → has_prefix prefix key ≡ true → text_ltb key prefix ≡ false
unfolding has_prefix text_ltb
has_prefix-not-below [] [] h = refl
has_prefix-not-below [] (k ∷ key) h = refl
has_prefix-not-below (p ∷ prefix) [] h = cc
has_prefix-not-below (p ∷ prefix) (k ∷ key) h = ground (arith, has_prefix-not-below prefix key)

forward-past_end :
    (prefix key : Text) → has_prefix prefix key ≡ true → past_end (forward prefix) key ≡ false
unfolding has_prefix forward
forward-past_end [] key h = unfold past_end is_empty in refl
forward-past_end (p ∷ prefix) [] h = cc
forward-past_end (p ∷ prefix) (k ∷ key) h =
    let e : p ≡ k = ground arith in
    let t : has_prefix prefix key ≡ true = ground arith in
    rw (sym e) (bump-past_end p (forward prefix) key (forward-past_end prefix key t))

-- A key with the prefix lies between the prefix and the bound.
pub has_prefix-in_range :
    (prefix key : Text)
    → has_prefix prefix key ≡ true
    → in_range prefix (prefix_end prefix) key ≡ true
unfolding in_range
has_prefix-in_range prefix key h =
    ground (
      arith,
      has_prefix-not-below prefix key,
      forward-past_end prefix key,
      prefix_end-forward prefix,
    )
