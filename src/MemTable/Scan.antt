-- ===== src/MemTable/Scan.antt =====
-- A scan visits the rows of its range, in the order of their keys, until the callback stops it.
pub mod Json
use origindb.Prelude.{
  ℕ, ◌≡◌, refl, sym, ap, ◌∙◌, Bool, true, false, not, ◌&&◌, Text, text_eq, text_ltb, text_ltb_trans,
  Assoc, IsAbove, IsSorted, List, [], ◌∷◌, if◌then◌else◌, arith, Bool-cases, inl, inr,
}
use origindb.Table.{Row}
use origindb.MemTable.{MemTable, lower_bound, is_empty, past_end, scan_loop, scan}

-- The specification: every row is tested against both bounds, and an empty bound is none.
unfoldable pub in_range : Text → Text → Text → Bool
in_range start end key = not (text_ltb key start) && not (past_end end key)

unfoldable pub range : Text → Text → Assoc Row → Assoc Row
range start end [] = []
range start end ((key, row) ∷ m) =
    let rest = range start end m in if in_range start end key then (key, row) ∷ rest else rest

unfoldable pub visit {ℓ} : {S : Type ℓ} → (S → Text → Row → S × Bool) → S → Assoc Row → S
visit cb s [] = s
visit cb s ((key, row) ∷ m) =
    let (s', more) = cb s key row in let rest = visit cb s' m in if more then rest else s'

range_past :
    (start end k : Text) (m : Assoc Row)
    → past_end end k ≡ true
    → IsAbove k m
    → range start end m ≡ []
unfolding range in_range past_end
range_past start end k [] p a = refl
range_past start end k ((j, row) ∷ m) p (b, a) = ground (
  arith,
  text_ltb_trans end k j,
  range_past start end j m (ground (arith, text_ltb_trans end k j)) a,
)

-- The first key is not below `start`.
abbrev StartsAt : Text → Assoc Row → Type 0
StartsAt start [] = Unit {0}
StartsAt start ((j, row) ∷ m) = text_ltb j start ≡ false

StartsAt-tail :
    (start k : Text) (m : Assoc Row) → text_ltb k start ≡ false → IsAbove k m → StartsAt start m
StartsAt-tail start k [] h a = tt
StartsAt-tail start k ((j, row) ∷ m) h (b, a) = ground (arith, text_ltb_trans k j start)

pub IsSorted-tail : (k : Text) (m : Assoc Row) → IsAbove k m → IsSorted m
IsSorted-tail k [] a = tt
IsSorted-tail k ((j, row) ∷ m) (b, a) = a

lower_bound-nil : (m : Assoc Row) → lower_bound [] m ≡ m
unfolding lower_bound text_ltb
lower_bound-nil [] = refl
lower_bound-nil (([], row) ∷ m) = refl
lower_bound-nil ((b ∷ key, row) ∷ m) = refl

pub lower_bound_start :
    (start : Text) (m : Assoc Row)
    → (if is_empty start then m else lower_bound start m) ≡ lower_bound start m
unfolding is_empty
lower_bound_start [] m = sym (lower_bound-nil m)
lower_bound_start (b ∷ start) m = refl

module _ {ℓ} {S : Type ℓ} (end : Text) (cb : S → Text → Row → S × Bool) (start : Text) where
  scan_loop-range :
      (s : S) (m : Assoc Row)
      → IsSorted m
      → StartsAt start m
      → scan_loop end cb s m ≡ visit cb s (range start end m)
  unfolding scan_loop range visit in_range
  scan_loop-range s [] a h = refl
  scan_loop-range s ((j, row) ∷ m) a h = elim (Bool-cases (past_end end j)) [
    | inl p ↦ rw (p, h, range_past start end j m p a)
    | inr p ↦
        rw (
          p,
          h,
          scan_loop-range (cb s j row).0 m (IsSorted-tail j m a) (StartsAt-tail start j m h a),
        )
  ]

  pub scan_loop-lower_bound :
      (s : S) (m : Assoc Row)
      → IsSorted m
      → scan_loop end cb s (lower_bound start m) ≡ visit cb s (range start end m)
  unfolding lower_bound range in_range
  scan_loop-lower_bound s [] a = unfold scan_loop visit in refl
  scan_loop-lower_bound s ((j, row) ∷ m) a = elim (Bool-cases (text_ltb j start)) [
    | inl h ↦ rw h (scan_loop-lower_bound s m (IsSorted-tail j m a))
    | inr h ↦ rw h (rw h at (scan_loop-range s ((j, row) ∷ m) a h))
  ]

  -- A scan of a table whose rows ascend calls the callback on exactly the rows whose keys lie
  -- between the bounds (an empty bound is none, both ends included), in the order of the keys, and
  -- stops after the first call that answers false.
  pub scan-visit :
      (s : S) (t : MemTable)
      → IsSorted t.rows
      → scan start end cb s t ≡ visit cb s (range start end t.rows)
  unfolding scan
  scan-visit s t a = rw (lower_bound_start start t.rows) (scan_loop-lower_bound s t.rows a)

-- With no bounds every row is in the range.
pub range-all : (m : Assoc Row) → range [] [] m ≡ m
unfolding range in_range past_end is_empty text_ltb
range-all [] = refl
range-all (([], row) ∷ m) = ap (λ l. ([], row) ∷ l) (range-all m)
range-all ((c ∷ key, row) ∷ m) = ap (λ l. (c ∷ key, row) ∷ l) (range-all m)
