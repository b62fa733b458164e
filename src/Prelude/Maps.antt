-- ===== src/Prelude/Maps.antt =====
-- Maps with text keys as association lists. `assign` is `operator[]=` of an unordered map, whose
-- iteration order is unspecified; `insert_sorted` is that of `std::map`, which iterates in the
-- order of the keys.
use mathlib.Core.Path.{◌≡◌, refl}
use mathlib.Core.Bool.{true}
use mathlib.Core.Option.{Option, none, some}
use mathlib.Core.List.{List, [], ◌∷◌}
use native.Mathlib.Omega.{arith}
use origindb.Prelude.Tests.{if◌then◌else◌}
use origindb.Prelude.Texts.{
  Text, text_eq, text_eq_iff, text_ltb, text_ltb_irrefl, text_ltb_trans, text_ltb_total,
}

abbrev pub Assoc {ℓ} : Type ℓ → Type ℓ
Assoc V = List (Text × V)

module _ {ℓ} {V : Type ℓ} where
  unfoldable pub find : Text → Assoc V → Option V
  find k [] = none
  find k ((j, v) ∷ m) = if text_eq j k then some v else find k m

  unfoldable pub assign : Text → V → Assoc V → Assoc V
  assign k v [] = (k, v) ∷ []
  assign k v ((j, w) ∷ m) = if text_eq j k then (j, v) ∷ m else (j, w) ∷ assign k v m

  unfoldable pub erase : Text → Assoc V → Assoc V
  erase k [] = []
  erase k ((j, v) ∷ m) = let rest = erase k m in if text_eq j k then rest else (j, v) ∷ rest

  unfoldable pub insert_sorted : Text → V → Assoc V → Assoc V
  insert_sorted k v [] = (k, v) ∷ []
  insert_sorted k v ((j, w) ∷ m) =
      let rest = insert_sorted k v m in
      if text_eq j k
      then (j, v) ∷ m
      else if text_ltb k j
      then (k, v) ∷ (j, w) ∷ m
      else (j, w) ∷ rest

  pub find-assign :
      (k j : Text) (v : V) (m : Assoc V)
      → find j (assign k v m) ≡ (if text_eq k j then some v else find j m)
  unfolding find assign
  find-assign k j v [] = refl
  find-assign k j v ((i, w) ∷ m) =
      ground (arith, text_eq_iff k j, text_eq_iff i k, text_eq_iff i j, find-assign k j v m)

  pub find-erase :
      (k j : Text) (m : Assoc V) → find j (erase k m) ≡ (if text_eq k j then none else find j m)
  unfolding find erase
  find-erase k j [] = ground arith
  find-erase k j ((i, w) ∷ m) =
      ground (arith, text_eq_iff k j, text_eq_iff i k, text_eq_iff i j, find-erase k j m)

  pub find-insert_sorted :
      (k j : Text) (v : V) (m : Assoc V)
      → find j (insert_sorted k v m) ≡ (if text_eq k j then some v else find j m)
  unfolding find insert_sorted
  find-insert_sorted k j v [] = refl
  find-insert_sorted k j v ((i, w) ∷ m) =
      ground (arith, text_eq_iff k j, text_eq_iff i k, text_eq_iff i j, find-insert_sorted k j v m)

  -- The keys from `k` on ascend strictly: `k` is below the first key.
  abbrev pub IsAbove : Text → Assoc V → Type 0
  IsAbove k [] = Unit {0}
  IsAbove k ((j, w) ∷ m) = (text_ltb k j ≡ true) × IsAbove j m

  abbrev pub IsSorted : Assoc V → Type 0
  IsSorted [] = Unit {0}
  IsSorted ((j, w) ∷ m) = IsAbove j m

  pub IsAbove-trans : (i k : Text) (m : Assoc V) → text_ltb i k ≡ true → IsAbove k m → IsAbove i m
  IsAbove-trans i k [] h s = tt
  IsAbove-trans i k ((j, w) ∷ m) h (b, s) = (text_ltb_trans i k j h b, s)

  insert_sorted-IsAbove :
      (i k : Text) (v : V) (m : Assoc V)
      → text_ltb i k ≡ true
      → IsAbove i m
      → IsAbove i (insert_sorted k v m)
  unfolding insert_sorted
  insert_sorted-IsAbove i k v [] h s = (h, tt)
  insert_sorted-IsAbove i k v ((j, w) ∷ m) h (b, s) =
      ground
        (arith, text_ltb_total k j, insert_sorted-IsAbove j k v m, text_eq_iff j k, text_eq_iff k j)

  pub insert_sorted-IsSorted :
      (k : Text) (v : V) (m : Assoc V) → IsSorted m → IsSorted (insert_sorted k v m)
  unfolding insert_sorted
  insert_sorted-IsSorted k v [] s = tt
  insert_sorted-IsSorted k v ((j, w) ∷ m) s =
      ground
        (arith, text_ltb_total k j, insert_sorted-IsAbove j k v m, text_eq_iff j k, text_eq_iff k j)

  erase-IsAbove : (i k : Text) (m : Assoc V) → IsAbove i m → IsAbove i (erase k m)
  unfolding erase
  erase-IsAbove i k [] s = tt
  erase-IsAbove i k ((j, w) ∷ m) (b, s) =
      ground (arith, erase-IsAbove j k m s, erase-IsAbove i k m (IsAbove-trans i j m b s))

  pub IsAbove-IsSorted : (k : Text) (m : Assoc V) → IsAbove k m → IsSorted m
  IsAbove-IsSorted k [] a = tt
  IsAbove-IsSorted k ((j, w) ∷ m) (b, a) = a

  pub find-above : (k : Text) (m : Assoc V) → IsAbove k m → find k m ≡ none
  unfolding find
  find-above k [] a = refl
  find-above k ((j, w) ∷ m) (b, a) =
      ground (arith, text_eq_iff j k, text_ltb_irrefl k, find-above k m (IsAbove-trans k j m b a))

  -- No key stands twice.
  abbrev pub Distinct : Assoc V → Type ℓ
  Distinct [] = Unit {ℓ}
  Distinct ((k, v) ∷ m) = (find k m ≡ none) × Distinct m

  pub IsSorted-Distinct : (m : Assoc V) → IsSorted m → Distinct m
  IsSorted-Distinct [] s = tt
  IsSorted-Distinct ((k, v) ∷ m) s =
      (find-above k m s, IsSorted-Distinct m (IsAbove-IsSorted k m s))

  pub erase-IsSorted : (k : Text) (m : Assoc V) → IsSorted m → IsSorted (erase k m)
  unfolding erase
  erase-IsSorted k [] s = tt
  erase-IsSorted k ((j, w) ∷ m) s =
      ground (arith, erase-IsAbove j k m s, IsAbove-IsSorted j (erase k m))
