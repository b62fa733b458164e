-- ===== src/Prelude/Sorted.antt =====
-- Maps that are built in the order of their keys.
use mathlib.Core.Path.{◌≡◌, refl}
use mathlib.Core.Bool.{true}
use mathlib.Core.Option.{none}
use mathlib.Core.List.{[], ◌∷◌, ◌++◌}
use native.Mathlib.Omega.{arith}
use origindb.Prelude.Texts.{Text, text_eq_iff, text_ltb, text_ltb_irrefl, text_ltb_trans}
use origindb.Prelude.Maps.{Assoc, find, assign, insert_sorted, IsAbove, IsSorted, IsAbove-IsSorted}

module _ {ℓ} {V : Type ℓ} where
  -- What stands behind a map whose keys ascend is above all of it.
  above_all :
      (i k : Text) (v : V) (m rest : Assoc V) → IsAbove i (m ++ (k, v) ∷ rest) → text_ltb i k ≡ true
  above_all i k v [] rest (h, a) = h
  above_all i k v ((j, w) ∷ m) rest (h, a) = text_ltb_trans i j k h (above_all j k v m rest a)

  insert_above :
      (i k : Text) (v : V) (m rest : Assoc V)
      → IsAbove i (m ++ (k, v) ∷ rest)
      → insert_sorted k v m ≡ m ++ (k, v) ∷ []
  unfolding insert_sorted
  insert_above i k v [] rest a = refl
  insert_above i k v ((j, w) ∷ m) rest (h, a) = ground (
    arith,
    above_all j k v m rest a,
    insert_above j k v m rest a,
    text_eq_iff j k,
    text_ltb_irrefl k,
    text_ltb_trans k j k,
  )

  pub insert_sorted-last :
      (k : Text) (v : V) (m rest : Assoc V)
      → IsSorted (m ++ (k, v) ∷ rest)
      → insert_sorted k v m ≡ m ++ (k, v) ∷ []
  unfolding insert_sorted
  insert_sorted-last k v [] rest a = refl
  insert_sorted-last k v ((j, w) ∷ m) rest a = ground (
    arith,
    above_all j k v m rest a,
    insert_above j k v m rest a,
    text_eq_iff j k,
    text_ltb_irrefl k,
    text_ltb_trans k j k,
  )

  pub find-last :
      (k : Text) (v : V) (m rest : Assoc V) → IsSorted (m ++ (k, v) ∷ rest) → find k m ≡ none
  unfolding find
  find-last k v [] rest a = refl
  find-last k v ((j, w) ∷ m) rest a = ground (
    arith,
    above_all j k v m rest a,
    find-last k v m rest (IsAbove-IsSorted j (m ++ (k, v) ∷ rest) a),
    text_eq_iff j k,
    text_ltb_irrefl k,
  )

  pub assign-new :
      (k : Text) (v : V) (m : Assoc V) → find k m ≡ none → assign k v m ≡ m ++ (k, v) ∷ []
  unfolding find assign
  assign-new k v [] h = refl
  assign-new k v ((j, w) ∷ m) h = ground (arith, assign-new k v m)
