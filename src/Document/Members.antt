-- ===== src/Document/Members.antt =====
-- The members of an nlohmann::json object in the order of their names.
use origindb.Prelude.{
  ◌≡◌, refl, ap, sym, ◌∙◌, Text, [], ◌∷◌, ◌++◌, append_assoc, append-nil, Assoc, find,
  insert_sorted-last, IsSorted, IsAbove, IsAbove-trans, IsAbove-IsSorted, arith,
}
use mathlib.Core.Option
use mathlib.Core.Path.{subst}
use origindb.Document.{map_values, set_members, JsonLibrary, IsDocumented, IsTextual}

module _ {ℓ κ} {A : Type ℓ} {B : Type κ} (f : A → B) where
  map_values-IsAbove : (k : Text) (m : Assoc A) → IsAbove k m → IsAbove k (map_values f m)
  unfolding map_values
  map_values-IsAbove k [] a = tt
  map_values-IsAbove k ((j, v) ∷ m) (h, a) = (h, map_values-IsAbove j m a)

  pub map_values-IsSorted : (m : Assoc A) → IsSorted m → IsSorted (map_values f m)
  unfolding map_values
  map_values-IsSorted [] a = tt
  map_values-IsSorted ((j, v) ∷ m) a = map_values-IsAbove j m a

  pub find-map_values : (k : Text) (m : Assoc A) → find k (map_values f m) ≡ Option.map f (find k m)
  unfolding find map_values
  find-map_values k [] = refl
  find-map_values k ((j, v) ∷ m) = ground (arith, find-map_values k m)

module _ {ℓ} {A : Type ℓ} where
  -- Members that are set in the order of their keys.
  pub set_members-sorted :
      (ms acc : Assoc A) → IsSorted (acc ++ ms) → set_members ms acc ≡ acc ++ ms
  unfolding set_members
  set_members-sorted [] acc s = sym (append-nil acc)
  set_members-sorted ((k, v) ∷ ms) acc s = rw (insert_sorted-last k v acc ms s) (
      set_members-sorted ms (acc ++ (k, v) ∷ [])
        (subst IsSorted (sym (append_assoc acc ((k, v) ∷ []) ms)) s)
      ∙ append_assoc acc ((k, v) ∷ []) ms)

  IsAbove-replaced :
      (i k : Text) (v w : A) (acc ms : Assoc A)
      → IsAbove i (acc ++ (k, v) ∷ ms)
      → IsAbove i (acc ++ (k, w) ∷ ms)
  IsAbove-replaced i k v w [] ms a = a
  IsAbove-replaced i k v w ((j, x) ∷ acc) ms (h, a) = (h, IsAbove-replaced j k v w acc ms a)

  pub IsSorted-replaced :
      (k : Text) (v w : A) (acc ms : Assoc A)
      → IsSorted (acc ++ (k, v) ∷ ms)
      → IsSorted (acc ++ (k, w) ∷ ms)
  IsSorted-replaced k v w [] ms a = a
  IsSorted-replaced k v w ((j, x) ∷ acc) ms a = IsAbove-replaced j k v w acc ms a

  IsAbove-removed :
      (i k : Text) (v : A) (acc ms : Assoc A)
      → IsAbove i (acc ++ (k, v) ∷ ms)
      → IsAbove i (acc ++ ms)
  IsAbove-removed i k v [] ms (h, a) = IsAbove-trans i k ms h a
  IsAbove-removed i k v ((j, x) ∷ acc) ms (h, a) = (h, IsAbove-removed j k v acc ms a)

  pub IsSorted-removed :
      (k : Text) (v : A) (acc ms : Assoc A) → IsSorted (acc ++ (k, v) ∷ ms) → IsSorted (acc ++ ms)
  IsSorted-removed k v [] ms a = IsAbove-IsSorted k ms a
  IsSorted-removed k v ((j, x) ∷ acc) ms a = IsAbove-removed j k v acc ms a

module _ {J : Type 0} (json : JsonLibrary J) (doc : IsDocumented json)
    (texts : IsTextual json) where
  -- The members of an object that was written and read.
  pub members_reread :
      (m : Assoc J)
      → IsSorted m
      → json.members (texts.reread (json.of_members m)) ≡ map_values texts.reread m
  members_reread m s =
      ap json.members (texts.reread_members m s)
      ∙ doc.object_members (map_values texts.reread m) (map_values-IsSorted texts.reread m s)
