-- ===== src/SqlSubscription/Removal/Ids.antt =====
-- Lists of identifiers from which others are removed.
use origindb.Prelude.{
  Distinct, ◌≡◌, refl, ◌∙◌, ap, Bool, true, false, some, Text, List, [], ◌∷◌, text_eq_iff,
  text_eq_refl, arith, Assoc, find, erase,
}
use origindb.SqlSubscription.{has, remove, bucket}
use origindb.SqlSubscription.Index.{ids_where, has-ids_where, remove-absent}

unfoldable pub remove_all : List Text → List Text → List Text
remove_all [] xs = xs
remove_all (id ∷ ids) xs = remove_all ids (remove id xs)

pub remove_comm : (a b : Text) (xs : List Text) → remove a (remove b xs) ≡ remove b (remove a xs)
unfolding remove
remove_comm a b [] = refl
remove_comm a b (x ∷ xs) = ground (arith, remove_comm a b xs)

pub remove_all-remove :
    (ids : List Text) (a : Text) (xs : List Text)
    → remove_all ids (remove a xs) ≡ remove a (remove_all ids xs)
unfolding remove_all
remove_all-remove [] a xs = refl
remove_all-remove (id ∷ ids) a xs =
    ap (remove_all ids) (remove_comm id a xs) ∙ remove_all-remove ids a (remove id xs)

pub remove_all_self : (xs : List Text) → remove_all xs xs ≡ []
unfolding remove_all remove
remove_all_self [] = refl
remove_all_self (x ∷ xs) =
    ground (arith, text_eq_refl x, remove_all-remove xs x xs, remove_all_self xs)

pub remove_all-cons :
    (ids : List Text) (x : Text) (xs : List Text)
    → has x ids ≡ false
    → remove_all ids (x ∷ xs) ≡ x ∷ remove_all ids xs
unfolding remove_all remove has
remove_all-cons [] x xs h = refl
remove_all-cons (id ∷ ids) x xs h =
    ground (arith, text_eq_iff x id, text_eq_iff id x, remove_all-cons ids x (remove id xs))

pub bucket-found :
    (key : Text) (ids : List Text) (index : Assoc (List Text))
    → find key index ≡ some ids
    → bucket key index ≡ ids
unfolding bucket
bucket-found key ids index e = rw e

module _ {S : Type 0} where
  pub ids_where-erased :
      (p : S → Bool) (id : Text) (m : Assoc S)
      → ids_where p (erase id m) ≡ remove id (ids_where p m)
  unfolding ids_where erase remove
  ids_where-erased p id [] = refl
  ids_where-erased p id ((j, r) ∷ m) = ground (arith, ids_where-erased p id m)

  -- Tests that exclude each other select different keys.
  pub remove_all-exclusive :
      (p q : S → Bool) (m : Assoc S)
      → ((s : S) → p s ≡ true → q s ≡ false)
      → Distinct m
      → remove_all (ids_where p m) (ids_where q m) ≡ ids_where q m
  unfolding remove_all ids_where
  remove_all-exclusive p q [] e d = refl
  remove_all-exclusive p q ((j, r) ∷ m) e (h, d) = ground (
    arith,
    e r,
    remove_all-exclusive p q m e d,
    has-ids_where p j m h,
    has-ids_where q j m h,
    remove-absent j (ids_where q m),
    remove_all-cons (ids_where p m) j (ids_where q m),
  )
