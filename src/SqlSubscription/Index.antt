-- ===== src/SqlSubscription/Index.antt =====
-- The indexes of `SqlSubscriptionManager` agree with its subscriptions.
use origindb.Prelude.{
  Distinct, ◌≡◌, refl, ◌∙◌, Bool, false, not, ◌&&◌, none, some, Text, List, [], ◌∷◌, ◌++◌, text_eq,
  text_eq_iff, if◌then◌else◌, arith, Assoc, find, assign, erase, find-assign, find-erase,
  Option-cases, inl, inr,
}
use origindb.SqlSubscription.{
  SqlSubscription, Manager, is_all_tables, has, remove, bucket, empty_or_assigned, without,
}

pub remove-absent : (id : Text) (xs : List Text) → has id xs ≡ false → remove id xs ≡ xs
unfolding has remove
remove-absent id [] h = refl
remove-absent id (x ∷ xs) h = ground (arith, remove-absent id xs)

pub bucket-assign :
    (t table : Text) (ids : List Text) (index : Assoc (List Text))
    → bucket t (assign table ids index) ≡ (if text_eq table t then ids else bucket t index)
unfolding bucket
bucket-assign t table ids index = ground (arith, find-assign table t ids index)

pub bucket-emptied :
    (t table : Text) (ids : List Text) (index : Assoc (List Text))
    → bucket t (empty_or_assigned table ids index)
      ≡ (if text_eq table t then ids else bucket t index)
unfolding bucket
bucket-emptied t table [] index = ground (arith, find-erase table t index)
bucket-emptied t table (id ∷ ids) index = ground (arith, find-assign table t (id ∷ ids) index)

pub bucket-erase :
    (t table : Text) (index : Assoc (List Text))
    → bucket t (erase table index) ≡ (if text_eq table t then [] else bucket t index)
unfolding bucket
bucket-erase t table index = ground (arith, find-erase table t index)

pub bucket-without :
    (t table id : Text) (index : Assoc (List Text))
    → bucket t (without id table (find table index) index)
      ≡ (if text_eq table t then remove id (bucket t index) else bucket t index)
unfolding without
bucket-without t table id index = elim (Option-cases (find table index)) [
  | inl e ↦ rw (e, without) (unfold bucket remove in ground (arith, text_eq_iff table t))
  | inr (ids, e) ↦
      rw (e, without)
        (bucket-emptied t table (remove id ids) index
          ∙ unfold bucket in ground (arith, text_eq_iff table t))
]

module _ {S : Type 0} where
  -- The keys whose values satisfy the test, in order.
  unfoldable pub ids_where : (S → Bool) → Assoc S → List Text
  ids_where p [] = []
  ids_where p ((id, s) ∷ m) = if p s then id ∷ ids_where p m else ids_where p m

  pub ids_where-assign :
      (p : S → Bool) (id : Text) (s : S) (m : Assoc S)
      → find id m ≡ none
      → ids_where p (assign id s m) ≡ ids_where p m ++ (if p s then id ∷ [] else [])
  unfolding ids_where assign find
  ids_where-assign p id s [] h = ground arith
  ids_where-assign p id s ((j, r) ∷ m) h = ground (arith, ids_where-assign p id s m)

  pub has-ids_where :
      (p : S → Bool) (id : Text) (m : Assoc S) → find id m ≡ none → has id (ids_where p m) ≡ false
  unfolding ids_where find has
  has-ids_where p id [] h = refl
  has-ids_where p id ((j, r) ∷ m) h = ground (arith, has-ids_where p id m)

  pub erase-absent : (id : Text) (m : Assoc S) → find id m ≡ none → erase id m ≡ m
  unfolding find erase
  erase-absent id [] h = refl
  erase-absent id ((j, r) ∷ m) h = ground (arith, erase-absent id m)

  pub assign-Distinct : (id : Text) (s : S) (m : Assoc S) → Distinct m → Distinct (assign id s m)
  unfolding assign find
  assign-Distinct id s [] d = (refl, tt)
  assign-Distinct id s ((j, r) ∷ m) (h, d) =
      ground
        (arith, assign-Distinct id s m d, find-assign id j s m, text_eq_iff j id, text_eq_iff id j)

  pub erase-Distinct : (id : Text) (m : Assoc S) → Distinct m → Distinct (erase id m)
  unfolding erase
  erase-Distinct id [] d = tt
  erase-Distinct id ((j, r) ∷ m) (h, d) = ground (arith, erase-Distinct id m d, find-erase id j m)

  pub ids_where-erase :
      (p : S → Bool) (id : Text) (s : S) (m : Assoc S)
      → Distinct m
      → find id m ≡ some s
      → ids_where p (erase id m) ≡ (if p s then remove id (ids_where p m) else ids_where p m)
  unfolding ids_where find erase remove
  ids_where-erase p id s [] d h = cc
  ids_where-erase p id s ((j, r) ∷ m) (a, d) h = ground (
    arith,
    ids_where-erase p id s m d,
    text_eq_iff j id,
    erase-absent id m,
    remove-absent id (ids_where p m),
    has-ids_where p id m,
  )

module _ {D : Type 0} where
  abbrev pub on_table : Text → SqlSubscription D → Bool
  on_table table sub = not (is_all_tables sub.type) && text_eq sub.table_name table

  abbrev pub catches_all : SqlSubscription D → Bool
  catches_all sub = is_all_tables sub.type

  abbrev pub of_client : Text → SqlSubscription D → Bool
  of_client client_id sub = text_eq sub.client_id client_id

  -- Each index lists exactly the subscriptions that it is about, in the order of the subscriptions; a
  -- subscription stands under its own identifier, and one on a table names the table.
  pub record IsIndexed (m : Manager D) : Type 0 where
    pub distinct : Distinct m.subscriptions
    pub keyed :
        (id : Text) (sub : SqlSubscription D) → find id m.subscriptions ≡ some sub → sub.id ≡ id
    pub tables :
        (table : Text) → bucket table m.table_index ≡ ids_where (on_table table) m.subscriptions
    pub catch_alls : m.all_tables_index ≡ ids_where catches_all m.subscriptions

  pub record IsOwned (m : Manager D) : Type 0 where
    pub clients :
        (client_id : Text)
        → bucket client_id m.client_subscriptions ≡ ids_where (of_client client_id) m.subscriptions
