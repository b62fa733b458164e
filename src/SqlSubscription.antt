-- ===== src/SqlSubscription.antt =====
-- src/changefeed/sql_subscription.cpp and include/changefeed/sql_subscription.h: subscriptions written
-- in SQL, and the manager that routes events to them. The locks make each method one step. JSON
-- values of nlohmann::json are of a type `J`; a parse or a dump that throws returns none.
pub mod Query
pub mod Matching
pub mod Index
pub mod Upkeep
pub mod Removal
pub mod Steps
pub mod Routing
mod Tests
use origindb.Prelude.{
  ℕ, ◌+◌, ◌%◌, ◌^◌, Bool, true, false, not, ◌&&◌, ◌||◌, Option, none, some, Text, List, [], ◌∷◌,
  ◌++◌, length, text_eq, if◌then◌else◌, ascii, to_text, Assoc, find, assign, erase,
}
use origindb.Predicate.Tree.{PredicateNode}

pub data SubscriptionType : Type 0 where
  select_all select_columns all_tables : SubscriptionType

pub record SqlSubscription (D : Type 0) : Type 0 where
  pub id : Text
  pub client_id : Text
  pub type : SubscriptionType
  pub table_name : Text
  pub columns : List Text
  pub where_clause : Option Text
  pub predicate : Option (PredicateNode D)
  pub is_active : Bool

-- The sets and maps are unordered in the code; the model keeps the order of insertion.
pub record Manager (D : Type 0) : Type 0 where
  pub subscriptions : Assoc (SqlSubscription D)
  pub client_subscriptions : Assoc (List Text)
  pub table_index : Assoc (List Text)
  pub all_tables_index : List Text
  pub next_subscription_id : ℕ

pub record Stats : Type 0 where
  pub total_subscriptions : ℕ
  pub active_subscriptions : ℕ
  pub catch_all_subscriptions : ℕ
  pub subscriptions_per_table : Assoc ℕ

abbrev pub is_all_tables : SubscriptionType → Bool
is_all_tables all_tables = true
is_all_tables _ = false

unfoldable pub has : Text → List Text → Bool
has id [] = false
has id (x ∷ xs) = text_eq x id || has id xs

-- `insert` of an unordered set.
unfoldable pub insert : Text → List Text → List Text
unfolding has
insert id xs = if has id xs then xs else xs ++ id ∷ []

-- `erase` of an unordered set, and `std::remove` followed by the `erase` of the tail.
unfoldable pub remove : Text → List Text → List Text
remove id [] = []
remove id (x ∷ xs) = let rest = remove id xs in if text_eq x id then rest else x ∷ rest

abbrev or_empty : Option (List Text) → List Text
or_empty none = []
or_empty (some ids) = ids

-- The entry of a key, empty where there is none.
unfoldable pub bucket : Text → Assoc (List Text) → List Text
bucket key index = or_empty (find key index)

abbrev pub empty_or_assigned : Text → List Text → Assoc (List Text) → Assoc (List Text)
empty_or_assigned key [] index = erase key index
empty_or_assigned key (id ∷ ids) index = assign key (id ∷ ids) index

unfoldable pub generate_subscription_id : ℕ → Text
generate_subscription_id n = ascii "sql_sub_" ++ to_text n

unfoldable pub without : Text → Text → Option (List Text) → Assoc (List Text) → Assoc (List Text)
unfolding remove
without id table none index = index
without id table (some ids) index = empty_or_assigned table (remove id ids) index

module _ {D : Type 0} where
  pub empty_manager : Manager D
  empty_manager = record {
    subscriptions = [];
    client_subscriptions = [];
    table_index = [];
    all_tables_index = [];
    next_subscription_id = 1;
  }

  unfoldable pub index_subscription : SqlSubscription D → Manager D → Manager D
  unfolding insert bucket
  index_subscription sub m =
      if is_all_tables sub.type
      then record m { all_tables_index = insert sub.id m.all_tables_index }
      else record m {
        table_index =
            assign sub.table_name (insert sub.id (bucket sub.table_name m.table_index))
              m.table_index;
      }

  unfoldable pub unindex_subscription : SqlSubscription D → Manager D → Manager D
  unfolding remove without
  unindex_subscription sub m =
      if is_all_tables sub.type
      then record m { all_tables_index = remove sub.id m.all_tables_index }
      else record m {
        table_index =
            without sub.id sub.table_name (find sub.table_name m.table_index) m.table_index;
      }

  -- What `Subscribe` and `SubscribeToAllTables` do under the lock.
  unfoldable pub store_subscription : Text → Text → SqlSubscription D → Manager D → Manager D
  unfolding index_subscription bucket
  store_subscription client_id subscription_id sub m =
      let indexed = index_subscription sub m in
      record indexed {
        subscriptions = assign subscription_id sub indexed.subscriptions;
        client_subscriptions =
            assign client_id (bucket client_id indexed.client_subscriptions ++ subscription_id ∷ [])
              indexed.client_subscriptions;
      }

  -- `fetch_add` of the atomic counter.
  abbrev pub next_id_taken : Manager D → Manager D
  next_id_taken m = record m { next_subscription_id = (m.next_subscription_id + 1) % 2 ^ 64 }

  abbrev stored : Text → Text → Option (SqlSubscription D) → Manager D → Manager D × Option Text
  unfolding store_subscription
  stored client_id subscription_id none m = (m, none)
  stored client_id subscription_id (some sub) m =
      (store_subscription client_id subscription_id sub m, some subscription_id)

  -- `parse query subscription_id client_id` is `SqlSubscriptionParser::Parse`. None is the exception.
  unfoldable pub subscribe :
      (Text → Text → Text → Option (SqlSubscription D))
      → Text
      → Text
      → Manager D
      → Manager D × Option Text
  unfolding stored generate_subscription_id
  subscribe parse client_id sql_query m =
      let subscription_id = generate_subscription_id m.next_subscription_id in
      stored client_id subscription_id (parse sql_query subscription_id client_id) (next_id_taken m)

  abbrev pub all_tables_subscription : Text → Text → SqlSubscription D
  all_tables_subscription subscription_id client_id = record {
    id = subscription_id;
    client_id = client_id;
    type = all_tables;
    table_name = [];
    columns = [];
    where_clause = none;
    predicate = none;
    is_active = true;
  }

  unfoldable pub subscribe_to_all_tables : Text → Manager D → Manager D × Text
  unfolding store_subscription generate_subscription_id
  subscribe_to_all_tables client_id m =
      let subscription_id = generate_subscription_id m.next_subscription_id in
      (
        store_subscription client_id subscription_id
            (all_tables_subscription subscription_id client_id) (next_id_taken m),
        subscription_id,
      )

  -- The entry of `subscriptions` goes, and the indexes with it.
  unfoldable pub drop_subscription : Text → SqlSubscription D → Manager D → Manager D
  unfolding unindex_subscription
  drop_subscription subscription_id sub m =
      let unindexed = unindex_subscription sub m in
      record unindexed { subscriptions = erase subscription_id unindexed.subscriptions }

  abbrev pub unsubscribe_found : Text → Option (SqlSubscription D) → Manager D → Manager D
  unfolding drop_subscription bucket remove
  unsubscribe_found subscription_id none m = m
  unsubscribe_found subscription_id (some sub) m =
      let dropped = drop_subscription subscription_id sub m in
      let client_subs =
        remove subscription_id (bucket sub.client_id dropped.client_subscriptions) in
      record dropped {
        client_subscriptions =
            empty_or_assigned sub.client_id client_subs dropped.client_subscriptions;
      }

  unfoldable pub unsubscribe : Text → Manager D → Manager D
  unfolding unsubscribe_found
  unsubscribe subscription_id m =
      unsubscribe_found subscription_id (find subscription_id m.subscriptions) m

  abbrev pub dropped_if_found : Text → Option (SqlSubscription D) → Manager D → Manager D
  unfolding drop_subscription
  dropped_if_found sub_id none m = m
  dropped_if_found sub_id (some sub) m = drop_subscription sub_id sub m

  unfoldable pub drop_all : List Text → Manager D → Manager D
  unfolding dropped_if_found
  drop_all [] m = m
  drop_all (sub_id ∷ ids) m = drop_all ids (dropped_if_found sub_id (find sub_id m.subscriptions) m)

  abbrev pub unsubscribe_client : Text → Option (List Text) → Manager D → Manager D
  unfolding drop_all
  unsubscribe_client client_id none m = m
  unsubscribe_client client_id (some ids) m =
      let dropped = drop_all ids m in
      record dropped { client_subscriptions = erase client_id dropped.client_subscriptions }

  unfoldable pub unsubscribe_all : Text → Manager D → Manager D
  unfolding unsubscribe_client
  unsubscribe_all client_id m =
      unsubscribe_client client_id (find client_id m.client_subscriptions) m

  unfoldable pub found_subscriptions :
      List Text → Assoc (SqlSubscription D) → List (SqlSubscription D)
  found_subscriptions [] subs = []
  found_subscriptions (sub_id ∷ ids) subs = found (find sub_id subs) (found_subscriptions ids subs)
    where
      found : Option (SqlSubscription D) → List (SqlSubscription D) → List (SqlSubscription D)
      found none rest = rest
      found (some sub) rest = sub ∷ rest

  unfoldable pub get_client_subscriptions : Text → Manager D → List (SqlSubscription D)
  unfolding found_subscriptions bucket
  get_client_subscriptions client_id m =
      found_subscriptions (bucket client_id m.client_subscriptions) m.subscriptions
