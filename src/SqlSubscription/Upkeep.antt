-- ===== src/SqlSubscription/Upkeep.antt =====
-- Each step of `SqlSubscriptionManager` keeps its indexes in agreement with its subscriptions.
use origindb.Prelude.{
  Distinct, ◌≡◌, false, none, some, Text, List, [], ◌∷◌, ◌++◌, text_eq_iff, arith, find, erase,
  find-assign, find-erase, append-nil,
}
use origindb.SqlSubscription.{
  SqlSubscription, Manager, has, insert, bucket, index_subscription, unindex_subscription,
  store_subscription, drop_subscription,
}
use origindb.SqlSubscription.Index.{
  ids_where, IsIndexed, IsOwned, on_table, catches_all, of_client, ids_where-assign,
  assign-Distinct, erase-Distinct, ids_where-erase, bucket-assign, bucket-without, has-ids_where,
}

insert-absent : (id : Text) (xs : List Text) → has id xs ≡ false → insert id xs ≡ xs ++ id ∷ []
unfolding insert
insert-absent id xs h = ground arith

module _ {D : Type 0} where
  -- A new identifier is stored.
  module _ (client_id id : Text) (sub : SqlSubscription D) (m : Manager D) (own_id : sub.id ≡ id)
      (fresh : find id m.subscriptions ≡ none) (ok : IsIndexed m) where
    store-tables :
        (t : Text)
        → bucket t (store_subscription client_id id sub m).table_index
          ≡ ids_where (on_table t) (store_subscription client_id id sub m).subscriptions
    unfolding store_subscription index_subscription
    store-tables t = ground (
      arith,
      ok.tables t,
      ok.tables sub.table_name,
      ids_where-assign (on_table t) id sub m.subscriptions,
      has-ids_where (on_table sub.table_name) id m.subscriptions,
      insert-absent id (ids_where (on_table sub.table_name) m.subscriptions),
      bucket-assign t sub.table_name (insert id (bucket sub.table_name m.table_index))
          m.table_index,
      text_eq_iff sub.table_name t,
      append-nil (ids_where (on_table t) m.subscriptions),
    )

    store-catch_alls :
        (store_subscription client_id id sub m).all_tables_index
        ≡ ids_where catches_all (store_subscription client_id id sub m).subscriptions
    unfolding store_subscription index_subscription
    store-catch_alls = ground (
      arith,
      ok.catch_alls,
      ids_where-assign catches_all id sub m.subscriptions,
      has-ids_where catches_all id m.subscriptions,
      insert-absent id (ids_where catches_all m.subscriptions),
      append-nil (ids_where catches_all m.subscriptions),
    )

    store-keyed :
        (j : Text) (s : SqlSubscription D)
        → find j (store_subscription client_id id sub m).subscriptions ≡ some s
        → s.id ≡ j
    unfolding store_subscription index_subscription
    store-keyed j s h =
        ground (arith, ok.keyed j s, find-assign id j sub m.subscriptions, text_eq_iff id j)

    store-Distinct : Distinct (store_subscription client_id id sub m).subscriptions
    unfolding store_subscription index_subscription
    store-Distinct = ground (arith, assign-Distinct id sub m.subscriptions ok.distinct)

    pub store-IsIndexed : IsIndexed (store_subscription client_id id sub m)
    store-IsIndexed = record {
      distinct = store-Distinct;
      keyed = store-keyed;
      tables = store-tables;
      catch_alls = store-catch_alls;
    }

    pub store-IsOwned :
        sub.client_id ≡ client_id → IsOwned m → IsOwned (store_subscription client_id id sub m)
    unfolding store_subscription index_subscription
    store-IsOwned own owned = record {
      clients = λ c. ground (
        arith,
        owned.clients c,
        ids_where-assign (of_client c) id sub m.subscriptions,
        bucket-assign c client_id (bucket client_id m.client_subscriptions ++ id ∷ [])
            m.client_subscriptions,
        text_eq_iff client_id c,
        append-nil (ids_where (of_client c) m.subscriptions),
      );
    }

  -- An entry is dropped.
  module _ (id : Text) (sub : SqlSubscription D) (m : Manager D)
      (here : find id m.subscriptions ≡ some sub) (ok : IsIndexed m) where
    drop-tables :
        (t : Text)
        → bucket t (drop_subscription id sub m).table_index
          ≡ ids_where (on_table t) (drop_subscription id sub m).subscriptions
    unfolding drop_subscription unindex_subscription
    drop-tables t = ground (
      arith,
      ok.tables t,
      ok.keyed id sub here,
      ids_where-erase (on_table t) id sub m.subscriptions ok.distinct here,
      bucket-without t sub.table_name id m.table_index,
    )

    drop-catch_alls :
        (drop_subscription id sub m).all_tables_index
        ≡ ids_where catches_all (drop_subscription id sub m).subscriptions
    unfolding drop_subscription unindex_subscription
    drop-catch_alls = ground (
      arith,
      ok.catch_alls,
      ok.keyed id sub here,
      ids_where-erase catches_all id sub m.subscriptions ok.distinct here,
    )

    drop-keyed :
        (j : Text) (s : SqlSubscription D)
        → find j (drop_subscription id sub m).subscriptions ≡ some s
        → s.id ≡ j
    unfolding drop_subscription unindex_subscription
    drop-keyed j s h = ground (arith, ok.keyed j s, find-erase id j m.subscriptions)

    drop-Distinct : Distinct (drop_subscription id sub m).subscriptions
    unfolding drop_subscription unindex_subscription
    drop-Distinct = ground (arith, erase-Distinct id m.subscriptions ok.distinct)

    pub drop-IsIndexed : IsIndexed (drop_subscription id sub m)
    drop-IsIndexed = record {
      distinct = drop-Distinct;
      keyed = drop-keyed;
      tables = drop-tables;
      catch_alls = drop-catch_alls;
    }

  pub drop-subscriptions :
      (id : Text) (sub : SqlSubscription D) (m : Manager D)
      → (drop_subscription id sub m).subscriptions ≡ erase id m.subscriptions
  unfolding drop_subscription unindex_subscription
  drop-subscriptions id sub m = ground arith

  pub drop-client_subscriptions :
      (id : Text) (sub : SqlSubscription D) (m : Manager D)
      → (drop_subscription id sub m).client_subscriptions ≡ m.client_subscriptions
  unfolding drop_subscription unindex_subscription
  drop-client_subscriptions id sub m = ground arith
