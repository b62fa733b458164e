-- ===== src/SqlSubscription/Steps.antt =====
-- The states that `SqlSubscriptionManager` of src/changefeed/sql_subscription.cpp reaches by its methods.
use origindb.Prelude.{
  ℕ, ◌+◌, ◌^◌, ◌≤◌, ◌<◌, ◌≡◌, ◌≢◌, refl, Bool, true, false, Option, none, some, Text, [], text_eq,
  text_eq_iff, arith, find, find-assign, to_text-injective, to_text, Option-cases, inl, inr, ◌⊎◌,
}
use origindb.SqlSubscription.{
  SqlSubscription, Manager, is_all_tables, bucket, store_subscription, index_subscription,
  generate_subscription_id, subscribe, subscribe_to_all_tables, unsubscribe, unsubscribe_all,
  next_id_taken, empty_manager, stored,
}
use origindb.SqlSubscription.Index.{ids_where, IsIndexed, IsOwned}
use origindb.SqlSubscription.Upkeep.{store-IsIndexed, store-IsOwned}
use origindb.SqlSubscription.Removal.{
  unsubscribe-IsIndexed, unsubscribe-IsOwned, unsubscribe-find, unsubscribe-next,
  unsubscribe_all-next, unsubscribe_all-IsIndexed, unsubscribe_all-IsOwned, unsubscribe_all-find,
}
use origindb.SqlSubscription.Query.{parse_query, trim, parse_query-IsOfQuery}

generate-injective :
    (a b : ℕ)
    → a < 2 ^ 64
    → b < 2 ^ 64
    → text_eq (generate_subscription_id a) (generate_subscription_id b) ≡ true
    → a ≡ b
unfolding generate_subscription_id text_eq
generate-injective a b ha hb h =
    to_text-injective a b ha hb ((text_eq_iff (to_text a) (to_text b)).0 h)

module _ {D : Type 0} where
  -- The identifiers that are still to be given out are not in use.
  pub record IsFresh (m : Manager D) : Type 0 where
    pub counter : m.next_subscription_id < 2 ^ 64
    pub unused :
        (n : ℕ)
        → m.next_subscription_id ≤ n
        → n < 2 ^ 64
        → find (generate_subscription_id n) m.subscriptions ≡ none

  -- A subscription that is not on all tables names its table.
  pub record IsNamed (m : Manager D) : Type 0 where
    pub names :
        (id : Text) (sub : SqlSubscription D)
        → find id m.subscriptions ≡ some sub
        → is_all_tables sub.type ≡ false
        → sub.table_name ≢ []

  pub record IsConsistent (m : Manager D) : Type 0 where
    pub indexed : IsIndexed m
    pub owned : IsOwned m
    pub fresh : IsFresh m
    pub named : IsNamed m

  -- Only the counter differs.
  taken-IsConsistent :
      (m : Manager D)
      → m.next_subscription_id + 1 < 2 ^ 64
      → IsConsistent m
      → IsConsistent (next_id_taken m)
  taken-IsConsistent m room ok = record {
    indexed = record {
      distinct = ok.indexed.distinct;
      keyed = ok.indexed.keyed;
      tables = ok.indexed.tables;
      catch_alls = ok.indexed.catch_alls;
    };
    owned = record { clients = ok.owned.clients };
    fresh = record { counter = omega arith; unused = λ n h k. ok.fresh.unused n (omega arith) k };
    named = record { names = ok.named.names };
  }

  store-IsFresh :
      (client_id : Text) (sub : SqlSubscription D) (m : Manager D)
      → m.next_subscription_id + 1 < 2 ^ 64
      → IsFresh m
      → IsFresh (
          store_subscription client_id
            (generate_subscription_id m.next_subscription_id)
            sub
            (next_id_taken m))
  unfolding store_subscription index_subscription
  store-IsFresh client_id sub m room fresh = record {
    counter = ground arith;
    unused = λ n h k. ground (
      arith,
      find-assign (generate_subscription_id m.next_subscription_id) (generate_subscription_id n) sub
          m.subscriptions,
      fresh.unused n,
      generate-injective m.next_subscription_id n,
    );
  }

  store-IsNamed :
      (client_id id : Text) (sub : SqlSubscription D) (m : Manager D)
      → (is_all_tables sub.type ≡ false → sub.table_name ≢ [])
      → IsNamed m
      → IsNamed (store_subscription client_id id sub m)
  unfolding store_subscription index_subscription
  store-IsNamed client_id id sub m own named = record {
    names = λ j s h k. ground (arith, find-assign id j sub m.subscriptions, named.names j s);
  }

  store-IsConsistent :
      (client_id : Text) (sub : SqlSubscription D) (m : Manager D)
      → m.next_subscription_id + 1 < 2 ^ 64
      → IsConsistent m
      → sub.id ≡ generate_subscription_id m.next_subscription_id
      → sub.client_id ≡ client_id
      → (is_all_tables sub.type ≡ false → sub.table_name ≢ [])
      → IsConsistent (
          store_subscription client_id
            (generate_subscription_id m.next_subscription_id)
            sub
            (next_id_taken m))
  store-IsConsistent client_id sub m room ok own_id own_client own_name =
      let id = generate_subscription_id m.next_subscription_id in
      let taken = taken-IsConsistent m room ok in
      let unused = ok.fresh.unused m.next_subscription_id (omega arith) ok.fresh.counter in
      record {
        indexed = store-IsIndexed client_id id sub (next_id_taken m) own_id unused taken.indexed;
        owned =
            store-IsOwned client_id id sub (next_id_taken m) own_id unused taken.indexed own_client
              taken.owned;
        fresh = store-IsFresh client_id sub m room ok.fresh;
        named = store-IsNamed client_id id sub (next_id_taken m) own_name taken.named;
      }

  -- A removal keeps the counter, and a lookup fails afterwards or finds what it found before.
  removed-IsFresh :
      (m m' : Manager D)
      → m'.next_subscription_id ≡ m.next_subscription_id
      → ((j : Text)
          → (find j m'.subscriptions ≡ none) ⊎ (find j m'.subscriptions ≡ find j m.subscriptions))
      → IsFresh m
      → IsFresh m'
  removed-IsFresh m m' same narrows fresh = record {
    counter = omega arith;
    unused = λ n h k. ground (arith, narrows (generate_subscription_id n), fresh.unused n);
  }

  removed-IsNamed :
      (m m' : Manager D)
      → ((j : Text)
          → (find j m'.subscriptions ≡ none) ⊎ (find j m'.subscriptions ≡ find j m.subscriptions))
      → IsNamed m
      → IsNamed m'
  removed-IsNamed m m' narrows named = record {
    names = λ j s h k. ground (arith, narrows j, named.names j s);
  }

  created-IsConsistent : IsConsistent empty_manager
  unfolding empty_manager bucket find ids_where
  created-IsConsistent = record {
    indexed = record {
      distinct = tt;
      keyed = λ id sub h. cc;
      tables = λ t. refl;
      catch_alls = refl;
    };
    owned = record { clients = λ c. refl };
    fresh = record { counter = omega arith; unused = λ n h k. refl };
    named = record { names = λ id sub h k. cc };
  }

module _ {D : Type 0} (select_match : Text → Option (Text × Text × Option Text))
    (regex_valid : Text → Bool) (stod : Text → Option D) (zero_number : D) where
  -- The managers that calls lead to. A call that takes an identifier leaves room in the counter.
  pub data Reachable : Manager D → Type 0 where
    created : Reachable empty_manager
    subscribed :
        {m : Manager D} (client_id sql_query : Text)
        → m.next_subscription_id + 1 < 2 ^ 64
        → Reachable m
        → Reachable
            (subscribe
              (parse_query select_match regex_valid stod zero_number)
              client_id
              sql_query
              m).0
    subscribed_to_all_tables :
        {m : Manager D} (client_id : Text)
        → m.next_subscription_id + 1 < 2 ^ 64
        → Reachable m
        → Reachable (subscribe_to_all_tables client_id m).0
    unsubscribed : {m : Manager D} (id : Text) → Reachable m → Reachable (unsubscribe id m)
    unsubscribed_all :
        {m : Manager D} (client_id : Text) → Reachable m → Reachable (unsubscribe_all client_id m)

  subscribe-IsConsistent :
      ((query columns table : Text) (clause : Option Text)
        → select_match query ≡ some (columns, table, clause)
        → trim table ≢ [])
      → (client_id sql_query : Text) (m : Manager D) → m.next_subscription_id + 1 < 2 ^ 64
      → IsConsistent m
      → IsConsistent
          (subscribe
            (parse_query select_match regex_valid stod zero_number)
            client_id
            sql_query
            m).0
  unfolding subscribe
  subscribe-IsConsistent names client_id sql_query m room ok =
      elim (Option-cases (
        parse_query select_match regex_valid stod zero_number sql_query
          (generate_subscription_id m.next_subscription_id) client_id)) [
            | inl e ↦ rw (e, stored) (taken-IsConsistent m room ok)
            | inr (sub, e) ↦
                let q =
                  parse_query-IsOfQuery select_match regex_valid stod zero_number names sql_query _
                    _ e in
                rw (e, stored)
                  (store-IsConsistent client_id sub m room ok q.id_given q.client_given
                    (λ _. q.named))
          ]

  -- In every manager that calls lead to, the indexes by table, by client and of the subscriptions to all
  -- tables list the subscriptions that they should, each once, the identifiers to come are unused, and
  -- a subscription that is not on all tables names its table: for a pattern whose matches name
  -- tables, and as long as the counter has room in each call that takes an identifier.
  pub Reachable-IsConsistent :
      ((query columns table : Text) (clause : Option Text)
        → select_match query ≡ some (columns, table, clause)
        → trim table ≢ [])
      → {m : Manager D} → Reachable m
      → IsConsistent m
  unfolding subscribe_to_all_tables
  Reachable-IsConsistent names created = created-IsConsistent
  Reachable-IsConsistent names (subscribed client_id sql_query room r) =
      subscribe-IsConsistent names client_id sql_query _ room (Reachable-IsConsistent names r)
  Reachable-IsConsistent names (subscribed_to_all_tables client_id room r) =
      store-IsConsistent client_id _ _ room (Reachable-IsConsistent names r) refl refl (λ e. cc)
  Reachable-IsConsistent names (unsubscribed {m} id r) =
      let ok = Reachable-IsConsistent names r in
      record {
        indexed = unsubscribe-IsIndexed id m ok.indexed;
        owned = unsubscribe-IsOwned id m ok.indexed ok.owned;
        fresh = removed-IsFresh m _ (unsubscribe-next id m) (λ j. unsubscribe-find id j m) ok.fresh;
        named = removed-IsNamed m _ (λ j. unsubscribe-find id j m) ok.named;
      }
  Reachable-IsConsistent names (unsubscribed_all {m} client_id r) =
      let ok = Reachable-IsConsistent names r in
      record {
        indexed = unsubscribe_all-IsIndexed client_id m ok.indexed;
        owned = unsubscribe_all-IsOwned client_id m ok.indexed ok.owned;
        fresh =
            removed-IsFresh m _ (unsubscribe_all-next client_id m)
              (λ j. unsubscribe_all-find client_id j m) ok.fresh;
        named = removed-IsNamed m _ (λ j. unsubscribe_all-find client_id j m) ok.named;
      }
