-- ===== src/SqlSubscription/Removal.antt =====
-- `Unsubscribe` and `UnsubscribeAll` of src/changefeed/sql_subscription.cpp keep the indexes.
pub mod Ids
use origindb.Prelude.{
  Distinct, ◌≡◌, refl, sym, ◌∙◌, ap, Bool, true, false, Option, none, some, Text, List, [], ◌∷◌,
  text_eq, text_eq_iff, text_eq_refl, arith, Assoc, find, erase, find-erase, Option-cases, inl, inr,
  ◌⊎◌,
}
use origindb.SqlSubscription.{
  SqlSubscription, Manager, has, remove, bucket, dropped_if_found, drop_subscription,
  unindex_subscription, drop_all, unsubscribe, unsubscribe_found, unsubscribe_all,
  unsubscribe_client,
}
use origindb.SqlSubscription.Index.{
  ids_where, IsIndexed, IsOwned, of_client, bucket-emptied, bucket-erase, has-ids_where,
  remove-absent, erase-absent,
}
use origindb.SqlSubscription.Upkeep.{drop-IsIndexed, drop-subscriptions, drop-client_subscriptions}
use origindb.SqlSubscription.Removal.Ids.{
  remove_all, remove_all_self, bucket-found, ids_where-erased, remove_all-exclusive,
}

module _ {D : Type 0} where
  IsIndexed-clients :
      (m : Manager D) (clients : Assoc (List Text))
      → IsIndexed m
      → IsIndexed (record m { client_subscriptions = clients })
  IsIndexed-clients m clients ok = record {
    distinct = ok.distinct;
    keyed = ok.keyed;
    tables = ok.tables;
    catch_alls = ok.catch_alls;
  }

  dropped-IsIndexed :
      (id : Text) (m : Manager D)
      → IsIndexed m
      → IsIndexed (dropped_if_found id (find id m.subscriptions) m)
  unfolding dropped_if_found
  dropped-IsIndexed id m ok = elim (Option-cases (find id m.subscriptions)) [
    | inl e ↦ rw (e, dropped_if_found) ok
    | inr (sub, e) ↦ rw (e, dropped_if_found) (drop-IsIndexed id sub m e ok)
  ]

  dropped-subscriptions :
      (id : Text) (m : Manager D)
      → (dropped_if_found id (find id m.subscriptions) m).subscriptions ≡ erase id m.subscriptions
  unfolding dropped_if_found
  dropped-subscriptions id m = elim (Option-cases (find id m.subscriptions)) [
    | inl e ↦ rw (e, dropped_if_found) (sym (erase-absent id m.subscriptions e))
    | inr (sub, e) ↦ rw (e, dropped_if_found) (drop-subscriptions id sub m)
  ]

  dropped-client_subscriptions :
      (id : Text) (o : Option (SqlSubscription D)) (m : Manager D)
      → (dropped_if_found id o m).client_subscriptions ≡ m.client_subscriptions
  unfolding dropped_if_found
  dropped-client_subscriptions id none m = refl
  dropped-client_subscriptions id (some sub) m = drop-client_subscriptions id sub m

  dropped-next :
      (id : Text) (o : Option (SqlSubscription D)) (m : Manager D)
      → (dropped_if_found id o m).next_subscription_id ≡ m.next_subscription_id
  unfolding dropped_if_found unindex_subscription
  dropped-next id none m = refl
  dropped-next id (some sub) m = ground arith

  drop_all-IsIndexed : (ids : List Text) (m : Manager D) → IsIndexed m → IsIndexed (drop_all ids m)
  unfolding drop_all
  drop_all-IsIndexed [] m ok = ok
  drop_all-IsIndexed (id ∷ ids) m ok = drop_all-IsIndexed ids _ (dropped-IsIndexed id m ok)

  drop_all-ids_where :
      (p : SqlSubscription D → Bool) (ids : List Text) (m : Manager D)
      → ids_where p (drop_all ids m).subscriptions ≡ remove_all ids (ids_where p m.subscriptions)
  unfolding drop_all remove_all
  drop_all-ids_where p [] m = refl
  drop_all-ids_where p (id ∷ ids) m =
      drop_all-ids_where p ids _
      ∙ ap (λ subs. remove_all ids (ids_where p subs)) (dropped-subscriptions id m)
      ∙ ap (remove_all ids) (ids_where-erased p id m.subscriptions)

  drop_all-client_subscriptions :
      (ids : List Text) (m : Manager D)
      → (drop_all ids m).client_subscriptions ≡ m.client_subscriptions
  unfolding drop_all
  drop_all-client_subscriptions [] m = refl
  drop_all-client_subscriptions (id ∷ ids) m =
      drop_all-client_subscriptions ids _
      ∙ dropped-client_subscriptions id (find id m.subscriptions) m

  pub unsubscribe-IsIndexed :
      (id : Text) (m : Manager D) → IsIndexed m → IsIndexed (unsubscribe id m)
  unfolding unsubscribe
  unsubscribe-IsIndexed id m ok = elim (Option-cases (find id m.subscriptions)) [
    | inl e ↦ rw (e, unsubscribe_found) ok
    | inr (sub, e) ↦
        rw (e, unsubscribe_found) (IsIndexed-clients _ _ (drop-IsIndexed id sub m e ok))
  ]

  pub unsubscribe-subscriptions :
      (id : Text) (m : Manager D) → (unsubscribe id m).subscriptions ≡ erase id m.subscriptions
  unfolding unsubscribe
  unsubscribe-subscriptions id m = elim (Option-cases (find id m.subscriptions)) [
    | inl e ↦ rw (e, unsubscribe_found) (sym (erase-absent id m.subscriptions e))
    | inr (sub, e) ↦ rw (e, unsubscribe_found) (drop-subscriptions id sub m)
  ]

  -- A client that does not own the entry does not list it.
  other-removed :
      (c id : Text) (sub : SqlSubscription D) (m : Assoc (SqlSubscription D))
      → find id m ≡ some sub
      → Distinct m
      → text_eq sub.client_id c ≡ false
      → remove id (ids_where (of_client c) m) ≡ ids_where (of_client c) m
  unfolding find ids_where remove
  other-removed c id sub [] e d h = cc
  other-removed c id sub ((j, r) ∷ m) (e) (a, d) h = ground (
    arith,
    other-removed c id sub m,
    text_eq_iff j id,
    has-ids_where (of_client c) id m,
    remove-absent id (ids_where (of_client c) m),
  )

  pub unsubscribe-IsOwned :
      (id : Text) (m : Manager D) → IsIndexed m → IsOwned m → IsOwned (unsubscribe id m)
  unfolding unsubscribe
  unsubscribe-IsOwned id m ok owned = elim (Option-cases (find id m.subscriptions)) [
    | inl e ↦ rw (e, unsubscribe_found) owned
    | inr (sub, e) ↦
        rw (e, unsubscribe_found)
          (record {
            clients = λ c.
                unfold unsubscribe_found in
                ground (
                  arith,
                  owned.clients c,
                  bucket-emptied c sub.client_id
                      (remove id
                        (bucket sub.client_id (drop_subscription id sub m).client_subscriptions))
                      (drop_subscription id sub m).client_subscriptions,
                  drop-subscriptions id sub m,
                  drop-client_subscriptions id sub m,
                  ids_where-erased (of_client c) id m.subscriptions,
                  text_eq_iff sub.client_id c,
                  other-removed c id sub m.subscriptions e ok.distinct,
                );
          })
  ]

  pub unsubscribe_all-IsIndexed :
      (client_id : Text) (m : Manager D) → IsIndexed m → IsIndexed (unsubscribe_all client_id m)
  unfolding unsubscribe_all unsubscribe_client
  unsubscribe_all-IsIndexed client_id m ok =
      elim (Option-cases (find client_id m.client_subscriptions)) [
        | inl e ↦ rw (e, unsubscribe_client) ok
        | inr (ids, e) ↦
            rw (e, unsubscribe_client) (IsIndexed-clients _ _ (drop_all-IsIndexed ids m ok))
      ]

  apart :
      (client_id c : Text)
      → text_eq client_id c ≡ false
      → (s : SqlSubscription D) → of_client client_id s ≡ true
      → of_client c s ≡ false
  apart client_id c h s k =
      ground (
        arith,
        text_eq_iff s.client_id client_id,
        text_eq_iff s.client_id c,
        text_eq_iff client_id c,
      )

  others_keep :
      (client_id c : Text) (m : Manager D)
      → IsIndexed m
      → text_eq client_id c ≡ false
      → remove_all
          (ids_where (of_client client_id) m.subscriptions)
          (ids_where (of_client c) m.subscriptions)
        ≡ ids_where (of_client c) m.subscriptions
  others_keep client_id c m ok h =
      remove_all-exclusive (of_client client_id) (of_client c) m.subscriptions (apart client_id c h)
        ok.distinct

  clients-dropped :
      (client_id c : Text) (ids : List Text) (m : Manager D)
      → find client_id m.client_subscriptions ≡ some ids
      → IsIndexed m
      → IsOwned m
      → bucket c (erase client_id (drop_all ids m).client_subscriptions)
        ≡ ids_where (of_client c) (drop_all ids m).subscriptions
  clients-dropped client_id c ids m e ok owned = ground (
    arith,
    owned.clients client_id,
    bucket-found client_id ids m.client_subscriptions e,
    owned.clients c,
    bucket-erase c client_id (drop_all ids m).client_subscriptions,
    drop_all-client_subscriptions ids m,
    drop_all-ids_where (of_client c) ids m,
    remove_all_self ids,
    text_eq_iff client_id c,
    others_keep client_id c m ok,
  )

  pub unsubscribe_all-IsOwned :
      (client_id : Text) (m : Manager D)
      → IsIndexed m
      → IsOwned m
      → IsOwned (unsubscribe_all client_id m)
  unfolding unsubscribe_all unsubscribe_client
  unsubscribe_all-IsOwned client_id m ok owned =
      elim (Option-cases (find client_id m.client_subscriptions)) [
        | inl e ↦ rw (e, unsubscribe_client) owned
        | inr (ids, e) ↦
            rw (e, unsubscribe_client)
              (record { clients = λ c. clients-dropped client_id c ids m e ok owned })
      ]

  -- A lookup fails afterwards, or it finds what it found before.
  drop_all-find :
      (j : Text) (ids : List Text) (m : Manager D)
      → (find j (drop_all ids m).subscriptions ≡ none)
        ⊎ (find j (drop_all ids m).subscriptions ≡ find j m.subscriptions)
  unfolding drop_all
  drop_all-find j [] m = inr refl
  drop_all-find j (id ∷ ids) m = ground (
    arith,
    drop_all-find j ids (dropped_if_found id (find id m.subscriptions) m),
    dropped-subscriptions id m,
    find-erase id j m.subscriptions,
  )

  pub unsubscribe-find :
      (id j : Text) (m : Manager D)
      → (find j (unsubscribe id m).subscriptions ≡ none)
        ⊎ (find j (unsubscribe id m).subscriptions ≡ find j m.subscriptions)
  unsubscribe-find id j m =
      ground (arith, unsubscribe-subscriptions id m, find-erase id j m.subscriptions)

  pub unsubscribe_all-find :
      (client_id j : Text) (m : Manager D)
      → (find j (unsubscribe_all client_id m).subscriptions ≡ none)
        ⊎ (find j (unsubscribe_all client_id m).subscriptions ≡ find j m.subscriptions)
  unfolding unsubscribe_all unsubscribe_client
  unsubscribe_all-find client_id j m = elim (Option-cases (find client_id m.client_subscriptions)) [
    | inl e ↦ rw (e, unsubscribe_client) (inr refl)
    | inr (ids, e) ↦ rw (e, unsubscribe_client) (drop_all-find j ids m)
  ]

  -- The counter of identifiers stays.
  drop_all-next :
      (ids : List Text) (m : Manager D)
      → (drop_all ids m).next_subscription_id ≡ m.next_subscription_id
  unfolding drop_all
  drop_all-next [] m = refl
  drop_all-next (id ∷ ids) m = drop_all-next ids _ ∙ dropped-next id (find id m.subscriptions) m

  pub unsubscribe-next :
      (id : Text) (m : Manager D) → (unsubscribe id m).next_subscription_id ≡ m.next_subscription_id
  unfolding unsubscribe
  unsubscribe-next id m = elim (Option-cases (find id m.subscriptions)) [
    | inl e ↦ rw (e, unsubscribe_found)
    | inr (sub, e) ↦ rw (e, unsubscribe_found) (dropped-next id (some sub) m)
  ]

  pub unsubscribe_all-next :
      (client_id : Text) (m : Manager D)
      → (unsubscribe_all client_id m).next_subscription_id ≡ m.next_subscription_id
  unfolding unsubscribe_all unsubscribe_client
  unsubscribe_all-next client_id m = elim (Option-cases (find client_id m.client_subscriptions)) [
    | inl e ↦ rw (e, unsubscribe_client)
    | inr (ids, e) ↦ rw (e, unsubscribe_client) (drop_all-next ids m)
  ]
