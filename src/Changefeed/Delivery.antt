-- ===== src/Changefeed/Delivery.antt =====
-- DeliveryLoop and DeliverEvent of src/changefeed/changefeed_engine.cpp: who is called with what.
use origindb.Prelude.{
  suc, text_eq_refl, text_eq_iff, ℕ, ◌+◌, ◌≡◌, refl, sym, ◌∙◌, Bool, false, Option, none, some,
  Text, text_eq, find, assign, Assoc, List, [], ◌∷◌, ◌++◌, map, arith, if◌then◌else◌, ◌&&◌,
  Bool-cases, inl, inr, length, append_assoc, append-nil,
}
use mathlib.Core.Option
use mathlib.Core.Path.{ap₂}
use origindb.Changefeed.Event.{ChangefeedEvent}
use origindb.Changefeed.{
  Feed, Subscription, SubscriptionFilter, matches_filter, matches_pattern, targets_of, deliver_one,
  deliver_targets, deliver_event, delivery_loop,
}

-- What routing reads of a subscription.
pub record Route : Type 0 where
  id : Text
  filter : SubscriptionFilter
  is_active : Bool

abbrev pub route : Text × Subscription → Route
route (id, sub) = record { id = id; filter = sub.filter; is_active = sub.is_active }

abbrev pub routes : Assoc Subscription → List Route
routes subs = map route subs

routes-assign :
    (id : Text) (subs : Assoc Subscription) (sub new : Subscription)
    → find id subs ≡ some sub
    → new.filter ≡ sub.filter
    → new.is_active ≡ sub.is_active
    → routes (assign id new subs) ≡ routes subs
unfolding find assign
routes-assign id [] sub new e f a = absurd (ground arith)
routes-assign id ((j, x) ∷ subs) sub new e f a = ground (arith, routes-assign id subs sub new)

filter_of : Text → Assoc Subscription → Option SubscriptionFilter
filter_of id subs = Option.map (λ (s : Subscription). s.filter) (find id subs)

find_route : Text → List Route → Option SubscriptionFilter
find_route id [] = none
find_route id (r ∷ rs) = if text_eq r.id id then some r.filter else find_route id rs

filter_of-routes :
    (id : Text) (subs : Assoc Subscription) → filter_of id subs ≡ find_route id (routes subs)
unfolding filter_of find_route find
filter_of-routes id [] = refl
filter_of-routes id ((j, x) ∷ subs) = ground (arith, filter_of-routes id subs)

allows : ChangefeedEvent → Option SubscriptionFilter → Bool
allows event none = false
allows event (some f) = matches_pattern f.table_pattern event

moved-routes :
    (now : ℕ) (event : ChangefeedEvent) (id : Text) (subs : Assoc Subscription)
    → routes (elim (find id subs) [
      | none ↦ subs
      | some sub ↦
          assign id (record sub { current_offset = event.offset; last_activity = now }) subs
    ])
      ≡ routes subs
moved-routes now event id subs = go (find id subs) refl
  where
    go :
        (o : Option Subscription)
        → find id subs ≡ o
        → routes (elim o [
          | none ↦ subs
          | some sub ↦
              assign id (record sub { current_offset = event.offset; last_activity = now }) subs
        ])
          ≡ routes subs
    go none e = refl
    go (some sub) e = routes-assign id subs sub _ e refl refl

-- The keys of a map are all different.
abbrev pub Distinct : Assoc Subscription → Type 0
Distinct [] = Unit {0}
Distinct ((id, sub) ∷ subs) = (find id subs ≡ none) × Distinct subs

-- Each entry is the one that `all` has at its key.
abbrev Held : Assoc Subscription → Assoc Subscription → Type 0
Held all [] = Unit {0}
Held all ((id, sub) ∷ subs) = (find id all ≡ some sub) × Held all subs

Held-cons :
    (id : Text) (sub : Subscription) (all subs : Assoc Subscription)
    → find id all ≡ none
    → Held all subs
    → Held ((id, sub) ∷ all) subs
unfolding find
Held-cons id sub all [] n h = tt
Held-cons id sub all ((j, x) ∷ subs) n (e, h) =
    (ground (arith, text_eq_iff id j), Held-cons id sub all subs n h)

Held-self : (subs : Assoc Subscription) → Distinct subs → Held subs subs
unfolding find
Held-self [] h = tt
Held-self ((id, sub) ∷ subs) (n, h) =
    (rw (text_eq_refl id) refl, Held-cons id sub subs subs n (Held-self subs h))

module _ {C : Type 0} where
  matches_filter-routes :
      (id : Text) (event : ChangefeedEvent) (feed : Feed C)
      → matches_filter id event feed ≡ allows event (find_route id (routes feed.subscriptions))
  unfolding matches_filter allows filter_of
  matches_filter-routes id event feed = ground (arith, filter_of-routes id feed.subscriptions)

  called : ChangefeedEvent → List Route → List Route → Assoc C → List (Text × C)
  called event [] all callbacks = []
  called event (r ∷ rs) all callbacks =
      let rest = called event rs all callbacks in
      if r.is_active && allows event (find_route r.id all)
      then elim (find r.id callbacks) [ none ↦ rest | some callback ↦ (r.id, callback) ∷ rest ]
      else rest

  targets_of-routes :
      (event : ChangefeedEvent) (subs : Assoc Subscription) (feed : Feed C)
      → targets_of event subs feed
        ≡ called event (routes subs) (routes feed.subscriptions) feed.callbacks
  unfolding targets_of called
  targets_of-routes event [] feed = refl
  targets_of-routes event ((id, sub) ∷ subs) feed =
      ground (arith, matches_filter-routes id event feed, targets_of-routes event subs feed)

  -- The engine has the same routes and callbacks, and at most more events behind those queued.
  abbrev pub Follows : Feed C → Feed C → Type 0
  Follows feed after =
      (routes after.subscriptions ≡ routes feed.subscriptions)
      × (after.callbacks ≡ feed.callbacks)
      × ((more : List ChangefeedEvent) × (after.events ≡ feed.events ++ more))

  Follows-refl : (feed : Feed C) → Follows feed feed
  Follows-refl feed = (refl, refl, ([], sym (append-nil feed.events)))

  Follows-trans : (a b c : Feed C) → Follows a b → Follows b c → Follows a c
  Follows-trans a b c (r, k, (more, e)) (r', k', (more', e')) =
      (r' ∙ r, k' ∙ k, (more ++ more', e' ∙ rw e (append_assoc a.events more more')))

  -- The callbacks leave the subscriptions' filters, which of them are active and who is called for
  -- them as they are. They may publish, read and acknowledge.
  abbrev pub Keeps : (C → Text → ChangefeedEvent → Feed C → Feed C × Bool) → Type 0
  Keeps react =
      (callback : C) (id : Text) (event : ChangefeedEvent) (feed : Feed C)
      → Follows feed (react callback id event feed).0

  deliver_one-Follows :
      (react : C → Text → ChangefeedEvent → Feed C → Feed C × Bool) (now : ℕ)
      (event : ChangefeedEvent) (target : Text × C) (feed : Feed C)
      → Keeps react
      → Follows feed (deliver_one react now event target feed)
  unfolding deliver_one
  deliver_one-Follows react now event (id, callback) feed keeps =
      let x = react callback id event feed in
      let (r, k, more) = keeps callback id event feed in
      elim (Bool-cases x.1) [
        | inl s ↦ (rw s r, k, more)
        | inr s ↦ (rw s (moved-routes now event id x.0.subscriptions ∙ r), k, more)
      ]

  deliver_targets-Follows :
      (react : C → Text → ChangefeedEvent → Feed C → Feed C × Bool) (now : ℕ)
      (event : ChangefeedEvent) (targets : List (Text × C)) (feed : Feed C)
      → Keeps react
      → Follows feed (deliver_targets react now event targets feed)
  unfolding deliver_targets
  deliver_targets-Follows react now event [] feed keeps = Follows-refl feed
  deliver_targets-Follows react now event (target ∷ targets) feed keeps =
      let after = deliver_one react now event target feed in
      Follows-trans feed after (deliver_targets react now event targets after)
        (deliver_one-Follows react now event target feed keeps)
        (deliver_targets-Follows react now event targets after keeps)

  -- Who is due an event: each active subscription whose own pattern matches and that has a
  -- callback.
  unfoldable pub due : ChangefeedEvent → Assoc C → Assoc Subscription → List (Text × C)
  due event callbacks [] = []
  due event callbacks ((id, sub) ∷ subs) =
      let rest = due event callbacks subs in
      if sub.is_active && matches_pattern sub.filter.table_pattern event
      then elim (find id callbacks) [ none ↦ rest | some callback ↦ (id, callback) ∷ rest ]
      else rest

  unfoldable pub due_calls : Feed C → List ChangefeedEvent → List (ChangefeedEvent × (Text × C))
  due_calls feed [] = []
  due_calls feed (event ∷ queue) =
      map (λ call. (event, call)) (due event feed.callbacks feed.subscriptions)
      ++ due_calls feed queue

  targets_of-due :
      (event : ChangefeedEvent) (subs : Assoc Subscription) (feed : Feed C)
      → Held feed.subscriptions subs
      → targets_of event subs feed ≡ due event feed.callbacks subs
  unfolding targets_of due matches_filter
  targets_of-due event [] feed h = refl
  targets_of-due event ((id, sub) ∷ subs) feed (e, h) =
      ground (arith, targets_of-due event subs feed h, e)

  target_calls : Feed C → List ChangefeedEvent → List (ChangefeedEvent × (Text × C))
  target_calls feed [] = []
  target_calls feed (event ∷ queue) =
      map (λ call. (event, call)) (targets_of event feed.subscriptions feed)
      ++ target_calls feed queue

  target_calls-due_calls :
      (queue : List ChangefeedEvent) (feed : Feed C)
      → Distinct feed.subscriptions
      → target_calls feed queue ≡ due_calls feed queue
  unfolding target_calls due_calls
  target_calls-due_calls [] feed h = refl
  target_calls-due_calls (event ∷ queue) feed h = rw (
    targets_of-due event feed.subscriptions feed (Held-self feed.subscriptions h),
    target_calls-due_calls queue feed h,
  )

  target_calls-routes :
      (queue : List ChangefeedEvent) (feed feed' : Feed C)
      → routes feed.subscriptions ≡ routes feed'.subscriptions
      → feed.callbacks ≡ feed'.callbacks
      → target_calls feed queue ≡ target_calls feed' queue
  unfolding target_calls
  target_calls-routes [] feed feed' r c = refl
  target_calls-routes (event ∷ queue) feed feed' r c = rw (
    targets_of-routes event feed.subscriptions feed,
    targets_of-routes event feed'.subscriptions feed',
    r,
    c,
    target_calls-routes queue feed feed' r c,
  )

  delivery_loop-first :
      (react : C → Text → ChangefeedEvent → Feed C → Feed C × Bool) (clock : ℕ → ℕ) (i rounds : ℕ)
      (event : ChangefeedEvent) (queue : List ChangefeedEvent) (feed : Feed C)
      → feed.events ≡ event ∷ queue
      → (let (after, targets) =
            deliver_event react (clock i) event (record feed { events = queue }) in
          (delivery_loop react clock i (suc rounds) feed).1
          ≡ map (λ call. (event, call)) targets
            ++ (delivery_loop react clock (i + 1) rounds after).1)
  unfolding delivery_loop
  delivery_loop-first react clock i rounds event queue feed e = rw e refl

  delivery_loop-target_calls :
      (react : C → Text → ChangefeedEvent → Feed C → Feed C × Bool) (clock : ℕ → ℕ) (i : ℕ)
      (queue rest : List ChangefeedEvent) (feed : Feed C)
      → Keeps react
      → feed.events ≡ queue ++ rest
      → (delivery_loop react clock i (length queue) feed).1 ≡ target_calls feed queue
  unfolding delivery_loop deliver_event target_calls
  delivery_loop-target_calls react clock i [] rest feed keeps e = refl
  delivery_loop-target_calls react clock i (event ∷ queue) rest feed keeps e =
      let popped = record feed { events = queue ++ rest } in
      let targets = targets_of event feed.subscriptions popped in
      let after = deliver_targets react (clock i) event targets popped in
      let (r, c, (more, e')) = deliver_targets-Follows react (clock i) event targets popped keeps in
      delivery_loop-first react clock i (length queue) event (queue ++ rest) feed e
      ∙ ap₂ (λ a b. map (λ call. (event, call)) a ++ b)
          (targets_of-routes event feed.subscriptions popped
            ∙ sym (targets_of-routes event feed.subscriptions feed))
          (delivery_loop-target_calls react clock (i + 1) queue (rest ++ more) after keeps
              (e' ∙ append_assoc queue rest more)
            ∙ target_calls-routes queue after feed r c)

  -- Delivering the events that are queued calls, for each of them in the order of their publishing,
  -- each active subscription whose own pattern matches and that has a callback, once, and nobody
  -- else: an earlier call changes nothing for a later one, whether it throws or publishes events of
  -- its own, which come behind. No two subscriptions have the same id, and the callbacks change
  -- neither the subscriptions' filters and activity nor the callbacks.
  pub delivery_loop-due_calls :
      (react : C → Text → ChangefeedEvent → Feed C → Feed C × Bool) (clock : ℕ → ℕ) (i : ℕ)
      (feed : Feed C)
      → Keeps react
      → Distinct feed.subscriptions
      → (delivery_loop react clock i (length feed.events) feed).1 ≡ due_calls feed feed.events
  delivery_loop-due_calls react clock i feed keeps h =
      delivery_loop-target_calls react clock i feed.events [] feed keeps
        (sym (append-nil feed.events))
      ∙ target_calls-due_calls feed.events feed h
