-- ===== src/Changefeed.antt =====
-- src/changefeed/changefeed_engine.cpp: the events that commits publish, their subscriptions and
-- their delivery. The locks make each method one step. A callback is code of the subscriber: its
-- type `C` is a parameter, and so is whether a call of it throws. The workers of the pool serve the
-- subscribers of one event between two barriers, each at its own entry of the map; the model
-- serves them one after the other. `now` is what the system clock reads.
pub mod Event
pub mod Offsets
pub mod Retained
pub mod Delivery
pub mod Wakeup
mod Tests
use origindb.Prelude.{
  suc, ℕ, zero, ◌+◌, ◌-◌, ◌*◌, ◌/◌, ◌%◌, ◌^◌, Bool, true, false, not, ◌&&◌, ◌||◌, Option, none,
  some, Text, text_eq, Assoc, find, assign, erase, List, [], ◌∷◌, ◌++◌, length, drop, map, ltb, leb,
  if◌then◌else◌, ascii, to_text,
}
use origindb.Changefeed.Event.{ChangefeedEvent}

-- The fields of the configuration that the methods read.
pub record ChangefeedConfig : Type 0 where
  pub buffer_size : ℕ
  pub max_lag_entries : ℕ

pub data DeliveryMode : Type 0 where
  at_least_once exactly_once : DeliveryMode

pub record SubscriptionFilter : Type 0 where
  pub table_pattern : Text
  pub sql_where_clause : Text
  pub columns : List Text

pub record Subscription : Type 0 where
  pub id : Text
  pub filter : SubscriptionFilter
  pub current_offset : ℕ
  pub ack_offset : ℕ
  pub delivery_mode : DeliveryMode
  pub is_active : Bool
  pub created_at : ℕ
  pub last_activity : ℕ

pub record Feed (C : Type 0) : Type 0 where
  pub events : List ChangefeedEvent
  pub all_events : List ChangefeedEvent
  pub next_offset : ℕ
  pub subscriptions : Assoc Subscription
  pub next_subscription_id : ℕ
  pub callbacks : Assoc C
  pub delivered : ℕ

-- `++` on a uint64_t.
abbrev next : ℕ → ℕ
next n = (n + 1) % 2 ^ 64

-- The oldest quarter goes once the history is over the cap; 0 is no cap.
unfoldable pub trim : ℕ → List ChangefeedEvent → List ChangefeedEvent
trim cap events =
    if ltb 0 cap && ltb cap (length events)
    then drop (length events - cap * 3 % 2 ^ 64 / 4) events
    else events

unfoldable pub matches_pattern : Text → ChangefeedEvent → Bool
matches_pattern [] event = true
matches_pattern pattern event = text_eq pattern (ascii "*") || text_eq event.table pattern

abbrev pub subscription_id_of : ℕ → Text
subscription_id_of n = ascii "sub-" ++ to_text n

unfoldable pub active_ones : Bool → Assoc Subscription → List Subscription
active_ones include_inactive [] = []
active_ones include_inactive ((id, sub) ∷ subs) =
    let rest = active_ones include_inactive subs in
    if include_inactive || sub.is_active then sub ∷ rest else rest

unfoldable pub keep_from : ℕ → List ChangefeedEvent → List ChangefeedEvent
keep_from cutoff [] = []
keep_from cutoff (event ∷ events) =
    let rest = keep_from cutoff events in if ltb event.timestamp cutoff then rest else event ∷ rest

module _ {C : Type 0} where
  unfoldable pub publish_event : ChangefeedConfig → ℕ → ChangefeedEvent → Feed C → Feed C
  unfolding trim
  publish_event config now event feed =
      let stamped = record event { offset = feed.next_offset; timestamp = now } in
      record feed {
        next_offset = next feed.next_offset;
        events = feed.events ++ stamped ∷ [];
        all_events = trim config.max_lag_entries (feed.all_events ++ stamped ∷ []);
      }

  -- The clock's reading at each event comes first.
  unfoldable pub publish_batch :
      ChangefeedConfig → (ℕ → ℕ) → ℕ → List ChangefeedEvent → Feed C → Feed C
  unfolding publish_event
  publish_batch config clock i [] feed = feed
  publish_batch config clock i (event ∷ events) feed =
      publish_batch config clock (i + 1) events (publish_event config (clock i) event feed)

  unfoldable pub create_subscription :
      ℕ → SubscriptionFilter → ℕ → DeliveryMode → Feed C → Feed C × Text
  create_subscription now filter start_offset mode feed =
      let sub_id = subscription_id_of feed.next_subscription_id in
      (
        record feed {
          next_subscription_id = next feed.next_subscription_id;
          subscriptions =
              assign sub_id
                (record {
                  id = sub_id;
                  filter = filter;
                  current_offset = start_offset;
                  ack_offset = start_offset - 1;
                  delivery_mode = mode;
                  is_active = true;
                  created_at = now;
                  last_activity = now;
                })
                feed.subscriptions;
        },
        sub_id,
      )

  unfoldable pub delete_subscription : Text → Feed C → Feed C × Bool
  delete_subscription id feed = elim (find id feed.subscriptions) [
    | none ↦ (feed, false)
    | some sub ↦ (
      record feed {
        callbacks = erase id feed.callbacks;
        subscriptions = erase id feed.subscriptions;
      },
      true,
    )
  ]

  unfoldable pub get_subscription : Text → Feed C → Option Subscription
  get_subscription id feed = find id feed.subscriptions

  unfoldable pub list_subscriptions : Bool → Feed C → List Subscription
  unfolding active_ones
  list_subscriptions include_inactive feed = active_ones include_inactive feed.subscriptions

  unfoldable pub subscribe : Text → C → Feed C → Feed C
  subscribe id callback feed = record feed { callbacks = assign id callback feed.callbacks }

  unfoldable pub unsubscribe : Text → Feed C → Feed C
  unsubscribe id feed = record feed { callbacks = erase id feed.callbacks }

  unfoldable pub acknowledge_event : ℕ → Text → ℕ → Feed C → Feed C × Bool
  acknowledge_event now id offset feed = elim (find id feed.subscriptions) [
    | none ↦ (feed, false)
    | some sub ↦
        if ltb sub.ack_offset offset
        then (
          record feed {
            subscriptions =
                assign id (record sub { ack_offset = offset; last_activity = now })
                  feed.subscriptions;
          },
          true,
        )
        else (feed, false)
  ]

  unfoldable pub matches_filter : Text → ChangefeedEvent → Feed C → Bool
  unfolding matches_pattern
  matches_filter id event feed = elim (find id feed.subscriptions) [
    | none ↦ false
    | some sub ↦ matches_pattern sub.filter.table_pattern event
  ]

  -- The loop of GetEvents over the rest of the history, with how many it has found.
  unfoldable pub get_events_loop :
      Text → ℕ → ℕ → List ChangefeedEvent → ℕ → Feed C → List ChangefeedEvent
  unfolding matches_filter
  get_events_loop id start limit [] found feed = []
  get_events_loop id start limit (event ∷ events) found feed =
      let more = get_events_loop id start limit events (found + 1) feed in
      let rest = get_events_loop id start limit events found feed in
      if leb start event.offset && matches_filter id event feed
      then event ∷ (if leb limit (found + 1) then [] else more)
      else rest

  unfoldable pub get_events : Text → ℕ → ℕ → Feed C → List ChangefeedEvent
  unfolding get_events_loop
  get_events id start limit feed = get_events_loop id start limit feed.all_events 0 feed

  unfoldable pub get_latest_offset : Feed C → ℕ
  get_latest_offset feed = (feed.next_offset + 2 ^ 64 - 1) % 2 ^ 64

  -- The cutoff is the clock's reading less the retention period.
  unfoldable pub compact_events : ℕ → ℕ → Feed C → Feed C
  unfolding keep_from
  compact_events now retention_period feed = record feed {
    all_events = keep_from (now - retention_period) feed.all_events;
  }

  unfoldable pub get_oldest_retained_offset : Feed C → ℕ
  get_oldest_retained_offset feed = elim feed.all_events [ [] ↦ 0 | event ∷ events ↦ event.offset ]

  -- DeliverEvent, first phase: the subscribers of an event and their callbacks.
  unfoldable pub targets_of : ChangefeedEvent → Assoc Subscription → Feed C → List (Text × C)
  unfolding matches_filter
  targets_of event [] feed = []
  targets_of event ((id, sub) ∷ subs) feed =
      let rest = targets_of event subs feed in
      if sub.is_active && matches_filter id event feed
      then elim (find id feed.callbacks) [ none ↦ rest | some callback ↦ (id, callback) ∷ rest ]
      else rest

  -- Second phase: one call, which no lock of the engine spans. `react` is what a callback leaves of
  -- the engine, of which it may call any method, and whether it throws. Where it does not throw, the
  -- subscription, if it is still there, moves on.
  unfoldable pub deliver_one :
      (C → Text → ChangefeedEvent → Feed C → Feed C × Bool)
      → ℕ
      → ChangefeedEvent
      → Text × C
      → Feed C
      → Feed C
  deliver_one react now event (id, callback) feed =
      let (after, thrown) = react callback id event feed in
      record after {
        delivered = next after.delivered;
        subscriptions = if thrown then after.subscriptions else elim (find id after.subscriptions) [
          | none ↦ after.subscriptions
          | some sub ↦
              assign id (record sub { current_offset = event.offset; last_activity = now })
                after.subscriptions
        ];
      }

  unfoldable pub deliver_targets :
      (C → Text → ChangefeedEvent → Feed C → Feed C × Bool)
      → ℕ
      → ChangefeedEvent
      → List (Text × C)
      → Feed C
      → Feed C
  unfolding deliver_one
  deliver_targets react now event [] feed = feed
  deliver_targets react now event (target ∷ targets) feed =
      deliver_targets react now event targets (deliver_one react now event target feed)

  -- The calls that are made, and the engine after them.
  unfoldable pub deliver_event :
      (C → Text → ChangefeedEvent → Feed C → Feed C × Bool)
      → ℕ
      → ChangefeedEvent
      → Feed C
      → Feed C × List (Text × C)
  unfolding targets_of deliver_targets
  deliver_event react now event feed =
      let targets = targets_of event feed.subscriptions feed in
      (deliver_targets react now event targets feed, targets)

  -- DeliveryLoop for at most `rounds` events of the queue, to which the callbacks may add: each call
  -- is listed with its event.
  unfoldable pub delivery_loop :
      (C → Text → ChangefeedEvent → Feed C → Feed C × Bool)
      → (ℕ → ℕ)
      → ℕ
      → ℕ
      → Feed C
      → Feed C × List (ChangefeedEvent × (Text × C))
  unfolding deliver_event
  delivery_loop react clock i zero feed = (feed, [])
  delivery_loop react clock i (suc rounds) feed = elim feed.events [
    | [] ↦ (feed, [])
    | event ∷ queue ↦
        let (feed', calls) = deliver_event react (clock i) event (record feed { events = queue }) in
        let (feed'', more) = delivery_loop react clock (i + 1) rounds feed' in
        (feed'', map (λ call. (event, call)) calls ++ more)
  ]
