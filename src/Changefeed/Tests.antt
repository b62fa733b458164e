-- ===== src/Changefeed/Tests.antt =====
-- Runs of src/changefeed/changefeed_engine.cpp.
use origindb.Prelude.{
  append-nil, sym, ℕ, zero, suc, ◌≤◌, ◌≡◌, refl, Bool, true, false, Text, text_eq, find, assign,
  List, [], ◌∷◌, ◌++◌, length, take, ascii, arith, to_text,
}
use origindb.Changefeed.Event.{ChangefeedEvent, insert_text}
use origindb.Changefeed.{
  ChangefeedConfig, Feed, SubscriptionFilter, at_least_once, publish_event, publish_batch,
  create_subscription, get_events, delivery_loop, matches_filter, matches_pattern, trim, subscribe,
  acknowledge_event,
}
use origindb.Changefeed.Offsets.{IsFeed, publish_batch-IsFeed, create_subscription-IsFeed}
use origindb.Changefeed.Wakeup.{
  moves, publishes, stops, notifies, evaluates, blocks, drains, IsQuiet, idle, stuck, lost_wakeup,
}
use origindb.Changefeed.Retained.{selected, publish_event-bound, get_events-next_page}
use origindb.Changefeed.Delivery.{Distinct, Keeps, due_calls, delivery_loop-due_calls}

abbrev config : ChangefeedConfig
config = record { buffer_size = 10; max_lag_entries = 4 }

abbrev everything : SubscriptionFilter
everything = record { table_pattern = []; sql_where_clause = []; columns = [] }

abbrev event_on : Text → ChangefeedEvent
event_on table = record {
  offset = 0;
  transaction_id = ascii "1";
  table = table;
  operation = insert_text;
  key = ascii "k";
  old_value = [];
  new_value = ascii "{}";
  timestamp = 0;
}

-- A callback is a number here, and an even one throws.
abbrev empty_feed : Feed ℕ
empty_feed = record {
  events = [];
  all_events = [];
  next_offset = 1;
  subscriptions = [];
  next_subscription_id = 1;
  callbacks = [];
  delivered = 0;
}

empty_feed-IsFeed : IsFeed empty_feed
empty_feed-IsFeed = record { retained = tt; queued = tt; started = omega arith; numbered = tt }

abbrev two_events : List ChangefeedEvent
two_events = event_on (ascii "users") ∷ event_on (ascii "orders") ∷ []

abbrev subscribed : Feed ℕ
subscribed = (create_subscription 5 everything 0 at_least_once empty_feed).0

abbrev published : Feed ℕ
published = publish_batch config (λ n. 9) 0 two_events subscribed

abbrev stamped : ℕ → Text → ChangefeedEvent
stamped offset table = record (event_on table) { offset = offset; timestamp = 9 }

subscribed-IsFeed : IsFeed subscribed
subscribed-IsFeed =
    (create_subscription-IsFeed 5 everything 0 at_least_once empty_feed (omega arith)
      empty_feed-IsFeed).1

published-IsFeed : IsFeed published
unfolding create_subscription
published-IsFeed =
    (publish_batch-IsFeed config (λ n. 9) 0 two_events subscribed (omega arith) subscribed-IsFeed).0

-- The callback 0 publishes an event and throws, the others do nothing.
throwing : ℕ → Text → ChangefeedEvent → Feed ℕ → Feed ℕ × Bool
throwing zero id event feed = (publish_event config 9 (event_on (ascii "audit")) feed, true)
throwing (suc n) id event feed = (feed, false)

throwing-Keeps : Keeps throwing
unfolding throwing publish_event
throwing-Keeps zero id event feed = (refl, refl, (_, refl))
throwing-Keeps (suc n) id event feed = (refl, refl, ([], sym (append-nil feed.events)))

all_selected :
    selected (ascii "sub-1") 0 published published.all_events
    ≡ [] ++ stamped 1 (ascii "users") ∷ stamped 2 (ascii "orders") ∷ []
unfolding selected publish_batch publish_event create_subscription trim matches_filter
    matches_pattern find assign text_eq to_text
all_selected = refl

publish_event-bound_example :
    length (publish_event config 9 (event_on (ascii "users")) empty_feed).all_events ≤ 4
publish_event-bound_example =
    publish_event-bound config 9 (event_on (ascii "users")) empty_feed (omega arith) (omega arith)
      (omega arith)

get_events-next_page_example :
    get_events (ascii "sub-1") 2 (suc 4) published ≡ take (suc 4) (stamped 2 (ascii "orders") ∷ [])
get_events-next_page_example =
    get_events-next_page (ascii "sub-1") 0 published [] (stamped 2 (ascii "orders") ∷ [])
      (stamped 1 (ascii "users")) 4 published-IsFeed all_selected

distinct : Distinct (subscribe (ascii "sub-1") 0 published).subscriptions
unfolding subscribe publish_batch publish_event create_subscription find assign
distinct = (refl, tt)

delivery_loop-due_calls_example :
    (let feed = subscribe (ascii "sub-1") 0 published in
      (delivery_loop throwing (λ n. 9) 0 (length feed.events) feed).1 ≡ due_calls feed feed.events)
delivery_loop-due_calls_example =
    delivery_loop-due_calls throwing (λ n. 9) 0 (subscribe (ascii "sub-1") 0 published)
      throwing-Keeps distinct

acknowledged_once : (acknowledge_event 9 (ascii "sub-1") 0 subscribed).1 ≡ false
unfolding acknowledge_event create_subscription find assign text_eq to_text
acknowledged_once = refl

quiet : IsQuiet (evaluates ∷ drains ∷ notifies ∷ [])
quiet = (refl, (refl, (refl, tt)))

lost_wakeup_example :
    (moves
        ((evaluates ∷ publishes (event_on (ascii "users")) ∷ notifies ∷ blocks ∷ [])
          ++ (evaluates ∷ drains ∷ notifies ∷ []))
        idle
      ≡ stuck (event_on (ascii "users") ∷ []) true)
    × (moves
          ((evaluates ∷ stops ∷ notifies ∷ blocks ∷ []) ++ (evaluates ∷ drains ∷ notifies ∷ []))
          idle
        ≡ stuck [] false)
lost_wakeup_example =
    lost_wakeup (event_on (ascii "users")) (evaluates ∷ drains ∷ notifies ∷ []) quiet
