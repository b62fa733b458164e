-- ===== src/SqlSubscription/Matching.antt =====
-- src/changefeed/sql_subscription.cpp: which events a subscription matches, what it shows of them, the
-- routing of an event, and the statistics. `parse_json` is `nlohmann::json::parse`, none where it throws;
-- `dump` is the text of the object with the given members, of the null value where there is none, and
-- none where it throws.
use origindb.Prelude.{
  ℕ, ◌+◌, Bool, true, false, not, ◌&&◌, ◌||◌, Option, none, some, Text, List, [], ◌∷◌, ◌++◌, length,
  text_eq, if◌then◌else◌, ascii, Assoc, find, assign, insert_sorted,
}
use origindb.Changefeed.Event.{ChangefeedEvent, update_text, delete_text}
use origindb.Predicate.Tree.{PredicateNode, JsonView, Comparable, evaluate}
use origindb.SqlSubscription.{
  SubscriptionType, select_columns, SqlSubscription, Manager, Stats, bucket, is_all_tables,
}

abbrev is_empty_text : Text → Bool
is_empty_text [] = true
is_empty_text (c ∷ s) = false

abbrev no_columns : List Text → Bool
no_columns [] = true
no_columns (c ∷ cs) = false

abbrev pub count_table : Text → Assoc ℕ → Assoc ℕ
count_table table counts = counted (find table counts)
  where
    counted : Option ℕ → Assoc ℕ
    counted none = assign table 1 counts
    counted (some n) = assign table (n + 1) counts

abbrev is_select_columns : SubscriptionType → Bool
is_select_columns select_columns = true
is_select_columns _ = false

module _ {D : Type 0} where
  -- The loop of `GetStats`.
  unfoldable pub count_subscriptions : Assoc (SqlSubscription D) → Stats → Stats
  count_subscriptions [] stats = stats
  count_subscriptions ((id, sub) ∷ subs) stats =
      let active = record stats {
        active_subscriptions = stats.active_subscriptions + (if sub.is_active then 1 else 0);
      } in
      count_subscriptions subs (
        if is_all_tables sub.type
        then record active { catch_all_subscriptions = active.catch_all_subscriptions + 1 }
        else if is_empty_text sub.table_name
        then active
        else record active {
          subscriptions_per_table = count_table sub.table_name active.subscriptions_per_table;
        })

  unfoldable pub get_stats : Manager D → Stats
  unfolding count_subscriptions
  get_stats m = count_subscriptions m.subscriptions (record {
    total_subscriptions = length m.subscriptions;
    active_subscriptions = 0;
    catch_all_subscriptions = 0;
    subscriptions_per_table = [];
  })

abbrev pub added :
    Option (Text × ChangefeedEvent) → List (Text × ChangefeedEvent) → List (Text × ChangefeedEvent)
added none results = results
added (some r) results = r ∷ results

module _ {J : Type 0} where
  -- The members of the selected columns that the object has; `contains` and `operator[]` are both
  -- `member`.
  unfoldable pub selected : (Text → Option J) → List Text → Assoc J → Assoc J
  selected member [] chosen = chosen
  selected member (col ∷ columns) chosen = selected member columns (with_member (member col))
    where
      with_member : Option J → Assoc J
      with_member none = chosen
      with_member (some v) = insert_sorted col v chosen

module _ {J D : Type 0} (json : JsonView J D) (doubles : Comparable D)
    (regex_match : Text → Text → Bool) (parse_json : Text → Option J)
    (dump : Assoc J → Option Text) where
  abbrev columns_of : J → Option J → J
  columns_of whole none = whole
  columns_of whole (some columns) = if json.is_object columns then columns else whole

  abbrev columns_or_whole : Option J → Option J
  columns_or_whole none = none
  columns_or_whole (some whole) =
      some (
        if json.is_object whole
        then columns_of whole (json.find (ascii "columns") whole)
        else whole)

  unfoldable pub extract_row_columns : Text → Option J
  extract_row_columns value = columns_or_whole (parse_json value)

  -- The pointer to the columns of a payload, null where it is empty or does not parse.
  unfoldable pub payload_columns : Text → Option J
  unfolding extract_row_columns
  payload_columns value = if is_empty_text value then none else extract_row_columns value

  abbrev satisfies : PredicateNode D → Option J → Bool
  satisfies predicate none = false
  satisfies predicate (some columns) = evaluate json doubles regex_match predicate columns

  abbrev matches_predicate : Option (PredicateNode D) → Text → Option J → Option J → Bool
  matches_predicate none operation new_columns old_columns = true
  matches_predicate (some predicate) operation new_columns old_columns =
      if text_eq operation delete_text
      then satisfies predicate old_columns
      else if text_eq operation update_text
      then satisfies predicate new_columns || satisfies predicate old_columns
      else satisfies predicate new_columns

  unfoldable pub matches_columns : SqlSubscription D → ChangefeedEvent → Option J → Option J → Bool
  matches_columns sub event new_columns old_columns =
      if not sub.is_active
      then false
      else if is_all_tables sub.type
      then true
      else if not (is_empty_text sub.table_name) && not (text_eq event.table sub.table_name)
      then false
      else matches_predicate sub.predicate event.operation new_columns old_columns

  unfoldable pub matches_event : SqlSubscription D → ChangefeedEvent → Bool
  matches_event sub event =
      matches_columns sub event (payload_columns event.new_value) (payload_columns event.old_value)

  abbrev shown : List Text → Option J → Option Text
  unfolding selected
  shown columns none = none
  shown columns (some value) = dump (selected (λ col. json.find col value) columns [])

  -- The text of the selected columns, none where an exception is thrown.
  unfoldable pub filter_value : List Text → Text → Option Text
  unfolding shown
  filter_value columns value =
      if is_empty_text value then some value else shown columns (parse_json value)

  abbrev with_values : ChangefeedEvent → Option Text → Option Text → ChangefeedEvent
  with_values event none old_value = event
  with_values event (some new_value) none = event
  with_values event (some new_value) (some old_value) = record event {
    new_value = new_value;
    old_value = old_value;
  }

  unfoldable pub filter_event : SqlSubscription D → ChangefeedEvent → ChangefeedEvent
  unfolding filter_value
  filter_event sub event =
      if is_select_columns sub.type && not (no_columns sub.columns)
      then with_values event (filter_value sub.columns event.new_value)
          (filter_value sub.columns event.old_value)
      else event

  -- The lambda `evaluate` of `ProcessEvent`: what a candidate adds to the results.
  unfoldable pub evaluated :
      ChangefeedEvent → Option (SqlSubscription D) → Option (Text × ChangefeedEvent)
  evaluated event none = none
  evaluated event (some sub) =
      if matches_columns sub event (payload_columns event.new_value)
        (payload_columns event.old_value)
      then some (sub.client_id, filter_event sub event)
      else none

  unfoldable pub evaluate_all :
      ChangefeedEvent → Assoc (SqlSubscription D) → List Text → List (Text × ChangefeedEvent)
  unfolding evaluated
  evaluate_all event subs [] = []
  evaluate_all event subs (sub_id ∷ ids) =
      added (evaluated event (find sub_id subs)) (evaluate_all event subs ids)

  unfoldable pub process_event : ChangefeedEvent → Manager D → List (Text × ChangefeedEvent)
  unfolding evaluate_all bucket
  process_event event m =
      evaluate_all event m.subscriptions (bucket event.table m.table_index)
      ++ evaluate_all event m.subscriptions m.all_tables_index

  -- Every subscription is evaluated once, with no index.
  unfoldable pub scan : ChangefeedEvent → Assoc (SqlSubscription D) → List (Text × ChangefeedEvent)
  scan event [] = []
  scan event ((id, sub) ∷ subs) =
      if matches_event sub event
      then (sub.client_id, filter_event sub event) ∷ scan event subs
      else scan event subs
