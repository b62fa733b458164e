-- ===== src/SqlSubscription/Tests.antt =====
-- Runs of the SQL subscriptions.
use mathlib.Core.List.{Perm}
use origindb.Prelude.{
  ℕ, ◌+◌, ◌^◌, ◌<◌, ◌≡◌, ◌≢◌, refl, Bool, true, false, Option, none, some, Text, List, [], ◌∷◌,
  ascii, length, arith, text_eq, ltb, leb, ◌==◌, not,
}
use origindb.Changefeed.Event.{ChangefeedEvent}
use origindb.Predicate.Tree.{JsonView, Comparable}
use origindb.SqlSubscription.{
  index_subscription, Manager, empty_manager, unsubscribe, subscribe, subscribe_to_all_tables,
}
use origindb.SqlSubscription.Query.{parse_query, trim, split, extract_where_clause}
use origindb.SqlSubscription.Matching.{process_event, scan}
use origindb.SqlSubscription.Steps.{
  Reachable, created, subscribed, subscribed_to_all_tables, unsubscribed, IsConsistent,
  Reachable-IsConsistent,
}
use origindb.SqlSubscription.Routing.{process_event-Perm-scan}

split_columns : split (ascii " a, b,c ") b',' ≡ ascii "a" ∷ ascii "b" ∷ ascii "c" ∷ []
unfolding split
split_columns = refl

where_clause : extract_where_clause (ascii "select * from t WHERE x = 1") ≡ some (ascii "x = 1")
unfolding extract_where_clause
where_clause = refl

-- Every query is SELECT * FROM users.
abbrev select_users : Text → Option (Text × Text × Option Text)
select_users query = some (ascii "*", ascii "users", none)

abbrev all_valid : Text → Bool
all_valid s = true

-- Doubles that are their texts' lengths.
abbrev stod : Text → Option ℕ
stod s = some (length s)

named : trim (ascii "users") ≢ []
unfolding trim
named e = cc

names_users :
    (query columns table : Text) (clause : Option Text)
    → select_users query ≡ some (columns, table, clause)
    → trim table ≢ []
names_users query columns table clause e k = let t : table ≡ ascii "users" = cc in named (rw t at k)

abbrev two_subscriptions : Manager ℕ
two_subscriptions =
    (subscribe (parse_query select_users all_valid stod 0) (ascii "ann") (ascii "q")
      (subscribe_to_all_tables (ascii "bob") empty_manager).0).0

first_room : (empty_manager {D = ℕ}).next_subscription_id + 1 < 2 ^ 64
unfolding empty_manager
first_room = omega arith

second_room :
    (subscribe_to_all_tables (ascii "bob") (empty_manager {D = ℕ})).0.next_subscription_id + 1
    < 2 ^ 64
unfolding empty_manager subscribe_to_all_tables index_subscription
second_room = omega arith

two_subscriptions-Reachable : Reachable select_users all_valid stod 0 two_subscriptions
two_subscriptions-Reachable =
    subscribed (ascii "ann") (ascii "q") second_room
      (subscribed_to_all_tables (ascii "bob") first_room created)

Reachable-IsConsistent_example : IsConsistent (unsubscribe (ascii "sql_sub_1") two_subscriptions)
Reachable-IsConsistent_example =
    Reachable-IsConsistent select_users all_valid stod 0 names_users
      (unsubscribed (ascii "sql_sub_1") two_subscriptions-Reachable)

two_subscriptions-IsConsistent : IsConsistent two_subscriptions
two_subscriptions-IsConsistent =
    Reachable-IsConsistent select_users all_valid stod 0 names_users two_subscriptions-Reachable

-- JSON values that are their texts, with no structure.
abbrev flat_json : JsonView Text ℕ
flat_json = record {
  is_object = λ v. true;
  find = λ column v. none;
  is_null = λ v. false;
  as_number = λ v. none;
  as_string = λ v. some v;
  as_bool = λ v. none;
}

abbrev naturals : Comparable ℕ
naturals = record {
  equal = λ a b. a == b;
  unequal = λ a b. not (a == b);
  less = ltb;
  less_or_equal = leb;
}

abbrev exact : Text → Text → Bool
exact text regex = text_eq text regex

abbrev parsed : Text → Option Text
parsed s = some s

abbrev no_text : List (Text × Text) → Option Text
no_text members = some (ascii "null")

abbrev inserted : ChangefeedEvent
inserted = record {
  offset = 1;
  transaction_id = ascii "t";
  table = ascii "users";
  operation = ascii "INSERT";
  key = ascii "k";
  old_value = [];
  new_value = ascii "{}";
  timestamp = 0;
}

process_event-Perm-scan_example :
    Perm
      (process_event flat_json naturals exact parsed no_text inserted two_subscriptions)
      (scan flat_json naturals exact parsed no_text inserted two_subscriptions.subscriptions)
process_event-Perm-scan_example =
    process_event-Perm-scan flat_json naturals exact parsed no_text inserted two_subscriptions
      two_subscriptions-IsConsistent.indexed two_subscriptions-IsConsistent.named
