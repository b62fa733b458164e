-- ===== src/SqlSubscription/Query.antt =====
-- `SqlSubscriptionParser` of src/changefeed/sql_subscription.cpp. `select_match` is `std::regex_match`
-- with the SELECT pattern: the clause of the columns, the table's name and the WHERE clause where the
-- query has one.
use origindb.Prelude.{
  ℕ, ◌≡◌, ◌≢◌, refl, Bool, true, false, ◌&&◌, ◌||◌, Option, none, some, Text, List, [], ◌∷◌, ◌++◌,
  map, drop, ◌==◌, if◌then◌else◌, ascii, text_eq, to_lower, arith,
}
use mathlib.Core.List.{reverse}
use origindb.Predicate.Tree.{PredicateNode}
use origindb.Predicate.Parser
use origindb.Predicate.Parser.{Parsed, parse}
use origindb.SqlSubscription.{select_all, select_columns, SqlSubscription, is_all_tables}

unfoldable pub is_trimmed : ℕ → Bool
is_trimmed c = ((c == b' ') || (c == 9)) || ((c == 10) || (c == 13))

unfoldable pub drop_trimmed : Text → Text
unfolding is_trimmed
drop_trimmed [] = []
drop_trimmed (c ∷ s) = if is_trimmed c then drop_trimmed s else c ∷ s

-- Both ends of the text go, up to the first and the last character that is kept.
unfoldable pub trim : Text → Text
unfolding drop_trimmed
trim s = reverse (drop_trimmed (reverse (drop_trimmed s)))

-- The items that `std::getline` reads up to the delimiters, the last one to the end.
unfoldable pub items : ℕ → Text → Text → List Text
items delimiter read [] = read ∷ []
items delimiter read (c ∷ s) =
    let next = items delimiter [] s in
    let longer = items delimiter (read ++ c ∷ []) s in
    if c == delimiter then read ∷ next else longer

unfoldable pub trimmed_items : List Text → List Text
unfolding trim
trimmed_items [] = []
trimmed_items (item ∷ rest) = kept (trim item) (trimmed_items rest)
  where
    kept : Text → List Text → List Text
    kept [] result = result
    kept (c ∷ s) result = (c ∷ s) ∷ result

-- An empty item behind the last delimiter is not read by `std::getline`, and not kept here.
unfoldable pub split : Text → ℕ → List Text
unfolding items trimmed_items
split str delimiter = trimmed_items (items delimiter [] str)

unfoldable pub parse_columns : Text → List Text
unfolding split
parse_columns select_clause = split select_clause b','

unfoldable pub extract_table_name : Text → Text
unfolding trim
extract_table_name from_clause = trim from_clause

abbrev starts_with : Text → Text → Bool
starts_with [] s = true
starts_with (p ∷ ps) [] = false
starts_with (p ∷ ps) (c ∷ s) = (p == c) && starts_with ps s

-- The query behind the first " where " of its lower-case form.
unfoldable pub after_where : Text → Text → Option Text
after_where [] query = none
after_where (c ∷ lower) query =
    let later = after_where lower (drop 1 query) in
    if starts_with (ascii " where ") (c ∷ lower) then some (drop 7 query) else later

unfoldable pub extract_where_clause : Text → Option Text
unfolding after_where to_lower
extract_where_clause query = after_where (map to_lower query) query

abbrev pub text_or_empty : Option Text → Text
text_or_empty none = []
text_or_empty (some s) = s

module _ {D : Type 0} (select_match : Text → Option (Text × Text × Option Text))
    (regex_valid : Text → Bool) (stod : Text → Option D) (zero_number : D) where
  unfoldable pub selected_columns : Text → Text → Text → Text → SqlSubscription D
  unfolding parse_columns
  selected_columns subscription_id client_id table_name select_clause =
      let all = text_eq select_clause (ascii "*") in
      record {
        id = subscription_id;
        client_id = client_id;
        type = if all then select_all else select_columns;
        table_name = table_name;
        columns = if all then [] else parse_columns select_clause;
        where_clause = none;
        predicate = none;
        is_active = true;
      }

  abbrev compiled_where :
      SqlSubscription D → Text → Parsed (PredicateNode D) → Option (SqlSubscription D)
  compiled_where sub clause (Parser.ok node) =
      some (record sub { where_clause = some clause; predicate = some node })
  compiled_where sub clause (Parser.failed e) = none
  compiled_where sub clause Parser.out_of_range = none
  compiled_where sub clause Parser.out_of_fuel = none

  abbrev with_where : SqlSubscription D → Text → Option (SqlSubscription D)
  with_where sub [] = some sub
  with_where sub (c ∷ clause) =
      compiled_where sub (c ∷ clause) (parse regex_valid stod zero_number (c ∷ clause))

  abbrev of_match : Text → Text → Option (Text × Text × Option Text) → Option (SqlSubscription D)
  unfolding trim selected_columns
  of_match subscription_id client_id none = none
  of_match subscription_id client_id (some (select_clause, table_name, where_clause)) =
      with_where (selected_columns subscription_id client_id (trim table_name) (trim select_clause))
        (trim (text_or_empty where_clause))

  unfoldable pub parse_query : Text → Text → Text → Option (SqlSubscription D)
  unfolding of_match
  parse_query query subscription_id client_id =
      of_match subscription_id client_id (select_match (trim query))

  -- A parsed subscription has the identifiers it was given and is on the table that the query names.
  pub record IsOfQuery (subscription_id client_id : Text) (sub : SqlSubscription D) : Type 0 where
    pub id_given : sub.id ≡ subscription_id
    pub client_given : sub.client_id ≡ client_id
    pub on_one_table : is_all_tables sub.type ≡ false
    pub named : sub.table_name ≢ []

  with_where-IsOfQuery :
      (subscription_id client_id clause : Text) (sub : SqlSubscription D)
      {result : SqlSubscription D}
      → IsOfQuery subscription_id client_id sub
      → with_where sub clause ≡ some result
      → IsOfQuery subscription_id client_id result
  with_where-IsOfQuery subscription_id client_id [] sub ok h = ground arith
  with_where-IsOfQuery subscription_id client_id (c ∷ clause) sub ok h =
      compiled (parse regex_valid stod zero_number (c ∷ clause)) h
    where
      compiled :
          (r : Parsed (PredicateNode D)) {result : SqlSubscription D}
          → compiled_where sub (c ∷ clause) r ≡ some result
          → IsOfQuery subscription_id client_id result
      compiled (Parser.ok node) k = ground arith
      compiled (Parser.failed e) k = cc
      compiled Parser.out_of_range k = cc
      compiled Parser.out_of_fuel k = cc

  pub parse_query-IsOfQuery :
      ((query columns table : Text) (clause : Option Text)
        → select_match query ≡ some (columns, table, clause)
        → trim table ≢ [])
      → (query subscription_id client_id : Text) {sub : SqlSubscription D}
      → parse_query query subscription_id client_id ≡ some sub
      → IsOfQuery subscription_id client_id sub
  unfolding parse_query
  parse_query-IsOfQuery names query subscription_id client_id h =
      of (select_match (trim query)) refl h
    where
      of :
          (r : Option (Text × Text × Option Text)) {sub : SqlSubscription D}
          → select_match (trim query) ≡ r
          → of_match subscription_id client_id r ≡ some sub
          → IsOfQuery subscription_id client_id sub
      of none e k = cc
      of (some (columns, table, clause)) e k =
          with_where-IsOfQuery subscription_id client_id (trim (text_or_empty clause)) _
            (record {
              id_given = refl;
              client_given = refl;
              on_one_table = ground arith;
              named = names (trim query) columns table clause e;
            })
            k
