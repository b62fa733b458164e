-- ===== src/SqlEngine/Statements.antt =====
-- src/sql/sql_engine.cpp and include/sql/sql_engine.h: the statements, and how SqlParser::Parse reads
-- them. What std::regex finds with the patterns of the parser is a parameter, and so are std::stod and
-- std::stoll.
use origindb.Prelude.{
  ℕ, ◌-◌, Bool, true, false, Option, none, some, Text, List, [], ◌∷◌, length, take, drop, map, ◌==◌,
  ◌&&◌, ◌||◌, if◌then◌else◌, ascii, to_upper,
}
use mathlib.Core.List.{reverse}
use origindb.Table.{Value, int64, double, string, DataType, Column, no_default, TableSchema}

pub data StatementType : Type 0 where
  select insert update delete : StatementType
  create_table drop_table create_index drop_index : StatementType
  create_module drop_module call_module : StatementType
  create_subscription drop_subscription : StatementType
  begin commit rollback : StatementType

-- The fields of SqlStatement that the parser sets: the names of modules and the index stay as they are
-- made.
pub record SqlStatement : Type 0 where
  pub type : StatementType
  pub table_name : Text
  pub columns : List Text
  pub values : List Value
  pub where_clause : Text
  pub table_schema : TableSchema
  pub raw_sql : Text

-- The place of a group in the text that was searched.
pub record Place : Type 0 where
  pub position : ℕ
  pub length : ℕ

pub record InsertMatch : Type 0 where
  pub table : Place
  pub column_list : Option Text
  pub value_list : Text

pub record UpdateMatch : Type 0 where
  pub table : Place
  pub set_clause : Text
  pub where_clause : Option Text

pub data ValueToken : Type 0 where
  quoted unquoted : Text → ValueToken

-- The results of std::regex_search with the patterns for the four statements and for an equation in a
-- WHERE clause, and of std::sregex_iterator with those for words, values and assignments; the numbers
-- of std::stod and std::stoll as 64 bits, none where they throw.
pub record Regexes : Type 0 where
  pub search_insert : Text → Option InsertMatch
  pub search_create : Text → Option Place
  pub search_select : Text → Option Place
  pub search_update : Text → Option UpdateMatch
  pub search_equation : Text → Option (Text × Text)
  pub words : Text → List Text
  pub value_tokens : Text → List ValueToken
  pub assignments : Text → List (Text × Text)
  pub stod : Text → Option ℕ
  pub stoll : Text → Option ℕ

-- `undefined` is a call of `front` on an empty string.
pub data Parsed : Type 0 where
  statement : SqlStatement → Parsed
  no_statement undefined : Parsed

unfoldable pub to_upper_text : Text → Text
to_upper_text s = map to_upper s

-- The text of a group in the original.
unfoldable pub original_text : Text → Place → Text
original_text sql m = take m.length (drop m.position sql)

unfoldable pub has_dot : Text → Bool
has_dot [] = false
has_dot (c ∷ s) = (c == b'.') || has_dot s

abbrev pub value_or_text : (ℕ → Value) → Text → Option ℕ → Value
value_or_text number text none = string text
value_or_text number text (some n) = number n

abbrev pub no_schema : TableSchema
no_schema = record { name = []; columns = []; primary_key = []; options = [] }

abbrev pub statement_on : StatementType → Text → Text → SqlStatement
statement_on type table_name sql = record {
  type = type;
  table_name = table_name;
  columns = [];
  values = [];
  where_clause = [];
  table_schema = no_schema;
  raw_sql = sql;
}

-- The columns that every new table has.
abbrev pub default_columns : List Text
default_columns = ascii "id" ∷ ascii "name" ∷ ascii "email" ∷ []

abbrev plain_column : Text → DataType → Bool → Column
plain_column name type is_primary_key = record {
  name = name;
  type = type;
  nullable = false;
  is_primary_key = is_primary_key;
  default_value = no_default;
}

unfoldable pub created_schema : Text → TableSchema
created_schema name = record {
  name = name;
  columns =
      plain_column (ascii "id") DataType.int64 true
      ∷ plain_column (ascii "name") DataType.string false
      ∷ plain_column (ascii "email") DataType.string false
      ∷ [];
  primary_key = ascii "id" ∷ [];
  options = [];
}

unfoldable pub drop_blanks : Text → Text
drop_blanks [] = []
drop_blanks (c ∷ s) = let rest = drop_blanks s in if (c == b' ') || (c == 9) then rest else c ∷ s

-- `erase` up to the first and behind the last that is neither a space nor a tab.
unfoldable pub trim_blanks : Text → Text
unfolding drop_blanks
trim_blanks s = reverse (drop_blanks (reverse (drop_blanks s)))

unfoldable pub ends_in_quote : Text → Bool
ends_in_quote [] = false
ends_in_quote (c ∷ []) = c == 39
ends_in_quote (c ∷ d ∷ s) = ends_in_quote (d ∷ s)

-- `front() == '\'' && back() == '\''`; none for the empty text, where the code must not call `front`.
unfoldable pub is_quoted : Text → Option Bool
unfolding ends_in_quote
is_quoted [] = none
is_quoted (c ∷ s) = some ((c == 39) && ends_in_quote (c ∷ s))

-- `substr(1, length() - 2)`
unfoldable pub unquote : Text → Text
unquote s = take (length s - 2) (drop 1 s)

module _ (regexes : Regexes) where
  -- A number if std::stod or std::stoll reads one, else the text.
  unfoldable pub number_or_text : Text → Value
  unfolding has_dot
  number_or_text s =
      if has_dot s
      then value_or_text double s (regexes.stod s)
      else value_or_text int64 s (regexes.stoll s)

  unfoldable pub token_value : ValueToken → Value
  unfolding number_or_text
  token_value (quoted s) = string s
  token_value (unquoted s) = number_or_text s

  abbrev pub insert_columns : Option Text → List Text
  insert_columns none = default_columns
  insert_columns (some []) = default_columns
  insert_columns (some (c ∷ s)) = regexes.words (c ∷ s)

  -- The values are those of the original text, if the pattern is found there too.
  abbrev pub insert_values : Option InsertMatch → List Value
  insert_values none = []
  insert_values (some m) = map token_value (regexes.value_tokens m.value_list)

  unfoldable pub parse_insert : Text → InsertMatch → SqlStatement
  unfolding original_text
  parse_insert sql m = record (statement_on insert (original_text sql m.table) sql) {
    columns = insert_columns m.column_list;
    values = insert_values (regexes.search_insert sql);
  }

  abbrev pub assigned_value : Text → Option Bool → Option Value
  assigned_value s none = none
  assigned_value s (some true) = some (string (unquote s))
  assigned_value s (some false) = some (number_or_text s)

  abbrev pub and_values :
      Text → Option Value → Option (List Text × List Value) → Option (List Text × List Value)
  and_values column none rest = none
  and_values column (some v) none = none
  and_values column (some v) (some (columns, values)) = some (column ∷ columns, v ∷ values)

  unfoldable pub parse_assignments : List (Text × Text) → Option (List Text × List Value)
  unfolding trim_blanks is_quoted unquote number_or_text
  parse_assignments [] = some ([], [])
  parse_assignments ((column, text) ∷ rest) =
      let value = trim_blanks text in
      and_values column (assigned_value value (is_quoted value)) (parse_assignments rest)

  -- The assignments are those of the original text, if the pattern is found there too.
  abbrev pub update_assignments : Option UpdateMatch → Option (List Text × List Value)
  unfolding parse_assignments
  update_assignments none = some ([], [])
  update_assignments (some m) = parse_assignments (regexes.assignments m.set_clause)

  abbrev pub or_empty : Option Text → Text
  or_empty none = []
  or_empty (some s) = s

  abbrev pub with_assignments : Text → UpdateMatch → Option (List Text × List Value) → Parsed
  unfolding original_text
  with_assignments sql m none = undefined
  with_assignments sql m (some (columns, values)) =
      statement (record (statement_on update (original_text sql m.table) sql) {
        columns = columns;
        values = values;
        where_clause = or_empty m.where_clause;
      })

  abbrev pub parse_update : Text → Option UpdateMatch → Parsed
  unfolding with_assignments update_assignments
  parse_update sql none = no_statement
  parse_update sql (some m) =
      with_assignments sql m (update_assignments (regexes.search_update sql))

  abbrev pub parse_select : Text → Text → Option Place → Parsed
  unfolding parse_update
  parse_select sql upper_sql (some m) = statement (statement_on select (original_text sql m) sql)
  parse_select sql upper_sql none = parse_update sql (regexes.search_update upper_sql)

  abbrev pub parse_create : Text → Text → Option Place → Parsed
  unfolding parse_select created_schema
  parse_create sql upper_sql (some m) = statement (record (statement_on create_table [] sql) {
    table_schema = created_schema (original_text sql m);
  })
  parse_create sql upper_sql none = parse_select sql upper_sql (regexes.search_select upper_sql)

  abbrev pub parse_upper : Text → Text → Option InsertMatch → Parsed
  unfolding parse_create parse_insert
  parse_upper sql upper_sql (some m) = statement (parse_insert sql m)
  parse_upper sql upper_sql none = parse_create sql upper_sql (regexes.search_create upper_sql)

  -- The patterns are tried in this order on the text in upper case.
  unfoldable pub parse : Text → Parsed
  unfolding parse_upper to_upper_text
  parse sql =
      let upper_sql = to_upper_text sql in
      parse_upper sql upper_sql (regexes.search_insert upper_sql)
