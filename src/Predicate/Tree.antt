-- ===== src/Predicate/Tree.antt =====
-- src/changefeed/predicate_evaluator.cpp: `PredicateNode`, the regular expression of a LIKE pattern,
-- and `EvaluateNode`. A compiled regular expression is represented by its text. The JSON values of
-- nlohmann::json are a parameter, with the queries that the evaluator makes, and so are the doubles,
-- of type `D`, with the operators of their comparison.
use origindb.Prelude.{
  ℕ, Bool, true, false, not, ◌&&◌, ◌||◌, Option, none, some, Text, [], ◌∷◌, ◌==◌, if◌then◌else◌,
  ascii, text_eq, text_ltb,
}

pub data Op : Type 0 where
  eq ne lt le gt ge : Op

-- The literal's type and value.
pub data Literal (D : Type 0) : Type 0 where
  string_value : Text → Literal D
  number_value : D → Literal D
  bool_value : Bool → Literal D
  null_value : Literal D

pub data PredicateNode (D : Type 0) : Type 0 where
  or_node and_node : PredicateNode D → PredicateNode D → PredicateNode D
  not_node : PredicateNode D → PredicateNode D
  -- the column, the operator and the literal
  comparison : Text → Op → Literal D → PredicateNode D
  -- the column and the regular expression
  like : Text → Text → PredicateNode D
  -- the column; true for IS NOT NULL
  is_null : Text → Bool → PredicateNode D

abbrev pub is_regex_special : ℕ → Bool
is_regex_special c = one_of (ascii "\\^$.|?*+()[]{}")
  where
    one_of : Text → Bool
    one_of [] = false
    one_of (k ∷ ks) = (k == c) || one_of ks

unfoldable pub like_pattern_to_regex : Text → Text
like_pattern_to_regex [] = []
like_pattern_to_regex (c ∷ pattern) =
    let rest = like_pattern_to_regex pattern in
    if c == b'%'
    then b'.' ∷ b'*' ∷ rest
    else if c == b'_'
    then b'.' ∷ rest
    else if is_regex_special c
    then b'\\' ∷ c ∷ rest
    else c ∷ rest

-- The comparison operators of a C++ type.
pub record Comparable (T : Type 0) : Type 0 where
  pub equal : T → T → Bool
  pub unequal : T → T → Bool
  pub less : T → T → Bool
  pub less_or_equal : T → T → Bool

-- What a program asks of a JSON value. `find` looks a member of an object up; the others are the value
-- where it has the type.
pub record JsonView (J D : Type 0) : Type 0 where
  pub is_object : J → Bool
  pub find : Text → J → Option J
  pub is_null : J → Bool
  pub as_number : J → Option D
  pub as_string : J → Option Text
  pub as_bool : J → Option Bool

abbrev pub text_comparable : Comparable Text
text_comparable = record {
  equal = text_eq;
  unequal = λ a b. not (text_eq a b);
  less = text_ltb;
  less_or_equal = λ a b. not (text_ltb b a);
}

abbrev same_bool : Bool → Bool → Bool
same_bool true b = b
same_bool false b = not b

-- `a > b` and `a >= b` are those of the swapped operands.
unfoldable pub compare_ordered : {T : Type 0} → Comparable T → Op → T → T → Bool
compare_ordered C eq lhs rhs = C.equal lhs rhs
compare_ordered C ne lhs rhs = C.unequal lhs rhs
compare_ordered C lt lhs rhs = C.less lhs rhs
compare_ordered C le lhs rhs = C.less_or_equal lhs rhs
compare_ordered C gt lhs rhs = C.less rhs lhs
compare_ordered C ge lhs rhs = C.less_or_equal rhs lhs

unfoldable pub compare_bool : Op → Bool → Bool → Bool
compare_bool eq lhs rhs = same_bool lhs rhs
compare_bool ne lhs rhs = not (same_bool lhs rhs)
compare_bool _ lhs rhs = false

module _ {J D : Type 0} (json : JsonView J D) (doubles : Comparable D) where
  abbrev or_false : {T : Type 0} → Option T → (T → Bool) → Bool
  or_false none f = false
  or_false (some a) f = f a

  -- The value of a column that is there and not null, against the literal.
  unfoldable pub compare_value : Op → Literal D → J → Bool
  unfolding compare_ordered compare_bool
  compare_value op (string_value s) value =
      or_false (json.as_string value) λ v. compare_ordered text_comparable op v s
  compare_value op (number_value n) value =
      or_false (json.as_number value) λ v. compare_ordered doubles op v n
  compare_value op (bool_value b) value = or_false (json.as_bool value) λ v. compare_bool op v b
  compare_value op null_value value = false

  unfoldable pub evaluate_comparison : Text → Op → Literal D → J → Bool
  unfolding compare_value
  evaluate_comparison column op literal row =
      or_false (json.find column row)
        λ value. if json.is_null value then false else compare_value op literal value

  abbrev missing_or_null : Option J → Bool
  missing_or_null none = true
  missing_or_null (some value) = json.is_null value

  -- `regex_match text regex` is `std::regex_match`.
  module _ (regex_match : Text → Text → Bool) where
    unfoldable pub evaluate_node : PredicateNode D → J → Bool
    unfolding evaluate_comparison
    evaluate_node (or_node left right) row = evaluate_node left row || evaluate_node right row
    evaluate_node (and_node left right) row = evaluate_node left row && evaluate_node right row
    evaluate_node (not_node left) row = not (evaluate_node left row)
    evaluate_node (comparison column op literal) row = evaluate_comparison column op literal row
    evaluate_node (like column regex) row =
        or_false (json.find column row)
          λ value. or_false (json.as_string value) λ text. regex_match text regex
    evaluate_node (is_null column negated) row =
        let null = missing_or_null (json.find column row) in if negated then not null else null

    unfoldable pub evaluate : PredicateNode D → J → Bool
    unfolding evaluate_node
    evaluate root row = if json.is_object row then evaluate_node root row else false
