-- ===== src/Predicate/Parser.antt =====
-- src/changefeed/predicate_evaluator.cpp: the recursive-descent parser. A parser reads the tokens from
-- the current index on and returns those that are left. Each failure returns at once, so that the
-- first message is the one that is kept.
pub mod Clauses
pub mod Total
use origindb.Prelude.{
  ℕ, zero, suc, ◌+◌, ◌*◌, Bool, true, false, Text, List, [], ◌∷◌, ◌++◌, length, ◌==◌, if◌then◌else◌,
  ascii, to_text, Option, none, some,
}
use origindb.Predicate.Tokens.{
  TokenType, ident, string, number, kw_and, kw_or, kw_not, kw_like, kw_is, kw_null, kw_true,
  kw_false, lparen, rparen, end, Token, token, Tokenized, tokens, tokenize_error, tokenize, type_of,
  text_of, number_of, position_of,
}
use origindb.Predicate.Tree.{
  Op, Literal, string_value, number_value, bool_value, null_value, PredicateNode, or_node, and_node,
  not_node, comparison, like, is_null, like_pattern_to_regex,
}

-- `out_of_range` is a read behind the last token, which the code does not check for; the fuel has
-- no counterpart in the code.
pub data Parsed (A : Type 0) : Type 0 where
  ok : A → Parsed A
  failed : Text → Parsed A
  out_of_range out_of_fuel : Parsed A

abbrev pub bind : {A B : Type 0} → Parsed A → (A → Parsed B) → Parsed B
bind (ok a) f = f a
bind (failed e) f = failed e
bind out_of_range f = out_of_range
bind out_of_fuel f = out_of_fuel

-- The value of a token's type.
abbrev pub type_code : TokenType → ℕ
type_code ident = 0
type_code string = 1
type_code number = 2
type_code kw_and = 3
type_code kw_or = 4
type_code kw_not = 5
type_code kw_like = 6
type_code kw_is = 7
type_code kw_null = 8
type_code kw_true = 9
type_code kw_false = 10
type_code TokenType.eq = 11
type_code TokenType.ne = 12
type_code TokenType.lt = 13
type_code TokenType.le = 14
type_code TokenType.gt = 15
type_code TokenType.ge = 16
type_code lparen = 17
type_code rparen = 18
type_code end = 19

abbrev pub op_of : TokenType → Option Op
op_of TokenType.eq = some Op.eq
op_of TokenType.ne = some Op.ne
op_of TokenType.lt = some Op.lt
op_of TokenType.le = some Op.le
op_of TokenType.gt = some Op.gt
op_of TokenType.ge = some Op.ge
op_of _ = none

abbrev pub Parser : Type 0 → Type 0 → Type 0
Parser D A = List (Token D) → Parsed (A × List (Token D))

module _ {D : Type 0} where
  abbrev pub literal_of : TokenType → Text → D → Option (Literal D)
  literal_of string text value = some (string_value text)
  literal_of number text value = some (number_value value)
  literal_of kw_true text value = some (bool_value true)
  literal_of kw_false text value = some (bool_value false)
  literal_of kw_null text value = some null_value
  literal_of _ text value = none

  abbrev pure : {A : Type 0} → A → Parser D A
  pure a ts = ok (a, ts)

  infixl 1 ◌>>=◌
  abbrev ◌>>=◌ : {A B : Type 0} → Parser D A → (A → Parser D B) → Parser D B
  p >>= f = λ ts. bind (p ts) λ (a, rest). f a rest

  unfoldable pub peek : Parser D (Token D)
  peek [] = out_of_range
  peek (t ∷ ts) = ok (t, t ∷ ts)

  unfoldable pub advance : Parser D (Token D)
  advance [] = out_of_range
  advance (t ∷ ts) = ok (t, ts)

  unfoldable pub match_type : TokenType → Parser D Bool
  match_type type [] = out_of_range
  match_type type (t ∷ ts) =
      if type_code (type_of t) == type_code type then ok (true, ts) else ok (false, t ∷ ts)

  unfoldable pub fail : {A : Type 0} → Text → Parser D A
  fail message [] = out_of_range
  fail message (t ∷ ts) = failed (message ++ ascii " at position " ++ to_text (position_of t))

  unfoldable pub is_clause : Text → Parser D (PredicateNode D)
  unfolding match_type fail
  is_clause column = do
    negated ← match_type kw_not
    closed ← match_type kw_null
    if closed then pure (is_null column negated) else fail (ascii "Expected NULL after IS")

  abbrev with_literal : Text → Op → Option (Literal D) → Parser D (PredicateNode D)
  unfolding advance fail
  with_literal column op none = fail (ascii "Expected literal after comparison operator")
  with_literal column op (some literal) = advance >>= λ t. pure (comparison column op literal)

  abbrev with_operator : Text → Option Op → Parser D (PredicateNode D)
  unfolding peek advance fail
  with_operator column none = fail (ascii "Expected comparison operator")
  with_operator column (some op) = do
    operator ← advance
    t ← peek
    with_literal column op (literal_of (type_of t) (text_of t) (number_of t))

-- Whether the constructor of `std::regex` accepts a text, else it throws.
module _ {D : Type 0} (regex_valid : Text → Bool) where
  abbrev compiled : Text → Text → Parser D (PredicateNode D)
  unfolding fail
  compiled column pattern =
      if regex_valid (like_pattern_to_regex pattern)
      then pure (like column (like_pattern_to_regex pattern))
      else fail (ascii "Invalid LIKE pattern '" ++ pattern ++ ascii "'")

  unfoldable pub like_clause : Text → Parser D (PredicateNode D)
  unfolding peek advance fail compiled
  like_clause column = peek >>= λ t.
      if type_code (type_of t) == type_code string
      then (advance >>= λ pattern. compiled column (text_of pattern))
      else fail (ascii "Expected string pattern after LIKE")

  -- What follows the column's name.
  unfoldable pub test_clause : Text → Parser D (PredicateNode D)
  unfolding peek match_type is_clause like_clause with_operator
  test_clause column = match_type kw_is >>= λ is_test.
      if is_test
      then is_clause column
      else (match_type kw_like >>= λ like_test.
          if like_test
          then like_clause column
          else (peek >>= λ o. with_operator column (op_of (type_of o))))

  unfoldable pub parse_comparison : Parser D (PredicateNode D)
  unfolding peek advance fail test_clause
  parse_comparison = peek >>= λ t.
      if type_code (type_of t) == type_code ident
      then (advance >>= λ column. test_clause (text_of column))
      else fail (ascii "Expected column name")

  unfoldable pub closing : PredicateNode D → Parser D (PredicateNode D)
  unfolding match_type fail
  closing expr =
      match_type rparen >>= λ closed. if closed then pure expr else fail (ascii "Expected ')'")

  unfoldable mutual
    pub parse_expr : ℕ → Parser D (PredicateNode D)
    parse_expr zero = λ ts. out_of_fuel
    parse_expr (suc f) = parse_term f >>= parse_or_loop f

    pub parse_or_loop : ℕ → PredicateNode D → Parser D (PredicateNode D)
    parse_or_loop zero left = λ ts. out_of_fuel
    parse_or_loop (suc f) left =
        let next = parse_term f >>= λ right. parse_or_loop f (or_node left right) in
        match_type kw_or >>= λ found. if found then next else pure left

    pub parse_term : ℕ → Parser D (PredicateNode D)
    parse_term zero = λ ts. out_of_fuel
    parse_term (suc f) = parse_factor f >>= parse_and_loop f

    pub parse_and_loop : ℕ → PredicateNode D → Parser D (PredicateNode D)
    parse_and_loop zero left = λ ts. out_of_fuel
    parse_and_loop (suc f) left =
        let next = parse_factor f >>= λ right. parse_and_loop f (and_node left right) in
        match_type kw_and >>= λ found. if found then next else pure left

    pub parse_factor : ℕ → Parser D (PredicateNode D)
    parse_factor zero = λ ts. out_of_fuel
    parse_factor (suc f) =
        let inner = parse_expr f >>= λ expr. closing expr in
        let operand = parse_factor f >>= λ node. pure (not_node node) in
        match_type lparen >>= λ opened.
        if opened
        then inner
        else (match_type kw_not >>= λ negated. if negated then operand else parse_comparison)

  unfoldable pub at_end : PredicateNode D → List (Token D) → Parsed (PredicateNode D)
  unfolding peek
  at_end expr rest = bind (peek rest) λ (t, same).
      if type_code (type_of t) == type_code end
      then ok expr
      else failed (ascii "Unexpected trailing input at position " ++ to_text (position_of t))

  -- `Parser::Parse`, which refuses input behind the expression.
  unfoldable pub parse_whole : ℕ → List (Token D) → Parsed (PredicateNode D)
  unfolding parse_expr at_end
  parse_whole fuel ts = bind (parse_expr fuel ts) λ (expr, rest). at_end expr rest

  abbrev parse_fuel : List (Token D) → ℕ
  parse_fuel ts = 4 * length ts + 4

  abbrev parse_tokenized : Tokenized D → Parsed (PredicateNode D)
  unfolding parse_whole
  parse_tokenized (tokens ts) = parse_whole (parse_fuel ts) ts
  parse_tokenized (tokenize_error error) = failed error
  parse_tokenized Tokenized.out_of_fuel = Parsed.out_of_fuel

  module _ (stod : Text → Option D) (zero_number : D) where
    -- `PredicateEvaluator::Parse`.
    unfoldable pub parse : Text → Parsed (PredicateNode D)
    unfolding tokenize parse_tokenized
    parse where_clause = parse_tokenized (tokenize stod zero_number where_clause)
