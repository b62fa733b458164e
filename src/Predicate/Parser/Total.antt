-- ===== src/Predicate/Parser/Total.antt =====
-- `PredicateEvaluator::Parse` of src/changefeed/predicate_evaluator.cpp neither runs out of fuel nor
-- reads behind the last token.
use origindb.Prelude.{
  ℕ, zero, suc, ◌+◌, ◌*◌, ◌≤◌, ◌<◌, Bool, Text, List, [], ◌∷◌, ◌++◌, length, ascii, to_text, ◌==◌,
  arith, Option,
}
use origindb.Predicate.Tokens.{
  kw_or, kw_and, kw_not, lparen, end, Tokenized, tokens, tokenize_error, tokenize, Token, type_of,
  position_of,
}
use origindb.Predicate.Tree.{PredicateNode, or_node, and_node, not_node}
use origindb.Predicate.Parser.{
  ok, failed, type_code, peek, at_end, parse_expr, parse_or_loop, parse_term, parse_and_loop,
  parse_factor, parse_whole, parse_fuel, parse, parse_tokenized,
}
use origindb.Predicate.Lexing.{EndsWell, tokenize-EndsWell}
use origindb.Predicate.Parser.Clauses.{
  Ensures, returned, refused, Ensures-if, Ensures-bind, Ended, Below, match_type-Ensures,
  branch-Ensures, closing-Ensures, parse_comparison-Ensures,
}

module _ {D : Type 0} (regex_valid : Text → Bool) where
  -- The loops start behind an operand, so that fewer tokens than `n` are left already.
  mutual
    unfolding parse_expr

    parse_expr-Ensures :
        (f n : ℕ) (ts : List (Token D))
        → Ended ts
        → length ts ≤ n
        → 4 * length ts + 3 < f
        → Ensures (Below n) (parse_expr regex_valid f ts)
    parse_expr-Ensures zero n ts e h k = absurd (omega arith)
    parse_expr-Ensures (suc f) n ts e h k =
        Ensures-bind (parse_term-Ensures f (length ts) ts e (omega arith) (omega arith))
          λ (left, rest) (e', lt).
            parse_or_loop-Ensures f n left rest e' (omega arith) (omega arith)

    parse_or_loop-Ensures :
        (f n : ℕ) (left : PredicateNode D) (ts : List (Token D))
        → Ended ts
        → length ts < n
        → 4 * length ts < f
        → Ensures (Below n) (parse_or_loop regex_valid f left ts)
    parse_or_loop-Ensures zero n left ts e h k = absurd (omega arith)
    parse_or_loop-Ensures (suc f) n left ts e h k =
        Ensures-bind (match_type-Ensures kw_or ts (omega arith) e) λ (found, rest) (e', le, lt).
          branch-Ensures found _ _ rest
            (λ is_or.
              let shorter : length rest < length ts = lt is_or in
              Ensures-bind (parse_term-Ensures f (length rest) rest e' (omega arith) (omega arith))
                λ (right, last) (e'', lt').
                  parse_or_loop-Ensures f n (or_node left right) last e'' (omega arith)
                    (omega arith))
            (λ _. returned {a = (left, rest)} (e', omega arith))

    parse_term-Ensures :
        (f n : ℕ) (ts : List (Token D))
        → Ended ts
        → length ts ≤ n
        → 4 * length ts + 2 < f
        → Ensures (Below n) (parse_term regex_valid f ts)
    parse_term-Ensures zero n ts e h k = absurd (omega arith)
    parse_term-Ensures (suc f) n ts e h k =
        Ensures-bind (parse_factor-Ensures f (length ts) ts e (omega arith) (omega arith))
          λ (left, rest) (e', lt).
            parse_and_loop-Ensures f n left rest e' (omega arith) (omega arith)

    parse_and_loop-Ensures :
        (f n : ℕ) (left : PredicateNode D) (ts : List (Token D))
        → Ended ts
        → length ts < n
        → 4 * length ts < f
        → Ensures (Below n) (parse_and_loop regex_valid f left ts)
    parse_and_loop-Ensures zero n left ts e h k = absurd (omega arith)
    parse_and_loop-Ensures (suc f) n left ts e h k =
        Ensures-bind (match_type-Ensures kw_and ts (omega arith) e) λ (found, rest) (e', le, lt).
          branch-Ensures found _ _ rest
            (λ is_and.
              let shorter : length rest < length ts = lt is_and in
              Ensures-bind
                (parse_factor-Ensures f (length rest) rest e' (omega arith) (omega arith))
                λ (right, last) (e'', lt').
                  parse_and_loop-Ensures f n (and_node left right) last e'' (omega arith)
                    (omega arith))
            (λ _. returned {a = (left, rest)} (e', omega arith))

    parse_factor-Ensures :
        (f n : ℕ) (ts : List (Token D))
        → Ended ts
        → length ts ≤ n
        → 4 * length ts + 1 < f
        → Ensures (Below n) (parse_factor regex_valid f ts)
    parse_factor-Ensures zero n ts e h k = absurd (omega arith)
    parse_factor-Ensures (suc f) n ts e h k =
        Ensures-bind (match_type-Ensures lparen ts (omega arith) e) λ (opened, rest) (e', le, lt).
          branch-Ensures opened _ _ rest
            (λ is_open.
              let shorter : length rest < length ts = lt is_open in
              Ensures-bind (parse_expr-Ensures f (length rest) rest e' (omega arith) (omega arith))
                λ (expr, last) (e'', lt').
                  closing-Ensures regex_valid n expr last e'' (omega arith))
            λ _.
              Ensures-bind (match_type-Ensures kw_not rest (omega arith) e')
                λ (negated, last) (e'', le', lt').
                  branch-Ensures negated _ _ last
                    (λ is_not.
                      let shorter : length last < length rest = lt' is_not in
                      Ensures-bind
                        (parse_factor-Ensures f (length last) last e'' (omega arith) (omega arith))
                        λ (operand, behind) (k', b).
                          returned {a = (not_node operand, behind)} (k', omega arith))
                    (λ _. parse_comparison-Ensures regex_valid n last e'' (omega arith))

  at_end-Ensures :
      (expr : PredicateNode D) (rest : List (Token D))
      → Ended rest
      → Ensures (λ node. Unit {0}) (at_end regex_valid expr rest)
  unfolding at_end peek
  at_end-Ensures expr [] e = absurd e
  at_end-Ensures expr (t ∷ rest) e =
      Ensures-if (type_code (type_of t) == type_code end) {x = ok expr}
        {y = failed (ascii "Unexpected trailing input at position " ++ to_text (position_of t))}
        (λ _. returned tt) (λ _. refused)

  pub parse_whole-Ensures :
      (fuel : ℕ) (ts : List (Token D))
      → Ended ts
      → 4 * length ts + 3 < fuel
      → Ensures (λ node. Unit {0}) (parse_whole regex_valid fuel ts)
  unfolding parse_whole
  parse_whole-Ensures fuel ts e k =
      Ensures-bind (parse_expr-Ensures fuel (length ts) ts e (omega arith) k)
        λ (expr, rest) (e', lt). at_end-Ensures expr rest e'

  -- `PredicateEvaluator::Parse` returns a tree or an error message for every text: the two loops and the
  -- recursive descent end, and no token behind END is read.
  pub parse_total :
      (stod : Text → Option D) (zero_number : D) (where_clause : Text)
      → Ensures (λ node. Unit {0}) (parse regex_valid stod zero_number where_clause)
  unfolding parse
  parse_total stod zero_number where_clause =
      well (tokenize stod zero_number where_clause)
        (tokenize-EndsWell stod zero_number where_clause)
    where
      well :
          (r : Tokenized D)
          → EndsWell stod zero_number r
          → Ensures (λ node. Unit {0}) (parse_tokenized regex_valid r)
      well (tokens ts) e = parse_whole-Ensures (parse_fuel regex_valid ts) ts e (omega arith)
      well (tokenize_error error) e = refused
      well Tokenized.out_of_fuel e = absurd e
