-- ===== src/Predicate/Tests.antt =====
-- Runs of the predicate evaluator.
use origindb.Prelude.{ℕ, ◌≡◌, refl, Bool, true, Option, some, Text, ascii, length, text_eq, to_text}
use origindb.Predicate.Tokens.{
  lex, lex_word, lex_number, lex_string, lex_operator, number_text, string_body,
}
use origindb.Predicate.Tree.{
  PredicateNode, or_node, and_node, not_node, comparison, is_null, string_value, number_value, Op,
}
use origindb.Predicate.Parser.Clauses.{Ensures}
use origindb.Predicate.Parser.Total.{parse_total}
use origindb.Predicate.Parser.{
  Parsed, ok, failed, parse, match_type, fail, closing, parse_comparison,
}

-- Doubles that are their texts' lengths.
stod : Text → Option ℕ
stod s = some (length s)

all_valid : Text → Bool
all_valid s = true

run : Text → Parsed (PredicateNode ℕ)
unfolding parse lex lex_word lex_number lex_string lex_operator number_text string_body stod
    all_valid match_type fail closing parse_comparison text_eq to_text
run = parse all_valid stod 0

precedence :
    run (ascii "a = 1 or b<>'it''s' AND NOT c is not null")
    ≡ ok (
        or_node (comparison (ascii "a") Op.eq (number_value 1)) (
          and_node
            (comparison (ascii "b") Op.ne (string_value (ascii "it's")))
            (not_node (is_null (ascii "c") true))))
unfolding run
precedence = refl

trailing : run (ascii "(a like 'x%') b") ≡ failed (ascii "Unexpected trailing input at position 14")
unfolding run
trailing = refl

lone_point : run (ascii "a = 1.") ≡ failed (ascii "Malformed number at position 4")
unfolding run
lone_point = refl

parse_total_example :
    Ensures
      (λ (node : PredicateNode ℕ). Unit {0})
      (parse all_valid stod 0 (ascii "age >= 3 and (name"))
parse_total_example = parse_total all_valid stod 0 (ascii "age >= 3 and (name")
