-- ===== src/Predicate/Parser/Clauses.antt =====
-- The parser of src/changefeed/predicate_evaluator.cpp reads the comparisons without going behind
-- the last token, END.
use origindb.Prelude.{
  ℕ, ◌≤◌, ◌<◌, ◌≡◌, ◌≢◌, refl, Bool, true, false, Text, List, [], ◌∷◌, ◌++◌, length, ascii, ◌==◌,
  if◌then◌else◌, arith, Option, none, some,
}
use origindb.Predicate.Tokens.{
  TokenType, ident, string, kw_not, kw_null, kw_is, kw_like, rparen, end, Token, type_of, text_of,
  number_of,
}
use origindb.Predicate.Tree.{Op, Literal, PredicateNode, comparison, like, like_pattern_to_regex}
use origindb.Predicate.Parser.{
  Parsed, ok, failed, bind, type_code, op_of, literal_of, Parser, peek, advance, match_type, fail,
  is_clause, with_literal, with_operator, compiled, like_clause, test_clause, parse_comparison,
  closing,
}

-- The run returned a value of which `P` returned, or an error message.
pub data Ensures {A : Type 0} (P : A → Type 0) : Parsed A → Type 0 where
  returned : {a : A} → P a → Ensures P (ok a)
  refused : {e : Text} → Ensures P (failed e)

module _ {A : Type 0} {P : A → Type 0} where
  pub Ensures-if :
      (b : Bool) {x y : Parsed A}
      → (b ≡ true → Ensures P x)
      → (b ≡ false → Ensures P y)
      → Ensures P (if b then x else y)
  Ensures-if true hx hy = hx refl
  Ensures-if false hx hy = hy refl

  pub Ensures-bind :
      {B : Type 0} {Q : B → Type 0} {parsed : Parsed A} {next : A → Parsed B}
      → Ensures P parsed
      → ((value : A) → P value → Ensures Q (next value))
      → Ensures Q (bind parsed next)
  Ensures-bind (returned {a} h) k = k a h
  Ensures-bind refused k = refused

op_of-lt : (type : TokenType) (op : Op) → op_of type ≡ some op → type_code type ≢ 19
op_of-lt end op h = cc
op_of-lt _ op h = omega arith

module _ {D : Type 0} where
  -- The last token is END.
  abbrev pub Ended : List (Token D) → Type 0
  Ended [] = ⊥
  Ended (t ∷ []) = type_code (type_of t) ≡ 19
  Ended (t ∷ u ∷ ts) = Ended (u ∷ ts)

  Ended-tail :
      (t : Token D) (ts : List (Token D)) → type_code (type_of t) ≢ 19 → Ended (t ∷ ts) → Ended ts
  Ended-tail t [] h e = h e
  Ended-tail t (u ∷ ts) h e = e

  -- Fewer than `n` tokens are left, with END the last.
  abbrev pub Below : {A : Type 0} → ℕ → A × List (Token D) → Type 0
  Below n (a, rest) = Ended rest × (length rest < n)

  fail-Ensures :
      {A : Type 0} {P : A × List (Token D) → Type 0} (message : Text) (ts : List (Token D))
      → Ended ts
      → Ensures P (fail message ts)
  unfolding fail
  fail-Ensures message [] e = absurd e
  fail-Ensures message (t ∷ ts) e = refused

  -- A match of another type than END, which leaves fewer tokens where it succeeds.
  abbrev pub Matched : ℕ → Bool × List (Token D) → Type 0
  Matched n (b, rest) = Ended rest × (length rest ≤ n) × (b ≡ true → length rest < n)

  pub match_type-Ensures :
      (type : TokenType) (ts : List (Token D))
      → type_code type < 19
      → Ended ts
      → Ensures (Matched (length ts)) (match_type type ts)
  unfolding match_type
  match_type-Ensures type [] h e = absurd e
  match_type-Ensures type (t ∷ ts) h e =
      Ensures-if (type_code (type_of t) == type_code type)
        (λ same. returned (Ended-tail t ts (ground arith) e, omega arith, λ _. omega arith))
        (λ _. returned (e, omega arith, λ b. cc))

  pub branch-Ensures :
      {A : Type 0} {P : A × List (Token D) → Type 0} (b : Bool) (p q : Parser D A)
      (ts : List (Token D))
      → (b ≡ true → Ensures P (p ts))
      → (b ≡ false → Ensures P (q ts))
      → Ensures P ((if b then p else q) ts)
  branch-Ensures true p q ts hp hq = hp refl
  branch-Ensures false p q ts hp hq = hq refl

  is_clause-Ensures :
      (n : ℕ) (column : Text) (ts : List (Token D))
      → Ended ts
      → length ts < n
      → Ensures (Below n) (is_clause column ts)
  unfolding is_clause
  is_clause-Ensures n column ts e h =
      Ensures-bind (match_type-Ensures kw_not ts (omega arith) e) λ (negated, rest) (e', le, lt).
        Ensures-bind (match_type-Ensures kw_null rest (omega arith) e')
          λ (closed, last) (e'', le', lt').
            branch-Ensures closed _ _ last (λ _. returned (e'', omega arith))
              (λ _. fail-Ensures (ascii "Expected NULL after IS") last e'')

  literal_of-lt :
      (type : TokenType) (text : Text) (value : D) (l : Literal D)
      → literal_of type text value ≡ some l
      → type_code type ≢ 19
  literal_of-lt end text value l h = cc
  literal_of-lt _ text value l h = omega arith

  with_literal-Ensures :
      (n : ℕ) (column : Text) (op : Op) (t : Token D) (ts : List (Token D)) (l : Option (Literal D))
      → literal_of (type_of t) (text_of t) (number_of t) ≡ l
      → Ended (t ∷ ts)
      → length (t ∷ ts) < n
      → Ensures (Below n) (with_literal column op l (t ∷ ts))
  unfolding with_literal advance
  with_literal-Ensures n column op t ts none h e b =
      fail-Ensures (ascii "Expected literal after comparison operator") (t ∷ ts) e
  with_literal-Ensures n column op t ts (some l) h e b =
      returned {a = (comparison column op l, ts)}
        (Ended-tail t ts (literal_of-lt _ _ _ l h) e, omega arith)

  with_operator-Ensures :
      (n : ℕ) (column : Text) (t : Token D) (ts : List (Token D)) (op : Option Op)
      → op_of (type_of t) ≡ op
      → Ended (t ∷ ts)
      → length (t ∷ ts) < n
      → Ensures (Below n) (with_operator column op (t ∷ ts))
  unfolding with_operator peek advance
  with_operator-Ensures n column t ts none h e b =
      fail-Ensures (ascii "Expected comparison operator") (t ∷ ts) e
  with_operator-Ensures n column t [] (some op) h e b = absurd (op_of-lt (type_of t) op h e)
  with_operator-Ensures n column t (u ∷ ts) (some op) h e b =
      with_literal-Ensures n column op u ts _ refl e (omega arith)

module _ {D : Type 0} (regex_valid : Text → Bool) where
  compiled-Ensures :
      (n : ℕ) (column pattern : Text) (ts : List (Token D))
      → Ended ts
      → length ts < n
      → Ensures (Below n) (compiled regex_valid column pattern ts)
  unfolding compiled
  compiled-Ensures n column pattern ts e h =
      let regex = like_pattern_to_regex pattern in
      branch-Ensures (regex_valid regex) _ _ ts (λ _. returned {a = (like column regex, ts)} (e, h))
        (λ _. fail-Ensures (ascii "Invalid LIKE pattern '" ++ pattern ++ ascii "'") ts e)

  like_clause-Ensures :
      (n : ℕ) (column : Text) (ts : List (Token D))
      → Ended ts
      → length ts < n
      → Ensures (Below n) (like_clause regex_valid column ts)
  unfolding like_clause peek advance
  like_clause-Ensures n column [] e h = absurd e
  like_clause-Ensures n column (t ∷ ts) e h =
      branch-Ensures (type_code (type_of t) == type_code string) _ _ (t ∷ ts)
        (λ is_string.
          let e' : Ended ts = Ended-tail t ts (ground arith) e in
          compiled-Ensures n column (text_of t) ts e' (omega arith))
        (λ _. fail-Ensures (ascii "Expected string pattern after LIKE") (t ∷ ts) e)

  test_clause-Ensures :
      (n : ℕ) (column : Text) (ts : List (Token D))
      → Ended ts
      → length ts < n
      → Ensures (Below n) (test_clause regex_valid column ts)
  unfolding test_clause peek
  test_clause-Ensures n column ts e h =
      Ensures-bind (match_type-Ensures kw_is ts (omega arith) e) λ (b, rest) (e', le, lt).
        branch-Ensures b _ _ rest (λ _. is_clause-Ensures n column rest e' (omega arith))
          λ _.
            Ensures-bind (match_type-Ensures kw_like rest (omega arith) e')
              λ (b', last) (e'', le', lt').
                branch-Ensures b' _ _ last
                  (λ _. like_clause-Ensures n column last e'' (omega arith))
                  λ _. operator_at last e'' (omega arith)
    where
      operator_at :
          (last : List (Token D))
          → Ended last
          → length last < n
          → Ensures
              (Below n)
              (bind (peek last) λ (o, same). with_operator column (op_of (type_of o)) same)
      operator_at [] k b = absurd k
      operator_at (o ∷ last) k b = with_operator-Ensures n column o last _ refl k b

  pub parse_comparison-Ensures :
      (n : ℕ) (ts : List (Token D))
      → Ended ts
      → length ts ≤ n
      → Ensures (Below n) (parse_comparison regex_valid ts)
  unfolding parse_comparison peek advance
  parse_comparison-Ensures n [] e h = absurd e
  parse_comparison-Ensures n (t ∷ ts) e h =
      branch-Ensures (type_code (type_of t) == type_code ident) _ _ (t ∷ ts)
        (λ is_ident.
          test_clause-Ensures n (text_of t) ts (Ended-tail t ts (ground arith) e) (omega arith))
        (λ _. fail-Ensures (ascii "Expected column name") (t ∷ ts) e)

  pub closing-Ensures :
      (n : ℕ) (expr : PredicateNode D) (ts : List (Token D))
      → Ended ts
      → length ts < n
      → Ensures (Below n) (closing regex_valid expr ts)
  unfolding closing
  closing-Ensures n expr ts e h =
      Ensures-bind (match_type-Ensures rparen ts (omega arith) e) λ (closed, rest) (e', le, lt).
        branch-Ensures closed _ _ rest (λ _. returned {a = (expr, rest)} (e', omega arith))
          (λ _. fail-Ensures (ascii "Expected ')'") rest e')
