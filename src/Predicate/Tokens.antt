-- ===== src/Predicate/Tokens.antt =====
-- src/changefeed/predicate_evaluator.cpp: `Tokenize`. A token's number is a double, of type `D`, that
-- `std::stod` reads, or fails to. Positions are offsets into the input.
use origindb.Prelude.{
  ℕ, zero, suc, ◌+◌, Bool, true, false, ◌&&◌, ◌||◌, Option, none, some, Text, List, [], ◌∷◌, ◌++◌,
  length, drop, map, ◌==◌, if◌then◌else◌, ascii, to_text, text_eq, is_digit, is_alpha, is_space,
  to_lower, take_while,
}

pub data TokenType : Type 0 where
  ident string number : TokenType
  kw_and kw_or kw_not kw_like kw_is kw_null kw_true kw_false : TokenType
  eq ne lt le gt ge : TokenType
  lparen rparen : TokenType
  end : TokenType

-- The fields are the type, the text, the number and the position.
pub data Token (D : Type 0) : Type 0 where
  token : TokenType → Text → D → ℕ → Token D

-- What one round of the loop does: it skips a character, pushes a token and moves on by a number of
-- characters, or returns an error.
pub data Lexeme (D : Type 0) : Type 0 where
  blank : Lexeme D
  pushed : Token D → ℕ → Lexeme D
  bad : Text → Lexeme D

pub data Tokenized (D : Type 0) : Type 0 where
  tokens : List (Token D) → Tokenized D
  tokenize_error : Text → Tokenized D
  out_of_fuel : Tokenized D

abbrev pub quote : ℕ
quote = 39

unfoldable pub to_lower_ascii : Text → Text
unfolding to_lower
to_lower_ascii word = map to_lower word

unfoldable pub keyword_or_ident : Text → TokenType
unfolding to_lower_ascii
keyword_or_ident word =
    let lower = to_lower_ascii word in
    if text_eq lower (ascii "and")
    then kw_and
    else if text_eq lower (ascii "or")
    then kw_or
    else if text_eq lower (ascii "not")
    then kw_not
    else if text_eq lower (ascii "like")
    then kw_like
    else if text_eq lower (ascii "is")
    then kw_is
    else if text_eq lower (ascii "null")
    then kw_null
    else if text_eq lower (ascii "true")
    then kw_true
    else if text_eq lower (ascii "false")
    then kw_false
    else ident

unfoldable pub is_word_char : ℕ → Bool
unfolding is_alpha is_digit
is_word_char c = (is_alpha c || is_digit c) || (c == b'_')

abbrev pub starts_with_char : ℕ → Text → Bool
starts_with_char k [] = false
starts_with_char k (c ∷ s) = c == k

abbrev pub starts_with_digit : Text → Bool
unfolding is_digit
starts_with_digit [] = false
starts_with_digit (c ∷ s) = is_digit c

abbrev pub starts_with_point : Text → Bool
unfolding is_digit
starts_with_point [] = false
starts_with_point (c ∷ s) = (c == b'.') && starts_with_digit s

unfoldable pub starts_number : ℕ → Text → Bool
unfolding is_digit
starts_number c s =
    (is_digit c || ((c == b'.') && starts_with_digit s))
    || (((c == b'+') || (c == b'-')) && (starts_with_digit s || starts_with_point s))

abbrev at_position : ℕ → Text
at_position start = ascii " at position " ++ to_text start

abbrev is_empty : Text → Bool
is_empty [] = true
is_empty (c ∷ s) = false

abbrev extend : ℕ → ℕ → Option (Text × ℕ) → Option (Text × ℕ)
extend k n none = none
extend k n (some (value, m)) = some (k ∷ value, n + m)

-- The contents of a literal and the number of characters up to its closing quote; none where it
-- is not closed.
unfoldable pub string_body : Text → Option (Text × ℕ)
string_body [] = none
string_body (c ∷ []) = if c == quote then some ([], 1) else none
string_body (c ∷ d ∷ s) =
    let escaped = string_body s in
    let onward = string_body (d ∷ s) in
    if c == quote
    then if d == quote then extend quote 2 escaped else some ([], 1)
    else extend c 1 onward

abbrev pub sign_of : Text → Text
sign_of [] = []
sign_of (c ∷ s) = if (c == b'+') || (c == b'-') then c ∷ [] else []

-- The number whose sign and digits are `front`, with `back` behind them; none where a point is
-- there and no digit follows it.
unfoldable pub with_fraction : Text → Text → Option Text
unfolding take_while is_digit
with_fraction front back =
    let fraction = take_while is_digit (drop 1 back) in
    if starts_with_char b'.' back
    then if is_empty fraction then none else some (front ++ b'.' ∷ fraction)
    else some front

unfoldable pub number_text : Text → Option Text
unfolding take_while is_digit with_fraction
number_text s =
    let sign = sign_of s in
    let unsigned = drop (length sign) s in
    let whole = take_while is_digit unsigned in
    with_fraction (sign ++ whole) (drop (length whole) unsigned)

module _ {D : Type 0} where
  abbrev pub type_of : Token D → TokenType
  type_of (token type text value pos) = type

  abbrev pub text_of : Token D → Text
  text_of (token type text value pos) = text

  abbrev pub number_of : Token D → D
  number_of (token type text value pos) = value

  abbrev pub position_of : Token D → ℕ
  position_of (token type text value pos) = pos

-- `stod` is `std::stod`, and `zero_number` is 0.0.
module _ {D : Type 0} (stod : Text → Option D) (zero_number : D) where
  unfoldable pub lex_word : ℕ → Text → Lexeme D
  unfolding keyword_or_ident is_word_char take_while
  lex_word start s =
      let word = take_while is_word_char s in
      pushed (token (keyword_or_ident word) word zero_number start) (length word)

  abbrev pub converted : ℕ → Text → Option D → Lexeme D
  converted start num_str none =
      bad (ascii "Malformed number '" ++ num_str ++ ascii "'" ++ at_position start)
  converted start num_str (some value) = pushed (token number num_str value start) (length num_str)

  abbrev pub numeral : ℕ → Option Text → Lexeme D
  numeral start none = bad (ascii "Malformed number" ++ at_position start)
  numeral start (some num_str) = converted start num_str (stod num_str)

  unfoldable pub lex_number : ℕ → Text → Lexeme D
  lex_number start s = numeral start (number_text s)

  abbrev pub literal : ℕ → Option (Text × ℕ) → Lexeme D
  literal start none = bad (ascii "Unterminated string literal" ++ at_position start)
  literal start (some (value, n)) = pushed (token string value zero_number start) (suc n)

  -- `s` is what follows the opening quote.
  unfoldable pub lex_string : ℕ → Text → Lexeme D
  lex_string start s = literal start (string_body s)

  abbrev symbol : TokenType → Text → ℕ → Lexeme D
  symbol type text start = pushed (token type text zero_number start) (length text)

  unfoldable pub lex_operator : ℕ → ℕ → Text → Lexeme D
  lex_operator start c s =
      if c == b'='
      then symbol eq (ascii "=") start
      else if c == b'!'
      then if starts_with_char b'=' s
        then symbol ne (ascii "!=") start
        else bad (ascii "Unexpected character '!'" ++ at_position start)
      else if c == b'<'
      then if starts_with_char b'=' s
        then symbol le (ascii "<=") start
        else if starts_with_char b'>' s
        then symbol ne (ascii "<>") start
        else symbol lt (ascii "<") start
      else if c == b'>'
      then if starts_with_char b'=' s
        then symbol ge (ascii ">=") start
        else symbol gt (ascii ">") start
      else if c == b'('
      then symbol lparen (ascii "(") start
      else if c == b')'
      then symbol rparen (ascii ")") start
      else bad (ascii "Unexpected character '" ++ c ∷ ascii "'" ++ at_position start)

  -- The body of the loop at the character `c`, with `s` behind it.
  unfoldable pub lex : ℕ → ℕ → Text → Lexeme D
  unfolding is_space is_alpha starts_number
  lex start c s =
      if is_space c
      then blank
      else if is_alpha c || (c == b'_')
      then lex_word start (c ∷ s)
      else if starts_number c s
      then lex_number start (c ∷ s)
      else if c == quote
      then lex_string start s
      else lex_operator start c s

  abbrev pub pushed_before : Token D → Tokenized D → Tokenized D
  pushed_before t (tokens ts) = tokens (t ∷ ts)
  pushed_before t (tokenize_error e) = tokenize_error e
  pushed_before t out_of_fuel = out_of_fuel

  unfoldable pub tokenize_from : ℕ → ℕ → Text → Tokenized D
  tokenize_from zero i s = out_of_fuel
  tokenize_from (suc fuel) i [] = tokens (token end [] zero_number i ∷ [])
  tokenize_from (suc fuel) i (c ∷ s) = elim (lex i c s) [
    | blank ↦ tokenize_from fuel (i + 1) s
    | pushed t n ↦ pushed_before t (tokenize_from fuel (i + n) (drop n (c ∷ s)))
    | bad error ↦ tokenize_error error
  ]

  unfoldable pub tokenize : Text → Tokenized D
  unfolding tokenize_from
  tokenize input = tokenize_from (length input + 1) 0 input
