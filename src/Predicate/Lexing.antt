-- ===== src/Predicate/Lexing.antt =====
-- What `Tokenize` of src/changefeed/predicate_evaluator.cpp returns: its loop moves on in each round,
-- and a quoted text is read back.
use origindb.Prelude.{
  ℕ, zero, suc, ◌+◌, ◌≤◌, ◌<◌, ◌≡◌, refl, true, Option, none, some, Text, List, [], ◌∷◌, ◌++◌,
  length, drop, ◌⊎◌, if◌then◌else◌, arith, is_digit, take_while, length-append, length-drop, inl,
  inr,
}
use origindb.Predicate.Tokens.{
  Token, Lexeme, blank, pushed, bad, Tokenized, tokens, tokenize_error, out_of_fuel, string_body,
  with_fraction, number_text, starts_number, is_word_char, lex_word, lex_number, lex_string,
  lex_operator, lex, tokenize_from, tokenize, pushed_before, starts_with_char, sign_of, converted,
  numeral, literal,
}
use origindb.Predicate.Parser.Clauses.{Ended}

with_fraction-length :
    (front back : Text) {num_str : Text}
    → with_fraction front back ≡ some num_str
    → length front + (if starts_with_char b'.' back then 1 else 0) ≤ length num_str
unfolding with_fraction
with_fraction-length front back h =
    ground (arith, length-append front (b'.' ∷ take_while is_digit (drop 1 back)))

front_of : Text → Text → Text
front_of sign s = sign ++ take_while is_digit (drop (length sign) s)

back_of : Text → Text → Text
back_of sign s = drop (length (take_while is_digit (drop (length sign) s))) (drop (length sign) s)

-- A number starts with a sign, a digit or a point.
front_or_point :
    (c : ℕ) (s sign : Text)
    → starts_number c s ≡ true
    → sign ≡ sign_of (c ∷ s)
    → 0
      < length (front_of sign (c ∷ s))
        + (if starts_with_char b'.' (back_of sign (c ∷ s)) then 1 else 0)
unfolding starts_number take_while front_of back_of is_digit
front_or_point c s [] n h = ground arith
front_or_point c s (k ∷ sign) n h = omega arith

number_text-length :
    (c : ℕ) (s : Text) {num_str : Text}
    → starts_number c s ≡ true
    → number_text (c ∷ s) ≡ some num_str
    → 0 < length num_str
unfolding number_text front_of back_of
number_text-length c s n h =
    let sign = sign_of (c ∷ s) in
    omega (
      arith,
      with_fraction-length (front_of sign (c ∷ s)) (back_of sign (c ∷ s)) h,
      front_or_point c s sign n refl,
    )

module _ {D : Type 0} (stod : Text → Option D) (zero_number : D) where
  lex_word-moves :
      (i c : ℕ) (s : Text) {t : Token D} {n : ℕ}
      → is_word_char c ≡ true
      → lex_word stod zero_number i (c ∷ s) ≡ pushed t n
      → 0 < n
  unfolding lex_word take_while
  lex_word-moves i c s w h = ground arith

  converted-moves :
      (i : ℕ) (num_str : Text) (o : Option D) {t : Token D} {n : ℕ}
      → 0 < length num_str
      → converted stod zero_number i num_str o ≡ pushed t n
      → 0 < n
  converted-moves i num_str none w h = cc
  converted-moves i num_str (some value) w h = ground arith

  numeral-moves :
      (i : ℕ) (o : Option Text) {t : Token D} {n : ℕ}
      → ((num_str : Text) → o ≡ some num_str → 0 < length num_str)
      → numeral stod zero_number i o ≡ pushed t n
      → 0 < n
  numeral-moves i none w h = cc
  numeral-moves i (some num_str) w h = converted-moves i num_str (stod num_str) (w num_str refl) h

  literal-moves :
      (i : ℕ) (o : Option (Text × ℕ)) {t : Token D} {n : ℕ}
      → literal stod zero_number i o ≡ pushed t n
      → 0 < n
  literal-moves i none h = cc
  literal-moves i (some (value, m)) h = ground arith

  lex_number-moves :
      (i c : ℕ) (s : Text) {t : Token D} {n : ℕ}
      → starts_number c s ≡ true
      → lex_number stod zero_number i (c ∷ s) ≡ pushed t n
      → 0 < n
  unfolding lex_number
  lex_number-moves i c s w h =
      numeral-moves i (number_text (c ∷ s)) (λ num_str e. number_text-length c s w e) h

  lex_string-moves :
      (i : ℕ) (s : Text) {t : Token D} {n : ℕ}
      → lex_string stod zero_number i s ≡ pushed t n
      → 0 < n
  unfolding lex_string
  lex_string-moves i s h = literal-moves i (string_body s) h

  lex_operator-moves :
      (i c : ℕ) (s : Text) {t : Token D} {n : ℕ}
      → lex_operator stod zero_number i c s ≡ pushed t n
      → 0 < n
  unfolding lex_operator
  lex_operator-moves i c s h = ground arith

  -- A round that pushes a token moves on.
  lex-moves :
      (i c : ℕ) (s : Text) {t : Token D} {n : ℕ} → lex stod zero_number i c s ≡ pushed t n → 0 < n
  unfolding lex is_word_char
  lex-moves i c s {t} {n} h = ground (
    arith,
    lex_word-moves i c s {t = t} {n = n},
    lex_number-moves i c s {t = t} {n = n},
    lex_string-moves i s {t = t} {n = n},
    lex_operator-moves i c s {t = t} {n = n},
  )

  -- The tokens end with END, and the fuel did not run out.
  abbrev pub EndsWell : Tokenized D → Type 0
  EndsWell (tokens ts) = Ended ts
  EndsWell (tokenize_error e) = Unit {0}
  EndsWell out_of_fuel = ⊥

  Ended-cons : (t : Token D) (ts : List (Token D)) → Ended ts → Ended (t ∷ ts)
  Ended-cons t [] e = absurd e
  Ended-cons t (u ∷ ts) e = e

  pushed_before-EndsWell :
      (t : Token D) (r : Tokenized D) → EndsWell r → EndsWell (pushed_before stod zero_number t r)
  pushed_before-EndsWell t (tokens ts) e = Ended-cons t ts e
  pushed_before-EndsWell t (tokenize_error error) e = e
  pushed_before-EndsWell t out_of_fuel e = e

  Lexeme-cases :
      (x : Lexeme D)
      → (x ≡ blank) ⊎ ((t : Token D) × (n : ℕ) × (x ≡ pushed t n)) ⊎ ((e : Text) × (x ≡ bad e))
  Lexeme-cases blank = inl refl
  Lexeme-cases (pushed t n) = inr (inl (t, n, refl))
  Lexeme-cases (bad e) = inr (inr (e, refl))

  pub tokenize_from-EndsWell :
      (fuel i : ℕ) (s : Text) → length s < fuel → EndsWell (tokenize_from stod zero_number fuel i s)
  unfolding tokenize_from
  tokenize_from-EndsWell zero i s h = absurd (omega arith)
  tokenize_from-EndsWell (suc fuel) i [] h = refl
  tokenize_from-EndsWell (suc fuel) i (c ∷ s) h = elim (Lexeme-cases (lex stod zero_number i c s)) [
    | inl e ↦ rw (e, tokenize_from) (tokenize_from-EndsWell fuel (i + 1) s (omega arith))
    | inr (inl (t, n, e)) ↦
        rw (e, tokenize_from)
          (pushed_before-EndsWell t (tokenize_from stod zero_number fuel (i + n) (drop n (c ∷ s))) (
            tokenize_from-EndsWell fuel (i + n) (drop n (c ∷ s))
              (omega (arith, lex-moves i c s e, length-drop n (c ∷ s)))))
    | inr (inr (error, e)) ↦ rw (e, tokenize_from) tt
  ]

  pub tokenize-EndsWell : (s : Text) → EndsWell (tokenize stod zero_number s)
  unfolding tokenize
  tokenize-EndsWell s = tokenize_from-EndsWell (length s + 1) 0 s (omega arith)
