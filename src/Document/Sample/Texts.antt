-- ===== src/Document/Sample/Texts.antt =====
-- The texts of the small JSON library: a value stands behind its parts, each step as two numbers.
use origindb.Prelude.{
  ℕ, ◌≡◌, refl, ◌∙◌, true, false, Option, none, some, Text, List, [], ◌∷◌, ◌==◌, if◌then◌else◌,
}
use origindb.Document.{
  Kind, json_null, json_boolean, json_integer, json_floating, json_string, bytes_object, nested,
  json_binary,
}
use origindb.Document.Sample.{
  Sample, leaf, object, array, Entries, no_entry, entry, Items, no_item, item,
}

-- The steps of a text: 0 to 3 push a leaf, 4 pushes an empty string and 5 lengthens one, 6 to 8 make
-- the other leaves of one or two strings, 9 pushes an empty object and 10 adds an entry, 11 pushes an
-- empty array and 12 adds an element.
abbrev lengthen : ℕ → List Sample → List Sample
lengthen v (leaf (json_string s) ∷ st) = leaf (json_string (v ∷ s)) ∷ st
lengthen v st = st

abbrev of_string_by : (Text → Kind) → List Sample → List Sample
of_string_by kind (leaf (json_string s) ∷ st) = leaf (kind s) ∷ st
of_string_by kind st = st

abbrev of_two_strings : List Sample → List Sample
of_two_strings (leaf (json_string t) ∷ leaf (json_string s) ∷ st) = leaf (json_binary s t) ∷ st
of_two_strings st = st

abbrev add_entry : List Sample → List Sample
add_entry (j ∷ leaf (json_string name) ∷ object es ∷ st) = object (entry name j es) ∷ st
add_entry st = st

abbrev add_item : List Sample → List Sample
add_item (j ∷ array is ∷ st) = array (item j is) ∷ st
add_item st = st

unfoldable pub step : ℕ → ℕ → List Sample → List Sample
step t v st =
    if t == 0
    then leaf json_null ∷ st
    else if t == 1
    then leaf (json_boolean (v == 1)) ∷ st
    else if t == 2
    then leaf (json_integer v) ∷ st
    else if t == 3
    then leaf (json_floating v) ∷ st
    else if t == 4
    then leaf (json_string []) ∷ st
    else if t == 5
    then lengthen v st
    else if t == 6
    then of_string_by bytes_object st
    else if t == 7
    then of_string_by nested st
    else if t == 8
    then of_two_strings st
    else if t == 9
    then object no_entry ∷ st
    else if t == 10
    then add_entry st
    else if t == 11
    then array no_item ∷ st
    else add_item st

unfoldable pub result : List Sample → Option Sample
result (j ∷ []) = some j
result _ = none

unfoldable pub decode : Text → List Sample → Option Sample
unfolding step result
decode [] st = result st
decode (t ∷ []) st = none
decode (t ∷ v ∷ text) st = decode text (step t v st)

unfoldable pub encode_string : Text → Text → Text
encode_string [] rest = 4 ∷ 0 ∷ rest
encode_string (c ∷ s) rest = encode_string s (5 ∷ c ∷ rest)

unfoldable pub encode_leaf : Kind → Text → Text
unfolding encode_string
encode_leaf json_null rest = 0 ∷ 0 ∷ rest
encode_leaf (json_boolean b) rest = 1 ∷ (if b then 1 else 0) ∷ rest
encode_leaf (json_integer v) rest = 2 ∷ v ∷ rest
encode_leaf (json_floating v) rest = 3 ∷ v ∷ rest
encode_leaf (json_string s) rest = encode_string s rest
encode_leaf (bytes_object s) rest = encode_string s (6 ∷ 0 ∷ rest)
encode_leaf (nested s) rest = encode_string s (7 ∷ 0 ∷ rest)
encode_leaf (json_binary s t) rest = encode_string s (encode_string t (8 ∷ 0 ∷ rest))

-- The steps of a value in front of `rest`.
unfoldable mutual
  unfolding encode_leaf encode_string

  pub encode : Sample → Text → Text
  encode (leaf kind) rest = encode_leaf kind rest
  encode (object es) rest = encode_entries es rest
  encode (array is) rest = encode_items is rest

  encode_entries : Entries → Text → Text
  encode_entries no_entry rest = 9 ∷ 0 ∷ rest
  encode_entries (entry name v es) rest =
      encode_entries es (encode_string name (encode v (10 ∷ 0 ∷ rest)))

  encode_items : Items → Text → Text
  encode_items no_item rest = 11 ∷ 0 ∷ rest
  encode_items (item v is) rest = encode_items is (encode v (12 ∷ 0 ∷ rest))

decode-encode_string :
    (s rest : Text) (st : List Sample)
    → decode (encode_string s rest) st ≡ decode rest (leaf (json_string s) ∷ st)
unfolding decode encode_string step
decode-encode_string [] rest st = refl
decode-encode_string (c ∷ s) rest st = decode-encode_string s (5 ∷ c ∷ rest) st

decode-encode_leaf :
    (kind : Kind) (rest : Text) (st : List Sample)
    → decode (encode_leaf kind rest) st ≡ decode rest (leaf kind ∷ st)
unfolding decode encode_leaf step
decode-encode_leaf json_null rest st = refl
decode-encode_leaf (json_boolean true) rest st = refl
decode-encode_leaf (json_boolean false) rest st = refl
decode-encode_leaf (json_integer v) rest st = refl
decode-encode_leaf (json_floating v) rest st = refl
decode-encode_leaf (json_string s) rest st = decode-encode_string s rest st
decode-encode_leaf (bytes_object s) rest st = decode-encode_string s (6 ∷ 0 ∷ rest) st
decode-encode_leaf (nested s) rest st = decode-encode_string s (7 ∷ 0 ∷ rest) st
decode-encode_leaf (json_binary s t) rest st =
    decode-encode_string s (encode_string t (8 ∷ 0 ∷ rest)) st
    ∙ decode-encode_string t (8 ∷ 0 ∷ rest) (leaf (json_string s) ∷ st)

mutual
  unfolding decode encode encode_entries encode_items step

  pub decode-encode :
      (j : Sample) (rest : Text) (st : List Sample)
      → decode (encode j rest) st ≡ decode rest (j ∷ st)
  decode-encode (leaf kind) rest st = decode-encode_leaf kind rest st
  decode-encode (object es) rest st = decode-encode_entries es rest st
  decode-encode (array is) rest st = decode-encode_items is rest st

  decode-encode_entries :
      (es : Entries) (rest : Text) (st : List Sample)
      → decode (encode_entries es rest) st ≡ decode rest (object es ∷ st)
  decode-encode_entries no_entry rest st = refl
  decode-encode_entries (entry name v es) rest st =
      decode-encode_entries es (encode_string name (encode v (10 ∷ 0 ∷ rest))) st
      ∙ decode-encode_string name (encode v (10 ∷ 0 ∷ rest)) (object es ∷ st)
      ∙ decode-encode v (10 ∷ 0 ∷ rest) (leaf (json_string name) ∷ object es ∷ st)

  decode-encode_items :
      (is : Items) (rest : Text) (st : List Sample)
      → decode (encode_items is rest) st ≡ decode rest (array is ∷ st)
  decode-encode_items no_item rest st = refl
  decode-encode_items (item v is) rest st =
      decode-encode_items is (encode v (12 ∷ 0 ∷ rest)) st
      ∙ decode-encode v (12 ∷ 0 ∷ rest) (array is ∷ st)
