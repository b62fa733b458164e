-- ===== src/Document.antt =====
-- What the repository uses of nlohmann::json. The library is a parameter: how its values are made, what
-- they are made of, and their texts.
pub mod Members
pub mod Sample
use origindb.Prelude.{
  ℕ, ◌+◌, ◌-◌, ◌/◌, ◌%◌, ◌^◌, ◌≡◌, Bool, true, false, not, Option, none, some, Text, List, [], ◌∷◌,
  map, ltb, ◌==◌, if◌then◌else◌, Assoc, insert_sorted, IsSorted,
}

-- What the tests of nlohmann::json tell of a value, with what `get` and `dump` read from it: an
-- integer as its 64 bits, `bytes_object` the text "$bytes" of an object, `nested` any other object or an
-- array, a binary value with its text behind its bytes.
pub data Kind : Type 0 where
  json_null : Kind
  json_boolean : Bool → Kind
  json_integer json_floating : ℕ → Kind
  bytes_object json_string nested : Text → Kind
  json_binary : Text → Text → Kind

pub record JsonLibrary (J : Type 0) : Type 0 where
  pub kind : J → Kind
  -- what `items` runs over: of an object its members, in the order of its iteration
  pub members : J → Assoc J
  -- what a range-based `for` runs over
  pub elements : J → List J
  pub of_members : Assoc J → J
  pub of_array : List J → J
  pub of_null : J
  pub of_boolean : Bool → J
  pub of_integer : ℕ → J
  pub of_floating : ℕ → J
  pub of_string : Text → J
  pub of_binary : Text → J
  -- `{{"$bytes", text}}`
  pub of_bytes_text : Text → J
  -- a `float` as a `double`, by their bits
  pub widened : ℕ → ℕ
  -- none where they throw
  pub dump : J → Option Text
  pub parse : Text → Option J

-- A 32-bit number as a 64-bit one, of the same sign.
unfoldable pub sign_extended : ℕ → ℕ
sign_extended n = if ltb n (2 ^ 31) then n else n + 2 ^ 64 - 2 ^ 32

-- The bits of a double that is neither infinite nor a NaN.
unfoldable pub is_finite : ℕ → Bool
is_finite n = not (n / 2 ^ 52 % 2 ^ 11 == 2047)

unfoldable pub map_values {ℓ κ} : {A : Type ℓ} {B : Type κ} → (A → B) → Assoc A → Assoc B
map_values f [] = []
map_values f ((k, v) ∷ m) = (k, f v) ∷ map_values f m

-- `obj[name] = value` for each pair.
unfoldable pub set_members {ℓ} : {A : Type ℓ} → Assoc A → Assoc A → Assoc A
set_members [] obj = obj
set_members ((name, v) ∷ members) obj = set_members members (insert_sorted name v obj)

module _ {J : Type 0} (json : JsonLibrary J) where
  -- What nlohmann::json documents: a value is of the kind that it was made of, and an object has the
  -- members that it was made of.
  pub record IsDocumented : Type 0 where
    pub null_kind : json.kind json.of_null ≡ json_null
    pub boolean_kind : (v : _) → json.kind (json.of_boolean v) ≡ json_boolean v
    pub integer_kind : (v : _) → json.kind (json.of_integer v) ≡ json_integer v
    pub floating_kind : (v : _) → json.kind (json.of_floating v) ≡ json_floating v
    pub string_kind : (v : _) → json.kind (json.of_string v) ≡ json_string v
    pub bytes_kind : (v : _) → json.kind (json.of_bytes_text v) ≡ bytes_object v
    pub object_members : (m : Assoc J) → IsSorted m → json.members (json.of_members m) ≡ m
    pub array_elements : (l : List J) → json.elements (json.of_array l) ≡ l

  -- What it documents of texts: the text of a value is not empty and is read as the value, but for a number
  -- that is not finite, which is written as null, and a binary value, which is written as an object.
  pub record IsTextual : Type 0 where
    pub reread : J → J
    pub parse_dump :
        (j : J) (text : Text) → json.dump j ≡ some text → json.parse text ≡ some (reread j)
    pub parse_empty : json.parse [] ≡ none
    pub reread_null : reread json.of_null ≡ json.of_null
    pub reread_boolean : (v : _) → reread (json.of_boolean v) ≡ json.of_boolean v
    pub reread_integer : (v : _) → reread (json.of_integer v) ≡ json.of_integer v
    pub reread_floating :
        (v : _)
        → reread (json.of_floating v) ≡ (if is_finite v then json.of_floating v else json.of_null)
    pub reread_string : (v : _) → reread (json.of_string v) ≡ json.of_string v
    pub reread_bytes_text : (v : _) → reread (json.of_bytes_text v) ≡ json.of_bytes_text v
    pub reread_binary : (v : _) → (t : Text) × (json.kind (reread (json.of_binary v)) ≡ nested t)
    pub reread_members :
        (m : Assoc J)
        → IsSorted m
        → reread (json.of_members m) ≡ json.of_members (map_values reread m)
    pub reread_array : (l : List J) → reread (json.of_array l) ≡ json.of_array (map reread l)
