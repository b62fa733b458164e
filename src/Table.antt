-- ===== src/Table.antt =====
-- src: include/storage/table.h, the rows and schemas that the storage engine keeps. A number of a
-- fixed width is its bit pattern: an `int32_t` or a `float` a number below 2^32, an `int64_t`, a
-- `double` or a count of nanoseconds one below 2^64. An unordered_map is an association list.
use origindb.Prelude.{ℕ, ◌^◌, ◌<◌, Bool, Text, Assoc, List, ◌==◌, if◌then◌else◌, length, ◌≡◌, arith}

pub data DataType : Type 0 where
  int32 int64 float double string bytes boolean timestamp json : DataType
  -- A value of the enum that has no name: a cast from any other byte.
  unnamed : ℕ → DataType

-- `static_cast<int>(type)` and `static_cast<DataType>(byte)`.
unfoldable pub type_code : DataType → ℕ
type_code int32 = 0
type_code int64 = 1
type_code float = 2
type_code double = 3
type_code string = 4
type_code bytes = 5
type_code boolean = 6
type_code timestamp = 7
type_code json = 8
type_code (unnamed n) = n

unfoldable pub type_of_code : ℕ → DataType
type_of_code n =
    if n == 0
    then int32
    else if n == 1
    then int64
    else if n == 2
    then float
    else if n == 3
    then double
    else if n == 4
    then string
    else if n == 5
    then bytes
    else if n == 6
    then boolean
    else if n == 7
    then timestamp
    else if n == 8
    then json
    else unnamed n

pub data DefaultValue : Type 0 where
  no_default : DefaultValue
  int64_default : ℕ → DefaultValue
  double_default : ℕ → DefaultValue
  string_default : Text → DefaultValue

pub record Column : Type 0 where
  pub name : Text
  pub type : DataType
  pub nullable : Bool
  pub is_primary_key : Bool
  pub default_value : DefaultValue

pub record TableSchema : Type 0 where
  pub name : Text
  pub columns : List Column
  pub primary_key : List Text
  pub options : Assoc Text

pub data Value : Type 0 where
  null : Value
  int32 : ℕ → Value
  int64 : ℕ → Value
  float : ℕ → Value
  double : ℕ → Value
  string : Text → Value
  bytes : Text → Value
  boolean : Bool → Value
  timestamp : ℕ → Value

pub record Row : Type 0 where
  pub key : Text
  pub columns : Assoc Value
  pub version : ℕ
  pub timestamp : ℕ

-- A text whose length fits the `uint32_t` in front of it.
abbrev pub Fits : Text → Type 0
Fits s = length s < 2 ^ 32

-- The values that the C++ types can hold and whose payload fits its length prefix.
abbrev pub IsValue : Value → Type 0
IsValue null = Unit {0}
IsValue (int32 v) = v < 2 ^ 32
IsValue (int64 v) = v < 2 ^ 64
IsValue (float v) = v < 2 ^ 32
IsValue (double v) = v < 2 ^ 64
IsValue (string s) = Fits s
IsValue (bytes s) = Fits s
IsValue (boolean b) = Unit {0}
IsValue (timestamp v) = v < 2 ^ 64

pub type_of_code-type_code : (n : ℕ) → type_code (type_of_code n) ≡ n
unfolding type_code type_of_code
type_of_code-type_code n = ground arith

-- The named types, which `type_of_code` gives back.
abbrev pub IsNamed : DataType → Type 0
IsNamed (unnamed n) = ⊥
IsNamed _ = Unit {0}
