-- ===== src/Codec.antt =====
-- Little-endian output and the bounded reader of src/storage/row_codec.cpp. The same helpers stand
-- again in src/storage/wal_impl.cpp (PutU32, PutU64, PutLenPrefixed and the lambdas of
-- DeserializeRecord). A buffer is the list of its bytes; the reader's two pointers are the list of
-- the bytes from `p_` up to `end_`; a thrown runtime_error is `err`. Bytes that are shifted into
-- places of their own share no bit, so the `|` of the source is a sum here.
pub mod Laws
pub mod Local
use origindb.Prelude.{
  ℕ, zero, suc, ◌+◌, ◌*◌, ◌/◌, ◌%◌, ◌^◌, Bool, Text, List, [], ◌∷◌, ◌++◌, take, drop, length, ltb,
  if◌then◌else◌,
}

-- The runtime_errors of the readers: "truncated record" and "unknown value tag".
pub data Error : Type 0 where
  truncated unknown_tag : Error

pub data Result {ℓ} (A : Type ℓ) : Type ℓ where
  ok : A → Result A
  err : Error → Result A

abbrev pub Reader {ℓ} : Type ℓ → Type ℓ
Reader A = Text → Result (A × Text)

abbrev pub bind {ℓ κ} : {A : Type ℓ} {B : Type κ} → Result A → (A → Result B) → Result B
bind (ok a) f = f a
bind (err e) f = err e

abbrev pub pure {ℓ} : {A : Type ℓ} → A → Reader A
pure a ts = ok (a, ts)

abbrev pub raise {ℓ} : {A : Type ℓ} → Error → Reader A
raise e ts = err e

infixl 1 ◌>>=◌
abbrev pub ◌>>=◌ {ℓ κ} : {A : Type ℓ} {B : Type κ} → Reader A → (A → Reader B) → Reader B
p >>= f = λ ts. bind (p ts) λ (a, rest). f a rest

unfoldable pub put_u8 : ℕ → Text
put_u8 v = v % 256 ∷ []

unfoldable pub put_u32 : ℕ → Text
put_u32 v = v % 256 ∷ v / 2 ^ 8 % 256 ∷ v / 2 ^ 16 % 256 ∷ v / 2 ^ 24 % 256 ∷ []

-- `for (i = 0; i < 8; i++)`: the rounds that are left, and `i`.
unfoldable pub put_u64_loop : ℕ → ℕ → ℕ → Text
put_u64_loop zero i v = []
put_u64_loop (suc n) i v = v / 2 ^ (8 * i) % 256 ∷ put_u64_loop n (i + 1) v

unfoldable pub put_u64 : ℕ → Text
unfolding put_u64_loop
put_u64 v = put_u64_loop 8 0 v

-- The length is cut to 32 bits by `static_cast<uint32_t>`.
unfoldable pub put_bytes : Text → Text
put_bytes b = put_u32 (length b % 2 ^ 32) ++ b

unfoldable pub put_string : Text → Text
put_string s = put_bytes s

-- `Need(n)` and the copy of the `n` bytes behind it.
unfoldable pub need_take : ℕ → Reader Text
need_take n ts = if ltb (length ts) n then err truncated else ok (take n ts, drop n ts)

unfoldable pub read_u8 : Reader ℕ
read_u8 [] = err truncated
read_u8 (b ∷ rest) = ok (b, rest)

unfoldable pub read_u32 : Reader ℕ
read_u32 (a ∷ b ∷ c ∷ d ∷ rest) = ok (a + b * 2 ^ 8 + c * 2 ^ 16 + d * 2 ^ 24, rest)
read_u32 _ = err truncated

unfoldable pub read_u64 : Reader ℕ
read_u64 (a ∷ b ∷ c ∷ d ∷ e ∷ f ∷ g ∷ h ∷ rest) = ok (
  a + b * 2 ^ 8 + c * 2 ^ 16 + d * 2 ^ 24 + e * 2 ^ 32 + f * 2 ^ 40 + g * 2 ^ 48 + h * 2 ^ 56,
  rest,
)
read_u64 _ = err truncated

unfoldable pub read_str : Reader Text
read_str = do n ← read_u32; need_take n

unfoldable pub read_bytes : Reader Text
read_bytes = do n ← read_u32; need_take n
