-- ===== src/Wasm/Base64.antt =====
-- src/wasm/host_functions.cpp: Base64Encode and Base64Decode. The bits of the parts that the code joins
-- by `|` do not overlap, so that it is a sum.
pub mod RoundTrip
use origindb.Prelude.{
  ℕ, zero, suc, ◌+◌, ◌-◌, ◌*◌, ◌/◌, ◌%◌, ◌^◌, Bool, true, false, ◌&&◌, Option, none, some, Text, [],
  ◌∷◌, ◌++◌, length, leb, ◌==◌, if◌then◌else◌, ascii,
}

abbrev alphabet : Text
alphabet = ascii "ABCDEFGHIJKLMNOPQRSTUVWXYZabcdefghijklmnopqrstuvwxyz0123456789+/"

char_at : ℕ → Text → ℕ
char_at n [] = 0
char_at zero (c ∷ s) = c
char_at (suc n) (c ∷ s) = char_at n s

-- `kB64[n & 63]`
unfoldable pub digit : ℕ → ℕ
unfolding char_at
digit n = char_at (n % 64) alphabet

abbrev pub pad : ℕ
pad = b'='

-- Three bytes become four digits; what is missing of the last three is padded.
unfoldable pub base64_encode : Text → Text
unfolding digit
base64_encode [] = []
base64_encode (a ∷ []) =
    let n = a * 2 ^ 16 in digit (n / 2 ^ 18) ∷ digit (n / 2 ^ 12) ∷ pad ∷ pad ∷ []
base64_encode (a ∷ b ∷ []) =
    let n = a * 2 ^ 16 + b * 2 ^ 8 in
    digit (n / 2 ^ 18) ∷ digit (n / 2 ^ 12) ∷ digit (n / 2 ^ 6) ∷ pad ∷ []
base64_encode (a ∷ b ∷ c ∷ s) =
    let n = a * 2 ^ 16 + b * 2 ^ 8 + c in
    digit (n / 2 ^ 18) ∷ digit (n / 2 ^ 12) ∷ digit (n / 2 ^ 6) ∷ digit n ∷ base64_encode s

abbrev between : ℕ → ℕ → ℕ → Bool
between lo hi c = leb lo c && leb c hi

-- The lambda `val`; none is -1.
unfoldable pub value_of : ℕ → Option ℕ
value_of c =
    if between b'A' b'Z' c
    then some (c - b'A')
    else if between b'a' b'z' c
    then some (c - b'a' + 26)
    else if between b'0' b'9' c
    then some (c - b'0' + 52)
    else if c == b'+'
    then some 62
    else if c == b'/'
    then some 63
    else none

abbrev pub bind {ℓ κ} : {A : Type ℓ} {B : Type κ} → Option A → (A → Option B) → Option B
bind none f = none
bind (some a) f = f a

abbrev pub before : Text → Option Text → Option Text
before group none = none
before group (some s) = some (group ++ s)

-- What one round of the loop pushes.
unfoldable pub decode_group : ℕ → ℕ → ℕ → ℕ → Option Text
unfolding value_of
decode_group w x y z = bind (value_of w) λ a. bind (value_of x) λ b.
    let first = (a * 4 + b / 16) % 256 in
    if y == pad
    then some (first ∷ [])
    else bind (value_of y) λ c.
      let second = (b * 16 + c / 4) % 256 in
      if z == pad
      then some (first ∷ second ∷ [])
      else bind (value_of z) λ d. some (first ∷ second ∷ (c * 64 + d) % 256 ∷ [])

unfoldable pub decode_groups : Text → Option Text
unfolding decode_group
decode_groups [] = some []
decode_groups (w ∷ x ∷ y ∷ z ∷ s) =
    bind (decode_group w x y z) λ group. before group (decode_groups s)
decode_groups _ = none

unfoldable pub base64_decode : Text → Option Text
unfolding decode_groups
base64_decode input = if length input % 4 == 0 then decode_groups input else none
