-- ===== src/Auth.antt =====
-- src/common/auth.cpp: bearer tokens with two scopes. Initialize reads and makes the tokens, by way
-- of files, JSON and random bytes; what it leaves behind, the two tokens, is the state here.
pub mod Grants
mod Tests
use origindb.Prelude.{
  ℕ, zero, suc, ◌+◌, ◌*◌, ◌/◌, ◌%◌, Bool, true, false, ◌&&◌, Text, List, [], ◌∷◌, length, drop,
  take, text_eq, ◌==◌, if◌then◌else◌, ascii,
}

pub data AuthScope : Type 0 where
  client admin : AuthScope

pub record AuthManager : Type 0 where
  pub admin_token : Text
  pub client_token : Text

-- `^` and `|` of the lowest `n` bits.
unfoldable pub bit_xor : ℕ → ℕ → ℕ → ℕ
bit_xor zero a b = 0
bit_xor (suc n) a b = (a % 2 + b % 2) % 2 + 2 * bit_xor n (a / 2) (b / 2)

unfoldable pub bit_or : ℕ → ℕ → ℕ → ℕ
bit_or zero a b = 0
bit_or (suc n) a b = (if a % 2 + b % 2 == 0 then 0 else 1) + 2 * bit_or n (a / 2) (b / 2)

-- `for (i = 0; i < a.size(); i++) diff |= a[i] ^ b[i]`, on texts of one length.
unfoldable pub accumulate_diff : ℕ → Text → Text → ℕ
accumulate_diff diff (x ∷ a) (y ∷ b) = accumulate_diff (bit_or 8 diff (bit_xor 8 x y)) a b
accumulate_diff diff _ _ = diff

unfoldable pub constant_time_equals : Text → Text → Bool
unfolding accumulate_diff
constant_time_equals a b = if length a == length b then accumulate_diff 0 a b == 0 else false

abbrev pub is_empty : Text → Bool
is_empty [] = true
is_empty (b ∷ s) = false

abbrev pub is_client : AuthScope → Bool
is_client client = true
is_client admin = false

unfoldable pub check : Text → AuthScope → AuthManager → Bool
check token scope manager =
    if is_empty token
    then false
    else if constant_time_equals token manager.admin_token
    then true
    else if is_client scope && constant_time_equals token manager.client_token
    then true
    else false

-- `rfind(kPrefix, 0) == 0`: the value starts with the prefix.
unfoldable pub strip_bearer : Text → Text
strip_bearer header_value =
    if text_eq (take 7 header_value) (ascii "Bearer ") then drop 7 header_value else header_value
