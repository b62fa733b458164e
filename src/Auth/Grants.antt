-- ===== src/Auth/Grants.antt =====
-- Whom the check of src/common/auth.cpp lets in.
use origindb.Prelude.{
  ℕ, zero, suc, ◌+◌, ◌/◌, ◌%◌, ◌^◌, ◌<◌, ◌≡◌, refl, true, ◌&&◌, ◌||◌, not, Text, IsByte, All, [],
  ◌∷◌, length, text_eq, text_eq_iff, arith, Bool-cases, inl, inr,
}
use mathlib.Core.Path.{ap₂}
use native.Mathlib.Nat.{pow-suc}
use origindb.Auth.{
  AuthScope, AuthManager, bit_xor, bit_or, accumulate_diff, constant_time_equals, is_empty,
  is_client, check,
}

bit_xor-zero : (n a b : ℕ) → a < 2 ^ n → b < 2 ^ n → bit_xor n a b ≡ 0 → a ≡ b
unfolding bit_xor
bit_xor-zero zero a b ha hb e = omega arith
bit_xor-zero (suc n) a b ha hb e = omega (
  arith,
  pow-suc 2 n,
  bit_xor-zero n (a / 2) (b / 2) (omega (arith, pow-suc 2 n)) (omega (arith, pow-suc 2 n))
      (omega (arith, e)),
)

bit_xor-same : (n a : ℕ) → bit_xor n a a ≡ 0
unfolding bit_xor
bit_xor-same zero a = refl
bit_xor-same (suc n) a = omega (arith, bit_xor-same n (a / 2))

bit_xor-lt : (n a b : ℕ) → bit_xor n a b < 2 ^ n
unfolding bit_xor
bit_xor-lt zero a b = omega arith
bit_xor-lt (suc n) a b = omega (arith, pow-suc 2 n, bit_xor-lt n (a / 2) (b / 2))

bit_or-lt : (n a b : ℕ) → bit_or n a b < 2 ^ n
unfolding bit_or
bit_or-lt zero a b = omega arith
bit_or-lt (suc n) a b = ground (arith, pow-suc 2 n, bit_or-lt n (a / 2) (b / 2))

bit_or-parts :
    (n a b : ℕ) → bit_or (suc n) a b ≡ 0 → (a % 2 + b % 2 ≡ 0) × (bit_or n (a / 2) (b / 2) ≡ 0)
unfolding bit_or
bit_or-parts n a b e = ground arith

bit_or-zero : (n a b : ℕ) → a < 2 ^ n → b < 2 ^ n → bit_or n a b ≡ 0 → (a ≡ 0) × (b ≡ 0)
unfolding bit_or
bit_or-zero zero a b ha hb e = (omega arith, omega arith)
bit_or-zero (suc n) a b ha hb e =
    let (low, rest) = bit_or-parts n a b e in
    let (x, y) =
      bit_or-zero n (a / 2) (b / 2) (omega (arith, pow-suc 2 n)) (omega (arith, pow-suc 2 n))
        rest in
    (omega (arith, low, x), omega (arith, low, y))

bit_or-none : (n : ℕ) → bit_or n 0 0 ≡ 0
unfolding bit_or
bit_or-none zero = refl
bit_or-none (suc n) = omega (arith, bit_or-none n)

byte_lt : 2 ^ 8 ≡ 256
byte_lt = refl

-- The difference stays 0 exactly on equal texts.
accumulate_diff-zero :
    (diff : ℕ) (a b : Text)
    → All IsByte a
    → All IsByte b
    → diff < 256
    → length a ≡ length b
    → accumulate_diff diff a b ≡ 0
    → (diff ≡ 0) × (a ≡ b)
unfolding accumulate_diff
accumulate_diff-zero diff [] [] ha hb d l e = (e, refl)
accumulate_diff-zero diff [] (y ∷ b) ha hb d l e = absurd (omega arith)
accumulate_diff-zero diff (x ∷ a) [] ha hb d l e = absurd (omega arith)
accumulate_diff-zero diff (x ∷ a) (y ∷ b) (hx, ha) (hy, hb) d l e =
    let (zero_so_far, same) =
      accumulate_diff-zero (bit_or 8 diff (bit_xor 8 x y)) a b ha hb
        (bit_or-lt 8 diff (bit_xor 8 x y)) (omega arith) e in
    let (d0, x0) = bit_or-zero 8 diff (bit_xor 8 x y) d (bit_xor-lt 8 x y) zero_so_far in
    (d0, ap₂ (λ h t. h ∷ t) (bit_xor-zero 8 x y hx hy x0) same)

accumulate_diff-same : (a : Text) → accumulate_diff 0 a a ≡ 0
unfolding accumulate_diff
accumulate_diff-same [] = refl
accumulate_diff-same (x ∷ a) = rw (bit_xor-same 8 x, bit_or-none 8) (accumulate_diff-same a)

constant_time_equals_self : (a : Text) → constant_time_equals a a ≡ true
unfolding constant_time_equals
constant_time_equals_self a = ground (arith, accumulate_diff-same a)

eq_of_constant_time_equals :
    (a b : Text) → All IsByte a → All IsByte b → constant_time_equals a b ≡ true → a ≡ b
unfolding constant_time_equals
eq_of_constant_time_equals a b ha hb e =
    (accumulate_diff-zero 0 a b ha hb (omega arith) (ground (arith, e)) (ground (arith, e))).1

constant_time_equals-text_eq :
    (a b : Text) → All IsByte a → All IsByte b → constant_time_equals a b ≡ text_eq a b
constant_time_equals-text_eq a b ha hb = elim (Bool-cases (text_eq a b)) [
  | inl s ↦ rw (s, (text_eq_iff a b).0 s) (constant_time_equals_self b)
  | inr s ↦ elim (Bool-cases (constant_time_equals a b)) [
    | inl t ↦
        absurd (ground (arith, s, (text_eq_iff a b).1 (eq_of_constant_time_equals a b ha hb t)))
    | inr t ↦ rw (s, t) refl
  ]
]

-- Who is let in: a token that is not empty and is the admin token or, in the client scope, the
-- client token. The tokens are texts of bytes.
pub check_lem :
    (token : Text) (scope : AuthScope) (manager : AuthManager)
    → All IsByte token
    → All IsByte manager.admin_token
    → All IsByte manager.client_token
    → check token scope manager ≡ (
        not (is_empty token)
        && (text_eq token manager.admin_token
            || (is_client scope && text_eq token manager.client_token)))
unfolding check
check_lem token scope manager t a c = ground (
  arith,
  constant_time_equals-text_eq token manager.admin_token t a,
  constant_time_equals-text_eq token manager.client_token t c,
)
