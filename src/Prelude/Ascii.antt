-- ===== src/Prelude/Ascii.antt =====
-- Text literals as bytes, and decimal numbers as `std::to_string` writes them.
use Prim.Native.Nat.{ℕ, zero, suc, ◌+◌, ◌-◌, ◌*◌, ◌/◌, ◌%◌, ◌^◌, ◌<◌}
use Prim.Native.Char.{code}
use Prim.Native.String.{String}
use mathlib.Core.Path.{◌≡◌, refl, sym, ap, ◌∙◌}
use mathlib.Core.List.{[], ◌∷◌, ◌++◌}
use native.Mathlib.Nat.{pow-suc}
use native.Mathlib.Omega.{arith}
use origindb.Prelude.Tests.{ltb, if◌then◌else◌}
use origindb.Prelude.Texts.{Text}

-- The bytes of an ASCII literal.
abbrev pub ascii : String → Text
ascii String.[] = []
ascii (String.◌∷◌ c s) = code c ∷ ascii s

unfoldable pub digits : ℕ → ℕ → Text
digits zero n = []
digits (suc fuel) n =
    let front = digits fuel (n / 10) in
    if ltb n 10 then (48 + n) ∷ [] else front ++ (48 + n % 10) ∷ []

-- `std::to_string` of a number of 64 bits, which has at most 20 digits.
unfoldable pub to_text : ℕ → Text
unfolding digits
to_text n = digits 20 n

number_of : ℕ → Text → ℕ
number_of acc [] = acc
number_of acc (d ∷ ds) = number_of (acc * 10 + (d - 48)) ds

number_of-append :
    (acc : ℕ) (xs : Text) (d : ℕ) → number_of acc (xs ++ d ∷ []) ≡ number_of acc xs * 10 + (d - 48)
unfolding number_of
number_of-append acc [] d = refl
number_of-append acc (x ∷ xs) d = number_of-append (acc * 10 + (x - 48)) xs d

smaller : (fuel n : ℕ) → n < 10 ^ suc fuel → n / 10 < 10 ^ fuel
smaller fuel n h = omega (arith, pow-suc 10 fuel)

number_of-digits : (fuel n : ℕ) → n < 10 ^ fuel → number_of 0 (digits fuel n) ≡ n
unfolding digits number_of
number_of-digits zero n h = omega arith
number_of-digits (suc fuel) n h = ground (
  arith,
  number_of-append 0 (digits fuel (n / 10)) (48 + n % 10),
  number_of-digits fuel (n / 10) (smaller fuel n h),
)

-- Different numbers of 64 bits have different texts.
pub to_text-injective : (a b : ℕ) → a < 2 ^ 64 → b < 2 ^ 64 → to_text a ≡ to_text b → a ≡ b
unfolding to_text
to_text-injective a b ha hb e =
    sym (number_of-digits 20 a (omega arith))
    ∙ ap (number_of 0) e
    ∙ number_of-digits 20 b (omega arith)
