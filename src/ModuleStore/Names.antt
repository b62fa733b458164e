-- ===== src/ModuleStore/Names.antt =====
-- What a valid name of src/wasm/module_store.cpp can be used for.
use origindb.Prelude.{
  ℕ, ◌≤◌, ◌≡◌, ◌≢◌, true, false, Text, [], ◌∷◌, length, text_eq_iff, All, ascii, arith, Bool-cases,
  inl, inr,
}
use origindb.ModuleStore.{is_name_char, all_name_chars, is_empty, valid_module_name}

-- A character that ends no component of a path, of Unix or of Windows, and is not the zero byte.
abbrev pub IsPlain : ℕ → Type 0
IsPlain c = (c ≢ b'/') × (c ≢ 92) × (c ≢ 0)

is_name_char-IsPlain : (c : ℕ) → is_name_char c ≡ true → IsPlain c
unfolding is_name_char
is_name_char-IsPlain c h =
    (λ e. ground (arith, e, h), λ e. ground (arith, e, h), λ e. ground (arith, e, h))

all_name_chars-IsPlain : (name : Text) → all_name_chars name ≡ true → All IsPlain name
unfolding all_name_chars
all_name_chars-IsPlain [] h = tt
all_name_chars-IsPlain (c ∷ name) h = elim (Bool-cases (is_name_char c)) [
  | inl s ↦ (is_name_char-IsPlain c s, all_name_chars-IsPlain name (ground (arith, h, s)))
  | inr s ↦ absurd (ground (arith, h, s))
]

-- A valid name is one component of a path below the store's directory: it is neither empty nor "."
-- nor "..", it has at most 128 characters, and none of them is a slash, a backslash or zero.
pub valid_module_name-IsPlain :
    (name : Text)
    → valid_module_name name ≡ true
    → (is_empty name ≡ false)
      × (length name ≤ 128)
      × (name ≢ ascii ".")
      × (name ≢ ascii "..")
      × All IsPlain name
unfolding valid_module_name
valid_module_name-IsPlain name h = (
  ground (arith, h),
  ground (arith, h),
  λ e. ground (arith, h, (text_eq_iff name (ascii ".")).1 e),
  λ e. ground (arith, h, (text_eq_iff name (ascii "..")).1 e),
  all_name_chars-IsPlain name (ground (arith, h)),
)
