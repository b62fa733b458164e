-- ===== src/ModuleStore.antt =====
-- src/wasm/module_store.cpp: the names under which modules are stored, each in a directory of its
-- own. `isalnum` is that of the "C" locale.
pub mod Names
mod Tests
use origindb.Prelude.{
  ℕ, Bool, true, false, not, ◌&&◌, ◌||◌, Text, [], ◌∷◌, length, ltb, leb, ◌==◌, text_eq,
  if◌then◌else◌, ascii,
}

unfoldable pub is_alnum : ℕ → Bool
is_alnum c =
    (leb b'0' c && leb c b'9') || ((leb b'A' c && leb c b'Z') || (leb b'a' c && leb c b'z'))

unfoldable pub is_name_char : ℕ → Bool
unfolding is_alnum
is_name_char c = is_alnum c || ((c == b'_') || ((c == b'-') || (c == b'.')))

-- The loop over the characters, which returns at the first that is not allowed.
unfoldable pub all_name_chars : Text → Bool
unfolding is_name_char
all_name_chars [] = true
all_name_chars (c ∷ name) = if is_name_char c then all_name_chars name else false

abbrev pub is_empty : Text → Bool
is_empty [] = true
is_empty (c ∷ name) = false

unfoldable pub valid_module_name : Text → Bool
unfolding all_name_chars
valid_module_name name =
    if is_empty name || ltb 128 (length name)
    then false
    else if all_name_chars name
    then not (text_eq name (ascii ".")) && not (text_eq name (ascii ".."))
    else false
