-- ===== src/Prelude.antt =====
-- The names that the other modules share: the libraries', passed on, and those of the children.
mod Tests
mod Lists
mod Texts
mod Maps
mod Ascii
mod Chars
mod Sorted
pub use Tests.*
pub use Lists.*
unfoldable pub use Texts.{Text, IsByte, text_eq, text_ltb}
pub use Texts.{
  text_eq_refl, eq_of_text_eq, text_eq_iff, text_ltb_irrefl, text_ltb_trans, text_ltb_total,
}
unfoldable pub use Maps.{Assoc, find, assign, erase, insert_sorted, IsAbove, IsSorted, Distinct}
pub use Maps.{
  find-assign, find-erase, find-insert_sorted, IsAbove-trans, insert_sorted-IsSorted,
  erase-IsSorted, IsAbove-IsSorted, IsSorted-Distinct, find-above,
}
pub use Prim.Native.Nat.{ℕ, zero, suc, ◌+◌, ◌-◌, ◌*◌, ◌/◌, ◌%◌, ◌^◌, ◌≤◌, ◌<◌}
pub use mathlib.Core.Path.{◌≡◌, refl, sym, ap, ◌∙◌}
pub use mathlib.Core.Logic.{◌≢◌, ◌↔◌, ◌⊎◌, inl, inr}
pub use mathlib.Core.Bool.{Bool, true, false, not, ◌&&◌, ◌||◌}
pub use mathlib.Core.Option.{Option, none, some}
pub use mathlib.Core.List.{List, [], ◌∷◌, ◌++◌, map, append-nil, append_assoc}
pub use native.Mathlib.Omega.{arith}
unfoldable pub use Ascii.{ascii, to_text}
pub use Ascii.{to_text-injective}
pub use Sorted.{insert_sorted-last, find-last, assign-new}
unfoldable pub use Chars.{is_digit, is_upper, is_alpha, is_space, to_lower, to_upper, take_while}
