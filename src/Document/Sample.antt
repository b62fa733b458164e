-- ===== src/Document/Sample.antt =====
-- The values of a small JSON library in which everything that Document.antt assumes of nlohmann::json
-- holds.
pub mod Texts
pub mod Library
use origindb.Prelude.{ℕ, ◌≡◌, refl, ap, Option, Text, List, [], ◌∷◌, Assoc, if◌then◌else◌}
use origindb.Document.{
  Kind, json_null, json_boolean, json_integer, json_floating, json_string, bytes_object, nested,
  json_binary, is_finite,
}

mutual
  pub data Sample : Type 0 where
    leaf : Kind → Sample
    object : Entries → Sample
    array : Items → Sample

  pub data Entries : Type 0 where
    no_entry : Entries
    entry : Text → Sample → Entries → Entries

  pub data Items : Type 0 where
    no_item : Items
    item : Sample → Items → Items

unfoldable pub to_entries : Assoc Sample → Entries
to_entries [] = no_entry
to_entries ((name, v) ∷ m) = entry name v (to_entries m)

unfoldable pub from_entries : Entries → Assoc Sample
from_entries no_entry = []
from_entries (entry name v es) = (name, v) ∷ from_entries es

pub from-to_entries : (m : Assoc Sample) → from_entries (to_entries m) ≡ m
unfolding to_entries from_entries
from-to_entries [] = refl
from-to_entries ((name, v) ∷ m) = ap (λ l. (name, v) ∷ l) (from-to_entries m)

unfoldable pub to_items : List Sample → Items
to_items [] = no_item
to_items (v ∷ l) = item v (to_items l)

unfoldable pub from_items : Items → List Sample
from_items no_item = []
from_items (item v is) = v ∷ from_items is

pub from-to_items : (l : List Sample) → from_items (to_items l) ≡ l
unfolding to_items from_items
from-to_items [] = refl
from-to_items (v ∷ l) = ap (λ l. v ∷ l) (from-to_items l)

unfoldable pub kind_of : Sample → Kind
kind_of (leaf kind) = kind
kind_of (object es) = nested []
kind_of (array is) = nested []

unfoldable pub members_of : Sample → Assoc Sample
unfolding from_entries
members_of (object es) = from_entries es
members_of _ = []

unfoldable pub elements_of : Sample → List Sample
unfolding from_items
elements_of (array is) = from_items is
elements_of _ = []

-- What is read of the text of a leaf.
unfoldable pub reread_leaf : Kind → Sample
reread_leaf (json_floating v) = if is_finite v then leaf (json_floating v) else leaf json_null
reread_leaf (json_binary v text) = object no_entry
reread_leaf kind = leaf kind

unfoldable mutual
  unfolding reread_leaf

  pub reread_of : Sample → Sample
  reread_of (leaf kind) = reread_leaf kind
  reread_of (object es) = object (reread_entries es)
  reread_of (array is) = array (reread_items is)

  pub reread_entries : Entries → Entries
  reread_entries no_entry = no_entry
  reread_entries (entry name v es) = entry name (reread_of v) (reread_entries es)

  pub reread_items : Items → Items
  reread_items no_item = no_item
  reread_items (item v is) = item (reread_of v) (reread_items is)
