-- ===== src/Document/Sample/Library.antt =====
-- The small JSON library, with what Document.antt assumes of nlohmann::json proved of it.
use origindb.Prelude.{
  ℕ, ◌≡◌, refl, sym, ap, ◌∙◌, Option, none, some, Text, List, [], ◌∷◌, map, Assoc, if◌then◌else◌,
}
use origindb.Document.{
  json_null, json_boolean, json_integer, json_floating, json_string, bytes_object, json_binary,
  JsonLibrary, is_finite, map_values, IsDocumented, IsTextual,
}
use origindb.Document.Sample.{
  Sample, leaf, object, array, entry, item, to_entries, to_items, from-to_entries, from-to_items,
  kind_of, members_of, elements_of, reread_leaf, reread_of, reread_entries, reread_items,
}
use origindb.Document.Sample.Texts.{result, decode, encode, decode-encode}

unfoldable pub sample_library : JsonLibrary Sample
unfolding kind_of members_of elements_of to_entries to_items reread_of encode decode
sample_library = record {
  kind = kind_of;
  members = members_of;
  elements = elements_of;
  of_members = λ m. object (to_entries m);
  of_array = λ l. array (to_items l);
  of_null = leaf json_null;
  of_boolean = λ v. leaf (json_boolean v);
  of_integer = λ v. leaf (json_integer v);
  of_floating = λ v. leaf (json_floating v);
  of_string = λ v. leaf (json_string v);
  of_binary = λ v. leaf (json_binary v []);
  of_bytes_text = λ v. leaf (bytes_object v);
  widened = λ v. v;
  dump = λ j. some (encode (reread_of j) []);
  parse = λ text. decode text [];
}

pub sample_library-IsDocumented : IsDocumented sample_library
unfolding sample_library kind_of members_of elements_of
sample_library-IsDocumented = record {
  null_kind = refl;
  boolean_kind = λ v. refl;
  integer_kind = λ v. refl;
  floating_kind = λ v. refl;
  string_kind = λ v. refl;
  bytes_kind = λ v. refl;
  object_members = λ m s. from-to_entries m;
  array_elements = from-to_items;
}

reread-to_entries :
    (m : Assoc Sample) → reread_entries (to_entries m) ≡ to_entries (map_values reread_of m)
unfolding to_entries reread_entries map_values
reread-to_entries [] = refl
reread-to_entries ((name, v) ∷ m) = ap (entry name (reread_of v)) (reread-to_entries m)

reread-to_items : (l : List Sample) → reread_items (to_items l) ≡ to_items (map reread_of l)
unfolding to_items reread_items
reread-to_items [] = refl
reread-to_items (v ∷ l) = ap (item (reread_of v)) (reread-to_items l)

reread-floating :
    (v : ℕ)
    → reread_of (leaf (json_floating v))
      ≡ (if is_finite v then leaf (json_floating v) else leaf json_null)
unfolding reread_of reread_leaf
reread-floating v = refl

abbrev or_empty : Option Text → Text
or_empty none = []
or_empty (some s) = s

parse-dump :
    (j : Sample) (text : Text)
    → sample_library.dump j ≡ some text
    → sample_library.parse text ≡ some (reread_of j)
unfolding sample_library decode result
parse-dump j text h = ap (λ o. decode (or_empty o) []) (sym h) ∙ decode-encode (reread_of j) [] []

pub sample_library-IsTextual : IsTextual sample_library
unfolding sample_library reread_of reread_leaf kind_of decode result
sample_library-IsTextual = record {
  reread = reread_of;
  parse_dump = parse-dump;
  parse_empty = refl;
  reread_null = refl;
  reread_boolean = λ v. refl;
  reread_integer = λ v. refl;
  reread_floating = reread-floating;
  reread_string = λ v. refl;
  reread_bytes_text = λ v. refl;
  reread_binary = λ v. ([], refl);
  reread_members = λ m s. ap object (reread-to_entries m);
  reread_array = λ l. ap array (reread-to_items l);
}
