-- ===== src/Wasm/Commit/MissingTables.antt =====
-- The creation of missing tables in CommitHostCall of src/wasm/host_functions.cpp.
use origindb.Prelude.{
  ◌≡◌, ◌≢◌, refl, true, Option, none, some, Text, [], ◌∷◌, Assoc, Bool-cases, ◌⊎◌, inl, inr, find,
}
use origindb.Wal.Log.{Log}
use origindb.Engine.{Json, Engine}
use origindb.Table.{TableSchema}
use origindb.Engine.Methods.{
  Creation, created, existing, thrown, create_missing, has_table, create, get_table,
}
use origindb.Document.{JsonLibrary}
use origindb.Wasm.Rows.{schema_from_json}
use origindb.Wasm.Commit.{
  Outcome, succeeded, failed, broken_off, first_value, after_creation, make_missing, and_then,
  auto_create,
}

module _ (L : Log) (json : Json) {J : Type 0} (library : JsonLibrary J) where
  -- Creating the missing tables does not fail: it is done, or an exception breaks it off.
  abbrev pub IsMade : Outcome → Type 0
  IsMade o = (o ≡ succeeded) ⊎ (o ≡ broken_off)

  after_creation-IsMade :
      (table : Text) (x : Engine L.State × Creation)
      → (x.1 ≡ existing → has_table (get_table L json table x.0) ≡ true)
      → IsMade (after_creation L json library table x).1
  unfolding IsMade get_table after_creation
  after_creation-IsMade table (e, created) h = inl refl
  after_creation-IsMade table (e, thrown) h = inr refl
  after_creation-IsMade table (e, existing) h = rw (h refl) (inl refl)

  create_missing-existing :
      (schema : TableSchema) (e : Engine L.State) (text : Option Text)
      → (create_missing L json schema e text).1 ≢ existing
  unfolding create_missing
  create_missing-existing schema e none h = cc
  create_missing-existing schema e (some text) h = cc

  create-existing :
      (schema : TableSchema) (e : Engine L.State)
      → (create L json schema e).1 ≡ existing
      → has_table (get_table L json schema.name (create L json schema e).0) ≡ true
  unfolding create get_table
  create-existing schema e h = elim (Bool-cases (has_table (find schema.name e.tables))) [
    | inl there ↦ rw (there, there) refl
    | inr absent ↦
        absurd (create_missing-existing schema e (json.schema_text schema) (rw absent at h))
  ]

  make_missing-IsMade :
      (table : Text) (value : Option J) (e : Engine L.State)
      → IsMade (make_missing L json library table value e).1
  unfolding IsMade schema_from_json make_missing
  make_missing-IsMade table none e = inl refl
  make_missing-IsMade table (some value) e =
      after_creation-IsMade table (create L json (schema_from_json library table value) e)
        (create-existing (schema_from_json library table value) e)

  and_then-IsMade :
      (x : Engine L.State × Outcome) (next : Engine L.State → Engine L.State × Outcome)
      → IsMade x.1
      → ((e : Engine L.State) → IsMade (next e).1)
      → IsMade (and_then L json library x next).1
  and_then-IsMade (e, succeeded) next made h = h e
  and_then-IsMade (e, failed error) next made h = made
  and_then-IsMade (e, broken_off) next made h = made

  -- A creation never answers that it failed.
  pub auto_create-IsMade :
      (overlay : Assoc (Assoc (Option J))) (e : Engine L.State)
      → IsMade (auto_create L json library overlay e).1
  unfolding auto_create IsMade
  auto_create-IsMade [] e = inl refl
  auto_create-IsMade ((table, writes) ∷ overlay) e =
      and_then-IsMade _ (auto_create L json library overlay)
        (elim (Bool-cases (has_table (get_table L json table e))) [
          | inl h ↦ rw h (inl refl)
          | inr h ↦ rw h (make_missing-IsMade table (first_value writes) e)
        ])
        (auto_create-IsMade overlay)
