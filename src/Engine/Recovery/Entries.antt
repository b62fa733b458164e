-- ===== src/Engine/Recovery/Entries.antt =====
-- What the entries of one operation make of the tables when they are replayed.
use origindb.Prelude.{
  ℕ, ◌+◌, ◌≡◌, refl, ap, ◌∙◌, false, none, some, Text, find, assign, erase, List, [], ◌∷◌, ◌++◌,
  map, arith, Option-cases, inl, inr, length,
}
use origindb.Table.{TableSchema}
use origindb.MemTable.{MemTable, get, new_table, is_empty}
use origindb.Wal.Record.{create_table, drop_table}
use origindb.Wal.Log.{Change, change_of}
use origindb.Engine.{Json, Tables}
use origindb.Engine.Methods.{has_table, metadata_entry, schema_of_payload}
use origindb.Engine.Rows.{contents_of, SameTables}
use origindb.Engine.Recovery.{replay, replay_as}

pub replay-append :
    (json : Json) (clock : ℕ → ℕ) (i : ℕ) (a b : List Change) (tables : Tables)
    → replay json clock i (a ++ b) tables
      ≡ replay json clock (i + length a) b (replay json clock i a tables)
unfolding replay
replay-append json clock i [] b tables = ap (λ k. replay json clock k b tables) (omega arith)
replay-append json clock i (c ∷ a) b tables =
    replay-append json clock (i + 1) a b (replay_as json c.type (clock i) c tables)
    ∙ ap
        (λ k.
          replay json clock k b
            (replay json clock (i + 1) a (replay_as json c.type (clock i) c tables)))
        (omega arith)

pub SameTables-refl : (a : Tables) → SameTables a a
SameTables-refl a name = refl

pub missing :
    (name : Text) (a b : Tables) → SameTables a b → find name a ≡ none → find name b ≡ none
missing name a b same absent = elim (Option-cases (find name b)) [
  | inl n ↦ n
  | inr (u, n) ↦ absurd (ground (arith, same name))
]

pub present :
    (name : Text) (t : MemTable) (a b : Tables)
    → SameTables a b
    → find name a ≡ some t
    → (u : MemTable) × (find name b ≡ some u)
present name t a b same there = elim (Option-cases (find name b)) [
  | inl n ↦ absurd (ground (arith, same name))
  | inr found ↦ found
]

pub new_table-empty : (s s' : TableSchema) → contents_of (new_table s) ≡ contents_of (new_table s')
unfolding new_table get find
new_table-empty s s' = refl

pub replay-create_table :
    (json : Json) (clock : ℕ → ℕ) (j : ℕ) (schema parsed : TableSchema) (text : Text)
    (tables : Tables)
    → find schema.name tables ≡ none
    → is_empty text ≡ false
    → json.schema_of_text text ≡ some parsed
    → parsed.name ≡ schema.name
    → replay json clock j (map change_of (metadata_entry create_table schema.name text ∷ [])) tables
      ≡ assign schema.name (new_table parsed) tables
unfolding replay replay_as schema_of_payload has_table
replay-create_table json clock j schema parsed text tables absent full parses named =
    rw (full, parses, named, absent) refl

pub replay-drop_table :
    (json : Json) (clock : ℕ → ℕ) (j : ℕ) (name : Text) (t : MemTable) (tables : Tables)
    → find name tables ≡ some t
    → replay json clock j (map change_of (metadata_entry drop_table name [] ∷ [])) tables
      ≡ erase name tables
unfolding replay replay_as
replay-drop_table json clock j name t tables there = ground (arith, there)
