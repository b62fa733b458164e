-- ===== src/Engine/Rows.antt =====
-- Tables up to the versions and the timestamps of their rows, which a replay of the log does not
-- restore: what a client reads at each key of each table.
use origindb.Prelude.{
  ℕ, ◌≡◌, refl, ap, Bool, true, false, Option, none, some, Text, text_eq, Assoc, find, assign,
  find-assign, erase, find-erase, if◌then◌else◌,
}
use mathlib.Core.Path.{fun_ext}
use mathlib.Core.Option
use origindb.Table.{Row, Value}
use origindb.MemTable.{MemTable, get}
use origindb.MemTable.Maps.{
  Write, insert_row, update_row, delete_row, apply_write, written, row_after, write_key,
  get-apply_write,
}
use origindb.Engine.{Tables}

pub record Content : Type 0 where
  pub key : Text
  pub columns : Assoc Value

abbrev pub content_of : Row → Content
content_of row = record { key = row.key; columns = row.columns }

-- What a table shows at each key.
abbrev pub contents_of : MemTable → Text → Option Content
contents_of t key = Option.map content_of (get t key)

-- The same tables are there, and each shows the same.
abbrev pub SameTables : Tables → Tables → Type 0
SameTables a b =
    (name : Text) → Option.map contents_of (find name a) ≡ Option.map contents_of (find name b)

-- Two writes that differ in the clock, the version and the timestamp of the row at most.
pub data SameWrite : Write → Write → Type 0 where
  inserts :
      (row row' : Row)
      → content_of row ≡ content_of row'
      → SameWrite (insert_row row) (insert_row row')
  updates :
      (now now' : ℕ) (key : Text) (row row' : Row)
      → content_of row ≡ content_of row'
      → SameWrite (update_row now key row) (update_row now' key row')
  deletes : (key : Text) → SameWrite (delete_row key) (delete_row key)

after : Write → Option Row → Option Content
after w o = Option.map content_of (row_after (written w o) o)

after-same :
    {w w' : Write} (o o' : Option Row)
    → SameWrite w w'
    → Option.map content_of o ≡ Option.map content_of o'
    → after w o ≡ after w' o'
unfolding after written row_after
after-same none none (inserts row row' s) e = ap some s
after-same (some y) (some x) (inserts row row' s) e = e
after-same none none (updates now now' key row row' s) e = refl
after-same (some y) (some x) (updates now now' key row row' s) e = ap some s
after-same none none (deletes key) e = refl
after-same (some y) (some x) (deletes key) e = refl
after-same none (some x) s e = cc
after-same (some y) none s e = cc

same_key : {w w' : Write} → SameWrite w w' → write_key w ≡ write_key w'
same_key (inserts row row' s) = ap (λ (c : Content). c.key) s
same_key (updates now now' key row row' s) = refl
same_key (deletes key) = refl

contents-at :
    (w : Write) (t : MemTable) (j : Text)
    → contents_of (apply_write w t).0 j
      ≡ (if text_eq (write_key w) j then after w (get t (write_key w)) else contents_of t j)
unfolding after
contents-at w t j = rw ((get-apply_write w t j).1) (push (text_eq (write_key w) j))
  where
    push :
        (b : Bool)
        → Option.map content_of (
            if b
            then row_after (written w (get t (write_key w))) (get t (write_key w))
            else get t j)
          ≡ (if b
              then Option.map content_of
                  (row_after (written w (get t (write_key w))) (get t (write_key w)))
              else contents_of t j)
    push true = refl
    push false = refl

-- Tables that show the same still do after the same write.
pub contents-apply_write :
    (w w' : Write) (t u : MemTable)
    → SameWrite w w'
    → contents_of t ≡ contents_of u
    → contents_of (apply_write w t).0 ≡ contents_of (apply_write w' u).0
contents-apply_write w w' t u s e = fun_ext λ j. rw (
  contents-at w t j,
  contents-at w' u j,
  same_key s,
  after-same (get t (write_key w')) (get u (write_key w')) s (ap (λ f. f (write_key w')) e),
  ap (λ f. f j) e,
)

if-map :
    (b : Bool) (t : MemTable) (o : Option MemTable)
    → Option.map contents_of (if b then some t else o)
      ≡ (if b then some (contents_of t) else Option.map contents_of o)
if-map true t o = refl
if-map false t o = refl

pub SameTables-assign :
    (name : Text) (t u : MemTable) (a b : Tables)
    → contents_of t ≡ contents_of u
    → SameTables a b
    → SameTables (assign name t a) (assign name u b)
SameTables-assign name t u a b e h j =
    rw (find-assign name j t a, find-assign name j u b, if-map, if-map, h j, e)

pub SameTables-erase :
    (name : Text) (a b : Tables) → SameTables a b → SameTables (erase name a) (erase name b)
SameTables-erase name a b h j =
    rw (find-erase name j a, find-erase name j b) (split (text_eq name j))
  where
    split :
        (c : Bool)
        → Option.map contents_of (if c then none else find j a)
          ≡ Option.map contents_of (if c then none else find j b)
    split true = refl
    split false = h j
