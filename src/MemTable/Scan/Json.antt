-- ===== src/MemTable/Scan/Json.antt =====
-- A scan through the cache shows the callback what a plain scan and the serializer would.
use origindb.Prelude.{
  ◌≡◌, refl, Bool, some, Text, text_eq_iff, text_ltb_irrefl, Assoc, find, IsAbove, IsAbove-trans,
  IsSorted, All, [], ◌∷◌, arith, Bool-cases, inl, inr,
}
use origindb.Table.{Row}
use origindb.MemTable.{
  MemTable, lower_bound, past_end, scan_loop, scan, cached_json, scan_json_loop, scan_json_cached,
}
use origindb.MemTable.Cache.{CacheAgrees, IsTable, cached_json-agrees}
use origindb.MemTable.Scan.{lower_bound_start}

-- The entries of `m` are those that `rows` has at their keys.
abbrev Entries : Assoc Row → Assoc Row → Type 0
Entries rows = All (λ e. find e.0 rows ≡ some e.1)

Entries-cons :
    (k : Text) (w : Row) (rows m : Assoc Row)
    → IsAbove k m
    → Entries rows m
    → Entries ((k, w) ∷ rows) m
unfolding find
Entries-cons k w rows [] a h = tt
Entries-cons k w rows ((j, row) ∷ m) (b, a) (e, h) = (
  ground (arith, text_eq_iff k j, text_ltb_irrefl j),
  Entries-cons k w rows m (IsAbove-trans k j m b a) h,
)

Entries-self : (m : Assoc Row) → IsSorted m → Entries m m
unfolding find
Entries-self [] a = tt
Entries-self ((j, row) ∷ m) a =
    (ground (arith, text_eq_iff j j), Entries-cons j row m m a (Entries-self m (tail m a)))
  where
    tail : (l : Assoc Row) → IsAbove j l → IsSorted l
    tail [] b = tt
    tail ((i, r) ∷ l) (b, c) = c

Entries-lower_bound :
    (start : Text) (rows m : Assoc Row) → Entries rows m → Entries rows (lower_bound start m)
unfolding lower_bound
Entries-lower_bound start rows [] h = tt
Entries-lower_bound start rows ((j, row) ∷ m) (e, h) =
    ground (arith, Entries-lower_bound start rows m h)

module _ {ℓ} {S : Type ℓ} (ser : Row → Text) (end : Text) (cb : S → Text → Text → S × Bool) where
  -- The callback of the plain scan.
  abbrev pub rendered : S → Text → Row → S × Bool
  rendered s key row = cb s key (ser row)

  scan_json_loop_lem :
      (rows : Assoc Row) (s : S) (m : Assoc Row) (cache : Assoc Text)
      → Entries rows m
      → CacheAgrees ser rows cache
      → ((scan_json_loop ser end cb s m cache).0 ≡ scan_loop end rendered s m)
        × CacheAgrees ser rows (scan_json_loop ser end cb s m cache).1
  unfolding scan_json_loop scan_loop
  scan_json_loop_lem rows s [] cache h c = (refl, c)
  scan_json_loop_lem rows s ((j, row) ∷ m) cache (e, h) c = elim (Bool-cases (past_end end j)) [
    | inl p ↦ rw p (refl, c)
    | inr p ↦
        let (json, agrees) = cached_json-agrees ser j row rows cache c e in
        elim (Bool-cases (cb s j (ser row)).1) [
          | inl more ↦
              rw (p, json, more)
                (scan_json_loop_lem rows (cb s j (ser row)).0 m (cached_json ser j row cache).1 h
                  agrees)
          | inr stop ↦ rw (p, json, stop) (refl, agrees)
        ]
  ]

  -- A scan of a well-formed table through the cache hands the callback the text that the
  -- serializer makes of every row that a plain scan would visit, in the same order and with the
  -- same stop, and leaves the rows alone and the table well formed.
  pub scan_json_cached-scan :
      (start : Text) (s : S) (t : MemTable)
      → IsTable ser t
      → ((scan_json_cached ser start end cb s t).0 ≡ scan start end rendered s t)
        × IsTable ser (scan_json_cached ser start end cb s t).1
        × ((scan_json_cached ser start end cb s t).1.rows ≡ t.rows)
  unfolding scan_json_cached scan
  scan_json_cached-scan start s t h =
      let (same, agrees) =
        scan_json_loop_lem t.rows s (lower_bound start t.rows) t.json_cache
          (Entries-lower_bound start t.rows t.rows (Entries-self t.rows h.sorted)) h.cache in
      rw (lower_bound_start start t.rows) (same, record { sorted = h.sorted; cache = agrees }, refl)
