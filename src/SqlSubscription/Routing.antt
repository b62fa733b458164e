-- ===== src/SqlSubscription/Routing.antt =====
-- `ProcessEvent` of src/changefeed/sql_subscription.cpp against a scan of all subscriptions.
use mathlib.Core.List.{Perm, perm_middle}
use mathlib.Core.List.Perm
use origindb.Prelude.{
  Distinct, ◌≡◌, ◌≢◌, refl, Bool, true, false, Option, none, some, Text, List, [], ◌∷◌, ◌++◌, All,
  text_eq_iff, text_eq_refl, if◌then◌else◌, arith, Assoc, find, Bool-cases, inl, inr,
}
use origindb.Changefeed.Event.{ChangefeedEvent}
use origindb.Predicate.Tree.{JsonView, Comparable}
use origindb.SqlSubscription.{SqlSubscription, Manager, is_all_tables}
use origindb.SqlSubscription.Index.{ids_where, IsIndexed, on_table, catches_all}
use origindb.SqlSubscription.Matching.{
  matches_columns, matches_event, filter_event, evaluated, added, evaluate_all, process_event, scan,
}
use origindb.SqlSubscription.Steps.{IsNamed}

-- Each entry of the list is what its key stands for in the map.
abbrev Found : {S : Type 0} → Assoc S → Text × S → Type 0
Found m (id, s) = find id m ≡ some s

module _ {S : Type 0} where
  Found-cons :
      (j : Text) (r : S) (m l : Assoc S)
      → find j m ≡ none
      → All (Found m) l
      → All (Found ((j, r) ∷ m)) l
  unfolding find
  Found-cons j r m [] h a = tt
  Found-cons j r m ((id, s) ∷ l) h (f, a) =
      (ground (arith, text_eq_iff j id), Found-cons j r m l h a)

  Distinct-Found : (m : Assoc S) → Distinct m → All (Found m) m
  unfolding find
  Distinct-Found [] d = tt
  Distinct-Found ((j, r) ∷ m) (h, d) =
      (ground (arith, text_eq_refl j), Found-cons j r m m h (Distinct-Found m d))

module _ {J D : Type 0} (json : JsonView J D) (doubles : Comparable D)
    (regex_match : Text → Text → Bool) (parse_json : Text → Option J) (dump : Assoc J → Option Text)
    (event : ChangefeedEvent) where
  -- The test of `MatchesEvent` at the event.
  matches : SqlSubscription D → Bool
  matches sub = matches_event json doubles regex_match parse_json dump sub event

  -- The part of the scan that the test selects.
  scan_where :
      (SqlSubscription D → Bool) → Assoc (SqlSubscription D) → List (Text × ChangefeedEvent)
  scan_where p [] = []
  scan_where p ((id, sub) ∷ subs) =
      if p sub
      then added (evaluated json doubles regex_match parse_json dump event (some sub))
          (scan_where p subs)
      else scan_where p subs

  evaluate_all-ids_where :
      (p : SqlSubscription D → Bool) (m l : Assoc (SqlSubscription D))
      → All (Found m) l
      → evaluate_all json doubles regex_match parse_json dump event m (ids_where p l)
        ≡ scan_where p l
  unfolding ids_where scan_where evaluate_all
  evaluate_all-ids_where p m [] a = refl
  evaluate_all-ids_where p m ((id, s) ∷ l) (f, a) = ground (arith, evaluate_all-ids_where p m l a)

  abbrev Splits :
      (SqlSubscription D → Bool) → (SqlSubscription D → Bool) → SqlSubscription D → Type 0
  Splits p q s = (p s ≡ true → q s ≡ false) × (p s ≡ false → q s ≡ false → matches s ≡ false)

  result : SqlSubscription D → Text × ChangefeedEvent
  result s = (s.client_id, filter_event json doubles regex_match parse_json dump s event)

  -- Tests that exclude each other, and one of which holds of each match, split the scan.
  scan-Perm :
      (p q : SqlSubscription D → Bool) (l : Assoc (SqlSubscription D))
      → All (λ ((id, s) : Text × SqlSubscription D). Splits p q s) l
      → Perm
          (scan_where p l ++ scan_where q l)
          (scan json doubles regex_match parse_json dump event l)
  unfolding scan_where scan evaluated matches_event matches result
  scan-Perm p q [] a = Perm.refl []
  scan-Perm p q ((id, s) ∷ l) ((apart, covers), a) =
      let ih = scan-Perm p q l a in
      elim (Bool-cases (p s)) [
        | inl e ↦ elim (Bool-cases (matches s)) [
          | inl k ↦ rw (e, apart e, k) (Perm.cons (result s) ih)
          | inr k ↦ rw (e, apart e, k) ih
        ]
        | inr e ↦ elim (Bool-cases (q s)) [
          | inl o ↦ elim (Bool-cases (matches s)) [
            | inl k ↦
                rw (e, o, k)
                  (Perm.trans (perm_middle (scan_where p l) (scan_where q l))
                    (Perm.cons (result s) ih))
            | inr k ↦ rw (e, o, k) ih
          ]
          | inr o ↦ rw (e, o, covers e o) ih
        ]
      ]

  unmatched :
      (s : SqlSubscription D)
      → (is_all_tables s.type ≡ false → s.table_name ≢ [])
      → Splits (on_table event.table) catches_all s
  unfolding matches matches_event matches_columns
  unmatched s named = (
    λ h. ground arith,
    λ h k. ground (
      arith,
      named k,
      text_eq_iff event.table s.table_name,
      text_eq_iff s.table_name event.table,
    ),
  )

  All-unmatched :
      (m l : Assoc (SqlSubscription D))
      → ((id : Text) (s : SqlSubscription D)
          → find id m ≡ some s
          → is_all_tables s.type ≡ false
          → s.table_name ≢ [])
      → All (Found m) l
      → All (λ ((id, s) : Text × SqlSubscription D). Splits (on_table event.table) catches_all s) l
  All-unmatched m [] named a = tt
  All-unmatched m ((id, s) ∷ l) named (f, a) =
      (unmatched s (named id s f), All-unmatched m l named a)

  -- The indexes lose no subscription and serve none twice: what `ProcessEvent` returns is, up to the
  -- order, what a scan of all subscriptions returns.
  pub process_event-Perm-scan :
      (m : Manager D)
      → IsIndexed m
      → IsNamed m
      → Perm
          (process_event json doubles regex_match parse_json dump event m)
          (scan json doubles regex_match parse_json dump event m.subscriptions)
  unfolding process_event
  process_event-Perm-scan m ok named =
      let found = Distinct-Found m.subscriptions ok.distinct in
      rw
        (
          ok.tables event.table,
          ok.catch_alls,
          evaluate_all-ids_where (on_table event.table) m.subscriptions m.subscriptions found,
          evaluate_all-ids_where catches_all m.subscriptions m.subscriptions found,
        )
        (scan-Perm (on_table event.table) catches_all m.subscriptions
          (All-unmatched m.subscriptions m.subscriptions named.names found))
