-- ===== src/TickScheduler/Exclusive.antt =====
-- An entry of src/wasm/tick_scheduler.cpp is marked as in flight exactly while it stands once on its
-- way to a worker's end.
use origindb.Prelude.{
  ℕ, zero, suc, ◌+◌, ◌≤◌, ◌<◌, ◌≡◌, ◌≢◌, refl, sym, ◌∙◌, Bool, true, false, Option, none, some,
  List, [], ◌∷◌, ◌++◌, length, leb, ◌==◌, if◌then◌else◌, arith, inl, inr, Option-cases,
}
use mathlib.Core.Path.{subst}
use origindb.TickScheduler.{
  Entry, Runtime, TickScheduler, new_scheduler, add_entry, entry_at, with_entry, catch_up, consider,
  considered, fired, pending_list, push, take_entry, took, remove_one, cleared, end_run, start,
  stop, snapshot_and_reset,
}

unfoldable pub count : ℕ → List ℕ → ℕ
count i [] = 0
count i (j ∷ js) = (if i == j then 1 else 0) + count i js

abbrev pub mark : Bool → ℕ
mark true = 1
mark false = 0

abbrev pub mark_of : Option Runtime → ℕ
mark_of none = 0
mark_of (some rt) = mark rt.in_flight

-- 1 for an entry that is in flight, else 0.
unfoldable pub flag : ℕ → List Runtime → ℕ
unfolding entry_at
flag i entries = mark_of (entry_at i entries)

count-append : (i : ℕ) (xs ys : List ℕ) → count i (xs ++ ys) ≡ count i xs + count i ys
unfolding count
count-append i [] ys = omega arith
count-append i (x ∷ xs) ys = omega (arith, count-append i xs ys)

-- One occurrence less, where there is one.
count-remove_one :
    (i j : ℕ) (xs : List ℕ)
    → count i xs ≢ 0
    → (count j (remove_one i xs) + (if i == j then 1 else 0) ≡ count j xs)
      × (suc (length (remove_one i xs)) ≡ length xs)
unfolding count remove_one
count-remove_one i j [] h = absurd (h refl)
count-remove_one i j (x ∷ xs) h = ground (arith, count-remove_one i j xs)

flag-with_entry :
    (i j : ℕ) (rt old : Runtime) (entries : List Runtime)
    → entry_at i entries ≡ some old
    → flag j (with_entry i rt entries) ≡ (if i == j then mark rt.in_flight else flag j entries)
unfolding flag with_entry
flag-with_entry i j rt old [] h = cc
flag-with_entry zero zero rt old (r ∷ entries) h = refl
flag-with_entry zero (suc j) rt old (r ∷ entries) h = ground arith
flag-with_entry (suc i) zero rt old (r ∷ entries) h = ground arith
flag-with_entry (suc i) (suc j) rt old (r ∷ entries) h =
    flag-with_entry i j rt old entries h ∙ ground arith

flag-append :
    (i : ℕ) (rt : Runtime) (entries : List Runtime)
    → rt.in_flight ≡ false
    → flag i (entries ++ rt ∷ []) ≡ flag i entries
unfolding flag entry_at
flag-append zero rt [] h = rw h refl
flag-append (suc i) rt [] h = refl
flag-append zero rt (r ∷ entries) h = refl
flag-append (suc i) rt (r ∷ entries) h = flag-append i rt entries h

-- How often an entry stands on its way: marked, queued or run.
unfoldable pub occurrences : ℕ → TickScheduler → ℕ
unfolding count
occurrences i s = count i (pending_list s.pending) + count i s.queue + count i s.executing

pub record IsExclusive (s : TickScheduler) : Type 0 where
  pub marked : (i : ℕ) → occurrences i s ≡ flag i s.entries
  pub bounded : length s.executing ≤ s.num_workers

-- The states that the steps of the threads lead to, in any order and at any times. The dispatcher
-- pushes what it has marked before it looks at the next entry, and a worker runs one entry at a time.
pub data Reachable : TickScheduler → Type 0 where
  created : (num_workers : ℕ) → Reachable (new_scheduler num_workers)
  added :
      {s : TickScheduler} (entry : Entry) (now : ℕ)
      → s.running ≡ false
      → Reachable s
      → Reachable (add_entry entry now s)
  started : {s : TickScheduler} → Reachable s → Reachable (start s)
  stopped : {s : TickScheduler} → Reachable s → Reachable (stop s)
  considers :
      {s s' : TickScheduler} (now i : ℕ)
      → s.pending ≡ none
      → consider now i s ≡ some s'
      → Reachable s
      → Reachable s'
  pushes : {s : TickScheduler} → Reachable s → Reachable (push s)
  takes :
      {s : TickScheduler}
      → length s.executing < s.num_workers
      → Reachable s
      → Reachable (take_entry s)
  ends :
      {s : TickScheduler} (i : ℕ) (success : Bool) (us : ℕ)
      → count i s.executing ≢ 0
      → Reachable s
      → Reachable (end_run i success us s)
  reports : {s : TickScheduler} → Reachable s → Reachable (snapshot_and_reset s).0

mark-bound : (b : Bool) → mark b ≤ 1
mark-bound true = omega arith
mark-bound false = omega arith

flag-bound : (i : ℕ) (entries : List Runtime) → flag i entries ≤ 1
unfolding flag
flag-bound i entries = bound (entry_at i entries)
  where
    bound : (o : Option Runtime) → mark_of o ≤ 1
    bound none = omega arith
    bound (some rt) = mark-bound rt.in_flight

flag-cleared :
    (i j : ℕ) (entries : List Runtime)
    → flag i entries ≢ 0
    → flag j (cleared i entries (entry_at i entries)) ≡ (if i == j then 0 else flag j entries)
unfolding cleared with_entry
flag-cleared i j entries h = elim (Option-cases (entry_at i entries)) [
  | inl e ↦ absurd (h (unfold flag in rw e refl))
  | inr (rt, e) ↦ rw e (flag-with_entry i j (record rt { in_flight = false }) rt entries e)
]

push-IsExclusive : (s : TickScheduler) → IsExclusive s → IsExclusive (push s)
unfolding push occurrences
push-IsExclusive s ok = record {
  marked = λ i. omega (arith, ok.marked i, count-append i s.queue (pending_list s.pending));
  bounded = ok.bounded;
}

take_entry-IsExclusive :
    (s : TickScheduler)
    → length s.executing < s.num_workers
    → IsExclusive s
    → IsExclusive (take_entry s)
unfolding take_entry occurrences
take_entry-IsExclusive s room ok = taken s.queue refl
  where
    taken : (queue : List ℕ) → s.queue ≡ queue → IsExclusive (took queue s)
    taken [] e = ok
    taken (i ∷ queue) e = record {
      marked = λ j.
          let m = ok.marked j in
          let one : count j s.queue ≡ (if j == i then 1 else 0) + count j queue =
            unfold count in rw e refl in
          unfold count in omega (arith, m, one);
      bounded = omega arith;
    }

end_run-IsExclusive :
    (s : TickScheduler) (i : ℕ) (success : Bool) (us : ℕ)
    → count i s.executing ≢ 0
    → IsExclusive s
    → IsExclusive (end_run i success us s)
unfolding end_run occurrences
end_run-IsExclusive s i success us runs ok =
    let on : flag i s.entries ≢ 0 = λ off. runs (omega (arith, ok.marked i, off)) in
    record {
      marked = λ j. ground (
        arith,
        ok.marked i,
        ok.marked j,
        flag-bound i s.entries,
        flag-cleared i j s.entries on,
        count-remove_one i j s.executing runs,
      );
      bounded = omega (arith, ok.bounded, count-remove_one i i s.executing runs);
    }

-- A step of the dispatcher that ends, ends well.
abbrev Keeps : Option TickScheduler → Type 0
Keeps none = Unit {0}
Keeps (some s) = IsExclusive s

if-Keeps :
    (b : Bool) (x y : Option TickScheduler)
    → (b ≡ true → Keeps x)
    → (b ≡ false → Keeps y)
    → Keeps (if b then x else y)
if-Keeps true x y hx hy = hx refl
if-Keeps false x y hx hy = hy refl

if-IsExclusive :
    (b : Bool) (x y : TickScheduler)
    → (b ≡ true → IsExclusive x)
    → (b ≡ false → IsExclusive y)
    → IsExclusive (if b then x else y)
if-IsExclusive true x y hx hy = hx refl
if-IsExclusive false x y hx hy = hy refl

-- An entry gets its next time, and is marked if it is not in flight.
fired-Keeps :
    (s : TickScheduler) (i : ℕ) (rt : Runtime) (caught_up : Option ℕ)
    → s.pending ≡ none
    → entry_at i s.entries ≡ some rt
    → IsExclusive s
    → Keeps (fired i s rt caught_up)
unfolding fired occurrences
fired-Keeps s i rt none free e ok = tt
fired-Keeps s i rt (some next) free e ok =
    let same : (j : ℕ) → count j (pending_list s.pending) ≡ 0 = λ j. unfold count in rw free refl in
    let old : flag i s.entries ≡ mark rt.in_flight = unfold flag in rw e refl in
    if-IsExclusive rt.in_flight _ _
      (λ b. record {
        marked = λ j. ground (
          arith,
          b,
          old,
          ok.marked i,
          ok.marked j,
          flag-with_entry i j (record rt { next_fire = next }) rt s.entries e,
        );
        bounded = ok.bounded;
      })
      (λ b. record {
        marked = λ j. ground (
          arith,
          b,
          old,
          same j,
          ok.marked i,
          ok.marked j,
          flag-with_entry i j (record rt { next_fire = next; in_flight = true }) rt s.entries e,
        );
        bounded = ok.bounded;
      })

considered-Keeps :
    (s : TickScheduler) (now i : ℕ) (o : Option Runtime)
    → s.pending ≡ none
    → entry_at i s.entries ≡ o
    → IsExclusive s
    → Keeps (considered now i s o)
unfolding considered
considered-Keeps s now i none free e ok = ok
considered-Keeps s now i (some rt) free e ok =
    if-Keeps (leb rt.next_fire now) _ _
      (λ due. fired-Keeps s i rt (catch_up (now + 1) rt.entry.period rt.next_fire now) free e ok)
      (λ early. ok)

consider-IsExclusive :
    (s s' : TickScheduler) (now i : ℕ)
    → s.pending ≡ none
    → consider now i s ≡ some s'
    → IsExclusive s
    → IsExclusive s'
unfolding consider
consider-IsExclusive s s' now i free e ok =
    subst Keeps e (considered-Keeps s now i (entry_at i s.entries) free refl ok)

-- In every state that the dispatcher and the workers reach, in any interleaving, an entry is in
-- flight if and only if it stands once in what is marked, queued or run, and else it stands nowhere
-- there: no entry is queued twice or run by two workers. No more entries run than there are workers.
pub Reachable-IsExclusive : {s : TickScheduler} → Reachable s → IsExclusive s
unfolding new_scheduler add_entry start stop snapshot_and_reset occurrences
Reachable-IsExclusive (created num_workers) = record {
  marked = λ i. unfold flag in unfold count in refl;
  bounded = omega arith;
}
Reachable-IsExclusive (added {s} entry now idle r) =
    let ok = Reachable-IsExclusive r in
    record {
      marked = λ i.
          ok.marked i
          ∙ sym (
              flag-append i (record { entry = entry; next_fire = now; in_flight = false }) s.entries
                refl);
      bounded = ok.bounded;
    }
Reachable-IsExclusive (started {s} r) =
    let ok = Reachable-IsExclusive r in record { marked = ok.marked; bounded = ok.bounded }
Reachable-IsExclusive (stopped {s} r) =
    let ok = Reachable-IsExclusive r in record { marked = ok.marked; bounded = ok.bounded }
Reachable-IsExclusive (considers {s} {s'} now i free e r) =
    consider-IsExclusive s s' now i free e (Reachable-IsExclusive r)
Reachable-IsExclusive (pushes {s} r) = push-IsExclusive s (Reachable-IsExclusive r)
Reachable-IsExclusive (takes {s} room r) = take_entry-IsExclusive s room (Reachable-IsExclusive r)
Reachable-IsExclusive (ends {s} i success us runs r) =
    end_run-IsExclusive s i success us runs (Reachable-IsExclusive r)
Reachable-IsExclusive (reports {s} r) =
    let ok = Reachable-IsExclusive r in record { marked = ok.marked; bounded = ok.bounded }
