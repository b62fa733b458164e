-- ===== src/TickScheduler.antt =====
-- src/wasm/tick_scheduler.cpp and include/wasm/tick_scheduler.h: the reducers that run at fixed
-- periods. A time is a number of ticks of the steady clock. The steps are those between which another
-- thread can come: the dispatcher looks at an entry and marks it, it pushes what it has marked, a
-- worker takes from the queue, and a worker ends a run.
pub mod Exclusive
pub mod Frames
mod Tests
use origindb.Prelude.{
  ℕ, zero, suc, ◌+◌, ◌%◌, ◌^◌, Bool, true, false, Option, none, some, Text, List, [], ◌∷◌, ◌++◌,
  length, ltb, leb, ◌==◌, if◌then◌else◌,
}

pub record Entry : Type 0 where
  pub module_name : Text
  pub reducer : Text
  pub args : List Text
  pub period : ℕ

pub record Runtime : Type 0 where
  pub entry : Entry
  pub next_fire : ℕ
  pub in_flight : Bool

pub record Stats : Type 0 where
  pub executed : ℕ
  pub skipped : ℕ
  pub errors : ℕ
  pub max_exec_us : ℕ

-- An entry is known by its position. `pending` is what the dispatcher has marked and not yet pushed,
-- `executing` what the workers run.
pub record TickScheduler : Type 0 where
  pub num_workers : ℕ
  pub running : Bool
  pub entries : List Runtime
  pub pending : Option ℕ
  pub queue : List ℕ
  pub executing : List ℕ
  pub stats : Stats

abbrev pub no_stats : Stats
no_stats = record { executed = 0; skipped = 0; errors = 0; max_exec_us = 0 }

unfoldable pub new_scheduler : ℕ → TickScheduler
new_scheduler num_workers = record {
  num_workers = if num_workers == 0 then 1 else num_workers;
  running = false;
  entries = [];
  pending = none;
  queue = [];
  executing = [];
  stats = no_stats;
}

unfoldable pub add_entry : Entry → ℕ → TickScheduler → TickScheduler
add_entry entry now s = record s {
  entries = s.entries ++ record { entry = entry; next_fire = now; in_flight = false } ∷ [];
}

unfoldable pub entry_at : ℕ → List Runtime → Option Runtime
entry_at i [] = none
entry_at zero (rt ∷ entries) = some rt
entry_at (suc i) (rt ∷ entries) = entry_at i entries

unfoldable pub with_entry : ℕ → Runtime → List Runtime → List Runtime
with_entry i rt [] = []
with_entry zero rt (r ∷ entries) = rt ∷ entries
with_entry (suc i) rt (r ∷ entries) = r ∷ with_entry i rt entries

-- The inner loop of DispatchLoop, which drops missed frames; the fuel has no counterpart in the code.
unfoldable pub catch_up : ℕ → ℕ → ℕ → ℕ → Option ℕ
catch_up zero period next_fire now = none
catch_up (suc fuel) period next_fire now =
    let next = next_fire + period in
    let later = catch_up fuel period next now in if leb next now then later else some next

-- `++` on a uint64_t.
abbrev pub one_more : ℕ → ℕ
one_more n = (n + 1) % 2 ^ 64

abbrev pub fired : ℕ → TickScheduler → Runtime → Option ℕ → Option TickScheduler
unfolding with_entry
fired i s rt none = none
fired i s rt (some next) = some (
    if rt.in_flight
    then record s {
      entries = with_entry i (record rt { next_fire = next }) s.entries;
      stats = record s.stats { skipped = one_more s.stats.skipped };
    }
    else record s {
      entries = with_entry i (record rt { next_fire = next; in_flight = true }) s.entries;
      pending = some i;
    })

abbrev pub considered : ℕ → ℕ → TickScheduler → Option Runtime → Option TickScheduler
unfolding catch_up fired
considered now i s none = some s
considered now i s (some rt) =
    if leb rt.next_fire now
    then fired i s rt (catch_up (now + 1) rt.entry.period rt.next_fire now)
    else some s

-- The dispatcher looks at an entry; none if its inner loop does not end.
unfoldable pub consider : ℕ → ℕ → TickScheduler → Option TickScheduler
unfolding considered entry_at
consider now i s = considered now i s (entry_at i s.entries)

abbrev pub pending_list : Option ℕ → List ℕ
pending_list none = []
pending_list (some i) = i ∷ []

-- `queue_.push`
unfoldable pub push : TickScheduler → TickScheduler
push s = record s { queue = s.queue ++ pending_list s.pending; pending = none }

abbrev pub took : List ℕ → TickScheduler → TickScheduler
took [] s = s
took (i ∷ queue) s = record s { queue = queue; executing = i ∷ s.executing }

-- A worker takes the entry at the front of the queue.
unfoldable pub take_entry : TickScheduler → TickScheduler
take_entry s = took s.queue s

unfoldable pub remove_one : ℕ → List ℕ → List ℕ
remove_one i [] = []
remove_one i (j ∷ js) = let rest = remove_one i js in if i == j then js else j ∷ rest

abbrev pub cleared : ℕ → List Runtime → Option Runtime → List Runtime
unfolding with_entry
cleared i entries none = entries
cleared i entries (some rt) = with_entry i (record rt { in_flight = false }) entries

-- A run ends with the success that ExecuteReducer answers, after `us` microseconds.
unfoldable pub end_run : ℕ → Bool → ℕ → TickScheduler → TickScheduler
unfolding remove_one cleared entry_at
end_run i success us s = record s {
  executing = remove_one i s.executing;
  entries = cleared i s.entries (entry_at i s.entries);
  stats = record s.stats {
    errors = if success then s.stats.errors else one_more s.stats.errors;
    executed = one_more s.stats.executed;
    max_exec_us = if ltb s.stats.max_exec_us us then us else s.stats.max_exec_us;
  };
}

unfoldable pub start : TickScheduler → TickScheduler
start s = record s { running = true }

unfoldable pub stop : TickScheduler → TickScheduler
stop s = record s { running = false }

unfoldable pub snapshot_and_reset : TickScheduler → TickScheduler × (Stats × ℕ)
snapshot_and_reset s = (record s { stats = no_stats }, (s.stats, length s.entries))
