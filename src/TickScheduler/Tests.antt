-- ===== src/TickScheduler/Tests.antt =====
-- A run of the scheduler with one entry and one worker.
use origindb.Prelude.{◌≡◌, refl, true, some, [], ◌∷◌, ascii, arith}
use origindb.TickScheduler.{
  Entry, TickScheduler, new_scheduler, add_entry, start, consider, push, take_entry, catch_up,
  entry_at,
}
use origindb.TickScheduler.Exclusive.{
  Reachable, created, added, started, considers, pushes, takes, IsExclusive, Reachable-IsExclusive,
}
use origindb.TickScheduler.Frames.{IsNextFrame, catch_up_next}

abbrev tick : Entry
tick = record { module_name = ascii "game"; reducer = ascii "tick"; args = []; period = 10 }

abbrev ready : TickScheduler
unfolding start add_entry new_scheduler
ready = start (add_entry tick 0 (new_scheduler 1))

abbrev marked : TickScheduler
marked = record {
  num_workers = 1;
  running = true;
  entries = record { entry = tick; next_fire = 30; in_flight = true } ∷ [];
  pending = some 0;
  queue = [];
  executing = [];
  stats = record { executed = 0; skipped = 0; errors = 0; max_exec_us = 0 };
}

ready-considers : consider 25 0 ready ≡ some marked
unfolding consider catch_up entry_at ready start add_entry new_scheduler
ready-considers = refl

abbrev runs : TickScheduler
unfolding take_entry push
runs = take_entry (push marked)

runs-Reachable : Reachable runs
unfolding ready runs push new_scheduler add_entry start
runs-Reachable =
    takes (omega arith)
      (pushes (considers 25 0 refl ready-considers (started (added tick 0 refl (created 1)))))

Reachable-IsExclusive_example : IsExclusive runs
Reachable-IsExclusive_example = Reachable-IsExclusive runs-Reachable

catch_up_next_example : IsNextFrame 10 3 25 (catch_up 26 10 3 25)
catch_up_next_example = catch_up_next 10 3 25 (omega arith) (omega arith)
