-- ===== src/TickScheduler/Frames.antt =====
-- The schedule of an entry of src/wasm/tick_scheduler.cpp: missed frames are dropped.
use origindb.Prelude.{
  ℕ, zero, suc, ◌+◌, ◌*◌, ◌≤◌, ◌<◌, ◌≡◌, refl, ◌∙◌, Option, some, Bool-cases, inl, inr, leb, arith,
}
use origindb.TickScheduler.{catch_up}

-- The first time after now that is whole periods after the last one.
pub record IsNextFrame (period next_fire now : ℕ) (o : Option ℕ) : Type 0 where
  pub next : ℕ
  pub periods : ℕ
  pub found : o ≡ some next
  pub on_grid : next ≡ next_fire + periods * period
  pub later : now < next
  pub first : next ≤ now + period

one_more_period : (a k p : ℕ) → a + p + k * p ≡ a + suc k * p
one_more_period a k p = omega arith

catch_up-frame :
    (fuel period next_fire now : ℕ)
    → 0 < period
    → next_fire ≤ now
    → now < next_fire + fuel
    → IsNextFrame period next_fire now (catch_up fuel period next_fire now)
unfolding catch_up
catch_up-frame zero period next_fire now p due enough = absurd (omega arith)
catch_up-frame (suc fuel) period next_fire now p due enough =
    elim (Bool-cases (leb (next_fire + period) now)) [
      | inl again ↦
          let rest =
            catch_up-frame fuel period (next_fire + period) now p (ground (arith, again))
              (omega arith) in
          record {
            next = rest.next;
            periods = suc rest.periods;
            found = rw again rest.found;
            on_grid = rest.on_grid ∙ one_more_period next_fire rest.periods period;
            later = rest.later;
            first = rest.first;
          }
      | inr done ↦ record {
        next = next_fire + period;
        periods = 1;
        found = rw done refl;
        on_grid = omega arith;
        later = ground (arith, done);
        first = omega arith;
      }
    ]

-- With a positive period the inner loop of the dispatcher ends, and the next time of an entry that is
-- due is the first after now that is a whole number of periods after the time it was due.
pub catch_up_next :
    (period next_fire now : ℕ)
    → 0 < period
    → next_fire ≤ now
    → IsNextFrame period next_fire now (catch_up (now + 1) period next_fire now)
catch_up_next period next_fire now p due =
    catch_up-frame (now + 1) period next_fire now p due (omega arith)
