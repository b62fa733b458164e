-- ===== src/Changefeed/Wakeup.antt =====
-- The waiting of DeliveryLoop in src/changefeed/changefeed_engine.cpp, and its wakers PublishEvent,
-- Subscribe and Stop. The thread holds `delivery_mutex_` while it evaluates the condition of the wait and up
-- to the moment when it blocks; the wakers do not take that mutex. Each definition is one atomic
-- step, and a step that is not its thread's turn leaves the state as it is. A blocked thread is woken
-- by a notification only: the spurious wakeups that the standard permits are left out.
use origindb.Prelude.{
  ℕ, zero, suc, ◌+◌, ◌≡◌, refl, Bool, true, false, List, [], ◌∷◌, ◌++◌, if◌then◌else◌, arith, All,
}
use origindb.Changefeed.Event.{ChangefeedEvent}

-- Where the delivery thread is: at the condition of its wait, past it with the answer false and not
-- yet blocked, blocked, at work on the queue, or at its end.
pub data Phase : Type 0 where
  evaluating about_to_block asleep draining finished : Phase

-- `notifications` counts the wakers that have changed the state and not yet notified.
pub record Waiting : Type 0 where
  pub queue : List ChangefeedEvent
  pub running : Bool
  pub phase : Phase
  pub notifications : ℕ

-- PublishEvent up to its `notify_one`.
unfoldable pub publish : ChangefeedEvent → Waiting → Waiting
publish event w = record w { queue = w.queue ++ event ∷ []; notifications = w.notifications + 1 }

-- Stop up to its `notify_all`. It returns at once where the engine does not run.
unfoldable pub stop : Waiting → Waiting
stop w = if w.running then record w { running = false; notifications = w.notifications + 1 } else w

-- Subscribe up to its `notify_one`: the callback that it registers is not read by the wait.
unfoldable pub subscribe : Waiting → Waiting
subscribe w = record w { notifications = w.notifications + 1 }

abbrev woken : Phase → Phase
woken asleep = evaluating
woken phase = phase

-- A notification wakes the thread if it is blocked, and is lost if it is not.
unfoldable pub notify : Waiting → Waiting
notify w = elim w.notifications [
  | zero ↦ w
  | suc n ↦ record w { phase = woken w.phase; notifications = n }
]

-- The condition of the wait, `!running_ || !events_.empty()`, and the test of `running_` behind it.
unfoldable pub answer : Bool → List ChangefeedEvent → Phase
answer false queue = finished
answer true [] = about_to_block
answer true (event ∷ queue) = draining

abbrev evaluated : Phase → Phase → Phase
evaluated evaluating next = next
evaluated phase next = phase

unfoldable pub evaluate : Waiting → Waiting
unfolding answer
evaluate w = record w { phase = evaluated w.phase (answer w.running w.queue) }

abbrev blocked : Phase → Phase
blocked about_to_block = asleep
blocked phase = phase

unfoldable pub block : Waiting → Waiting
block w = record w { phase = blocked w.phase }

-- One round of the inner loop, or its end.
unfoldable pub drained : Bool → List ChangefeedEvent → List ChangefeedEvent × Phase
drained true (event ∷ queue) = (queue, draining)
drained true [] = ([], evaluating)
drained false queue = (queue, finished)

unfoldable pub drain : Waiting → Waiting
unfolding drained
drain w = elim w.phase [
  | draining ↦
      let (queue, phase) = drained w.running w.queue in record w { queue = queue; phase = phase }
  | _ ↦ w
]

-- What any of the threads does next.
pub data Move : Type 0 where
  publishes : ChangefeedEvent → Move
  subscribes stops notifies evaluates blocks drains : Move

unfoldable pub move : Move → Waiting → Waiting
unfolding publish subscribe stop notify evaluate block drain
move (publishes event) w = publish event w
move subscribes w = subscribe w
move stops w = stop w
move notifies w = notify w
move evaluates w = evaluate w
move blocks w = block w
move drains w = drain w

unfoldable pub moves : List Move → Waiting → Waiting
unfolding move
moves [] w = w
moves (m ∷ ms) w = moves ms (move m w)

abbrev pub is_waker : Move → Bool
is_waker (publishes event) = true
is_waker subscribes = true
is_waker stops = true
is_waker _ = false

-- No new waker comes.
abbrev pub IsQuiet : List Move → Type 0
IsQuiet ms = All (λ m. is_waker m ≡ false) ms

moves-append : (ms ns : List Move) (w : Waiting) → moves (ms ++ ns) w ≡ moves ns (moves ms w)
unfolding moves
moves-append [] ns w = refl
moves-append (m ∷ ms) ns w = moves-append ms ns (move m w)

-- Blocked, with no notification due.
abbrev pub stuck : List ChangefeedEvent → Bool → Waiting
stuck queue running = record { queue = queue; running = running; phase = asleep; notifications = 0 }

moves-stuck :
    (ms : List Move) (queue : List ChangefeedEvent) (running : Bool)
    → IsQuiet ms
    → moves ms (stuck queue running) ≡ stuck queue running
unfolding moves move notify evaluate block drain
moves-stuck [] queue running h = refl
moves-stuck (publishes event ∷ ms) queue running (h, hs) = absurd (ground (arith, h))
moves-stuck (subscribes ∷ ms) queue running (h, hs) = absurd (ground (arith, h))
moves-stuck (stops ∷ ms) queue running (h, hs) = absurd (ground (arith, h))
moves-stuck (notifies ∷ ms) queue running (h, hs) = moves-stuck ms queue running hs
moves-stuck (evaluates ∷ ms) queue running (h, hs) = moves-stuck ms queue running hs
moves-stuck (blocks ∷ ms) queue running (h, hs) = moves-stuck ms queue running hs
moves-stuck (drains ∷ ms) queue running (h, hs) = moves-stuck ms queue running hs

-- The delivery thread at the condition of its wait, with nothing queued and nobody at work.
abbrev pub idle : Waiting
idle = record { queue = []; running = true; phase = evaluating; notifications = 0 }

missed :
    (event : ChangefeedEvent)
    → (moves (evaluates ∷ publishes event ∷ notifies ∷ blocks ∷ []) idle ≡ stuck (event ∷ []) true)
      × (moves (evaluates ∷ stops ∷ notifies ∷ blocks ∷ []) idle ≡ stuck [] false)
unfolding moves move publish stop notify answer evaluate block
missed event = (refl, refl)

-- A wakeup is lost. The delivery thread finds nothing to do; before it blocks, a publisher queues an
-- event and notifies, or Stop clears `running_` and notifies; then the thread blocks. Whatever the
-- threads do afterwards, as long as no new waker comes and no wakeup is spurious, it stays asleep: in the first case with the
-- event queued and not delivered, in the second with Stop waiting for it to end.
pub lost_wakeup :
    (event : ChangefeedEvent) (ms : List Move)
    → IsQuiet ms
    → (moves ((evaluates ∷ publishes event ∷ notifies ∷ blocks ∷ []) ++ ms) idle
        ≡ stuck (event ∷ []) true)
      × (moves ((evaluates ∷ stops ∷ notifies ∷ blocks ∷ []) ++ ms) idle ≡ stuck [] false)
lost_wakeup event ms h =
    let (published, stopped) = missed event in
    (
      rw (moves-append (evaluates ∷ publishes event ∷ notifies ∷ blocks ∷ []) ms idle, published)
          (moves-stuck ms (event ∷ []) true h),
      rw (moves-append (evaluates ∷ stops ∷ notifies ∷ blocks ∷ []) ms idle, stopped)
          (moves-stuck ms [] false h),
    )
