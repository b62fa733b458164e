-- ===== src/Changefeed/Retained.antt =====
-- The history that src/changefeed/changefeed_engine.cpp retains, and what GetEvents reads of it.
use origindb.Prelude.{
  ℕ, zero, suc, ◌+◌, ◌-◌, ◌*◌, ◌/◌, ◌%◌, ◌^◌, ◌<◌, ◌≤◌, ◌≡◌, refl, ap, ◌∙◌, Text, List, [], ◌∷◌,
  ◌++◌, length, take, arith, if◌then◌else◌, leb, ◌&&◌, length-drop, length-append,
}
use origindb.Changefeed.Event.{ChangefeedEvent}
use origindb.Changefeed.{
  ChangefeedConfig, Feed, trim, publish_event, get_events, get_events_loop, matches_filter,
}
use origindb.Changefeed.Offsets.{IsRun, IsFeed}

trim-length :
    (cap : ℕ) (events : List ChangefeedEvent)
    → 0 < cap
    → cap < 2 ^ 62
    → length events ≤ cap + 1
    → length (trim cap events) ≤ cap
unfolding trim
trim-length cap events pos small h =
    ground (arith, length-drop (length events - cap * 3 % 2 ^ 64 / 4) events)

module _ {C : Type 0} where
  -- Publishing keeps a history that is within `max_lag_entries` events within it, where that is
  -- neither 0 nor so large that three times it would wrap round.
  pub publish_event-bound :
      (config : ChangefeedConfig) (now : ℕ) (event : ChangefeedEvent) (feed : Feed C)
      → 0 < config.max_lag_entries
      → config.max_lag_entries < 2 ^ 62
      → length feed.all_events ≤ config.max_lag_entries
      → length (publish_event config now event feed).all_events ≤ config.max_lag_entries
  unfolding publish_event
  publish_event-bound config now event feed pos small h =
      let stamped = record event { offset = feed.next_offset; timestamp = now } in
      trim-length config.max_lag_entries (feed.all_events ++ stamped ∷ []) pos small
        (omega (arith, length-append feed.all_events (stamped ∷ [])))

  -- The events from an offset on that match the filter of a subscription.
  unfoldable pub selected : Text → ℕ → Feed C → List ChangefeedEvent → List ChangefeedEvent
  selected id start feed [] = []
  selected id start feed (event ∷ events) =
      let rest = selected id start feed events in
      if leb start event.offset && matches_filter id event feed then event ∷ rest else rest

  get_events_loop-take :
      (id : Text) (start limit : ℕ) (events : List ChangefeedEvent) (found n : ℕ) (feed : Feed C)
      → limit ≤ found + suc n
      → found + n < limit + (1 - limit)
      → get_events_loop id start limit events found feed
        ≡ take (suc n) (selected id start feed events)
  unfolding get_events_loop selected
  get_events_loop-take id start limit [] found n feed h k = refl
  get_events_loop-take id start limit (event ∷ events) found zero feed h k =
      ground (arith, get_events_loop-take id start limit events found zero feed h k)
  get_events_loop-take id start limit (event ∷ events) found (suc m) feed h k = ground (
    arith,
    get_events_loop-take id start limit events (found + 1) m feed (omega arith) (omega arith),
    get_events_loop-take id start limit events found (suc m) feed h k,
  )

  selected-lower :
      (id : Text) (start start' lo hi : ℕ) (feed : Feed C) (events : List ChangefeedEvent)
      → IsRun lo hi events
      → start ≤ lo
      → start' ≤ lo
      → selected id start feed events ≡ selected id start' feed events
  unfolding selected
  selected-lower id start start' lo hi feed [] h l l' = refl
  selected-lower id start start' lo hi feed (x ∷ events) (a, b, h) l l' =
      ground (arith, selected-lower id start start' (x.offset + 1) hi feed events h)

  selected-above :
      (id : Text) (start lo hi : ℕ) (feed : Feed C) (events front back : List ChangefeedEvent)
      (last : ChangefeedEvent)
      → IsRun lo hi events
      → selected id start feed events ≡ front ++ last ∷ back
      → lo ≤ last.offset
  unfolding selected
  selected-above id start lo hi feed [] [] back last h e = absurd (ground arith)
  selected-above id start lo hi feed [] (y ∷ front) back last h e = absurd (ground arith)
  selected-above id start lo hi feed (x ∷ events) [] back last (a, b, h) e =
      ground (arith, selected-above id start (x.offset + 1) hi feed events [] back last h)
  selected-above id start lo hi feed (x ∷ events) (y ∷ front) back last (a, b, h) e = ground (
    arith,
    selected-above id start (x.offset + 1) hi feed events (y ∷ front) back last h,
    selected-above id start (x.offset + 1) hi feed events front back last h,
  )

  selected-after :
      (id : Text) (start lo hi : ℕ) (feed : Feed C) (events front back : List ChangefeedEvent)
      (last : ChangefeedEvent)
      → IsRun lo hi events
      → selected id start feed events ≡ front ++ last ∷ back
      → selected id (last.offset + 1) feed events ≡ back
  unfolding selected
  selected-after id start lo hi feed [] [] back last h e = absurd (ground arith)
  selected-after id start lo hi feed [] (y ∷ front) back last h e = absurd (ground arith)
  selected-after id start lo hi feed (x ∷ events) [] back last (a, b, h) e = ground (
    arith,
    selected-after id start (x.offset + 1) hi feed events [] back last h,
    selected-above id start (x.offset + 1) hi feed events [] back last h,
    selected-lower id start (last.offset + 1) (x.offset + 1) hi feed events h,
  )
  selected-after id start lo hi feed (x ∷ events) (y ∷ front) back last (a, b, h) e = ground (
    arith,
    selected-after id start (x.offset + 1) hi feed events (y ∷ front) back last h,
    selected-after id start (x.offset + 1) hi feed events front back last h,
    selected-above id start (x.offset + 1) hi feed events (y ∷ front) back last h,
    selected-above id start (x.offset + 1) hi feed events front back last h,
  )

  -- GetEvents gives the first `limit` of the retained events that match the subscription's filter
  -- from the offset on, in their order; a limit of 0 gives one event.
  pub get_events-take :
      (id : Text) (start n : ℕ) (feed : Feed C)
      → (get_events id start (suc n) feed ≡ take (suc n) (selected id start feed feed.all_events))
        × (get_events id start 0 feed ≡ take 1 (selected id start feed feed.all_events))
  unfolding get_events
  get_events-take id start n feed = (
    get_events_loop-take id start (suc n) feed.all_events 0 n feed (omega arith) (omega arith),
    get_events_loop-take id start 0 feed.all_events 0 0 feed (omega arith) (omega arith),
  )

  -- Paging loses and repeats nothing: where `last` is among the events that match from `start` on,
  -- the next page from the offset after it begins with the events that follow it. The retained
  -- events have ascending offsets.
  pub get_events-next_page :
      (id : Text) (start : ℕ) (feed : Feed C) (front back : List ChangefeedEvent)
      (last : ChangefeedEvent) (n : ℕ)
      → IsFeed feed
      → selected id start feed feed.all_events ≡ front ++ last ∷ back
      → get_events id (last.offset + 1) (suc n) feed ≡ take (suc n) back
  get_events-next_page id start feed front back last n h e =
      (get_events-take id (last.offset + 1) n feed).0
      ∙ ap (take (suc n)) (
          selected-after id start 1 feed.next_offset feed feed.all_events front back last h.retained
            e)
