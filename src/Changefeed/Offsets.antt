-- ===== src/Changefeed/Offsets.antt =====
-- The offsets of src/changefeed/changefeed_engine.cpp ascend, and its subscriptions are apart.
use origindb.Prelude.{
  ℕ, zero, suc, ◌+◌, ◌-◌, ◌*◌, ◌/◌, ◌%◌, ◌^◌, ◌<◌, ◌≤◌, ◌≡◌, refl, sym, ap, ◌∙◌, none, Text,
  text_eq, text_eq_iff, find, assign, erase, Assoc, List, [], ◌∷◌, ◌++◌, append_assoc, append-nil,
  length, drop, arith, ltb, ◌&&◌, to_text-injective, Bool-cases, inl, inr,
}
use origindb.Changefeed.Event.{ChangefeedEvent}
use origindb.Changefeed.{
  ChangefeedConfig, Feed, Subscription, SubscriptionFilter, DeliveryMode, subscription_id_of, trim,
  publish_event, publish_batch, create_subscription, compact_events, keep_from,
}

-- Ascending offsets from `lo` on and below `hi`.
abbrev pub IsRun : ℕ → ℕ → List ChangefeedEvent → Type 0
IsRun lo hi [] = Unit {0}
IsRun lo hi (event ∷ events) =
    (lo ≤ event.offset) × (event.offset < hi) × IsRun (event.offset + 1) hi events

-- Every subscription has an id that has been given out.
abbrev pub Numbered : ℕ → Assoc Subscription → Type 0
Numbered n [] = Unit {0}
Numbered n ((id, sub) ∷ subs) = ((k : ℕ) × (k < n) × (id ≡ subscription_id_of k)) × Numbered n subs

-- The retained events and the queue have ascending offsets that were given out, and the keys of
-- the subscriptions are ids that were given out.
pub record IsFeed {C : Type 0} (feed : Feed C) : Type 0 where
  pub retained : IsRun 1 feed.next_offset feed.all_events
  pub queued : IsRun 1 feed.next_offset feed.events
  pub started : 1 ≤ feed.next_offset
  pub numbered : Numbered feed.next_subscription_id feed.subscriptions

IsRun-snoc :
    (lo hi : ℕ) (events : List ChangefeedEvent) (event : ChangefeedEvent)
    → IsRun lo hi events
    → lo ≤ hi
    → event.offset ≡ hi
    → IsRun lo (hi + 1) (events ++ event ∷ [])
IsRun-snoc lo hi [] event h l e = (omega arith, omega arith, tt)
IsRun-snoc lo hi (x ∷ events) event (a, b, h) l e =
    (a, omega arith, IsRun-snoc (x.offset + 1) hi events event h (omega arith) e)

IsRun-lower :
    (lo lo' hi : ℕ) (events : List ChangefeedEvent)
    → lo' ≤ lo
    → IsRun lo hi events
    → IsRun lo' hi events
IsRun-lower lo lo' hi [] l h = tt
IsRun-lower lo lo' hi (x ∷ events) l (a, b, h) = (omega arith, b, h)

IsRun-drop :
    (lo hi n : ℕ) (events : List ChangefeedEvent) → IsRun lo hi events → IsRun lo hi (drop n events)
IsRun-drop lo hi zero events h = h
IsRun-drop lo hi (suc n) [] h = tt
IsRun-drop lo hi (suc n) (x ∷ events) (a, b, h) =
    IsRun-drop lo hi n events (IsRun-lower (x.offset + 1) lo hi events (omega arith) h)

IsRun-trim :
    (lo hi cap : ℕ) (events : List ChangefeedEvent)
    → IsRun lo hi events
    → IsRun lo hi (trim cap events)
unfolding trim
IsRun-trim lo hi cap events h = elim (Bool-cases (ltb 0 cap && ltb cap (length events))) [
  | inl s ↦ rw s (IsRun-drop lo hi (length events - cap * 3 % 2 ^ 64 / 4) events h)
  | inr s ↦ rw s h
]

IsRun-keep_from :
    (lo hi cutoff : ℕ) (events : List ChangefeedEvent)
    → IsRun lo hi events
    → IsRun lo hi (keep_from cutoff events)
unfolding keep_from
IsRun-keep_from lo hi cutoff [] h = tt
IsRun-keep_from lo hi cutoff (x ∷ events) (a, b, h) = elim (Bool-cases (ltb x.timestamp cutoff)) [
  | inl s ↦ rw s (
      IsRun-lower (x.offset + 1) lo hi (keep_from cutoff events) (omega arith)
        (IsRun-keep_from (x.offset + 1) hi cutoff events h))
  | inr s ↦ rw s (a, b, IsRun-keep_from (x.offset + 1) hi cutoff events h)
]

Numbered-suc : (n : ℕ) (subs : Assoc Subscription) → Numbered n subs → Numbered (n + 1) subs
Numbered-suc n [] h = tt
Numbered-suc n (x ∷ subs) ((k, l, e), h) = ((k, omega arith, e), Numbered-suc n subs h)

Numbered-assign :
    (n k : ℕ) (sub : Subscription) (subs : Assoc Subscription)
    → k < n
    → Numbered n subs
    → Numbered n (assign (subscription_id_of k) sub subs)
unfolding assign
Numbered-assign n k sub [] l h = ((k, l, refl), tt)
Numbered-assign n k sub ((id, x) ∷ subs) l (i, h) =
    elim (Bool-cases (text_eq id (subscription_id_of k))) [
      | inl s ↦ rw s (i, h)
      | inr s ↦ rw s (i, Numbered-assign n k sub subs l h)
    ]

Numbered-erase :
    (n : ℕ) (id : Text) (subs : Assoc Subscription) → Numbered n subs → Numbered n (erase id subs)
unfolding erase
Numbered-erase n id [] h = tt
Numbered-erase n id ((j, x) ∷ subs) (i, h) = elim (Bool-cases (text_eq j id)) [
  | inl s ↦ rw s (Numbered-erase n id subs h)
  | inr s ↦ rw s (i, Numbered-erase n id subs h)
]

tail_eq : {x y : ℕ} {xs ys : Text} → x ∷ xs ≡ y ∷ ys → xs ≡ ys
tail_eq e = ap (λ (t : Text). drop 1 t) e

apart : (k n : ℕ) → k < n → n < 2 ^ 64 → subscription_id_of k ≡ subscription_id_of n → k ≡ n
apart k n l b e = to_text-injective k n (omega arith) b (ap (λ (t : Text). drop 4 t) e)

Numbered-fresh :
    (n : ℕ) (subs : Assoc Subscription)
    → n < 2 ^ 64
    → Numbered n subs
    → find (subscription_id_of n) subs ≡ none
unfolding find
Numbered-fresh n [] b h = refl
Numbered-fresh n ((id, x) ∷ subs) b ((k, l, e), h) =
    elim (Bool-cases (text_eq id (subscription_id_of n))) [
      | inl s ↦
          absurd
            (omega (arith, apart k n l b (sym e ∙ (text_eq_iff id (subscription_id_of n)).0 s)))
      | inr s ↦ rw s (Numbered-fresh n subs b h)
    ]

next_eq : (n : ℕ) → n + 1 < 2 ^ 64 → (n + 1) % 2 ^ 64 ≡ n + 1
next_eq n h = omega arith

-- The events of a batch with consecutive offsets from `n` on and the times of their publishing.
unfoldable pub stamped_from : ℕ → (ℕ → ℕ) → ℕ → List ChangefeedEvent → List ChangefeedEvent
stamped_from n clock i [] = []
stamped_from n clock i (event ∷ events) =
    record event { offset = n; timestamp = clock i } ∷ stamped_from (n + 1) clock (i + 1) events

-- A history that has grown by one event after the other, the oldest taken where it was over the cap.
unfoldable pub capped : ℕ → List ChangefeedEvent → List ChangefeedEvent → List ChangefeedEvent
unfolding trim
capped cap history [] = history
capped cap history (event ∷ events) = capped cap (trim cap (history ++ event ∷ [])) events

module _ {C : Type 0} where
  -- Publishing keeps the offsets ascending, while the counter of 64 bits has room.
  pub publish_event-IsFeed :
      (config : ChangefeedConfig) (now : ℕ) (event : ChangefeedEvent) (feed : Feed C)
      → feed.next_offset + 1 < 2 ^ 64
      → IsFeed feed
      → IsFeed (publish_event config now event feed)
  unfolding publish_event
  publish_event-IsFeed config now event feed room h =
      let stamped = record event { offset = feed.next_offset; timestamp = now } in
      record {
        retained = rw (next_eq feed.next_offset room) (
            IsRun-trim 1 (feed.next_offset + 1) config.max_lag_entries
              (feed.all_events ++ stamped ∷ [])
              (IsRun-snoc 1 feed.next_offset feed.all_events stamped h.retained h.started refl));
        queued =
            rw (next_eq feed.next_offset room)
              (IsRun-snoc 1 feed.next_offset feed.events stamped h.queued h.started refl);
        started = omega arith;
        numbered = h.numbered;
      }

  publish_event-next_offset :
      (config : ChangefeedConfig) (now : ℕ) (event : ChangefeedEvent) (feed : Feed C)
      → feed.next_offset + 1 < 2 ^ 64
      → (publish_event config now event feed).next_offset ≡ feed.next_offset + 1
  unfolding publish_event
  publish_event-next_offset config now event feed room = omega arith

  pub publish_batch-IsFeed :
      (config : ChangefeedConfig) (clock : ℕ → ℕ) (i : ℕ) (events : List ChangefeedEvent)
      (feed : Feed C)
      → feed.next_offset + length events < 2 ^ 64
      → IsFeed feed
      → (let after = publish_batch config clock i events feed in
          let published = stamped_from feed.next_offset clock i events in
          IsFeed after
          × (after.next_offset ≡ feed.next_offset + length events)
          × (after.events ≡ feed.events ++ published)
          × (after.all_events ≡ capped config.max_lag_entries feed.all_events published))
  unfolding publish_batch stamped_from capped
  publish_batch-IsFeed config clock i [] feed room h =
      (h, omega arith, sym (append-nil feed.events), refl)
  publish_batch-IsFeed config clock i (event ∷ events) feed room h =
      let step = publish_event-next_offset config (clock i) event feed (omega arith) in
      let stamped = record event { offset = feed.next_offset; timestamp = clock i } in
      let after = publish_event config (clock i) event feed in
      let (keeps, next, queued, retained) =
        publish_batch-IsFeed config clock (i + 1) events after (omega (arith, step))
          (publish_event-IsFeed config (clock i) event feed (omega arith) h) in
      (
        keeps,
        omega (arith, step, next),
        queued
            ∙ ap (λ n. after.events ++ stamped_from n clock (i + 1) events) step
            ∙ unfold publish_event in
              append_assoc feed.events (stamped ∷ [])
                (stamped_from (feed.next_offset + 1) clock (i + 1) events),
        retained
            ∙ ap
                (λ n.
                  capped config.max_lag_entries after.all_events
                    (stamped_from n clock (i + 1) events))
                step
            ∙ unfold publish_event in refl,
      )

  -- A new subscription is of an id that no other has, so it replaces none, and every id stays one
  -- that was given out, while the counter of 64 bits has room.
  pub create_subscription-IsFeed :
      (now : ℕ) (filter : SubscriptionFilter) (start_offset : ℕ) (mode : DeliveryMode)
      (feed : Feed C)
      → feed.next_subscription_id + 1 < 2 ^ 64
      → IsFeed feed
      → (find (create_subscription now filter start_offset mode feed).1 feed.subscriptions ≡ none)
        × IsFeed (create_subscription now filter start_offset mode feed).0
  unfolding create_subscription
  create_subscription-IsFeed now filter start_offset mode feed room h =
      let n = feed.next_subscription_id in
      (
        Numbered-fresh n feed.subscriptions (omega arith) h.numbered,
        record {
          retained = h.retained;
          queued = h.queued;
          started = h.started;
          numbered = rw (next_eq n room) (
              Numbered-assign (n + 1) n _ feed.subscriptions (omega arith)
                (Numbered-suc n feed.subscriptions h.numbered));
        },
      )

  pub compact_events-IsFeed :
      (now period : ℕ) (feed : Feed C) → IsFeed feed → IsFeed (compact_events now period feed)
  unfolding compact_events
  compact_events-IsFeed now period feed h = record {
    retained = IsRun-keep_from 1 feed.next_offset (now - period) feed.all_events h.retained;
    queued = h.queued;
    started = h.started;
    numbered = h.numbered;
  }
