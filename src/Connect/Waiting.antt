-- ===== src/Connect/Waiting.antt =====
-- What the twenty seconds of waiting do to the metrics.
use dst_libp2p_test_node.Prelude.{
  ℕ, ◌+◌, if◌then◌else◌, ◌≡◌, refl, arith, List, [], ◌∷◌, Option, none, some, inl, inr, ltb, length,
  map, ◌<◌, ◌≤◌, Bool-cases,
}
use dst_libp2p_test_node.Text.{Text, text_eq}
use dst_libp2p_test_node.Metrics.Interface.{Prometheus}
use dst_libp2p_test_node.Metrics.{
  GossipSubMetrics, inc_received_subscriptions, inc_received_unsubscriptions,
}
use dst_libp2p_test_node.MainLoop.Events.{
  message, subscribed, unsubscribed, other_gossipsub, SwarmEvent, behaviour, connection_established,
  connection_closed, incoming_connection_error, outgoing_connection_error, other_event,
}
use dst_libp2p_test_node.Metrics.Moves.{
  one_if, Moves, Moves-subscribed, Moves-unsubscribed, Moves-refl,
}
use dst_libp2p_test_node.Gossipsub.{Gossipsub}
use dst_libp2p_test_node.Connect.{Poll, count_event, await_events}

-- The subscriptions to a topic among the events, and the unsubscriptions.
abbrev pub subscribers : Text → List (Option SwarmEvent) → ℕ
subscribers topic [] = 0
subscribers topic (some (behaviour (subscribed t)) ∷ es) =
    one_if (text_eq t topic) + subscribers topic es
subscribers topic (_ ∷ es) = subscribers topic es

abbrev pub leavers : Text → List (Option SwarmEvent) → ℕ
leavers topic [] = 0
leavers topic (some (behaviour (unsubscribed t)) ∷ es) = one_if (text_eq t topic) + leavers topic es
leavers topic (_ ∷ es) = leavers topic es

-- The metrics over all events.
pub count_events :
    (p : Prometheus) → List (Option SwarmEvent) → GossipSubMetrics p → GossipSubMetrics p
count_events p [] m = m
count_events p (e ∷ es) m = count_events p es (count_event p e m)

module _ (p : Prometheus) (topic : Text) where
  -- Over the events of the waiting time a topic's counters of subscriptions and unsubscriptions
  -- move by the number of these events, modulo 2^64, and the counters of published, received and
  -- validated messages stay: a message that comes in this time is not received.
  pub count_events-Moves :
      (es : List (Option SwarmEvent)) (m : GossipSubMetrics p)
      → Moves p topic 0 0 (subscribers topic es) (leavers topic es) m (count_events p es m)
  unfolding count_events count_event
  count_events-Moves [] m = Moves-refl p topic m
  count_events-Moves (none ∷ es) m = count_events-Moves es m
  count_events-Moves (some (behaviour (subscribed t)) ∷ es) m =
      let first = Moves-subscribed p topic t m in
      let rest = count_events-Moves es (inc_received_subscriptions p t m) in omega arith
  count_events-Moves (some (behaviour (unsubscribed t)) ∷ es) m =
      let first = Moves-unsubscribed p topic t m in
      let rest = count_events-Moves es (inc_received_unsubscriptions p t m) in omega arith
  count_events-Moves (some (behaviour (message b)) ∷ es) m = count_events-Moves es m
  count_events-Moves (some (behaviour other_gossipsub) ∷ es) m = count_events-Moves es m
  count_events-Moves (some connection_established ∷ es) m = count_events-Moves es m
  count_events-Moves (some connection_closed ∷ es) m = count_events-Moves es m
  count_events-Moves (some incoming_connection_error ∷ es) m = count_events-Moves es m
  count_events-Moves (some outgoing_connection_error ∷ es) m = count_events-Moves es m
  count_events-Moves (some other_event ∷ es) m = count_events-Moves es m

module _ (p : Prometheus) where
  pub count_events-d_low :
      (es : List (Option SwarmEvent)) (m : GossipSubMetrics p)
      → (count_events p es m).d_low ≡ m.d_low
  unfolding count_events count_event inc_received_subscriptions inc_received_unsubscriptions
  count_events-d_low [] m = refl
  count_events-d_low (none ∷ es) m = count_events-d_low es m
  count_events-d_low (some (behaviour (subscribed t)) ∷ es) m =
      count_events-d_low es (inc_received_subscriptions p t m)
  count_events-d_low (some (behaviour (unsubscribed t)) ∷ es) m =
      count_events-d_low es (inc_received_unsubscriptions p t m)
  count_events-d_low (some (behaviour (message b)) ∷ es) m = count_events-d_low es m
  count_events-d_low (some (behaviour other_gossipsub) ∷ es) m = count_events-d_low es m
  count_events-d_low (some connection_established ∷ es) m = count_events-d_low es m
  count_events-d_low (some connection_closed ∷ es) m = count_events-d_low es m
  count_events-d_low (some incoming_connection_error ∷ es) m = count_events-d_low es m
  count_events-d_low (some outgoing_connection_error ∷ es) m = count_events-d_low es m
  count_events-d_low (some other_event ∷ es) m = count_events-d_low es m

module _ {g : Gossipsub} where
  -- The polls before the end of the waiting time.
  abbrev pub in_time : ℕ → List (Poll g) → List (Poll g)
  in_time timeout [] = []
  in_time timeout (r ∷ rs) =
      let rest = in_time timeout rs in if ltb r.now timeout then r ∷ rest else []

  -- The clock is read at the end of the waiting time or later.
  abbrev pub Ends : ℕ → List (Poll g) → Type 0
  Ends timeout polls = length (in_time timeout polls) < length polls

  -- What the node hears in this time.
  abbrev pub heard : ℕ → List (Poll g) → List (Option SwarmEvent)
  heard timeout polls = map (λ r. r.event) (in_time timeout polls)

  -- The swarm as the last of the polls leaves it.
  abbrev pub last_swarm : g.Swarm → List (Poll g) → g.Swarm
  last_swarm s [] = s
  last_swarm s (r ∷ rs) = last_swarm r.swarm rs

  -- Each reading of the clock is later than the one before it.
  abbrev pub Rising : ℕ → List (Poll g) → Type 0
  Rising t [] = Unit
  Rising t (r ∷ rs) = (t < r.now) × Rising r.now rs

  Rising-Ends :
      (timeout t : ℕ) (polls : List (Poll g))
      → Rising t polls
      → timeout ≤ t + length polls
      → t < timeout
      → Ends timeout polls
  Rising-Ends timeout t [] rising h k = absurd (omega arith)
  Rising-Ends timeout t (r ∷ rs) (now, rising) h k = elim (Bool-cases (ltb r.now timeout)) [
    | inl before ↦
        rw before (
          let rest = Rising-Ends timeout r.now rs rising (omega arith) (ground arith) in
          omega arith)
    | inr past ↦ rw past (omega arith)
  ]

module _ (p : Prometheus) (g : Gossipsub) where
  pub await_events_lem :
      (timeout : ℕ) (polls : List (Poll g)) (s : g.Swarm) (m : GossipSubMetrics p)
      → Ends timeout polls
      → await_events p g timeout polls s m
        ≡ some (last_swarm s (in_time timeout polls), count_events p (heard timeout polls) m)
  unfolding await_events count_events
  await_events_lem timeout [] s m h = absurd (omega arith)
  await_events_lem timeout (r ∷ rs) s m h = elim (Bool-cases (ltb r.now timeout)) [
    | inl before ↦
        rw (before, await_events)
          (let more : Ends timeout rs = let h' = rw before at h in omega arith in
            await_events_lem timeout rs r.swarm (count_event p r.event m) more)
    | inr past ↦ rw (past, await_events) refl
  ]

  -- The waiting ends: where each reading of the clock is later than the one before, as many readings as
  -- there are nanoseconds to wait are enough. The node has then counted the events of the polls before
  -- the end of the waiting time, and its swarm is as the last of these polls left it.
  pub await_events-ends :
      (timeout t : ℕ) (polls : List (Poll g)) (s : g.Swarm) (m : GossipSubMetrics p)
      → Rising t polls
      → t < timeout
      → timeout ≤ t + length polls
      → await_events p g timeout polls s m
        ≡ some (last_swarm s (in_time timeout polls), count_events p (heard timeout polls) m)
  await_events-ends timeout t polls s m rising begins enough =
      await_events_lem timeout polls s m (Rising-Ends timeout t polls rising enough begins)

  -- Without enough readings of the clock the node still waits.
  pub await_events-none :
      (timeout : ℕ) (polls : List (Poll g)) (s : g.Swarm) (m : GossipSubMetrics p)
      → length polls ≤ length (in_time timeout polls)
      → await_events p g timeout polls s m ≡ none
  unfolding await_events
  await_events-none timeout [] s m h = refl
  await_events-none timeout (r ∷ rs) s m h = elim (Bool-cases (ltb r.now timeout)) [
    | inl before ↦
        rw (before, await_events)
          (let less : length rs ≤ length (in_time timeout rs) =
              let h' = rw before at h in omega arith in
            await_events-none timeout rs r.swarm (count_event p r.event m) less)
    | inr past ↦ absurd (let h' = rw past at h in omega arith)
  ]
