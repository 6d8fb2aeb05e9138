-- ===== src/MainLoop/Counting.antt =====
-- The counters of the metrics over any run of the loop.
use dst_libp2p_test_node.Prelude.{
  ℕ, ◌+◌, ◌≤◌, ◌≡◌, refl, ap, List, [], ◌∷◌, arith, length, length-append, All, inl, inr,
}
use dst_libp2p_test_node.Prelude.Int.{ℤ}
use dst_libp2p_test_node.Text.{Text, text_eq}
use dst_libp2p_test_node.Word.{as_i64}
use dst_libp2p_test_node.Outcome.{done}
use dst_libp2p_test_node.ByteOrder.{ByteOrder}
use dst_libp2p_test_node.Gossipsub.{Gossipsub}
use dst_libp2p_test_node.Metrics.Interface.{Prometheus}
use dst_libp2p_test_node.Metrics.{
  GossipSubMetrics, set_peers, set_pubsub_peers, set_pubsub_topics, set_mesh_peers, set_topic_peers,
  update_health, inc_messages_published,
}
use dst_libp2p_test_node.Metrics.Moves.{
  one_if, Moves, Moves-trans, Moves-published, Moves-subscribed, Moves-unsubscribed, Moves-received,
  Moves-refl,
}
use dst_libp2p_test_node.Publish.Total.{IsServed, publish_new_message_returns}
use dst_libp2p_test_node.Receive.{Receiver}
use dst_libp2p_test_node.Receive.Effects.{Reports, create_message_handler_returns}
use dst_libp2p_test_node.MainLoop.{
  Node, LoopEvent, health_tick, publish_command, swarm_event, topic_loop, tick, on_gossipsub,
  on_swarm, step, run,
}
use dst_libp2p_test_node.MainLoop.Events.{message, subscribed, unsubscribed, behaviour, Network}

-- The events at which no turn panics.
abbrev pub IsSafe : {g : Gossipsub} → LoopEvent g → Type 0
IsSafe (publish_command cmd now shown) = IsServed cmd
IsSafe (swarm_event s (behaviour (message m)) now) = 8 ≤ length m
IsSafe _ = Unit

-- The events that count for a topic.
abbrev pub publishes : {g : Gossipsub} → Text → LoopEvent g → ℕ
publishes topic (publish_command cmd now shown) = one_if (text_eq cmd.topic topic)
publishes topic _ = 0

abbrev pub subscribes_to : {g : Gossipsub} → Text → LoopEvent g → ℕ
subscribes_to topic (swarm_event s (behaviour (subscribed t)) now) = one_if (text_eq t topic)
subscribes_to topic _ = 0

abbrev pub unsubscribes_from : {g : Gossipsub} → Text → LoopEvent g → ℕ
unsubscribes_from topic (swarm_event s (behaviour (unsubscribed t)) now) = one_if (text_eq t topic)
unsubscribes_from topic _ = 0

abbrev pub total : {g : Gossipsub} → (LoopEvent g → ℕ) → List (LoopEvent g) → ℕ
total f [] = 0
total f (e ∷ es) = f e + total f es

module _ (p : Prometheus) (topic : Text) (g : Gossipsub) (net : Network g) where
  Moves-topic_loop :
      (s : g.Swarm) (ts : List Text) (m0 m : GossipSubMetrics p) (counts : List (Text × ℤ))
      → Moves p topic 0 0 0 0 m0 m
      → Moves p topic 0 0 0 0 m0 (topic_loop p g net s ts m counts).0
  unfolding topic_loop set_mesh_peers set_topic_peers
  Moves-topic_loop s [] m0 m counts h = h
  Moves-topic_loop s (t ∷ ts) m0 m counts h = Moves-topic_loop s ts m0 _ _ (omega arith)

  Moves-tick : (s : g.Swarm) (m : GossipSubMetrics p) → Moves p topic 0 0 0 0 m (tick p g net s m)
  unfolding tick set_peers set_pubsub_peers set_pubsub_topics update_health
  Moves-tick s m =
      let m2 =
        set_pubsub_peers p (as_i64 (length (net.all_peers s)))
          (set_peers p (as_i64 (net.connected_peers s)) m) in
      let counted : Moves p topic 0 0 0 0 m (topic_loop p g net s (net.topics s) m2 []).0 =
        Moves-topic_loop s (net.topics s) m m2 [] (omega arith) in
      omega arith

-- What a part of a run did: `lines` lines were printed, as many messages counted as received and as
-- validated, and the topic's counters have moved by its events.
pub record Counted (p : Prometheus) (topic : Text) (pubs subs unsubs : ℕ) (r r' : Receiver p)
    : Type 0 where
  pub lines : ℕ
  pub printed : length r'.stdout ≡ length r.stdout + lines
  pub moved : Moves p topic lines pubs subs unsubs r.metrics r'.metrics

module _ (p : Prometheus) (topic : Text) where
  Counted-silent :
      (pubs subs unsubs : ℕ) (r : Receiver p) (m : GossipSubMetrics p)
      → Moves p topic 0 pubs subs unsubs r.metrics m
      → Counted p topic pubs subs unsubs r (record r { metrics = m })
  Counted-silent pubs subs unsubs r m moved = record {
    lines = 0;
    printed = omega arith;
    moved = moved;
  }

  Counted-Reports : (r r' : Receiver p) → Reports p r r' → Counted p topic 0 0 0 r r'
  Counted-Reports r r' (inl (out, same)) = record {
    lines = 0;
    printed = omega (arith, ap length out);
    moved = rw same (Moves-refl p topic r.metrics);
  }
  Counted-Reports r r' (inr (x, out, counted)) = record {
    lines = 1;
    printed = omega (arith, ap length out, length-append r.stdout (x ∷ []));
    moved = rw counted (Moves-received p topic r.metrics);
  }

  Counted-trans :
      (a1 a2 b1 b2 c1 c2 : ℕ) (r1 r2 r3 : Receiver p)
      → Counted p topic a1 b1 c1 r1 r2
      → Counted p topic a2 b2 c2 r2 r3
      → Counted p topic (a1 + a2) (b1 + b2) (c1 + c2) r1 r3
  Counted-trans a1 a2 b1 b2 c1 c2 r1 r2 r3 h k = record {
    lines = h.lines + k.lines;
    printed = omega (arith, h.printed, k.printed);
    moved =
        Moves-trans p topic h.lines k.lines a1 a2 b1 b2 c1 c2 r1.metrics r2.metrics r3.metrics
          h.moved k.moved;
  }

module _ (p : Prometheus) (g : Gossipsub) (net : Network g) (b : ByteOrder) (chunks : ℕ)
    (topic : Text) where
  pub step-Counted :
      (n : Node p g net) (e : LoopEvent g)
      → IsSafe e
      → (n' : Node p g net) × (step p g net b chunks n e ≡ done n')
        × Counted p topic
            (publishes topic e)
            (subscribes_to topic e)
            (unsubscribes_from topic e)
            n.receiver
            n'.receiver
  unfolding step on_swarm on_gossipsub
  step-Counted n health_tick safe =
      (_, refl, Counted-silent p topic 0 0 0 n.receiver _ (Moves-tick p topic g net n.swarm _))
  step-Counted n (publish_command cmd now shown) safe =
      let (out, sent) = publish_new_message_returns g b cmd now shown n.swarm safe in
      let m = inc_messages_published p cmd.topic n.receiver.metrics in
      (
        record n { swarm = out.0; receiver = record (n.receiver) { metrics = m } },
        rw sent refl,
        Counted-silent p topic _ 0 0 n.receiver _ (Moves-published p topic cmd.topic _),
      )
  step-Counted n (swarm_event s (behaviour (message m)) now) safe =
      let (r', handled, reports) =
        create_message_handler_returns p b chunks m now n.receiver safe in
      let e = behaviour (message m) in
      let heard = net.record_gossipsub (net.record_swarm n.recorder e) (message m) in
      (
        record n { swarm = s; recorder = heard; receiver = r' },
        rw handled refl,
        Counted-Reports p topic n.receiver r' reports,
      )
  step-Counted n (swarm_event s (behaviour (subscribed t)) now) safe =
      (_, refl, Counted-silent p topic 0 _ 0 n.receiver _ (Moves-subscribed p topic t _))
  step-Counted n (swarm_event s (behaviour (unsubscribed t)) now) safe =
      (_, refl, Counted-silent p topic 0 0 _ n.receiver _ (Moves-unsubscribed p topic t _))
  step-Counted n (swarm_event s _ now) safe =
      (_, refl, Counted-silent p topic 0 0 0 n.receiver _ (Moves-refl p topic _))

  -- A run of the loop over events at which no turn panics goes through all of them. It has then
  -- counted as many received messages, and as many validated ones, as it has printed lines; a topic's
  -- counter of published messages has moved by the number of commands for it, whatever came of them,
  -- and its counters of subscriptions by the number of those events. All counters are modulo 2^64.
  pub run-Counted :
      (es : List (LoopEvent g)) (n : Node p g net)
      → All IsSafe es
      → (n' : Node p g net) × (run p g net b chunks n es ≡ done n')
        × Counted p topic
            (total (publishes topic) es)
            (total (subscribes_to topic) es)
            (total (unsubscribes_from topic) es)
            n.receiver
            n'.receiver
  unfolding run
  run-Counted [] n safe =
      (n, refl, Counted-silent p topic 0 0 0 n.receiver _ (Moves-refl p topic _))
  run-Counted (e ∷ es) n (safe, all) =
      let (n1, run1, counted1) = step-Counted n e safe in
      let (n2, run2, counted2) = run-Counted es n1 all in
      (n2, rw run1 run2, Counted-trans p topic _ _ _ _ _ _ _ _ _ counted1 counted2)
