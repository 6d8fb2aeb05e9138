-- ===== src/MainLoop.antt =====
-- rust-test-node/src/main.rs: the loop of `main`, one turn for each branch of its `select!`. A turn's
-- event says which branch is taken and what it finds. A panic ends the node.
pub mod Events
pub mod Counting
pub mod Panics
pub mod Tick
pub mod Topics
use dst_libp2p_test_node.Prelude.{
  ℕ, zero, suc, ◌+◌, Bool, false, List, [], ◌∷◌, ◌++◌, ◌||◌, length, if◌then◌else◌,
}
use dst_libp2p_test_node.Prelude.Int.{ℤ}
use dst_libp2p_test_node.Text.{Text, text_eq}
use dst_libp2p_test_node.Word.{as_i64}
use dst_libp2p_test_node.Outcome.{Run, done, panic, Result, ◌>>=◌}
use dst_libp2p_test_node.ByteOrder.{ByteOrder}
use dst_libp2p_test_node.Clock.{Instant}
use dst_libp2p_test_node.Gossipsub.{Gossipsub}
use dst_libp2p_test_node.Metrics.Interface.{Prometheus}
use dst_libp2p_test_node.Metrics.{
  GossipSubMetrics, set_peers, set_pubsub_peers, set_pubsub_topics, set_mesh_peers, set_topic_peers,
  update_health, inc_messages_published, inc_received_subscriptions, inc_received_unsubscriptions,
}
use dst_libp2p_test_node.Receive.{Receiver, create_message_handler}
use dst_libp2p_test_node.Publish.{PublishCommand, publish_new_message}
use Events.{
  GossipsubEvent, message, subscribed, unsubscribed, other_gossipsub, SwarmEvent, behaviour,
  Network,
}

-- What the loop changes: the swarm, libp2p's own metrics, and what the handlers change.
pub record Node (p : Prometheus) (g : Gossipsub) (net : Network g) : Type 0 where
  pub swarm : g.Swarm
  pub recorder : net.Recorder
  pub receiver : Receiver p

pub data LoopEvent (g : Gossipsub) : Type 0 where
  health_tick : LoopEvent g
  publish_command : PublishCommand → Instant → Text → LoopEvent g
  swarm_event : g.Swarm → SwarmEvent → Instant → LoopEvent g

-- all_peers().filter(|(_, topics)| topics.iter().any(|t| *t == topic_hash)).count()
abbrev subscribes : Text → List Text → Bool
subscribes topic [] = false
subscribes topic (t ∷ ts) = text_eq t topic || subscribes topic ts

abbrev pub count_subscribed : Text → List (List Text) → ℕ
count_subscribed topic [] = 0
count_subscribed topic (ts ∷ peers) =
    let rest = count_subscribed topic peers in if subscribes topic ts then suc rest else rest

module _ (p : Prometheus) (g : Gossipsub) (net : Network g) where
  -- The loop over the topics, with the metrics and `mesh_counts`.
  pub topic_loop :
      g.Swarm
      → List Text
      → GossipSubMetrics p
      → List (Text × ℤ)
      → GossipSubMetrics p × List (Text × ℤ)
  topic_loop s [] m mesh_counts = (m, mesh_counts)
  topic_loop s (topic ∷ topics) m mesh_counts =
      let mesh_peers = as_i64 (net.mesh_peers s topic) in
      let topic_peers = as_i64 (count_subscribed topic (net.all_peers s)) in
      topic_loop s topics
        (set_topic_peers p topic topic_peers (set_mesh_peers p topic mesh_peers m))
        (mesh_counts ++ (topic, mesh_peers) ∷ [])

  -- `health_interval.tick()`
  pub tick : g.Swarm → GossipSubMetrics p → GossipSubMetrics p
  tick s m =
      let m1 = set_peers p (as_i64 (net.connected_peers s)) m in
      let m2 = set_pubsub_peers p (as_i64 (length (net.all_peers s))) m1 in
      let (m3, mesh_counts) = topic_loop s (net.topics s) m2 [] in
      update_health p mesh_counts (set_pubsub_topics p (as_i64 (length mesh_counts)) m3)

  module _ (b : ByteOrder) (chunks : ℕ) where
    -- `match gossipsub_event`
    on_gossipsub : GossipsubEvent → Instant → Receiver p → Run (Receiver p)
    on_gossipsub (message data') now r = create_message_handler p b data' chunks now r
    on_gossipsub (subscribed topic) now r =
        done (record r { metrics = inc_received_subscriptions p topic r.metrics })
    on_gossipsub (unsubscribed topic) now r =
        done (record r { metrics = inc_received_unsubscriptions p topic r.metrics })
    on_gossipsub other_gossipsub now r = done r

    -- `match event`; the other events are logged only.
    on_swarm : SwarmEvent → Instant → Node p g net → Run (Node p g net)
    on_swarm (behaviour e) now n = on_gossipsub e now n.receiver >>= λ r.
        done (record n { recorder = net.record_gossipsub n.recorder e; receiver = r })
    on_swarm _ now n = done n

    pub step : Node p g net → LoopEvent g → Run (Node p g net)
    step n health_tick =
        done (record n {
          receiver = record (n.receiver) { metrics = tick n.swarm n.receiver.metrics };
        })
    step n (publish_command cmd now shown) =
        publish_new_message g b cmd now shown n.swarm >>= λ (s', response). done (record n {
          swarm = s';
          receiver = record (n.receiver) {
            metrics = inc_messages_published p cmd.topic n.receiver.metrics;
          };
        })
    step n (swarm_event s' e now) =
        on_swarm e now (record n { swarm = s'; recorder = net.record_swarm n.recorder e })

    pub run : Node p g net → List (LoopEvent g) → Run (Node p g net)
    run n [] = done n
    run n (e ∷ es) = step n e >>= λ n'. run n' es
