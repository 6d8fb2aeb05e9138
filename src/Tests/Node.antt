-- ===== src/Tests/Node.antt =====
-- Turns of the main loop, and metrics.
use dst_libp2p_test_node.Prelude.{◌+◌, ◌≤◌, ◌≡◌, ◌↔◌, refl, true, List, [], ◌∷◌, map, arith, All}
use dst_libp2p_test_node.Prelude.Int.{ℤ, pos}
use dst_libp2p_test_node.Text.{Text, codes}
use dst_libp2p_test_node.Outcome.{done, panic}
use dst_libp2p_test_node.ByteOrder.{Bytes, little_endian}
use dst_libp2p_test_node.Gossipsub.{accepting}
use dst_libp2p_test_node.Metrics.Interface.{plain}
use dst_libp2p_test_node.Metrics.{GossipSubMetrics, update_health}
use dst_libp2p_test_node.Metrics.Health.{
  topics_with, is_none, is_low, is_healthy, update_health-gauges,
}
use dst_libp2p_test_node.Metrics.Registry.{
  MetricRegistry, fields, distinct, ReadsZero, new, new-registers,
}
use dst_libp2p_test_node.MainLoop.{
  Node, LoopEvent, health_tick, publish_command, swarm_event, tick, step, run, count_subscribed,
}
use dst_libp2p_test_node.MainLoop.Events.{message, subscribed, behaviour}
use dst_libp2p_test_node.MainLoop.Counting.{
  Counted, total, publishes, subscribes_to, unsubscribes_from, run-Counted,
}
use dst_libp2p_test_node.MainLoop.Panics.{step-panic}
use dst_libp2p_test_node.MainLoop.Topics.{tick-topics}
use dst_libp2p_test_node.MainLoop.Tick.{mesh_counts, tick-gauges}
use dst_libp2p_test_node.Tests.Data.{noon, later, hello, idle, small_net, fresh}

abbrev stamped : Bytes
stamped = 0 ∷ 0 ∷ 0 ∷ 0 ∷ 0 ∷ 0 ∷ 0 ∷ 1 ∷ 9 ∷ []

abbrev pub events : List (LoopEvent accepting)
events =
    health_tick
    ∷ publish_command hello noon (codes "now")
    ∷ swarm_event [] (behaviour (subscribed (codes "test"))) noon
    ∷ swarm_event [] (behaviour (message stamped)) noon
    ∷ swarm_event [] (behaviour (message stamped)) later
    ∷ []

run-Counted_example :
    (n' : Node plain accepting small_net) × (run plain accepting small_net little_endian 2 fresh
        events
      ≡ done n')
    × Counted plain
        (codes "test")
        (total (publishes (codes "test")) events)
        (total (subscribes_to (codes "test")) events)
        (total (unsubscribes_from (codes "test")) events)
        fresh.receiver
        n'.receiver
run-Counted_example =
    run-Counted plain accepting small_net little_endian 2 (codes "test") events fresh (omega arith)

step-panic_example :
    (step plain accepting small_net little_endian 2 fresh
        (swarm_event [] (behaviour (message (1 ∷ 2 ∷ []))) noon)
      ≡ panic)
    ↔ (¬ (8 ≤ 2))
step-panic_example =
    step-panic plain accepting small_net little_endian 2 fresh
      (swarm_event [] (behaviour (message (1 ∷ 2 ∷ []))) noon)

tick-gauges_example :
    let m' = tick plain accepting small_net [] idle.metrics in
    let counts = mesh_counts plain accepting small_net [] (codes "test" ∷ []) in
    (m'.libp2p_peers ≡ pos 3)
    × (m'.libp2p_pubsub_peers ≡ pos 2)
    × (m'.libp2p_pubsub_topics ≡ pos 1)
    × (m'.libp2p_gossipsub_no_peers_topics ≡ pos (topics_with is_none counts))
    × (m'.libp2p_gossipsub_low_peers_topics ≡ pos (topics_with (is_low 4) counts))
    × (m'.libp2p_gossipsub_healthy_peers_topics ≡ pos (topics_with (is_healthy 4) counts))
tick-gauges_example =
    tick-gauges plain accepting small_net [] idle.metrics 4 refl (omega arith) (omega arith)
      (omega arith) (omega arith) (omega arith)

abbrev mesh : List (Text × ℤ)
mesh = (codes "a", pos 0) ∷ (codes "b", pos 3) ∷ (codes "c", pos 4) ∷ []

update_health-gauges_example :
    let m' = update_health plain mesh idle.metrics in
    (m'.libp2p_gossipsub_no_peers_topics ≡ pos (topics_with is_none mesh))
    × (m'.libp2p_gossipsub_low_peers_topics ≡ pos (topics_with (is_low 4) mesh))
    × (m'.libp2p_gossipsub_healthy_peers_topics ≡ pos (topics_with (is_healthy 4) mesh))
    × (topics_with is_none mesh + topics_with (is_low 4) mesh + topics_with (is_healthy 4) mesh ≡ 3)
update_health-gauges_example =
    update_health-gauges plain idle.metrics 4 mesh refl (omega arith) (omega arith) (omega arith)

new-registers_example :
    (r' : MetricRegistry plain) × ((new plain [] (pos 4)).0 ≡ r')
    × ((m : GossipSubMetrics plain) → map (λ e. (e.name, e.read m)) r' ≡ fields plain m)
    × (distinct (map (λ x. x.0) (fields plain (new plain [] (pos 4)).1)) ≡ true)
    × All (λ x. ReadsZero plain x.1) (fields plain (new plain [] (pos 4)).1)
new-registers_example = new-registers plain [] (pos 4)

tick-topics_example :
    let m' = tick plain accepting small_net [] idle.metrics in
    All
      (λ t.
        (m'.libp2p_gossipsub_peers_per_topic_mesh (record { topic = t }) ≡ pos 1)
        × (m'.libp2p_gossipsub_peers_per_topic_gossipsub (record { topic = t })
            ≡ pos (count_subscribed t ((codes "test" ∷ []) ∷ [] ∷ []))))
      (codes "test" ∷ [])
tick-topics_example =
    tick-topics plain accepting small_net [] idle.metrics (omega arith) (omega arith)
