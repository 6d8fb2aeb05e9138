-- ===== src/MainLoop/Panics.antt =====
-- Which events stop the node.
use dst_libp2p_test_node.Prelude.{ℕ, ◌≡◌, ◌↔◌, arith, []}
use dst_libp2p_test_node.Outcome.{panic}
use dst_libp2p_test_node.ByteOrder.{ByteOrder}
use dst_libp2p_test_node.Gossipsub.{Gossipsub}
use dst_libp2p_test_node.Metrics.Interface.{Prometheus}
use dst_libp2p_test_node.Publish.Total.{publish_new_message-panic}
use dst_libp2p_test_node.Receive.Effects.{create_message_handler-panic}
use dst_libp2p_test_node.MainLoop.{
  Node, LoopEvent, health_tick, publish_command, swarm_event, on_gossipsub, on_swarm, step,
}
use dst_libp2p_test_node.MainLoop.Counting.{IsSafe, step-Counted}
use dst_libp2p_test_node.MainLoop.Events.{
  message, subscribed, unsubscribed, other_gossipsub, behaviour, Network,
}

module _ (p : Prometheus) (g : Gossipsub) (net : Network g) (b : ByteOrder) (chunks : ℕ) where
  step_unsafe :
      (n : Node p g net) (e : LoopEvent g) → ¬ IsSafe e → step p g net b chunks n e ≡ panic
  unfolding step on_swarm on_gossipsub
  step_unsafe n health_tick bad = absurd (bad tt)
  step_unsafe n (publish_command cmd now shown) bad =
      rw ((publish_new_message-panic g b cmd now shown n.swarm).1 bad)
  step_unsafe n (swarm_event s (behaviour (message m)) now) bad =
      rw ((create_message_handler-panic p b chunks m now n.receiver).1 (omega arith))
  step_unsafe n (swarm_event s (behaviour (subscribed t)) now) bad = absurd (bad tt)
  step_unsafe n (swarm_event s (behaviour (unsubscribed t)) now) bad = absurd (bad tt)
  step_unsafe n (swarm_event s (behaviour other_gossipsub) now) bad = absurd (bad tt)
  step_unsafe n (swarm_event s _ now) bad = absurd (bad tt)

  -- A turn of the loop stops the node exactly at a command that is not served and at a message from
  -- the network that is shorter than eight bytes; no other event does, in any state.
  pub step-panic :
      (n : Node p g net) (e : LoopEvent g) → (step p g net b chunks n e ≡ panic) ↔ (¬ IsSafe e)
  step-panic n e = (
    λ stopped safe. let (n', run, _) = step-Counted p g net b chunks [] n e safe in cc run,
    step_unsafe n e,
  )
