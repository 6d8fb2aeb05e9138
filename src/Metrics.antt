-- ===== src/Metrics.antt =====
-- rust-test-node/src/metrics.rs: the node's own metrics. The crate `prometheus_client` is the
-- interface `Prometheus`: its atomics are values, and a method that changes one returns the new value.
pub mod Interface
pub mod Registry
pub mod Health
pub mod Counters
pub mod Moves
use dst_libp2p_test_node.Prelude.{ℕ, ◌+◌, Bool, false, List, [], ◌∷◌, ◌==◌, if◌then◌else◌}
use dst_libp2p_test_node.Prelude.Int.{ℤ, pos, negsuc, ltb_ℤ, ◌+ℤ◌}
use dst_libp2p_test_node.Text.{Text}
use dst_libp2p_test_node.Word.{wrap_i64}
use Interface.{TopicLabels, Prometheus}

pub record GossipSubMetrics (p : Prometheus) : Type 0 where
  pub libp2p_peers : p.Gauge
  pub libp2p_pubsub_peers : p.Gauge
  pub libp2p_pubsub_topics : p.Gauge
  pub libp2p_gossipsub_peers_per_topic_mesh : p.GaugeFamily
  pub libp2p_gossipsub_peers_per_topic_gossipsub : p.GaugeFamily
  pub libp2p_gossipsub_no_peers_topics : p.Gauge
  pub libp2p_gossipsub_low_peers_topics : p.Gauge
  pub libp2p_gossipsub_healthy_peers_topics : p.Gauge
  pub libp2p_gossipsub_received : p.Counter
  pub libp2p_pubsub_messages_published : p.CounterFamily
  pub libp2p_pubsub_validation_success : p.Counter
  pub libp2p_pubsub_validation_failure : p.Counter
  pub libp2p_pubsub_received_subscriptions : p.CounterFamily
  pub libp2p_pubsub_received_unsubscriptions : p.CounterFamily
  pub d_low : ℤ

abbrev pub is_zero : ℤ → Bool
is_zero (pos n) = n == 0
is_zero (negsuc n) = false

-- The three counters of `update_health`, on `i64`.
pub record Tally : Type 0 where
  pub no_peers : ℤ
  pub low_peers : ℤ
  pub healthy : ℤ

-- The body of its loop.
unfoldable pub classify : ℤ → ℤ → Tally → Tally
classify d_low count t =
    if is_zero count
    then record t { no_peers = wrap_i64 (t.no_peers +ℤ pos 1) }
    else if ltb_ℤ count d_low
    then record t { low_peers = wrap_i64 (t.low_peers +ℤ pos 1) }
    else record t { healthy = wrap_i64 (t.healthy +ℤ pos 1) }

unfoldable pub tally : ℤ → List (Text × ℤ) → Tally → Tally
unfolding classify
tally d_low [] t = t
tally d_low ((topic, count) ∷ counts) t = tally d_low counts (classify d_low count t)

module _ (p : Prometheus) where
  unfoldable pub set_peers : ℤ → GossipSubMetrics p → GossipSubMetrics p
  set_peers count m = record m { libp2p_peers = p.set m.libp2p_peers count }

  unfoldable pub set_pubsub_peers : ℤ → GossipSubMetrics p → GossipSubMetrics p
  set_pubsub_peers count m = record m { libp2p_pubsub_peers = p.set m.libp2p_pubsub_peers count }

  unfoldable pub set_pubsub_topics : ℤ → GossipSubMetrics p → GossipSubMetrics p
  set_pubsub_topics count m = record m { libp2p_pubsub_topics = p.set m.libp2p_pubsub_topics count }

  unfoldable pub set_mesh_peers : Text → ℤ → GossipSubMetrics p → GossipSubMetrics p
  set_mesh_peers topic count m = record m {
    libp2p_gossipsub_peers_per_topic_mesh =
        p.gauge_update m.libp2p_gossipsub_peers_per_topic_mesh (record { topic = topic })
          (λ g. p.set g count);
  }

  unfoldable pub set_topic_peers : Text → ℤ → GossipSubMetrics p → GossipSubMetrics p
  set_topic_peers topic count m = record m {
    libp2p_gossipsub_peers_per_topic_gossipsub =
        p.gauge_update m.libp2p_gossipsub_peers_per_topic_gossipsub (record { topic = topic })
          (λ g. p.set g count);
  }

  unfoldable pub update_health : List (Text × ℤ) → GossipSubMetrics p → GossipSubMetrics p
  update_health mesh_counts m =
      let t =
        tally m.d_low mesh_counts
          (record { no_peers = pos 0; low_peers = pos 0; healthy = pos 0 }) in
      record m {
        libp2p_gossipsub_no_peers_topics = p.set m.libp2p_gossipsub_no_peers_topics t.no_peers;
        libp2p_gossipsub_low_peers_topics = p.set m.libp2p_gossipsub_low_peers_topics t.low_peers;
        libp2p_gossipsub_healthy_peers_topics =
            p.set m.libp2p_gossipsub_healthy_peers_topics t.healthy;
      }

  unfoldable pub inc_received_message : GossipSubMetrics p → GossipSubMetrics p
  inc_received_message m = record m {
    libp2p_gossipsub_received = p.inc m.libp2p_gossipsub_received;
    libp2p_pubsub_validation_success = p.inc m.libp2p_pubsub_validation_success;
  }

  unfoldable pub inc_messages_published : Text → GossipSubMetrics p → GossipSubMetrics p
  inc_messages_published topic m = record m {
    libp2p_pubsub_messages_published =
        p.counter_update m.libp2p_pubsub_messages_published (record { topic = topic }) p.inc;
  }

  unfoldable pub inc_received_subscriptions : Text → GossipSubMetrics p → GossipSubMetrics p
  inc_received_subscriptions topic m = record m {
    libp2p_pubsub_received_subscriptions =
        p.counter_update m.libp2p_pubsub_received_subscriptions (record { topic = topic }) p.inc;
  }

  unfoldable pub inc_received_unsubscriptions : Text → GossipSubMetrics p → GossipSubMetrics p
  inc_received_unsubscriptions topic m = record m {
    libp2p_pubsub_received_unsubscriptions =
        p.counter_update m.libp2p_pubsub_received_unsubscriptions (record { topic = topic }) p.inc;
  }
