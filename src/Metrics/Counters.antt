-- ===== src/Metrics/Counters.antt =====
-- What the counting methods do to a scrape.
use dst_libp2p_test_node.Prelude.{ℕ, ◌+◌, ◌%◌, ◌^◌, ◌≡◌, arith, if◌then◌else◌}
use dst_libp2p_test_node.Text.{Text, text_eq}
use dst_libp2p_test_node.Metrics.Interface.{TopicLabels, Prometheus, labels_eq}
use dst_libp2p_test_node.Metrics.{
  GossipSubMetrics, inc_received_message, inc_messages_published, inc_received_subscriptions,
  inc_received_unsubscriptions,
}

module _ (p : Prometheus) where
  -- What a scrape reads of the messages received, and of a topic's counters.
  abbrev pub received : GossipSubMetrics p → ℕ
  received m = p.count m.libp2p_gossipsub_received

  abbrev pub validated : GossipSubMetrics p → ℕ
  validated m = p.count m.libp2p_pubsub_validation_success

  abbrev pub published : Text → GossipSubMetrics p → ℕ
  published topic m =
      p.count (p.counter_at m.libp2p_pubsub_messages_published (record { topic = topic }))

  abbrev pub subscriptions : Text → GossipSubMetrics p → ℕ
  subscriptions topic m =
      p.count (p.counter_at m.libp2p_pubsub_received_subscriptions (record { topic = topic }))

  abbrev pub unsubscriptions : Text → GossipSubMetrics p → ℕ
  unsubscriptions topic m =
      p.count (p.counter_at m.libp2p_pubsub_received_unsubscriptions (record { topic = topic }))

  pub received-inc :
      (m : GossipSubMetrics p) → received (inc_received_message p m) ≡ (received m + 1) % 2 ^ 64
  unfolding inc_received_message
  received-inc m = p.count-inc _

  pub validated-inc :
      (m : GossipSubMetrics p) → validated (inc_received_message p m) ≡ (validated m + 1) % 2 ^ 64
  unfolding inc_received_message
  validated-inc m = p.count-inc _

  count-counter_update :
      (f : p.CounterFamily) (l k : TopicLabels)
      → p.count (p.counter_at (p.counter_update f l p.inc) k) ≡ (
          if labels_eq l k
          then (p.count (p.counter_at f k) + 1) % 2 ^ 64
          else p.count (p.counter_at f k))
  count-counter_update f l k =
      rw (p.counter_at-update f l k p.inc) (ground (arith, p.count-inc (p.counter_at f k)))

  pub published-inc :
      (topic other : Text) (m : GossipSubMetrics p)
      → published other (inc_messages_published p topic m)
        ≡ (if text_eq topic other then (published other m + 1) % 2 ^ 64 else published other m)
  unfolding inc_messages_published
  published-inc topic other m = count-counter_update _ _ _

  pub subscriptions-inc :
      (topic other : Text) (m : GossipSubMetrics p)
      → subscriptions other (inc_received_subscriptions p topic m) ≡ (
          if text_eq topic other
          then (subscriptions other m + 1) % 2 ^ 64
          else subscriptions other m)
  unfolding inc_received_subscriptions
  subscriptions-inc topic other m = count-counter_update _ _ _

  pub unsubscriptions-inc :
      (topic other : Text) (m : GossipSubMetrics p)
      → unsubscriptions other (inc_received_unsubscriptions p topic m) ≡ (
          if text_eq topic other
          then (unsubscriptions other m + 1) % 2 ^ 64
          else unsubscriptions other m)
  unfolding inc_received_unsubscriptions
  unsubscriptions-inc topic other m = count-counter_update _ _ _
