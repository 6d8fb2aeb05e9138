-- ===== src/Startup/Scrape.antt =====
-- What is encoded of the registry that `main` makes.
use dst_libp2p_test_node.Prelude.{
  ℕ, ◌%◌, ◌^◌, ◌≡◌, refl, List, [], ◌∷◌, ◌++◌, map, Option, none, some, if◌then◌else◌,
}
use dst_libp2p_test_node.Text.{Text, codes, text_eq}
use dst_libp2p_test_node.Metrics.Interface.{Prometheus}
use dst_libp2p_test_node.Metrics.{GossipSubMetrics}
use dst_libp2p_test_node.Metrics.Registry.{Metric, counter, counters, new}
use dst_libp2p_test_node.Behaviour.{gossipsub_d_low}
use dst_libp2p_test_node.Startup.{Entry, own, foreign}

module _ (p : Prometheus) where
  -- The metric under a name, where the name is first registered for one of the node's own.
  abbrev pub shown : List (Entry p) → Text → GossipSubMetrics p → Option (Metric p)
  shown [] name m = none
  shown (own r ∷ es) name m =
      let rest = shown es name m in if text_eq r.name name then some (r.read m) else rest
  shown (foreign n ∷ es) name m =
      let rest = shown es name m in if text_eq n name then none else rest

  -- Under the name a scrape reads the counter `n`, modulo 2^64.
  abbrev pub CounterReads : List (Entry p) → GossipSubMetrics p → Text → ℕ → Type 0
  CounterReads registry m name n =
      (c : p.Counter) × (shown registry name m ≡ some (counter c))
      × (p.count c % 2 ^ 64 ≡ n % 2 ^ 64)

  -- The same for a topic's counter in a family.
  abbrev pub TopicReads : List (Entry p) → GossipSubMetrics p → Text → Text → ℕ → Type 0
  TopicReads registry m name topic n =
      (f : p.CounterFamily) × (shown registry name m ≡ some (counters f))
      × (p.count (p.counter_at f (record { topic = topic })) % 2 ^ 64 ≡ n % 2 ^ 64)

  -- The five counters stand under their names, behind whatever libp2p registers.
  pub shown-new :
      (registry : List (Entry p)) (others : List Text) (m : GossipSubMetrics p)
      → registry ≡ map own (new p [] gossipsub_d_low).0 ++ map foreign others
      → (shown registry (codes "libp2p_gossipsub_received") m
          ≡ some (counter m.libp2p_gossipsub_received))
        × (shown registry (codes "libp2p_pubsub_validation_success") m
            ≡ some (counter m.libp2p_pubsub_validation_success))
        × (shown registry (codes "libp2p_pubsub_messages_published") m
            ≡ some (counters m.libp2p_pubsub_messages_published))
        × (shown registry (codes "libp2p_pubsub_received_subscriptions") m
            ≡ some (counters m.libp2p_pubsub_received_subscriptions))
        × (shown registry (codes "libp2p_pubsub_received_unsubscriptions") m
            ≡ some (counters m.libp2p_pubsub_received_unsubscriptions))
  unfolding new text_eq
  shown-new registry others m same = rw same (refl, refl, refl, refl, refl)
