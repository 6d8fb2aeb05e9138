-- ===== src/Metrics/Moves.antt =====
-- How far the counters of the metrics move.
use dst_libp2p_test_node.Prelude.{ℕ, ◌+◌, ◌%◌, ◌^◌, ◌≡◌, Bool, arith, if◌then◌else◌}
use dst_libp2p_test_node.Text.{Text, text_eq}
use dst_libp2p_test_node.Metrics.Interface.{Prometheus}
use dst_libp2p_test_node.Metrics.{
  GossipSubMetrics, inc_received_message, inc_messages_published, inc_received_subscriptions,
  inc_received_unsubscriptions,
}
use dst_libp2p_test_node.Metrics.Counters.{
  received, validated, published, subscriptions, unsubscriptions, received-inc, validated-inc,
  published-inc, subscriptions-inc, unsubscriptions-inc,
}

abbrev pub one_if : Bool → ℕ
one_if b = if b then 1 else 0

-- The five counters that the loop moves, as a scrape reads them, and the lines printed.
pub record Moves (p : Prometheus) (topic : Text) (lines pubs subs unsubs : ℕ)
    (m m' : GossipSubMetrics p) : Type 0 where
  pub on_received : received p m' % 2 ^ 64 ≡ (received p m + lines) % 2 ^ 64
  pub on_validated : validated p m' % 2 ^ 64 ≡ (validated p m + lines) % 2 ^ 64
  pub on_published : published p topic m' % 2 ^ 64 ≡ (published p topic m + pubs) % 2 ^ 64
  pub on_subscriptions :
      subscriptions p topic m' % 2 ^ 64 ≡ (subscriptions p topic m + subs) % 2 ^ 64
  pub on_unsubscriptions :
      unsubscriptions p topic m' % 2 ^ 64 ≡ (unsubscriptions p topic m + unsubs) % 2 ^ 64

module _ (p : Prometheus) (topic : Text) where
  pub Moves-trans :
      (l1 l2 a1 a2 b1 b2 c1 c2 : ℕ) (m1 m2 m3 : GossipSubMetrics p)
      → Moves p topic l1 a1 b1 c1 m1 m2
      → Moves p topic l2 a2 b2 c2 m2 m3
      → Moves p topic (l1 + l2) (a1 + a2) (b1 + b2) (c1 + c2) m1 m3
  Moves-trans l1 l2 a1 a2 b1 b2 c1 c2 m1 m2 m3 h k = omega arith

  pub Moves-published :
      (t : Text) (m : GossipSubMetrics p)
      → Moves p topic 0 (one_if (text_eq t topic)) 0 0 m (inc_messages_published p t m)
  Moves-published t m = record {
    on_received = unfold inc_messages_published in (omega arith);
    on_validated = unfold inc_messages_published in (omega arith);
    on_published = rw (published-inc p t topic m) (ground arith);
    on_subscriptions = unfold inc_messages_published in (omega arith);
    on_unsubscriptions = unfold inc_messages_published in (omega arith);
  }

  pub Moves-subscribed :
      (t : Text) (m : GossipSubMetrics p)
      → Moves p topic 0 0 (one_if (text_eq t topic)) 0 m (inc_received_subscriptions p t m)
  Moves-subscribed t m = record {
    on_received = unfold inc_received_subscriptions in (omega arith);
    on_validated = unfold inc_received_subscriptions in (omega arith);
    on_published = unfold inc_received_subscriptions in (omega arith);
    on_subscriptions = rw (subscriptions-inc p t topic m) (ground arith);
    on_unsubscriptions = unfold inc_received_subscriptions in (omega arith);
  }

  pub Moves-unsubscribed :
      (t : Text) (m : GossipSubMetrics p)
      → Moves p topic 0 0 0 (one_if (text_eq t topic)) m (inc_received_unsubscriptions p t m)
  Moves-unsubscribed t m = record {
    on_received = unfold inc_received_unsubscriptions in (omega arith);
    on_validated = unfold inc_received_unsubscriptions in (omega arith);
    on_published = unfold inc_received_unsubscriptions in (omega arith);
    on_subscriptions = unfold inc_received_unsubscriptions in (omega arith);
    on_unsubscriptions = rw (unsubscriptions-inc p t topic m) (ground arith);
  }

  pub Moves-received : (m : GossipSubMetrics p) → Moves p topic 1 0 0 0 m (inc_received_message p m)
  Moves-received m = record {
    on_received = rw (received-inc p m) (omega arith);
    on_validated = rw (validated-inc p m) (omega arith);
    on_published = unfold inc_received_message in (omega arith);
    on_subscriptions = unfold inc_received_message in (omega arith);
    on_unsubscriptions = unfold inc_received_message in (omega arith);
  }

  pub Moves-refl : (m : GossipSubMetrics p) → Moves p topic 0 0 0 0 m m
  Moves-refl m = omega arith
