-- ===== src/Metrics/Registry.antt =====
-- `GossipSubMetrics::new`: the metrics and their registration. A registered clone shares its atomics
-- with the field that it was cloned from, so a registration is kept as the way to read that field.
use dst_libp2p_test_node.Prelude.{
  ◌≡◌, refl, Bool, true, false, ◌||◌, ◌&&◌, not, List, [], ◌∷◌, ◌++◌, map, ap, ◌∙◌, append_assoc,
  All,
}
use dst_libp2p_test_node.Prelude.Int.{ℤ, pos}
use dst_libp2p_test_node.Text.{Text, codes, text_eq}
use dst_libp2p_test_node.Metrics.Interface.{Prometheus, TopicLabels}
use dst_libp2p_test_node.Metrics.{GossipSubMetrics}

pub data Metric (p : Prometheus) : Type 0 where
  gauge : p.Gauge → Metric p
  counter : p.Counter → Metric p
  gauges : p.GaugeFamily → Metric p
  counters : p.CounterFamily → Metric p

pub record Registration (p : Prometheus) : Type 0 where
  pub name : Text
  pub help : Text
  pub read : GossipSubMetrics p → Metric p

-- The registrations, in the order of the calls.
abbrev pub MetricRegistry : Prometheus → Type 0
MetricRegistry p = List (Registration p)

abbrev pub register :
    {p : Prometheus}
    → MetricRegistry p
    → Text
    → Text
    → (GossipSubMetrics p → Metric p)
    → MetricRegistry p
register registry name help read = registry ++ record { name = name; help = help; read = read } ∷ []

abbrev pub initial : (p : Prometheus) → ℤ → GossipSubMetrics p
initial p d_low = record {
  libp2p_peers = p.new_gauge;
  libp2p_pubsub_peers = p.new_gauge;
  libp2p_pubsub_topics = p.new_gauge;
  libp2p_gossipsub_peers_per_topic_mesh = p.new_gauges;
  libp2p_gossipsub_peers_per_topic_gossipsub = p.new_gauges;
  libp2p_gossipsub_no_peers_topics = p.new_gauge;
  libp2p_gossipsub_low_peers_topics = p.new_gauge;
  libp2p_gossipsub_healthy_peers_topics = p.new_gauge;
  libp2p_gossipsub_received = p.new_counter;
  libp2p_pubsub_messages_published = p.new_counters;
  libp2p_pubsub_validation_success = p.new_counter;
  libp2p_pubsub_validation_failure = p.new_counter;
  libp2p_pubsub_received_subscriptions = p.new_counters;
  libp2p_pubsub_received_unsubscriptions = p.new_counters;
  d_low = d_low;
}

unfoldable pub new : (p : Prometheus) → MetricRegistry p → ℤ → MetricRegistry p × GossipSubMetrics p
new p r d_low =
    let r1 =
      register r (codes "libp2p_peers") (codes "total connected peers")
        (λ m. gauge m.libp2p_peers) in
    let r2 =
      register r1 (codes "libp2p_pubsub_peers") (codes "pubsub peer instances")
        (λ m. gauge m.libp2p_pubsub_peers) in
    let r3 =
      register r2 (codes "libp2p_pubsub_topics") (codes "pubsub subscribed topics")
        (λ m. gauge m.libp2p_pubsub_topics) in
    let r4 =
      register r3 (codes "libp2p_gossipsub_peers_per_topic_mesh")
        (codes "gossipsub peers per topic in mesh")
        (λ m. gauges m.libp2p_gossipsub_peers_per_topic_mesh) in
    let r5 =
      register r4 (codes "libp2p_gossipsub_peers_per_topic_gossipsub")
        (codes "gossipsub peers per topic in gossipsub")
        (λ m. gauges m.libp2p_gossipsub_peers_per_topic_gossipsub) in
    let r6 =
      register r5 (codes "libp2p_gossipsub_no_peers_topics")
        (codes "number of topics in mesh with no peers")
        (λ m. gauge m.libp2p_gossipsub_no_peers_topics) in
    let r7 =
      register r6 (codes "libp2p_gossipsub_low_peers_topics")
        (codes "number of topics in mesh with at least one but below dlow peers")
        (λ m. gauge m.libp2p_gossipsub_low_peers_topics) in
    let r8 =
      register r7 (codes "libp2p_gossipsub_healthy_peers_topics")
        (codes "number of topics in mesh with at least dlow peers")
        (λ m. gauge m.libp2p_gossipsub_healthy_peers_topics) in
    let r9 =
      register r8 (codes "libp2p_gossipsub_received")
        (codes "number of messages received (deduplicated)")
        (λ m. counter m.libp2p_gossipsub_received) in
    let r10 =
      register r9 (codes "libp2p_pubsub_messages_published") (codes "published messages")
        (λ m. counters m.libp2p_pubsub_messages_published) in
    let r11 =
      register r10 (codes "libp2p_pubsub_validation_success")
        (codes "pubsub successfully validated messages")
        (λ m. counter m.libp2p_pubsub_validation_success) in
    let r12 =
      register r11 (codes "libp2p_pubsub_validation_failure")
        (codes "pubsub failed validated messages")
        (λ m. counter m.libp2p_pubsub_validation_failure) in
    let r13 =
      register r12 (codes "libp2p_pubsub_received_subscriptions")
        (codes "pubsub received subscriptions")
        (λ m. counters m.libp2p_pubsub_received_subscriptions) in
    let r14 =
      register r13 (codes "libp2p_pubsub_received_unsubscriptions")
        (codes "pubsub received unsubscriptions")
        (λ m. counters m.libp2p_pubsub_received_unsubscriptions) in
    (r14, initial p d_low)

-- The fields that a scrape is to show, each under its own name.
abbrev pub fields : (p : Prometheus) → GossipSubMetrics p → List (Text × Metric p)
fields p m =
    (codes "libp2p_peers", gauge m.libp2p_peers)
    ∷ (codes "libp2p_pubsub_peers", gauge m.libp2p_pubsub_peers)
    ∷ (codes "libp2p_pubsub_topics", gauge m.libp2p_pubsub_topics)
    ∷ (
      codes "libp2p_gossipsub_peers_per_topic_mesh",
      gauges m.libp2p_gossipsub_peers_per_topic_mesh,
    )
    ∷ (
      codes "libp2p_gossipsub_peers_per_topic_gossipsub",
      gauges m.libp2p_gossipsub_peers_per_topic_gossipsub,
    )
    ∷ (codes "libp2p_gossipsub_no_peers_topics", gauge m.libp2p_gossipsub_no_peers_topics)
    ∷ (codes "libp2p_gossipsub_low_peers_topics", gauge m.libp2p_gossipsub_low_peers_topics)
    ∷ (codes "libp2p_gossipsub_healthy_peers_topics", gauge m.libp2p_gossipsub_healthy_peers_topics)
    ∷ (codes "libp2p_gossipsub_received", counter m.libp2p_gossipsub_received)
    ∷ (codes "libp2p_pubsub_messages_published", counters m.libp2p_pubsub_messages_published)
    ∷ (codes "libp2p_pubsub_validation_success", counter m.libp2p_pubsub_validation_success)
    ∷ (codes "libp2p_pubsub_validation_failure", counter m.libp2p_pubsub_validation_failure)
    ∷ (
      codes "libp2p_pubsub_received_subscriptions",
      counters m.libp2p_pubsub_received_subscriptions,
    )
    ∷ (
      codes "libp2p_pubsub_received_unsubscriptions",
      counters m.libp2p_pubsub_received_unsubscriptions,
    )
    ∷ []

abbrev occurs : Text → List Text → Bool
occurs a [] = false
occurs a (b ∷ bs) = text_eq a b || occurs a bs

abbrev pub distinct : List Text → Bool
distinct [] = true
distinct (a ∷ as') = not (occurs a as') && distinct as'

-- What a scrape shows of a metric that nothing has changed yet.
abbrev pub ReadsZero : (p : Prometheus) → Metric p → Type 0
ReadsZero p (gauge g) = p.get g ≡ pos 0
ReadsZero p (counter c) = p.count c ≡ 0
ReadsZero p (gauges f) = (l : TopicLabels) → p.get (p.gauge_at f l) ≡ pos 0
ReadsZero p (counters f) = (l : TopicLabels) → p.count (p.counter_at f l) ≡ 0

added : (p : Prometheus) → ℤ → MetricRegistry p
unfolding new
added p d_low = (new p [] d_low).0

new-append :
    (p : Prometheus) (r : MetricRegistry p) (d_low : ℤ) → (new p r d_low).0 ≡ r ++ added p d_low
unfolding new added
new-append p r d_low = simp append_assoc

-- `new` registers its metrics behind what the registry held before, and whatever becomes of them, a
-- scrape finds each of the fourteen fields under the field's own name, and nothing else of the node.
-- The names differ from one another, and in the metrics that `new` returns each reads zero, for every
-- topic where it has topics.
pub new-registers :
    (p : Prometheus) (r : MetricRegistry p) (d_low : ℤ)
    → (r' : MetricRegistry p) × ((new p r d_low).0 ≡ r ++ r')
      × ((m : GossipSubMetrics p) → map (λ e. (e.name, e.read m)) r' ≡ fields p m)
      × (distinct (map (λ x. x.0) (fields p (new p r d_low).1)) ≡ true)
      × All (λ x. ReadsZero p x.1) (fields p (new p r d_low).1)
unfolding text_eq new added
new-registers p r d_low = (
  added p d_low,
  new-append p r d_low,
  λ m. refl,
  refl,
  (
    p.get_new,
    (
      p.get_new,
      (
        p.get_new,
        (
          λ l. ap p.get (p.gauge_at_new l) ∙ p.get_new,
          (
            λ l. ap p.get (p.gauge_at_new l) ∙ p.get_new,
            (
              p.get_new,
              (
                p.get_new,
                (
                  p.get_new,
                  (
                    p.count_new,
                    (
                      λ l. ap p.count (p.counter_at_new l) ∙ p.count_new,
                      (
                        p.count_new,
                        (
                          p.count_new,
                          (
                            λ l. ap p.count (p.counter_at_new l) ∙ p.count_new,
                            (λ l. ap p.count (p.counter_at_new l) ∙ p.count_new, tt),
                          ),
                        ),
                      ),
                    ),
                  ),
                ),
              ),
            ),
          ),
        ),
      ),
    ),
  ),
)
