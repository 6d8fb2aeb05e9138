-- ===== src/Metrics/Interface.antt =====
-- What the program uses of the crate `prometheus_client`: gauges, counters and families of either,
-- with the documented effect of each call on what a scrape reads.
use dst_libp2p_test_node.Prelude.{ℕ, ◌+◌, ◌%◌, ◌^◌, ◌≡◌, refl, if◌then◌else◌}
use dst_libp2p_test_node.Prelude.Int.{ℤ, pos}
use dst_libp2p_test_node.Text.{Text, text_eq}
use dst_libp2p_test_node.Prelude.{Bool}

pub record TopicLabels : Type 0 where
  pub topic : Text

-- The derived `PartialEq`.
abbrev pub labels_eq : TopicLabels → TopicLabels → Bool
labels_eq a b = text_eq a.topic b.topic

-- `gauge_at` and `counter_at` read a family's member, and a member that was never asked for reads as
-- a new one; `gauge_update` is `get_or_create` with a call on the member. A counter is an `AtomicU64`.
pub record Prometheus : Type 1 where
  pub Gauge : Type 0
  pub new_gauge : Gauge
  pub set : Gauge → ℤ → Gauge
  pub get : Gauge → ℤ
  pub get_new : get new_gauge ≡ pos 0
  pub get-set : (g : Gauge) (v : ℤ) → get (set g v) ≡ v
  pub Counter : Type 0
  pub new_counter : Counter
  pub inc : Counter → Counter
  pub count : Counter → ℕ
  pub count_new : count new_counter ≡ 0
  pub count-inc : (c : Counter) → count (inc c) ≡ (count c + 1) % 2 ^ 64
  pub GaugeFamily : Type 0
  pub new_gauges : GaugeFamily
  pub gauge_at : GaugeFamily → TopicLabels → Gauge
  pub gauge_update : GaugeFamily → TopicLabels → (Gauge → Gauge) → GaugeFamily
  pub gauge_at_new : (l : TopicLabels) → gauge_at new_gauges l ≡ new_gauge
  pub gauge_at-update :
      (f : GaugeFamily) (l k : TopicLabels) (u : Gauge → Gauge)
      → gauge_at (gauge_update f l u) k ≡ (if labels_eq l k then u (gauge_at f k) else gauge_at f k)
  pub CounterFamily : Type 0
  pub new_counters : CounterFamily
  pub counter_at : CounterFamily → TopicLabels → Counter
  pub counter_update : CounterFamily → TopicLabels → (Counter → Counter) → CounterFamily
  pub counter_at_new : (l : TopicLabels) → counter_at new_counters l ≡ new_counter
  pub counter_at-update :
      (f : CounterFamily) (l k : TopicLabels) (u : Counter → Counter)
      → counter_at (counter_update f l u) k
        ≡ (if labels_eq l k then u (counter_at f k) else counter_at f k)

-- The interface can be met: plain numbers, and functions for families.
abbrev pub plain : Prometheus
plain = record {
  Gauge = ℤ;
  new_gauge = pos 0;
  set = λ g v. v;
  get = λ g. g;
  get_new = refl;
  get-set = λ g v. refl;
  Counter = ℕ;
  new_counter = 0;
  inc = λ c. (c + 1) % 2 ^ 64;
  count = λ c. c;
  count_new = refl;
  count-inc = λ c. refl;
  GaugeFamily = TopicLabels → ℤ;
  new_gauges = λ l. pos 0;
  gauge_at = λ f l. f l;
  gauge_update = λ f l u k. if labels_eq l k then u (f k) else f k;
  gauge_at_new = λ l. refl;
  gauge_at-update = λ f l k u. refl;
  CounterFamily = TopicLabels → ℕ;
  new_counters = λ l. 0;
  counter_at = λ f l. f l;
  counter_update = λ f l u k. if labels_eq l k then u (f k) else f k;
  counter_at_new = λ l. refl;
  counter_at-update = λ f l k u. refl;
}
