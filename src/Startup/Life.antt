-- ===== src/Startup/Life.antt =====
-- A node's life from its start on: `main` up to the loop, and then the loop.
use dst_libp2p_test_node.Prelude.{
  ℕ, ◌+◌, ◌%◌, ◌^◌, ◌≡◌, ap, ◌∙◌, List, [], ◌++◌, map, arith, length, All, Option, some,
}
use dst_libp2p_test_node.Prelude.Int.{ℤ}
use dst_libp2p_test_node.Text.{Text, codes}
use dst_libp2p_test_node.Outcome.{done, Result, ok}
use dst_libp2p_test_node.ByteOrder.{ByteOrder}
use dst_libp2p_test_node.Gossipsub.{Gossipsub}
use dst_libp2p_test_node.Env.{Environment}
use dst_libp2p_test_node.Metrics.Interface.{Prometheus}
use dst_libp2p_test_node.Metrics.Registry.{new}
use dst_libp2p_test_node.Metrics.Counters.{
  received, validated, published, subscriptions, unsubscriptions,
}
use dst_libp2p_test_node.MessageId.{Hasher}
use dst_libp2p_test_node.Behaviour.{gossipsub_d_low}
use dst_libp2p_test_node.Receive.{Receiver}
use dst_libp2p_test_node.Connect.{SocketAddr, Dialer, Poll, waiting_time}
use dst_libp2p_test_node.Connect.Waiting.{subscribers, leavers, heard}
use dst_libp2p_test_node.MainLoop.{Node, LoopEvent, run}
use dst_libp2p_test_node.MainLoop.Counting.{
  IsSafe, publishes, subscribes_to, unsubscribes_from, total, run-Counted,
}
use dst_libp2p_test_node.MainLoop.Events.{Network}
use dst_libp2p_test_node.Startup.{Libp2p, Entry, own, foreign, Started, start}
use dst_libp2p_test_node.Startup.Scrape.{CounterReads, TopicReads, shown-new}
use dst_libp2p_test_node.Startup.Ready.{start-Ready}

-- What a scrape of the registry reads: as many messages received, and validated, as lines were printed,
-- and a topic's messages published, subscriptions and unsubscriptions; all modulo 2^64.
pub record Shows (p : Prometheus) (registry : List (Entry p)) (topic : Text) (pubs subs unsubs : ℕ)
    (r : Receiver p) : Type 0 where
  pub shows_received :
      CounterReads p registry r.metrics (codes "libp2p_gossipsub_received") (length r.stdout)
  pub shows_validated :
      CounterReads p registry r.metrics (codes "libp2p_pubsub_validation_success") (length r.stdout)
  pub shows_published :
      TopicReads p registry r.metrics (codes "libp2p_pubsub_messages_published") topic pubs
  pub shows_subscriptions :
      TopicReads p registry r.metrics (codes "libp2p_pubsub_received_subscriptions") topic subs
  pub shows_unsubscriptions :
      TopicReads p registry r.metrics (codes "libp2p_pubsub_received_unsubscriptions") topic unsubs

-- The same of the fields.
record Counts (p : Prometheus) (topic : Text) (pubs subs unsubs : ℕ) (r : Receiver p) : Type 0 where
  counts_received : received p r.metrics % 2 ^ 64 ≡ length r.stdout % 2 ^ 64
  counts_validated : validated p r.metrics % 2 ^ 64 ≡ length r.stdout % 2 ^ 64
  counts_published : published p topic r.metrics % 2 ^ 64 ≡ pubs % 2 ^ 64
  counts_subscriptions : subscriptions p topic r.metrics % 2 ^ 64 ≡ subs % 2 ^ 64
  counts_unsubscriptions : unsubscriptions p topic r.metrics % 2 ^ 64 ≡ unsubs % 2 ^ 64

Counts-Shows :
    (p : Prometheus) (registry : List (Entry p)) (others : List Text) (topic : Text)
    (pubs subs unsubs : ℕ) (r : Receiver p)
    → registry ≡ map own (new p [] gossipsub_d_low).0 ++ map foreign others
    → Counts p topic pubs subs unsubs r
    → Shows p registry topic pubs subs unsubs r
Counts-Shows p registry others topic pubs subs unsubs r made h =
    let (a, b, c, d, e) = shown-new p registry others r.metrics made in
    record {
      shows_received = (_, a, h.counts_received);
      shows_validated = (_, b, h.counts_validated);
      shows_published = (_, c, h.counts_published);
      shows_subscriptions = (_, d, h.counts_subscriptions);
      shows_unsubscriptions = (_, e, h.counts_unsubscriptions);
    }

new-Counts :
    (p : Prometheus) (topic : Text) (d_low : ℤ)
    → Counts p topic 0 0 0 (record { seen = []; stdout = []; metrics = (new p [] d_low).1 })
unfolding new
new-Counts p topic d_low =
    let zero_family = ap p.count (p.counter_at_new (record { topic = topic })) ∙ p.count_new in
    record {
      counts_received = omega (arith, p.count_new);
      counts_validated = omega (arith, p.count_new);
      counts_published = omega (arith, zero_family);
      counts_subscriptions = omega (arith, zero_family);
      counts_unsubscriptions = omega (arith, zero_family);
    }

-- Over its whole life, a node that reaches its loop and handles events that do not stop it shows what
-- it does, modulo 2^64: under their names in the registry that `main` made, a scrape reads as many
-- messages received and validated as lines were printed, a topic's published messages as the commands
-- for it, and its subscriptions and unsubscriptions as those events, in the waiting time and the loop.
pub life-Shows :
    (p : Prometheus) (g : Gossipsub) (net : Network g) (d : Dialer g) (libp : Libp2p g d)
    (hasher : Hasher) (shuffle_ids : List ℕ → List ℕ) (shuffle_addrs : List Text → List Text)
    (lookups : Text → List (Result (List SocketAddr))) (begin : ℕ) (polls : List (Poll g))
    (recorder : net.Recorder) (b : ByteOrder) (topic : Text) (unicode : Text → Text)
    (var : Environment) (host : Option Text) (st : Started p g net) (es : List (LoopEvent g))
    → start p g net d libp hasher shuffle_ids shuffle_addrs lookups begin polls recorder unicode var
        host
      ≡ some (done (ok st))
    → All IsSafe es
    → (n : Node p g net) × (run p g net b st.config.chunks st.node es ≡ done n)
      × Shows p st.registry topic
          (total (publishes topic) es)
          (subscribers topic (heard (begin + waiting_time) polls) + total (subscribes_to topic) es)
          (leavers topic (heard (begin + waiting_time) polls) + total (unsubscribes_from topic) es)
          n.receiver
life-Shows p g net d libp hasher shuffle_ids shuffle_addrs lookups begin polls recorder b topic
      unicode var host st es reached safe =
    let (_, _, _, (others, made), _, silent, _, moved) =
      start-Ready p g net d libp hasher shuffle_ids shuffle_addrs lookups begin polls recorder topic
        unicode var host st reached in
    let (n, ran, counted) = run-Counted p g net b st.config.chunks topic es st.node safe in
    let zero_ = new-Counts p topic gossipsub_d_low in
    let lines = ap length silent in
    (
      n,
      ran,
      Counts-Shows p st.registry others topic _ _ _ n.receiver made
          (omega (arith, counted.moved, counted.printed)),
    )
