-- ===== src/Startup.antt =====
-- rust-test-node/src/main.rs: `main` up to its loop. Building the swarm, gossipsub's subscribing and
-- libp2p's listening are the interface `Libp2p`; the waiting and the spawning of tasks are left out,
-- and a spawned task is kept as a `Service`.
pub mod Ready
pub mod Reaches
pub mod Life
pub mod Panics
pub mod Scrape
use dst_libp2p_test_node.Prelude.{
  ℕ, Bool, List, [], ◌∷◌, ◌++◌, map, Option, none, some, if◌then◌else◌,
}
use dst_libp2p_test_node.MessageId.{Hasher}
use dst_libp2p_test_node.Behaviour.{BehaviourBuilder, build_behaviour, gossipsub_d_low}
use dst_libp2p_test_node.Text.{Text, codes, text_eq}
use dst_libp2p_test_node.Outcome.{Run, done, panic, Result, ok, err, ◌>>=◌}
use dst_libp2p_test_node.Gossipsub.{Gossipsub}
use dst_libp2p_test_node.Env.{PeerConfig, Environment, get_peer_details}
use dst_libp2p_test_node.Metrics.Interface.{Prometheus}
use dst_libp2p_test_node.Metrics.{GossipSubMetrics}
use dst_libp2p_test_node.Metrics.Registry.{Registration, new}
use dst_libp2p_test_node.Connect.{SocketAddr, Dialer, Poll, connect_gossipsub_peers}
use dst_libp2p_test_node.MainLoop.{Node}
use dst_libp2p_test_node.MainLoop.Events.{Network}

-- TopicScoreParams { … ..Default::default() }, with the source's literals
pub record TopicScoreParams : Type 0 where
  pub topic_weight : Text
  pub first_message_deliveries_weight : Text
  pub first_message_deliveries_cap : Text
  pub first_message_deliveries_decay : Text

-- `build` is told whether the transport is QUIC, and gets the behaviour for the new identity's key;
-- `with_tcp` gives the error of that call, if there is one. The failure of `set_topic_params` is only
-- logged. The last three are the names under which `with_bandwidth_metrics`, gossipsub's
-- `with_metrics` and `Metrics::new` register metrics.
pub record Libp2p (g : Gossipsub) (d : Dialer g) : Type 1 where
  pub behaviours : BehaviourBuilder
  pub new_identity : behaviours.Keypair
  pub with_tcp : Option Text
  pub build : Bool → behaviours.Behaviour → Result g.Swarm
  pub subscribe : g.Swarm → Text → Result g.Swarm
  pub set_topic_params : g.Swarm → Text → TopicScoreParams → g.Swarm × Option Text
  pub listen_on : g.Swarm → d.Multiaddr → Result g.Swarm
  pub parse_error : Text → Text
  pub bandwidth_metrics : List Text
  pub gossipsub_metrics : List Text
  pub libp2p_metrics : List Text

-- An entry of the registry: a metric of the node, or one that libp2p registers, by its name.
pub data Entry (p : Prometheus) : Type 0 where
  own : Registration p → Entry p
  foreign : Text → Entry p

-- The tasks that are spawned.
pub data Service : Type 0 where
  metrics_server : Service
  store_metrics_task : ℕ → ℕ → Service
  http_server : PeerConfig → Service

-- Where the loop begins; `registry` is what the metrics server, or the task in its place, encodes.
pub record Started (p : Prometheus) (g : Gossipsub) (net : Network g) : Type 0 where
  pub config : PeerConfig
  pub registry : List (Entry p)
  pub services : List Service
  pub node : Node p g net

abbrev pub topic_params : TopicScoreParams
topic_params = record {
  topic_weight = codes "1.0";
  first_message_deliveries_weight = codes "1.0";
  first_message_deliveries_cap = codes "30.0";
  first_message_deliveries_decay = codes "0.9";
}

module _ (g : Gossipsub) (d : Dialer g) (libp : Libp2p g d) where
  pub subscribe_gossipsub_topic : g.Swarm → Text → Result g.Swarm
  subscribe_gossipsub_topic swarm topic_name = elim (libp.subscribe swarm topic_name) [
    | err e ↦ err e
    | ok swarm' ↦ ok (libp.set_topic_params swarm' topic_name topic_params).0
  ]

  -- `swarm.listen_on(config.address.parse()?)?`
  pub listen : g.Swarm → Text → Result g.Swarm
  listen swarm address = elim (d.parse address) [
    | none ↦ err (libp.parse_error address)
    | some addr ↦ libp.listen_on swarm addr
  ]

  -- From the swarm on.
  pub join_topic : PeerConfig → Result g.Swarm → Result g.Swarm
  join_topic config (err e) = err e
  join_topic config (ok swarm) = elim (subscribe_gossipsub_topic swarm (codes "test")) [
    | err e ↦ err e
    | ok joined ↦ listen joined config.address
  ]

  pub build_swarm : Hasher → PeerConfig → Run (Result g.Swarm)
  build_swarm h config =
      let quic = text_eq config.muxer (codes "quic") in
      let rest = build_behaviour libp.behaviours h libp.new_identity >>= λ x.
      done (join_topic config (libp.build quic x)) in
      elim libp.with_tcp [ none ↦ rest | some e ↦ if quic then rest else done (err e) ]

-- What is registered, in the order of the calls.
pub registered : (p : Prometheus) (g : Gossipsub) (d : Dialer g) → Libp2p g d → List (Entry p)
registered p g d libp =
    let own_metrics = map own (new p [] gossipsub_d_low).0 in
    let with_bandwidth = own_metrics ++ map foreign libp.bandwidth_metrics in
    let with_gossipsub = with_bandwidth ++ map foreign libp.gossipsub_metrics in
    with_gossipsub ++ map foreign libp.libp2p_metrics

abbrev pub services : PeerConfig → List Service
services config =
    (if config.in_shadow then store_metrics_task config.my_id 300 else metrics_server)
    ∷ http_server config
    ∷ []

module _ (p : Prometheus) (g : Gossipsub) (net : Network g) where
  abbrev pub started :
      net.Recorder → List (Entry p) → PeerConfig → g.Swarm → GossipSubMetrics p → Started p g net
  started recorder registry config s m = record {
    config = config;
    registry = registry;
    services = services config;
    node = record {
      swarm = s;
      recorder = recorder;
      receiver = record { seen = []; stdout = []; metrics = m };
    };
  }

  -- `connect_gossipsub_peers(…).await?` and what follows it.
  pub after_connect :
      net.Recorder
      → List (Entry p)
      → PeerConfig
      → Option (Run (g.Swarm × GossipSubMetrics p × Result ℕ))
      → Option (Run (Result (Started p g net)))
  after_connect recorder registry config none = none
  after_connect recorder registry config (some panic) = some panic
  after_connect recorder registry config (some (done (s, m, err e))) = some (done (err e))
  after_connect recorder registry config (some (done (s, m, ok connected))) =
      some (done (ok (started recorder registry config s m)))

module _ (p : Prometheus) (g : Gossipsub) (net : Network g) (d : Dialer g) (libp : Libp2p g d)
    (hasher : Hasher) (shuffle_ids : List ℕ → List ℕ) (shuffle_addrs : List Text → List Text)
    (lookups : Text → List (Result (List SocketAddr))) (begin : ℕ) (polls : List (Poll g))
    (recorder : net.Recorder) where
  -- From the swarm on, with the metrics that were made before it.
  pub after_swarm : PeerConfig → Run (Result g.Swarm) → Option (Run (Result (Started p g net)))
  after_swarm config panic = some panic
  after_swarm config (done (err e)) = some (done (err e))
  after_swarm config (done (ok swarm)) =
      after_connect p g net recorder (registered p g d libp) config (
        connect_gossipsub_peers p g d shuffle_ids shuffle_addrs lookups begin polls config swarm
          (new p [] gossipsub_d_low).1)

  pub after_details : Run (Result PeerConfig) → Option (Run (Result (Started p g net)))
  after_details panic = some panic
  after_details (done (err e)) = some (done (err e))
  after_details (done (ok config)) = after_swarm config (build_swarm g d libp hasher config)

  -- `none` while a name is still being resolved or the node waits; `ok` where the loop is reached.
  pub start : (Text → Text) → Environment → Option Text → Option (Run (Result (Started p g net)))
  start unicode var host = after_details (get_peer_details unicode var host)
