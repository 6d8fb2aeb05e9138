-- ===== src/Startup/Ready.antt =====
-- What holds where the loop begins.
use mathlib.Core.List.{map-append}
use dst_libp2p_test_node.Prelude.{
  ℕ, ◌+◌, ◌≡◌, refl, ap, ◌∙◌, ◌++◌, map, append_assoc, List, [], ◌∷◌, Option, none, some,
  if◌then◌else◌,
}
use dst_libp2p_test_node.Prelude.Int.{pos}
use dst_libp2p_test_node.Text.{Text}
use dst_libp2p_test_node.Outcome.{Run, done, panic, Result, ok, err}
use dst_libp2p_test_node.Gossipsub.{Gossipsub}
use dst_libp2p_test_node.Env.{PeerConfig, Environment, get_peer_details}
use dst_libp2p_test_node.Env.Checks.{IsValid, get_peer_details-IsValid}
use dst_libp2p_test_node.Metrics.Interface.{Prometheus}
use dst_libp2p_test_node.Metrics.{GossipSubMetrics}
use dst_libp2p_test_node.Metrics.Registry.{new}
use dst_libp2p_test_node.Connect.{SocketAddr, Dialer, Poll, waiting_time, connect_gossipsub_peers}
use dst_libp2p_test_node.Connect.Waiting.{
  subscribers, leavers, count_events-Moves, count_events-d_low, count_events, heard,
}
use dst_libp2p_test_node.Connect.Joined.{connect-metrics}
use dst_libp2p_test_node.MessageId.{Hasher}
use dst_libp2p_test_node.Behaviour.{gossipsub_d_low}
use dst_libp2p_test_node.Metrics.Moves.{Moves}
use dst_libp2p_test_node.MainLoop.Events.{Network}
use dst_libp2p_test_node.Startup.{
  Libp2p, registered, own, foreign, Started, started, metrics_server, store_metrics_task,
  http_server, build_swarm, after_connect, after_swarm, after_details, start,
}

registered-own :
    (p : Prometheus) (g : Gossipsub) (d : Dialer g) (libp : Libp2p g d)
    → (others : List Text) × (registered p g d libp
        ≡ map own (new p [] gossipsub_d_low).0 ++ map foreign others)
unfolding registered
registered-own p g d libp = (
  libp.bandwidth_metrics ++ libp.gossipsub_metrics ++ libp.libp2p_metrics,
  simp (map-append, append_assoc),
)

module _ (p : Prometheus) (g : Gossipsub) (net : Network g) (d : Dialer g) (libp : Libp2p g d)
    (hasher : Hasher) (shuffle_ids : List ℕ → List ℕ) (shuffle_addrs : List Text → List Text)
    (lookups : Text → List (Result (List SocketAddr))) (begin : ℕ) (polls : List (Poll g))
    (recorder : net.Recorder) where
  after_connect_inv :
      (config : PeerConfig) (r : Option (Run (g.Swarm × GossipSubMetrics p × Result ℕ)))
      (st : Started p g net)
      → after_connect p g net recorder (registered p g d libp) config r ≡ some (done (ok st))
      → (s : g.Swarm) × (m : GossipSubMetrics p) × (k : ℕ) × (r ≡ some (done (s, m, ok k)))
        × (started p g net recorder (registered p g d libp) config s m ≡ st)
  unfolding after_connect
  after_connect_inv config none st e = absurd (cc)
  after_connect_inv config (some panic) st e = absurd (cc)
  after_connect_inv config (some (done (s, m, err x))) st e = absurd (cc)
  after_connect_inv config (some (done (s, m, ok k))) st e = (s, m, k, refl, cc)

  after_connect_metrics :
      (config : PeerConfig) (swarm : g.Swarm) (m : GossipSubMetrics p) (st : Started p g net)
      → after_connect p g net recorder (registered p g d libp) config (
          connect_gossipsub_peers p g d shuffle_ids shuffle_addrs lookups begin polls config swarm
            m)
        ≡ some (done (ok st))
      → (s : g.Swarm) × (started p g net recorder
            (registered p g d libp)
            config
            s
            (count_events p (heard (begin + waiting_time) polls) m)
          ≡ st)
  after_connect_metrics config swarm m st e =
      let (s, m', k, ends, same) = after_connect_inv config _ st e in
      (
        s,
        ap (started p g net recorder (registered p g d libp) config s) (
              connect-metrics p g d shuffle_ids shuffle_addrs lookups begin polls config swarm m s
                m' k ends)
            ∙ same,
      )

  after_swarm_inv :
      (config : PeerConfig) (r : Run (Result g.Swarm)) (st : Started p g net)
      → after_swarm p g net d libp hasher shuffle_ids shuffle_addrs lookups begin polls recorder
          config r
        ≡ some (done (ok st))
      → (s : g.Swarm) × (started p g net recorder
            (registered p g d libp)
            config
            s
            (count_events p (heard (begin + waiting_time) polls) (new p [] gossipsub_d_low).1)
          ≡ st)
  unfolding after_swarm
  after_swarm_inv config panic st e = absurd (cc)
  after_swarm_inv config (done (err x)) st e = absurd (cc)
  after_swarm_inv config (done (ok swarm)) st e =
      after_connect_metrics config swarm (new p [] gossipsub_d_low).1 st e

  after_details_inv :
      (r : Run (Result PeerConfig)) (st : Started p g net)
      → after_details p g net d libp hasher shuffle_ids shuffle_addrs lookups begin polls recorder r
        ≡ some (done (ok st))
      → (config : PeerConfig) × (s : g.Swarm) × (r ≡ done (ok config))
        × (started p g net recorder
              (registered p g d libp)
              config
              s
              (count_events p (heard (begin + waiting_time) polls) (new p [] gossipsub_d_low).1)
            ≡ st)
  unfolding after_details
  after_details_inv panic st e = absurd (cc)
  after_details_inv (done (err x)) st e = absurd (cc)
  after_details_inv (done (ok config)) st e =
      let (s, same) = after_swarm_inv config (build_swarm g d libp hasher config) st e in
      (config, s, refl, same)

  -- Where the node reaches its loop, it has read a valid configuration and spawned the HTTP server and,
  -- outside Shadow, the metrics server, in Shadow the task that writes its metrics file every 300
  -- seconds; what these show begins with the fourteen metrics that `new` registers; it has seen and printed nothing, its threshold for a low mesh is 4, and of the counters
  -- of new metrics only those of a topic's subscriptions and unsubscriptions have moved, by the number
  -- of these events while it waited, modulo 2^64.
  pub start-Ready :
      (topic : Text) (unicode : Text → Text) (var : Environment) (host : Option Text)
      (st : Started p g net)
      → start p g net d libp hasher shuffle_ids shuffle_addrs lookups begin polls recorder unicode
          var host
        ≡ some (done (ok st))
      → (get_peer_details unicode var host ≡ done (ok st.config))
        × IsValid st.config
        × (st.services
            ≡ (if st.config.in_shadow
                then store_metrics_task st.config.my_id 300
                else metrics_server)
              ∷ http_server st.config
              ∷ [])
        × ((others : List Text) × (st.registry
              ≡ map own (new p [] gossipsub_d_low).0 ++ map foreign others))
        × (st.node.receiver.seen ≡ [])
        × (st.node.receiver.stdout ≡ [])
        × (st.node.receiver.metrics.d_low ≡ pos 4)
        × Moves p topic 0 0
            (subscribers topic (heard (begin + waiting_time) polls))
            (leavers topic (heard (begin + waiting_time) polls))
            (new p [] gossipsub_d_low).1
            st.node.receiver.metrics
  unfolding start
  start-Ready topic unicode var host st e =
      let first = (new p [] gossipsub_d_low).1 in
      let (config, s, read, same) = after_details_inv (get_peer_details unicode var host) st e in
      rw (← same) (
        read,
        (get_peer_details-IsValid unicode var host config read).0,
        refl,
        registered-own p g d libp,
        refl,
        refl,
        count_events-d_low p (heard (begin + waiting_time) polls) first ∙ unfold new in refl,
        count_events-Moves p topic (heard (begin + waiting_time) polls) first,
      )
