-- ===== src/Startup/Reaches.antt =====
-- When a node reaches its loop.
use dst_libp2p_test_node.Prelude.{
  ℕ, ◌+◌, ◌<◌, min, ◌≡◌, refl, ap, none, true, false, ◌++◌, ◌∷◌, arith, List, [], length, Option,
  some,
}
use dst_libp2p_test_node.Text.{Text, codes, text_eq}
use dst_libp2p_test_node.Outcome.{done, ok}
use dst_libp2p_test_node.Gossipsub.{Gossipsub}
use dst_libp2p_test_node.Env.{PeerConfig, Environment, get_peer_details}
use dst_libp2p_test_node.Metrics.Interface.{Prometheus}
use dst_libp2p_test_node.Metrics.Registry.{new}
use dst_libp2p_test_node.MessageId.{Hasher}
use dst_libp2p_test_node.Behaviour.{gossipsub_d_low, build_behaviour, build_behaviour-done}
use dst_libp2p_test_node.Connect.{
  Ipv4Addr, SocketAddr, Dialer, Poll, waiting_time, target_addresses,
}
use dst_libp2p_test_node.Connect.Waiting.{count_events, in_time, heard, last_swarm}
use dst_libp2p_test_node.Connect.Resolve.{failures}
use dst_libp2p_test_node.Connect.Joined.{connections}
use dst_libp2p_test_node.Connect.Found.{Attempts, dialable, service_address, ipv4}
use dst_libp2p_test_node.Connect.Joining.{
  Dials, Joined, connect_gossipsub_peers-Joined, connect_gossipsub_peers_retries,
}
use dst_libp2p_test_node.MainLoop.Events.{Network}
use dst_libp2p_test_node.Startup.{
  Libp2p, registered, started, topic_params, subscribe_gossipsub_topic, listen, join_topic,
  build_swarm, after_connect, after_swarm, after_details, start,
}

module _ (g : Gossipsub) (d : Dialer g) (libp : Libp2p g d) (hasher : Hasher) where
  -- The calls of libp2p that build the swarm succeed, and `swarm` is what they make.
  pub record Builds (config : PeerConfig) (swarm : g.Swarm) : Type 0 where
    pub built : g.Swarm
    pub joined : g.Swarm
    pub addr : d.Multiaddr
    pub tcp : libp.with_tcp ≡ none
    pub builds :
        (x : libp.behaviours.Behaviour)
        → build_behaviour libp.behaviours hasher libp.new_identity ≡ done x
        → libp.build (text_eq config.muxer (codes "quic")) x ≡ ok built
    pub joins : libp.subscribe built (codes "test") ≡ ok joined
    pub parses : d.parse config.address ≡ some addr
    pub listens :
        libp.listen_on (libp.set_topic_params joined (codes "test") topic_params).0 addr ≡ ok swarm

  join_topic-Builds :
      (config : PeerConfig) (swarm : g.Swarm) (b : Builds config swarm)
      → join_topic g d libp config (ok b.built) ≡ ok swarm
  unfolding join_topic subscribe_gossipsub_topic listen
  join_topic-Builds config swarm b =
      rw (join_topic, subscribe_gossipsub_topic, b.joins, listen, b.parses) b.listens

  build_swarm-Builds :
      (config : PeerConfig) (swarm : g.Swarm)
      → Builds config swarm
      → build_swarm g d libp hasher config ≡ done (ok swarm)
  unfolding build_swarm
  build_swarm-Builds config swarm b =
      let (c, x, _, _, made, _) = build_behaviour-done libp.behaviours hasher libp.new_identity in
      rw (build_swarm, b.tcp, made, b.builds (libp.behaviours.with_metrics x) made)
        (ap done (join_topic-Builds config swarm b))

module _ (p : Prometheus) (g : Gossipsub) (net : Network g) (d : Dialer g) (libp : Libp2p g d)
    (hasher : Hasher) (shuffle_ids : List ℕ → List ℕ) (shuffle_addrs : List Text → List Text)
    (lookups : Text → Attempts) (begin : ℕ) (polls : List (Poll g)) (recorder : net.Recorder) where
  -- The node reaches its loop with this configuration, and with the metrics that it has after waiting.
  abbrev pub Reaches : (Text → Text) → Environment → Option Text → PeerConfig → Type 0
  Reaches unicode var host config =
      (s : g.Swarm) × (start p g net d libp hasher shuffle_ids shuffle_addrs lookups begin polls
          recorder unicode var host
        ≡ some (
            done (
              ok (
                started p g net recorder (registered p g d libp) config s (
                  count_events p (heard (begin + waiting_time) polls)
                    (new p [] gossipsub_d_low).1)))))

  -- The addresses of IPv4 that the node finds.
  pub data Finds (config : PeerConfig) : List Ipv4Addr → Type 0 where
    in_shadow :
        config.in_shadow ≡ true
        → ((t : Text) → 0 < length (lookups t))
        → Finds config (dialable lookups (target_addresses shuffle_ids config))
    outside :
        (fails : List Text) (found : List SocketAddr) (later : Attempts)
        → config.in_shadow ≡ false
        → lookups (service_address config) ≡ failures fails ++ ok found ∷ later
        → Finds config (ipv4 found)

  Finds-Joined :
      (config : PeerConfig) (swarm : g.Swarm) (n : List Ipv4Addr)
      → Finds config n
      → Dials g d shuffle_addrs begin polls config
      → Joined p g d shuffle_ids shuffle_addrs lookups begin polls config swarm
          (new p [] gossipsub_d_low).1
          n
  Finds-Joined config swarm n (in_shadow shadow tried) h =
      connect_gossipsub_peers-Joined p g d shuffle_ids shuffle_addrs lookups begin polls config
        swarm (new p [] gossipsub_d_low).1 shadow tried h
  Finds-Joined config swarm n (outside fails found later out answers) h =
      connect_gossipsub_peers_retries p g d shuffle_ids shuffle_addrs lookups begin polls config
        swarm (new p [] gossipsub_d_low).1 fails found later out answers h

  positive : (n k : ℕ) → 0 < n → connections (min n (k + 1)) ≡ ok (min n (k + 1))
  positive n k h = ground arith

  Joined-Reaches :
      (unicode : Text → Text) (var : Environment) (host : Option Text) (config : PeerConfig)
      (swarm : g.Swarm) (n : List Ipv4Addr)
      → get_peer_details unicode var host ≡ done (ok config)
      → Builds g d libp hasher config swarm
      → Joined p g d shuffle_ids shuffle_addrs lookups begin polls config swarm
          (new p [] gossipsub_d_low).1
          n
      → 0 < length n
      → Reaches unicode var host config
  unfolding start after_details after_swarm after_connect
  Joined-Reaches unicode var host config swarm n read builds h found = (
    last_swarm h.dialled (in_time (begin + waiting_time) polls),
    rw
        (
          start,
          read,
          after_details,
          build_swarm-Builds g d libp hasher config swarm builds,
          after_swarm,
          h.joined,
          positive (length n) config.connect_to found,
        )
        refl,
  )

  -- A node reaches its loop if its configuration is accepted, libp2p builds the swarm, subscribes and
  -- listens, and it finds an address of IPv4: in Shadow by the first lookups of its peers' names,
  -- which are all looked up, outside Shadow by the first lookup of the service that succeeds, after any
  -- number of failures. The conditions on `connect_to`, shuffling, parsing, dialling and the
  -- clock are those of `connect_gossipsub_peers-Joined`.
  pub start-Reaches :
      (unicode : Text → Text) (var : Environment) (host : Option Text) (config : PeerConfig)
      (swarm : g.Swarm) (n : List Ipv4Addr)
      → get_peer_details unicode var host ≡ done (ok config)
      → Builds g d libp hasher config swarm
      → Finds config n
      → Dials g d shuffle_addrs begin polls config
      → 0 < length n
      → Reaches unicode var host config
  start-Reaches unicode var host config swarm n read builds finds h found =
      Joined-Reaches unicode var host config swarm n read builds
        (Finds-Joined config swarm n finds h) found
