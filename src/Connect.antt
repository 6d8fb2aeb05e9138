-- ===== src/Connect.antt =====
-- rust-test-node/src/main.rs: `resolve_address` and `connect_gossipsub_peers`. The random number
-- generator, the resolver, the parser of multiaddresses, dialling and the clock of the waiting time
-- are inputs. What is only logged is left out.
pub mod Peers
pub mod Dial
pub mod Resolve
pub mod Found
pub mod Joining
pub mod Waiting
pub mod Joined
pub mod Calm
use dst_libp2p_test_node.Prelude.{
  ℕ, zero, suc, ◌+◌, ◌*◌, ◌%◌, ◌^◌, ◌<◌, min, Bool, true, false, not, List, [], ◌∷◌, ◌++◌, map,
  Option, none, some, length, take, ltb, ◌==◌, if◌then◌else◌,
}
use dst_libp2p_test_node.Text.{Text, codes, text_eq}
use dst_libp2p_test_node.Text.Decimal.{display}
use dst_libp2p_test_node.Outcome.{Run, done, panic, Result, ok, err, ◌>>=◌}
use dst_libp2p_test_node.Gossipsub.{Gossipsub}
use dst_libp2p_test_node.Env.{PeerConfig, my_port}
use dst_libp2p_test_node.Metrics.Interface.{Prometheus}
use dst_libp2p_test_node.Metrics.{
  GossipSubMetrics, inc_received_subscriptions, inc_received_unsubscriptions,
}
use dst_libp2p_test_node.MainLoop.Events.{
  GossipsubEvent, subscribed, unsubscribed, SwarmEvent, behaviour,
}

-- (0..n), counted up to `n` from `i`
unfoldable pub range_from : ℕ → ℕ → List ℕ
range_from i zero = []
range_from i (suc n) = i ∷ range_from (i + 1) n

-- .filter(|&id| id != my_id)
unfoldable pub without : ℕ → List ℕ → List ℕ
without my_id [] = []
without my_id (id ∷ ids) = let rest = without my_id ids in if id == my_id then rest else id ∷ rest

-- The addresses to resolve. `shuffle` is what the generator makes of the list; the doubling is on
-- `usize`.
unfoldable pub target_addresses : (List ℕ → List ℕ) → PeerConfig → List Text
target_addresses shuffle config =
    let peers = without config.my_id (range_from 0 config.network_size) in
    let limit = min ((config.connect_to * 2) % 2 ^ 64) (length peers) in
    if config.in_shadow
    then map (λ id. codes "pod-" ++ display id ++ codes ":" ++ display my_port)
        (take limit (shuffle peers))
    else (config.service ++ codes ":" ++ display my_port) ∷ []

-- An address of IPv4, with its four octets.
pub record Ipv4Addr : Type 0 where
  pub octet_1 : ℕ
  pub octet_2 : ℕ
  pub octet_3 : ℕ
  pub octet_4 : ℕ
  pub are_bytes : (octet_1 < 256) × (octet_2 < 256) × (octet_3 < 256) × (octet_4 < 256)

-- As it prints.
unfoldable pub display_ip : Ipv4Addr → Text
display_ip a =
    display a.octet_1
    ++ codes "."
    ++ display a.octet_2
    ++ codes "."
    ++ display a.octet_3
    ++ codes "."
    ++ display a.octet_4

-- The IP address of a `SocketAddr`; one of IPv6 is kept as it prints.
pub data SocketAddr : Type 0 where
  v4 : Ipv4Addr → SocketAddr
  v6 : Text → SocketAddr

unfoldable pub format_addr : Text → Ipv4Addr → Text
format_addr muxer ip =
    if text_eq muxer (codes "quic")
    then codes "/ip4/" ++ display_ip ip ++ codes "/udp/" ++ display my_port ++ codes "/quic-v1"
    else codes "/ip4/" ++ display_ip ip ++ codes "/tcp/" ++ display my_port

-- `filter_map` with `addr.is_ipv4()`
pub format_addrs : Text → List SocketAddr → List Text
format_addrs muxer [] = []
format_addrs muxer (v4 ip ∷ addrs) = format_addr muxer ip ∷ format_addrs muxer addrs
format_addrs muxer (v6 ip ∷ addrs) = format_addrs muxer addrs

-- The loop of `resolve_address` over the outcomes of `lookup_host`, one for each attempt; `none` if it
-- is still trying when they are used up.
pub resolve_address : List (Result (List SocketAddr)) → Bool → Text → Option (Result (List Text))
resolve_address [] in_shadow muxer = none
resolve_address (ok found ∷ later) in_shadow muxer = some (ok (format_addrs muxer found))
resolve_address (err e ∷ later) in_shadow muxer =
    let again = resolve_address later in_shadow muxer in if in_shadow then some (err e) else again

-- `for t_address in &t_addresses`; a failed name is passed over.
pub resolve_all :
    (Text → List (Result (List SocketAddr))) → Bool → Text → List Text → Option (List Text)
resolve_all lookups in_shadow muxer [] = some []
resolve_all lookups in_shadow muxer (t ∷ ts) = elim (resolve_address (lookups t) in_shadow muxer) [
  | none ↦ none
  | some (err e) ↦ resolve_all lookups in_shadow muxer ts
  | some (ok addrs) ↦ elim (resolve_all lookups in_shadow muxer ts) [
    | none ↦ none
    | some rest ↦ some (addrs ++ rest)
  ]
]

-- `addr.parse()` and `swarm.dial`; the answer says whether dialling has begun.
pub record Dialer (g : Gossipsub) : Type 1 where
  pub Multiaddr : Type 0
  pub parse : Text → Option Multiaddr
  pub dial : g.Swarm → Multiaddr → g.Swarm × Bool

module _ (g : Gossipsub) (d : Dialer g) where
  -- The loop over the shuffled addresses; `connected` is a `u32`, and so is the cast of `connect_to`.
  pub dial_loop : ℕ → List Text → ℕ → g.Swarm → Run (g.Swarm × ℕ)
  dial_loop connect_to [] connected s = done (s, connected)
  dial_loop connect_to (a ∷ addrs) connected s = elim (ltb (connect_to % 2 ^ 32) connected) [
    | true ↦ done (s, connected)
    | false ↦ elim (d.parse a) [
      | none ↦ panic
      | some addr ↦
          let (s', begun) = d.dial s addr in
          dial_loop connect_to addrs (if begun then (connected + 1) % 2 ^ 32 else connected) s'
    ]
  ]

-- `if let Ok(Some(event))` with `match event`
pub count_event : (p : Prometheus) → Option SwarmEvent → GossipSubMetrics p → GossipSubMetrics p
count_event p (some (behaviour (subscribed topic))) m = inc_received_subscriptions p topic m
count_event p (some (behaviour (unsubscribed topic))) m = inc_received_unsubscriptions p topic m
count_event p _ m = m

-- A reading of the clock in nanoseconds, and what comes of polling the swarm then: the swarm
-- afterwards, and the event, `none` if 100 ms pass without one.
pub record Poll (g : Gossipsub) : Type 0 where
  pub now : ℕ
  pub swarm : g.Swarm
  pub event : Option SwarmEvent

-- Duration::from_secs(20)
abbrev pub waiting_time : ℕ
waiting_time = 20_000_000_000

module _ (p : Prometheus) (g : Gossipsub) where
  -- `while Instant::now() < timeout`; `none` if the readings end before it does.
  pub await_events :
      ℕ → List (Poll g) → g.Swarm → GossipSubMetrics p → Option (g.Swarm × GossipSubMetrics p)
  await_events timeout [] s m = none
  await_events timeout (r ∷ rs) s m =
      let rest = await_events timeout rs r.swarm (count_event p r.event m) in
      if ltb r.now timeout then rest else some (s, m)

  -- What follows the dialling; `begin` is the clock's reading then.
  pub after_dial :
      ℕ
      → List (Poll g)
      → GossipSubMetrics p
      → Run (g.Swarm × ℕ)
      → Option (Run (g.Swarm × GossipSubMetrics p × Result ℕ))
  after_dial begin polls m panic = some panic
  after_dial begin polls m (done (s, connected)) =
      elim (await_events (begin + waiting_time) polls s m) [
        | none ↦ none
        | some (s', m') ↦ some (
            done (
              s',
              m',
              (if connected == 0 then err (codes "Failed to connect any peers") else ok connected),
            ))
      ]

-- `none` while a name is still being resolved, or the node still waits. `shuffle_ids` and
-- `shuffle_addrs` are the generator's.
pub connect_gossipsub_peers :
    (p : Prometheus) (g : Gossipsub)
    → Dialer g
    → (List ℕ → List ℕ)
    → (List Text → List Text)
    → (Text → List (Result (List SocketAddr)))
    → ℕ
    → List (Poll g)
    → PeerConfig
    → g.Swarm
    → GossipSubMetrics p
    → Option (Run (g.Swarm × GossipSubMetrics p × Result ℕ))
connect_gossipsub_peers p g d shuffle_ids shuffle_addrs lookups begin polls config s m =
    elim (resolve_all lookups config.in_shadow config.muxer (target_addresses shuffle_ids config)) [
      | none ↦ none
      | some resolved ↦
          after_dial p g begin polls m
            (dial_loop g d config.connect_to (shuffle_addrs resolved) 0 s)
    ]
