-- ===== src/Tests/Peers.antt =====
-- Choosing and dialling peers.
use mathlib.Core.List.{Permᴰ}
use mathlib.Core.List.Permᴰ
use dst_libp2p_test_node.Prelude.{
  ℕ, ◌+◌, ◌-◌, ◌*◌, ◌<◌, min, ◌≡◌, ◌≢◌, refl, true, false, List, [], ◌∷◌, ◌++◌, map, some, arith,
  length, take, All, ltb, ◌^◌, if◌then◌else◌, inl, inr, Bool-cases, none,
}
use dst_libp2p_test_node.Text.{Text, codes, text_eq}
use dst_libp2p_test_node.Outcome.{done, ok, err}
use dst_libp2p_test_node.Env.{PeerConfig, host_id, listen_address}
use dst_libp2p_test_node.Env.Checks.{IsValid}
use dst_libp2p_test_node.Env.Hostname.{pod}
use dst_libp2p_test_node.Gossipsub.{accepting}
use dst_libp2p_test_node.Connect.SocketAddr.{v4, v6}
use dst_libp2p_test_node.Connect.{
  Dialer, dial_loop, target_addresses, Ipv4Addr, display_ip, format_addr, Poll, await_events,
}
use dst_libp2p_test_node.Connect.Resolve.{format_addr-listens}
use dst_libp2p_test_node.Connect.Peers.{pod_address, Distinct, target_addresses-others}
use dst_libp2p_test_node.Connect.Dial.{
  Parses, dial_each, Dialled, dial_loop-count, dial_loop-Dialled,
}
use dst_libp2p_test_node.Connect.Found.{Attempts, dialable}
use dst_libp2p_test_node.Connect.Joining.{
  Dials, Joined, connect_gossipsub_peers-Joined, connect_gossipsub_peers_retries,
}
use dst_libp2p_test_node.Connect.Waiting.{
  subscribers, leavers, count_events, count_events-Moves, heard, in_time, last_swarm,
  await_events-ends,
}
use dst_libp2p_test_node.Metrics.Interface.{plain}
use dst_libp2p_test_node.Metrics.Moves.{Moves}
use dst_libp2p_test_node.MainLoop.Events.{message, subscribed, behaviour, connection_established}
use dst_libp2p_test_node.Tests.Data.{config, idle}

unfoldable pub keep : List ℕ → List ℕ
keep ids = ids

pub keep_permutes : (ids : List ℕ) → Permᴰ ids (keep ids)
unfolding keep
keep_permutes ids = Permᴰ.refl ids

config-IsValid : IsValid config
unfolding listen_address
config-IsValid = record {
  id_bound = omega arith;
  size_bound = omega arith;
  enough_peers = omega arith;
  chunks_bound = omega arith;
  known_muxer = inr refl;
  address_fits = refl;
}

target_addresses-others_example :
    (ids : List ℕ) × (target_addresses keep config ≡ map pod_address ids)
    × (length ids ≡ min (2 * 1) (if ltb 1 4 then 4 - 1 else 4))
    × All (λ id. (id < 4) × (id ≢ 1) × (host_id (pod id) ≡ some id)) ids
    × Distinct ids
target_addresses-others_example =
    target_addresses-others keep config keep_permutes config-IsValid (omega arith) refl

-- A parser that refuses what does not begin as an address of IPv4, and a swarm that always begins to dial.
abbrev pub willing : Dialer accepting
willing = record {
  Multiaddr = Text;
  parse = λ a. if text_eq (take 5 a) (codes "/ip4/") then some a else none;
  dial = λ s a. (s, true);
}

abbrev pub host : Ipv4Addr
host = record {
  octet_1 = 10;
  octet_2 = 0;
  octet_3 = 0;
  octet_4 = 7;
  are_bytes = (omega arith, omega arith, omega arith, omega arith);
}

refuses_others : ¬ Parses accepting willing (codes "/dns4/pod-1/tcp/5000")
unfolding text_eq
refuses_others (m, parsed) = absurd (cc)

take-format_addr : (muxer : Text) (ip : Ipv4Addr) → take 5 (format_addr muxer ip) ≡ codes "/ip4/"
unfolding format_addr
take-format_addr muxer ip = elim (Bool-cases (text_eq muxer (codes "quic"))) [
  | inl quic ↦ rw (format_addr, quic) refl
  | inr other ↦ rw (format_addr, other) refl
]

pub format_addr-Parses :
    (muxer : Text) (ip : Ipv4Addr) → Parses accepting willing (format_addr muxer ip)
unfolding text_eq
format_addr-Parses muxer ip = (format_addr muxer ip, rw (take-format_addr muxer ip) refl)

abbrev addrs : List Text
addrs =
    codes "/ip4/10.0.0.7/tcp/5000"
    ∷ codes "/ip4/10.0.0.8/tcp/5000"
    ∷ codes "/ip4/10.0.0.9/tcp/5000"
    ∷ []

addrs-Parses : All (Parses accepting willing) addrs
unfolding text_eq
addrs-Parses = ((_, refl), ((_, refl), ((_, refl), tt)))

-- A node that is to connect to one peer, and has three addresses, begins two connections.
dial_loop-count_example :
    dial_loop accepting willing 1 addrs 0 []
    ≡ done ((dial_each accepting willing [] (take (min 3 (1 + 1)) addrs)).0, min 3 (1 + 1))
dial_loop-count_example =
    dial_loop-count accepting willing 1 addrs [] (omega arith) addrs-Parses (λ t m. refl)

dial_loop-Dialled_example : Dialled accepting willing 1 addrs 0 []
dial_loop-Dialled_example =
    dial_loop-Dialled accepting willing 1 addrs 0 [] (omega arith) (omega arith) addrs-Parses

format_addr-listens_example :
    (suffix : Text) × (listen_address (codes "quic") ≡ codes "/ip4/0.0.0.0" ++ suffix)
    × (format_addr (codes "quic") host ≡ codes "/ip4/" ++ display_ip host ++ suffix)
format_addr-listens_example = format_addr-listens (codes "quic") host

-- Every name but the first has one address of IPv4, and the node is to connect to one peer.
abbrev pub lookups : Text → Attempts
lookups t =
    if text_eq t (codes "pod-0:5000")
    then err (codes "no") ∷ []
    else ok (v4 host ∷ v6 (codes "::1") ∷ []) ∷ []

pub lookups_tried : (t : Text) → 0 < length (lookups t)
lookups_tried t = elim (Bool-cases (text_eq t (codes "pod-0:5000"))) [
  | inl first ↦ rw first (omega arith)
  | inr other ↦ rw other (omega arith)
]

unfoldable pub shuffled : List Text → List Text
shuffled ts = ts

pub shuffled_permutes : (ts : List Text) → Permᴰ ts (shuffled ts)
unfolding shuffled
shuffled_permutes ts = Permᴰ.refl ts

abbrev pub polls : List (Poll accepting)
polls =
    record { now = 5; swarm = []; event = some (behaviour (subscribed (codes "test"))) }
    ∷ record { now = 6; swarm = []; event = some (behaviour (message [])) }
    ∷ record { now = 7; swarm = []; event = some connection_established }
    ∷ record { now = 30_000_000_000; swarm = []; event = none }
    ∷ []

pub dials :
    (c : PeerConfig) → c.connect_to + 1 < 2 ^ 32 → Dials accepting willing shuffled 0 polls c
dials c small = record {
  small = small;
  permutes = shuffled_permutes;
  parses = format_addr-Parses c.muxer;
  begins = λ t m. refl;
  ends = omega arith;
}

connect_gossipsub_peers-Joined_example :
    Joined plain accepting willing keep shuffled lookups 0 polls config [] idle.metrics
      (dialable lookups (target_addresses keep config))
connect_gossipsub_peers-Joined_example =
    connect_gossipsub_peers-Joined plain accepting willing keep shuffled lookups 0 polls config []
      idle.metrics refl lookups_tried (dials config (omega arith))

abbrev outside : PeerConfig
outside = record config { in_shadow = false }

-- The service's name resolves at the second attempt.
abbrev retried : Text → Attempts
retried t = err (codes "not yet") ∷ ok (v4 host ∷ v4 host ∷ v4 host ∷ []) ∷ []

connect_gossipsub_peers_retries_example :
    Joined plain accepting willing keep shuffled retried 0 polls outside [] idle.metrics
      (host ∷ host ∷ host ∷ [])
connect_gossipsub_peers_retries_example =
    connect_gossipsub_peers_retries plain accepting willing keep shuffled retried 0 polls outside []
      idle.metrics (codes "not yet" ∷ []) (v4 host ∷ v4 host ∷ v4 host ∷ []) [] refl refl
      (dials outside (omega arith))

count_events-Moves_example :
    Moves plain
      (codes "test")
      0
      0
      (subscribers (codes "test") (heard 20_000_000_000 polls))
      (leavers (codes "test") (heard 20_000_000_000 polls))
      idle.metrics
      (count_events plain (heard 20_000_000_000 polls) idle.metrics)
count_events-Moves_example =
    count_events-Moves plain (codes "test") (heard 20_000_000_000 polls) idle.metrics

-- A poll that is over after 100 ms.
abbrev quiet : ℕ → Poll accepting
quiet now = record { now = now; swarm = []; event = none }

await_events-ends_example :
    await_events plain accepting 4 (quiet 2 ∷ quiet 3 ∷ quiet 5 ∷ []) [] idle.metrics
    ≡ some (
      last_swarm [] (in_time 4 (quiet 2 ∷ quiet 3 ∷ quiet 5 ∷ [])),
      count_events plain (heard 4 (quiet 2 ∷ quiet 3 ∷ quiet 5 ∷ [])) idle.metrics,
    )
await_events-ends_example =
    await_events-ends plain accepting 4 1 (quiet 2 ∷ quiet 3 ∷ quiet 5 ∷ []) [] idle.metrics
      (omega arith) (omega arith) (omega arith)
