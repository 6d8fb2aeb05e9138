-- ===== src/Tests/Starting.antt =====
-- A start of the node in Shadow.
use dst_libp2p_test_node.Prelude.{
  ◌+◌, ◌%◌, ◌^◌, length, ◌<◌, ◌≡◌, refl, ◌↔◌, ◌++◌, map, List, Option, [], ◌∷◌, none, some, arith,
  if◌then◌else◌,
}
use dst_libp2p_test_node.Prelude.Int.{pos}
use dst_libp2p_test_node.Text.{Text, codes, text_eq, to_lowercase, eq_ignore_ascii_case}
use dst_libp2p_test_node.Text.Split.{split}
use dst_libp2p_test_node.Text.Decimal.{display, parse_unsigned}
use dst_libp2p_test_node.Outcome.{done, panic, ok}
use dst_libp2p_test_node.Env.{
  Environment, get_peer_details, read_config, var_number, host_id, listen_address, is_known_muxer,
}
use dst_libp2p_test_node.Env.Checks.{IsValid}
use dst_libp2p_test_node.ByteOrder.{little_endian}
use dst_libp2p_test_node.Gossipsub.{accepting}
use dst_libp2p_test_node.Metrics.Interface.{plain}
use dst_libp2p_test_node.Metrics.Registry.{new}
use dst_libp2p_test_node.Connect.{target_addresses, range_from, without, waiting_time}
use dst_libp2p_test_node.Connect.Found.{dialable}
use dst_libp2p_test_node.Connect.Waiting.{subscribers, leavers, count_events, heard}
use dst_libp2p_test_node.MainLoop.{Node, run}
use dst_libp2p_test_node.Metrics.Moves.{Moves}
use dst_libp2p_test_node.MainLoop.Counting.{total, publishes, subscribes_to, unsubscribes_from}
use dst_libp2p_test_node.Startup.Life.{Shows, life-Shows}
use dst_libp2p_test_node.Tests.Node.{events}
use dst_libp2p_test_node.Startup.{
  Libp2p, own, foreign, registered, start, Started, started, store_metrics_task, http_server,
}
use dst_libp2p_test_node.MessageId.{Hasher}
use dst_libp2p_test_node.Behaviour.{lenient, gossipsub_d_low}
use dst_libp2p_test_node.Startup.Ready.{start-Ready}
use dst_libp2p_test_node.Startup.Reaches.{Builds, Reaches, start-Reaches}
use dst_libp2p_test_node.Startup.Reaches.Finds.{in_shadow}
use dst_libp2p_test_node.Startup.Panics.{start-panic}
use dst_libp2p_test_node.Tests.Data.{config, small_net}
use dst_libp2p_test_node.Tests.Peers.{
  keep, willing, lookups, lookups_tried, shuffled, shuffled_permutes, format_addr-Parses, polls,
  dials,
}

id : Text → Text
id s = s

abbrev pod_env : Environment
pod_env name =
    if text_eq name (codes "PEERS")
    then some (codes "4")
    else if text_eq name (codes "CONNECTTO")
    then some (codes "1")
    else if text_eq name (codes "FRAGMENTS")
    then some (codes "2")
    else if text_eq name (codes "SHADOWENV")
    then some (codes "True")
    else none

config_read : get_peer_details id pod_env (some (codes "pod-1")) ≡ done (ok config)
unfolding get_peer_details read_config var_number host_id listen_address is_known_muxer split
    parse_unsigned to_lowercase eq_ignore_ascii_case text_eq display id
config_read = refl

-- A hash that only looks at the length.
abbrev pub length_hash : Hasher
length_hash = record { hash = λ bytes. length bytes % 2 ^ 64; hash-le = λ bytes. omega arith }

abbrev easy : Libp2p accepting willing
easy = record {
  behaviours = lenient;
  new_identity = 7;
  with_tcp = none;
  build = λ quic x. ok [];
  subscribe = λ s topic. ok s;
  set_topic_params = λ s topic params. (s, some (codes "no peer scores"));
  listen_on = λ s addr. ok s;
  parse_error = λ a. a;
  bandwidth_metrics = codes "libp2p_bandwidth_bytes" ∷ [];
  gossipsub_metrics = codes "mesh_peer_counts" ∷ [];
  libp2p_metrics = codes "libp2p_swarm_dial_attempt" ∷ [];
}

abbrev easy-Builds : Builds accepting willing easy length_hash config []
unfolding text_eq
easy-Builds = record {
  built = [];
  joined = [];
  addr = codes "/ip4/0.0.0.0/tcp/5000";
  tcp = refl;
  builds = λ x made. refl;
  joins = refl;
  parses = refl;
  listens = refl;
}

some_found : 0 < length (dialable lookups (target_addresses keep config))
unfolding target_addresses range_from without keep display text_eq
some_found = omega arith

start-Reaches_example :
    Reaches plain accepting small_net willing easy length_hash keep shuffled lookups 0 polls 0 id
      pod_env
      (some (codes "pod-1"))
      config
start-Reaches_example =
    start-Reaches plain accepting small_net willing easy length_hash keep shuffled lookups 0 polls 0
      id pod_env (some (codes "pod-1")) config [] _ config_read easy-Builds
      (in_shadow refl lookups_tried) (dials config (omega arith)) some_found

-- The node as it reaches its loop.
abbrev ready : Started plain accepting small_net
ready =
    started plain accepting small_net 0 (registered plain accepting willing easy) config
      start-Reaches_example.0
      (count_events plain (heard (0 + waiting_time) polls) (new plain [] gossipsub_d_low).1)

start-Ready_example :
    (get_peer_details id pod_env (some (codes "pod-1")) ≡ done (ok ready.config))
    × IsValid ready.config
    × (ready.services ≡ store_metrics_task 1 300 ∷ http_server ready.config ∷ [])
    × ((others : List Text) × (ready.registry
          ≡ map own (new plain [] gossipsub_d_low).0 ++ map foreign others))
    × (ready.node.receiver.seen ≡ [])
    × (ready.node.receiver.stdout ≡ [])
    × (ready.node.receiver.metrics.d_low ≡ pos 4)
    × Moves plain
        (codes "test")
        0
        0
        (subscribers (codes "test") (heard (0 + waiting_time) polls))
        (leavers (codes "test") (heard (0 + waiting_time) polls))
        (new plain [] gossipsub_d_low).1
        ready.node.receiver.metrics
start-Ready_example =
    start-Ready plain accepting small_net willing easy length_hash keep shuffled lookups 0 polls 0
      (codes "test") id pod_env (some (codes "pod-1")) ready start-Reaches_example.1

life-Shows_example :
    (n : Node plain accepting small_net) × (run plain accepting small_net little_endian 2 ready.node
        events
      ≡ done n)
    × Shows plain ready.registry
        (codes "test")
        (total (publishes (codes "test")) events)
        (subscribers (codes "test") (heard (0 + waiting_time) polls)
          + total (subscribes_to (codes "test")) events)
        (leavers (codes "test") (heard (0 + waiting_time) polls)
          + total (unsubscribes_from (codes "test")) events)
        n.receiver
life-Shows_example =
    life-Shows plain accepting small_net willing easy length_hash keep shuffled lookups 0 polls 0
      little_endian (codes "test") id pod_env (some (codes "pod-1")) ready events
      start-Reaches_example.1 (omega arith)

-- A machine whose name has no dash.
start-panic_example :
    (start plain accepting small_net willing easy length_hash keep shuffled lookups 0 polls 0 id
        pod_env
        (some (codes "localhost"))
      ≡ some panic)
    ↔ ((h : Text) × (◌≡◌ {A = Option Text} (some (codes "localhost")) (some h))
        × (host_id h ≡ none))
start-panic_example =
    start-panic plain accepting small_net willing easy length_hash keep shuffled lookups 0 polls 0
      id pod_env (some (codes "localhost")) shuffled_permutes format_addr-Parses

main_stops :
    start plain accepting small_net willing easy length_hash keep shuffled lookups 0 polls 0 id
      pod_env
      (some (codes "localhost"))
    ≡ some panic
unfolding host_id
main_stops = start-panic_example.1 (codes "localhost", refl, refl)
