-- ===== src/Tests/Data.antt =====
-- Inputs that the tests share.
use dst_libp2p_test_node.Prelude.{ℕ, [], ◌∷◌, true}
use dst_libp2p_test_node.Prelude.Int.{pos}
use dst_libp2p_test_node.Text.{codes}
use dst_libp2p_test_node.Clock.{Instant}
use dst_libp2p_test_node.Gossipsub.{accepting}
use dst_libp2p_test_node.Metrics.Interface.{plain}
use dst_libp2p_test_node.Metrics.Registry.{initial}
use dst_libp2p_test_node.Receive.{Receiver}
use dst_libp2p_test_node.Publish.{PublishCommand}
use dst_libp2p_test_node.Env.{PeerConfig}
use dst_libp2p_test_node.Http.{PublishRequest}
use dst_libp2p_test_node.MainLoop.{Node}
use dst_libp2p_test_node.MainLoop.Events.{Network}

abbrev pub noon : Instant
noon = record { timestamp = pos 5; nanosecond = 7 }

abbrev pub later : Instant
later = record { timestamp = pos 6; nanosecond = 9 }

-- Two fragments of twenty bytes.
abbrev pub hello : PublishCommand
hello = record { topic = codes "test"; msg_size = 40; chunks = 2 }

-- No fragment has room for the time.
abbrev pub tiny : PublishCommand
tiny = record { topic = codes "test"; msg_size = 10; chunks = 2 }

abbrev pub idle : Receiver plain
idle = record { seen = []; stdout = []; metrics = initial plain (pos 4) }

abbrev pub config : PeerConfig
config = record {
  hostname = codes "pod-1";
  my_id = 1;
  network_size = 4;
  connect_to = 1;
  chunks = 2;
  muxer = codes "yamux";
  address = codes "/ip4/0.0.0.0/tcp/5000";
  service = codes "nimp2p-service";
  in_shadow = true;
}

abbrev pub request : PublishRequest
request = record { topic = codes "test"; msg_size = 40; version = pos 1 }

-- A network with one topic, two peers and a mesh of one.
abbrev pub small_net : Network accepting
small_net = record {
  connected_peers = λ s. 3;
  all_peers = λ s. (codes "test" ∷ []) ∷ [] ∷ [];
  topics = λ s. codes "test" ∷ [];
  mesh_peers = λ s t. 1;
  Recorder = ℕ;
  record_swarm = λ r e. r;
  record_gossipsub = λ r e. r;
}

abbrev pub fresh : Node plain accepting small_net
fresh = record { swarm = []; recorder = 0; receiver = idle }
