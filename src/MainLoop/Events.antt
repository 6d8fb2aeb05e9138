-- ===== src/MainLoop/Events.antt =====
-- The events of the swarm, and what the loop reads of the network: libp2p's counts of peers and
-- topics, and its `Metrics` recorder. What events carry only for the log is left out.
use dst_libp2p_test_node.Prelude.{ℕ, List}
use dst_libp2p_test_node.Text.{Text}
use dst_libp2p_test_node.ByteOrder.{Bytes}
use dst_libp2p_test_node.Gossipsub.{Gossipsub}

pub data GossipsubEvent : Type 0 where
  message : Bytes → GossipsubEvent
  subscribed unsubscribed : Text → GossipsubEvent
  other_gossipsub : GossipsubEvent

pub data SwarmEvent : Type 0 where
  behaviour : GossipsubEvent → SwarmEvent
  connection_established connection_closed : SwarmEvent
  incoming_connection_error outgoing_connection_error : SwarmEvent
  other_event : SwarmEvent

-- `all_peers` gives the topics of each peer.
pub record Network (g : Gossipsub) : Type 1 where
  pub connected_peers : g.Swarm → ℕ
  pub all_peers : g.Swarm → List (List Text)
  pub topics : g.Swarm → List Text
  pub mesh_peers : g.Swarm → Text → ℕ
  pub Recorder : Type 0
  pub record_swarm : Recorder → SwarmEvent → Recorder
  pub record_gossipsub : Recorder → GossipsubEvent → Recorder
