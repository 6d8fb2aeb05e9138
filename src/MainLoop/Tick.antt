-- ===== src/MainLoop/Tick.antt =====
-- What the gauges show behind a tick of the health interval.
use dst_libp2p_test_node.Prelude.{
  ℕ, suc, ◌^◌, ◌<◌, ◌≡◌, refl, ap, sym, ◌∙◌, List, [], ◌∷◌, ◌++◌, map, arith, length, All,
  append_assoc, append-nil,
}
use dst_libp2p_test_node.Prelude.Int.{ℤ, pos}
use dst_libp2p_test_node.Text.{Text}
use dst_libp2p_test_node.Word.{as_i64, wrap_i64_id}
use dst_libp2p_test_node.Gossipsub.{Gossipsub}
use dst_libp2p_test_node.Metrics.Interface.{Prometheus}
use dst_libp2p_test_node.Metrics.{
  GossipSubMetrics, set_peers, set_pubsub_peers, set_pubsub_topics, set_mesh_peers, set_topic_peers,
  update_health,
}
use dst_libp2p_test_node.Metrics.Health.{
  topics_with, is_none, is_low, is_healthy, AreCounts, update_health-gauges,
}
use dst_libp2p_test_node.MainLoop.{topic_loop, tick}
use dst_libp2p_test_node.MainLoop.Events.{Network}

module _ (p : Prometheus) (g : Gossipsub) (net : Network g) (s : g.Swarm) where
  -- The mesh peers of each topic, as `update_health` gets them.
  abbrev pub mesh_counts : List Text → List (Text × ℤ)
  mesh_counts ts = map (λ t. (t, as_i64 (net.mesh_peers s t))) ts

  topic_loop-counts :
      (ts : List Text) (m : GossipSubMetrics p) (counts : List (Text × ℤ))
      → (topic_loop p g net s ts m counts).1 ≡ counts ++ mesh_counts ts
  unfolding topic_loop
  topic_loop-counts [] m counts = sym (append-nil counts)
  topic_loop-counts (t ∷ ts) m counts = topic_loop-counts ts _ _ ∙ append_assoc counts _ _

  topic_loop-d_low :
      (ts : List Text) (m : GossipSubMetrics p) (counts : List (Text × ℤ))
      → (topic_loop p g net s ts m counts).0.d_low ≡ m.d_low
  unfolding topic_loop set_mesh_peers set_topic_peers
  topic_loop-d_low [] m counts = refl
  topic_loop-d_low (t ∷ ts) m counts = topic_loop-d_low ts _ _

  topic_loop-peers :
      (ts : List Text) (m : GossipSubMetrics p) (counts : List (Text × ℤ))
      → ((topic_loop p g net s ts m counts).0.libp2p_peers ≡ m.libp2p_peers)
        × ((topic_loop p g net s ts m counts).0.libp2p_pubsub_peers ≡ m.libp2p_pubsub_peers)
  unfolding topic_loop set_mesh_peers set_topic_peers
  topic_loop-peers [] m counts = (refl, refl)
  topic_loop-peers (t ∷ ts) m counts = topic_loop-peers ts _ _

  counts-AreCounts :
      (ts : List Text) → All (λ t. net.mesh_peers s t < 2 ^ 63) ts → AreCounts (mesh_counts ts)
  counts-AreCounts [] h = tt
  counts-AreCounts (t ∷ ts) (h, hs) =
      (rw (wrap_i64_id (pos (net.mesh_peers s t)) h) (omega arith), counts-AreCounts ts hs)

  length-mesh_counts : (ts : List Text) → length (mesh_counts ts) ≡ length ts
  length-mesh_counts [] = refl
  length-mesh_counts (t ∷ ts) = ap suc (length-mesh_counts ts)

  -- The metrics before the loop over the topics, and behind it.
  abbrev before : GossipSubMetrics p → GossipSubMetrics p
  before m =
      set_pubsub_peers p (as_i64 (length (net.all_peers s)))
        (set_peers p (as_i64 (net.connected_peers s)) m)

  abbrev behind : GossipSubMetrics p → GossipSubMetrics p
  behind m =
      let counts = mesh_counts (net.topics s) in
      set_pubsub_topics p (as_i64 (length counts))
        (topic_loop p g net s (net.topics s) (before m) []).0

  tick_lem :
      (m : GossipSubMetrics p)
      → tick p g net s m ≡ update_health p (mesh_counts (net.topics s)) (behind m)
  unfolding tick
  tick_lem m =
      ap
        (λ cs. update_health p cs (
          set_pubsub_topics p (as_i64 (length cs))
            (topic_loop p g net s (net.topics s) (before m) []).0))
        (topic_loop-counts (net.topics s) (before m) [])

  behind-d_low : (m : GossipSubMetrics p) → (behind m).d_low ≡ m.d_low
  unfolding set_peers set_pubsub_peers set_pubsub_topics
  behind-d_low m = topic_loop-d_low (net.topics s) (before m) []

  peers_set :
      (m : GossipSubMetrics p) (cs : List (Text × ℤ))
      → (p.get (update_health p cs (behind m)).libp2p_peers ≡ as_i64 (net.connected_peers s))
        × (p.get (update_health p cs (behind m)).libp2p_pubsub_peers
            ≡ as_i64 (length (net.all_peers s)))
        × (p.get (update_health p cs (behind m)).libp2p_pubsub_topics
            ≡ as_i64 (length (mesh_counts (net.topics s))))
  unfolding set_peers set_pubsub_peers set_pubsub_topics update_health
  peers_set m cs =
      let kept = topic_loop-peers (net.topics s) (before m) [] in
      (ap p.get kept.0 ∙ p.get-set _ _, ap p.get kept.1 ∙ p.get-set _ _, p.get-set _ _)

  -- Behind a tick a scrape reads the numbers of connected peers, of gossipsub peers and of topics as
  -- the swarm has them, and the three health gauges split the topics by their mesh peers. All these
  -- numbers are below 2^63.
  pub tick-gauges :
      (m : GossipSubMetrics p) (d : ℕ)
      → m.d_low ≡ pos d
      → 0 < d
      → net.connected_peers s < 2 ^ 63
      → length (net.all_peers s) < 2 ^ 63
      → length (net.topics s) < 2 ^ 63
      → All (λ t. net.mesh_peers s t < 2 ^ 63) (net.topics s)
      → let m' = tick p g net s m in
        let counts = mesh_counts (net.topics s) in
        (p.get m'.libp2p_peers ≡ pos (net.connected_peers s))
        × (p.get m'.libp2p_pubsub_peers ≡ pos (length (net.all_peers s)))
        × (p.get m'.libp2p_pubsub_topics ≡ pos (length (net.topics s)))
        × (p.get m'.libp2p_gossipsub_no_peers_topics ≡ pos (topics_with is_none counts))
        × (p.get m'.libp2p_gossipsub_low_peers_topics ≡ pos (topics_with (is_low d) counts))
        × (p.get m'.libp2p_gossipsub_healthy_peers_topics ≡ pos (topics_with (is_healthy d) counts))
  tick-gauges m d low k peers pubsub topics mesh =
      let cs = mesh_counts (net.topics s) in
      let small : length cs < 2 ^ 63 = omega (arith, length-mesh_counts (net.topics s)) in
      let (none_ok, low_ok, healthy_ok, _) =
        update_health-gauges p (behind m) d cs (behind-d_low m ∙ low) k
          (counts-AreCounts (net.topics s) mesh) small in
      let (peers_ok, pubsub_ok, topics_ok) = peers_set m cs in
      rw tick_lem (
        peers_ok ∙ wrap_i64_id (pos (net.connected_peers s)) peers,
        pubsub_ok ∙ wrap_i64_id (pos (length (net.all_peers s))) pubsub,
        topics_ok
            ∙ wrap_i64_id (pos (length cs)) small
            ∙ ap pos (length-mesh_counts (net.topics s)),
        none_ok,
        low_ok,
        healthy_ok,
      )
