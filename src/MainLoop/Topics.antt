-- ===== src/MainLoop/Topics.antt =====
-- What the gauges of each topic show behind a tick of the health interval.
use dst_libp2p_test_node.Prelude.{
  All-zip, All-map, ◌^◌, ◌<◌, ◌≤◌, ◌≡◌, ◌∙◌, List, [], ◌∷◌, arith, All, length, inl, inr,
  Bool-cases,
}
use dst_libp2p_test_node.Prelude.Int.{ℤ, pos}
use dst_libp2p_test_node.Text.{Text, text_eq, text_eq_refl, text_eq_sound}
use dst_libp2p_test_node.Word.{as_i64, wrap_i64_id}
use dst_libp2p_test_node.Gossipsub.{Gossipsub}
use dst_libp2p_test_node.Metrics.Interface.{Prometheus}
use dst_libp2p_test_node.Metrics.{
  GossipSubMetrics, set_pubsub_topics, set_mesh_peers, set_topic_peers, update_health,
}
use dst_libp2p_test_node.MainLoop.{count_subscribed, topic_loop, tick}
use dst_libp2p_test_node.MainLoop.Events.{Network}

module _ (p : Prometheus) (g : Gossipsub) (net : Network g) (s : g.Swarm) where
  -- The gauges of a topic show the peers in its mesh and its subscribers.
  pub record Shown (m : GossipSubMetrics p) (t : Text) : Type 0 where
    pub mesh :
        p.get (p.gauge_at m.libp2p_gossipsub_peers_per_topic_mesh (record { topic = t }))
        ≡ as_i64 (net.mesh_peers s t)
    pub subscribed :
        p.get (p.gauge_at m.libp2p_gossipsub_peers_per_topic_gossipsub (record { topic = t }))
        ≡ as_i64 (count_subscribed t (net.all_peers s))

  -- The body of the loop over the topics.
  abbrev set_topic : Text → GossipSubMetrics p → GossipSubMetrics p
  set_topic t m =
      set_topic_peers p t (as_i64 (count_subscribed t (net.all_peers s)))
        (set_mesh_peers p t (as_i64 (net.mesh_peers s t)) m)

  set_topic-Shown : (t : Text) (m : GossipSubMetrics p) → Shown (set_topic t m) t
  unfolding set_mesh_peers set_topic_peers
  set_topic-Shown t m = record {
    mesh = rw (p.gauge_at-update _ _ _ _, text_eq_refl t) (p.get-set _ _);
    subscribed = rw (p.gauge_at-update _ _ _ _, text_eq_refl t) (p.get-set _ _);
  }

  set_topic-kept : (t k : Text) (m : GossipSubMetrics p) → Shown m k → Shown (set_topic t m) k
  unfolding set_mesh_peers set_topic_peers
  set_topic-kept t k m h = elim (Bool-cases (text_eq t k)) [
    | inl same ↦ rw (← (text_eq_sound t k same)) (set_topic-Shown t m)
    | inr other ↦ record {
      mesh = rw (p.gauge_at-update _ _ _ _, other) h.mesh;
      subscribed = rw (p.gauge_at-update _ _ _ _, other) h.subscribed;
    }
  ]

  topic_loop-kept :
      (ts : List Text) (k : Text) (m : GossipSubMetrics p) (counts : List (Text × ℤ))
      → Shown m k
      → Shown (topic_loop p g net s ts m counts).0 k
  unfolding topic_loop
  topic_loop-kept [] k m counts h = h
  topic_loop-kept (t ∷ ts) k m counts h =
      topic_loop-kept ts k (set_topic t m) _ (set_topic-kept t k m h)

  topic_loop-Shown :
      (ts : List Text) (m : GossipSubMetrics p) (counts : List (Text × ℤ))
      → All (Shown (topic_loop p g net s ts m counts).0) ts
  unfolding topic_loop
  topic_loop-Shown [] m counts = tt
  topic_loop-Shown (t ∷ ts) m counts =
      (topic_loop-kept ts t (set_topic t m) _ (set_topic-Shown t m), topic_loop-Shown ts _ _)

  tick-Shown : (m : GossipSubMetrics p) → All (Shown (tick p g net s m)) (net.topics s)
  unfolding tick set_pubsub_topics update_health
  tick-Shown m =
      All-map _ _ (λ t h. record { mesh = h.mesh; subscribed = h.subscribed }) (net.topics s)
        (topic_loop-Shown (net.topics s) _ [])

  count_subscribed-le : (t : Text) (ps : List (List Text)) → count_subscribed t ps ≤ length ps
  count_subscribed-le t [] = omega arith
  count_subscribed-le t (ts ∷ ps) = ground (arith, count_subscribed-le t ps)

  -- Behind a tick a scrape reads, for every topic that the node is in, the number of peers in its mesh
  -- and the number of gossipsub peers that have subscribed to it, as the swarm has them, and the
  -- topics after one another do not disturb each other. The numbers are below 2^63.
  pub tick-topics :
      (m : GossipSubMetrics p)
      → length (net.all_peers s) < 2 ^ 63
      → All (λ t. net.mesh_peers s t < 2 ^ 63) (net.topics s)
      → let m' = tick p g net s m in
        All
          (λ t.
            (p.get (p.gauge_at m'.libp2p_gossipsub_peers_per_topic_mesh (record { topic = t }))
              ≡ pos (net.mesh_peers s t))
            × (p.get
                  (p.gauge_at m'.libp2p_gossipsub_peers_per_topic_gossipsub (record { topic = t }))
                ≡ pos (count_subscribed t (net.all_peers s))))
          (net.topics s)
  tick-topics m few small =
      All-zip _ _ _
        (λ t h k. (
          h.mesh ∙ wrap_i64_id (pos (net.mesh_peers s t)) k,
          h.subscribed
              ∙ wrap_i64_id (pos (count_subscribed t (net.all_peers s)))
                  (omega (arith, count_subscribed-le t (net.all_peers s))),
        ))
        (net.topics s) (tick-Shown m) small
