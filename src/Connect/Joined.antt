-- ===== src/Connect/Joined.antt =====
-- How `connect_gossipsub_peers` ends, from how its parts end.
use dst_libp2p_test_node.Prelude.{
  ℕ, ◌+◌, ◌≤◌, ◌≡◌, refl, ◌==◌, List, Option, none, some, arith, length, ltb, if◌then◌else◌, inl,
  inr, Bool-cases, Option-cases,
}
use dst_libp2p_test_node.Text.{Text, codes}
use dst_libp2p_test_node.Outcome.{Run, done, panic, Result, ok, err, Run-cases}
use dst_libp2p_test_node.Gossipsub.{Gossipsub}
use dst_libp2p_test_node.Env.{PeerConfig}
use dst_libp2p_test_node.Metrics.Interface.{Prometheus}
use dst_libp2p_test_node.Metrics.{GossipSubMetrics}
use dst_libp2p_test_node.Connect.{
  SocketAddr, Dialer, Poll, waiting_time, resolve_all, target_addresses, dial_loop, after_dial,
  connect_gossipsub_peers,
}
use dst_libp2p_test_node.Connect.Waiting.{
  count_events, in_time, Ends, heard, last_swarm, await_events_lem, await_events-none,
}

-- The number of connections, or the error if there is none.
abbrev pub connections : ℕ → Result ℕ
connections n = if n == 0 then err (codes "Failed to connect any peers") else ok n

module _ (p : Prometheus) (g : Gossipsub) (d : Dialer g) (shuffle_ids : List ℕ → List ℕ)
    (shuffle_addrs : List Text → List Text) (lookups : Text → List (Result (List SocketAddr)))
    (begin : ℕ) (polls : List (Poll g)) (config : PeerConfig) (s : g.Swarm)
    (m : GossipSubMetrics p) where
  abbrev pub resolving : Option (List Text)
  resolving =
      resolve_all lookups config.in_shadow config.muxer (target_addresses shuffle_ids config)

  abbrev pub connecting : Option (Run (g.Swarm × GossipSubMetrics p × Result ℕ))
  connecting =
      connect_gossipsub_peers p g d shuffle_ids shuffle_addrs lookups begin polls config s m

  pub connect_none : resolving ≡ none → connecting ≡ none
  unfolding connect_gossipsub_peers
  connect_none h = rw (connect_gossipsub_peers, h) refl

  connect_panic :
      (rs : List Text)
      → resolving ≡ some rs
      → dial_loop g d config.connect_to (shuffle_addrs rs) 0 s ≡ panic
      → connecting ≡ some panic
  unfolding connect_gossipsub_peers after_dial
  connect_panic rs h k = rw (connect_gossipsub_peers, h, k) refl

  pub connect_waits :
      (rs : List Text) (s1 : g.Swarm) (n : ℕ)
      → resolving ≡ some rs
      → dial_loop g d config.connect_to (shuffle_addrs rs) 0 s ≡ done (s1, n)
      → length polls ≤ length (in_time (begin + waiting_time) polls)
      → connecting ≡ none
  unfolding connect_gossipsub_peers after_dial
  connect_waits rs s1 n h k waits =
      rw
        (
          connect_gossipsub_peers,
          h,
          k,
          after_dial,
          await_events-none p g (begin + waiting_time) polls s1 m waits,
        )
        refl

  pub connect_joined :
      (rs : List Text) (s1 : g.Swarm) (n : ℕ)
      → resolving ≡ some rs
      → dial_loop g d config.connect_to (shuffle_addrs rs) 0 s ≡ done (s1, n)
      → Ends (begin + waiting_time) polls
      → connecting
        ≡ some (
            done (
              last_swarm s1 (in_time (begin + waiting_time) polls),
              count_events p (heard (begin + waiting_time) polls) m,
              connections n,
            ))
  unfolding connect_gossipsub_peers after_dial
  connect_joined rs s1 n h k ends =
      rw
        (
          connect_gossipsub_peers,
          h,
          k,
          after_dial,
          await_events_lem p g (begin + waiting_time) polls s1 m ends,
        )
        refl

  pub connect-metrics :
      (s' : g.Swarm) (m' : GossipSubMetrics p) (k : ℕ)
      → connecting ≡ some (done (s', m', ok k))
      → count_events p (heard (begin + waiting_time) polls) m ≡ m'
  connect-metrics s' m' k e = elim (Option-cases resolving) [
    | inl trying ↦ absurd (cc (connect_none trying))
    | inr (rs, found) ↦ elim (Run-cases (dial_loop g d config.connect_to (shuffle_addrs rs) 0 s)) [
      | inl stops ↦ absurd (cc (connect_panic rs found stops))
      | inr ((s1, n), dials) ↦
          elim (Bool-cases (ltb (length (in_time (begin + waiting_time) polls)) (length polls))) [
            | inl ends ↦ cc (connect_joined rs s1 n found dials (ground arith))
            | inr waits ↦ absurd (cc (connect_waits rs s1 n found dials (ground arith)))
          ]
    ]
  ]
