-- ===== src/Startup/Panics.antt =====
-- When `main` panics before it reaches its loop.
use mathlib.Core.List.{Permᴰ}
use dst_libp2p_test_node.Prelude.{
  ℕ, ◌≡◌, refl, ◌↔◌, List, Option, none, some, inl, inr, Option-cases, Bool-cases,
}
use dst_libp2p_test_node.Text.{Text, codes, text_eq}
use dst_libp2p_test_node.Outcome.{Run, done, panic, Result, ok, err}
use dst_libp2p_test_node.Gossipsub.{Gossipsub}
use dst_libp2p_test_node.Env.{PeerConfig, Environment, host_id, get_peer_details}
use dst_libp2p_test_node.Env.Checks.{get_peer_details-panic}
use dst_libp2p_test_node.Metrics.Interface.{Prometheus}
use dst_libp2p_test_node.Metrics.{GossipSubMetrics}
use dst_libp2p_test_node.MessageId.{Hasher}
use dst_libp2p_test_node.Behaviour.{build_behaviour-done}
use dst_libp2p_test_node.Connect.{Dialer, Poll, Ipv4Addr, format_addr}
use dst_libp2p_test_node.Connect.Dial.{Parses}
use dst_libp2p_test_node.Connect.Calm.{connect-calm}
use dst_libp2p_test_node.Connect.Found.{Attempts}
use dst_libp2p_test_node.MainLoop.Events.{Network}
use dst_libp2p_test_node.Startup.{
  Libp2p, registered, build_swarm, join_topic, listen, subscribe_gossipsub_topic, after_connect,
  after_swarm, after_details, start,
}

module _ (g : Gossipsub) (d : Dialer g) (libp : Libp2p g d) (hasher : Hasher) where
  -- Whichever of its calls fail, building the swarm comes to its end.
  build_swarm-done :
      (config : PeerConfig) → (r : Result g.Swarm) × (build_swarm g d libp hasher config ≡ done r)
  unfolding build_swarm join_topic listen subscribe_gossipsub_topic
  build_swarm-done config =
      let (c, x, _, _, made, _) = build_behaviour-done libp.behaviours hasher libp.new_identity in
      let quic = text_eq config.muxer (codes "quic") in
      let built = join_topic g d libp config (libp.build quic (libp.behaviours.with_metrics x)) in
      elim (Option-cases libp.with_tcp) [
        | inl fine ↦ (built, rw (build_swarm, fine, made) refl)
        | inr (e, failed) ↦ elim (Bool-cases quic) [
          | inl without_tcp ↦ (built, rw (build_swarm, failed, without_tcp, made) refl)
          | inr tcp ↦ (err e, rw (build_swarm, failed, tcp) refl)
        ]
      ]

module _ (p : Prometheus) (g : Gossipsub) (net : Network g) (d : Dialer g) (libp : Libp2p g d)
    (hasher : Hasher) (shuffle_ids : List ℕ → List ℕ) (shuffle_addrs : List Text → List Text)
    (lookups : Text → Attempts) (begin : ℕ) (polls : List (Poll g)) (recorder : net.Recorder) where
  after_connect_panic :
      (config : PeerConfig) (r : Option (Run (g.Swarm × GossipSubMetrics p × Result ℕ)))
      → after_connect p g net recorder (registered p g d libp) config r ≡ some panic
      → r ≡ some panic
  unfolding after_connect
  after_connect_panic config none e = absurd (cc)
  after_connect_panic config (some panic) e = refl
  after_connect_panic config (some (done (s, m, err x))) e = absurd (cc)
  after_connect_panic config (some (done (s, m, ok k))) e = absurd (cc)

  -- What is dialled can be parsed, and shuffling permutes.
  record Calm : Type 0 where
    permutes : (addrs : List Text) → Permᴰ addrs (shuffle_addrs addrs)
    parses : (muxer : Text) (ip : Ipv4Addr) → Parses g d (format_addr muxer ip)

  after_swarm_calm :
      (config : PeerConfig) (r : Run (Result g.Swarm))
      → Calm
      → ¬ (r ≡ panic)
      → ¬ (
          after_swarm p g net d libp hasher shuffle_ids shuffle_addrs lookups begin polls recorder
            config r
          ≡ some panic)
  unfolding after_swarm
  after_swarm_calm config panic h calm e = absurd (calm refl)
  after_swarm_calm config (done (err x)) h calm e = absurd (cc)
  after_swarm_calm config (done (ok swarm)) h calm e =
      connect-calm p g d shuffle_ids shuffle_addrs lookups begin polls config swarm _ h.permutes
        (h.parses config.muxer) (after_connect_panic config _ e)

  after_details_panic :
      (r : Run (Result PeerConfig))
      → Calm
      → after_details p g net d libp hasher shuffle_ids shuffle_addrs lookups begin polls recorder r
        ≡ some panic
      → r ≡ panic
  unfolding after_details
  after_details_panic panic h e = refl
  after_details_panic (done (err x)) h e = absurd (cc)
  after_details_panic (done (ok config)) h e =
      let (r, ends) = build_swarm-done g d libp hasher config in
      absurd (after_swarm_calm config (build_swarm g d libp hasher config) h (λ stops. cc) e)

  -- Before its loop the node stops with a panic exactly if the host name is Unicode and has no number
  -- in its second part: gossipsub's settings, the swarm and the dialling never stop it. The parser
  -- accepts what `format_addr` prints of an IPv4 address, and `shuffle_addrs` returns a permutation.
  pub start-panic :
      (unicode : Text → Text) (var : Environment) (host : Option Text)
      → ((addrs : List Text) → Permᴰ addrs (shuffle_addrs addrs))
      → ((muxer : Text) (ip : Ipv4Addr) → Parses g d (format_addr muxer ip))
      → (start p g net d libp hasher shuffle_ids shuffle_addrs lookups begin polls recorder unicode
            var host
          ≡ some panic)
        ↔ ((h : Text) × (host ≡ some h) × (host_id h ≡ none))
  unfolding start after_details
  start-panic unicode var host permutes parses =
      let calm : Calm = record { permutes = permutes; parses = parses } in
      let (stops, bad) = get_peer_details-panic unicode var host in
      (
        λ e. stops (after_details_panic (get_peer_details unicode var host) calm e),
        λ h. rw (start, bad h, after_details) refl,
      )
