-- ===== src/Connect/Joining.antt =====
-- `connect_gossipsub_peers` as a whole: from the names to the connections that are begun.
use mathlib.Core.List.{Permᴰ}
use dst_libp2p_test_node.Prelude.{
  All-perm, length-perm, ℕ, ◌+◌, ◌^◌, ◌<◌, min, take, sym, ◌≡◌, ap, ◌∙◌, true, false, List, [], ◌∷◌,
  ◌++◌, some, length,
}
use dst_libp2p_test_node.Text.{Text}
use dst_libp2p_test_node.Outcome.{done, ok}
use dst_libp2p_test_node.Gossipsub.{Gossipsub}
use dst_libp2p_test_node.Env.{PeerConfig}
use dst_libp2p_test_node.Metrics.Interface.{Prometheus}
use dst_libp2p_test_node.Metrics.{GossipSubMetrics}
use dst_libp2p_test_node.Connect.{
  Ipv4Addr, SocketAddr, format_addr, format_addrs, resolve_address, resolve_all, target_addresses,
  Dialer, Poll, waiting_time, connect_gossipsub_peers,
}
use dst_libp2p_test_node.Connect.Found.{
  Attempts, ipv4, printed, printed-All, length-printed, dialable, format_addrs_lem, resolve_all_lem,
  service_address, target_addresses_service, resolve_single,
}
use dst_libp2p_test_node.Connect.Resolve.{failures, resolve_address-first}
use dst_libp2p_test_node.Connect.Waiting.{count_events, in_time, Ends, heard, last_swarm}
use dst_libp2p_test_node.Connect.Joined.{connections, connect_joined}
use dst_libp2p_test_node.Connect.Dial.{Parses, dial_each, dial_loop-count}

module _ (g : Gossipsub) (d : Dialer g) (shuffle_addrs : List Text → List Text) (begin : ℕ)
    (polls : List (Poll g)) (config : PeerConfig) where
  -- The conditions under which a node dials all that it finds.
  pub record Dials : Type 0 where
    pub small : config.connect_to + 1 < 2 ^ 32
    pub permutes : (addrs : List Text) → Permᴰ addrs (shuffle_addrs addrs)
    pub parses : (ip : Ipv4Addr) → Parses g d (format_addr config.muxer ip)
    pub begins : (t : g.Swarm) (a : d.Multiaddr) → (d.dial t a).1 ≡ true
    pub ends : Ends (begin + waiting_time) polls

module _ (p : Prometheus) (g : Gossipsub) (d : Dialer g) (shuffle_ids : List ℕ → List ℕ)
    (shuffle_addrs : List Text → List Text) (lookups : Text → Attempts) (begin : ℕ)
    (polls : List (Poll g)) (config : PeerConfig) (s : g.Swarm) (m : GossipSubMetrics p) where
  -- The node has found these addresses, dialled the first `connect_to` + 1 of them in the shuffled order,
  -- or all if there are fewer, and waited; it returns their number, or an error if there is none.
  pub record Joined (found : List Ipv4Addr) : Type 0 where
    pub dialled : g.Swarm
    pub dialling :
        dialled
        ≡ (dial_each g d s (
            take
              (min (length found) (config.connect_to + 1))
              (shuffle_addrs (printed config.muxer found)))).0
    pub joined :
        connect_gossipsub_peers p g d shuffle_ids shuffle_addrs lookups begin polls config s m
        ≡ some (
            done (
              last_swarm dialled (in_time (begin + waiting_time) polls),
              count_events p (heard (begin + waiting_time) polls) m,
              connections (min (length found) (config.connect_to + 1)),
            ))

  dials-Joined :
      (found : List Ipv4Addr)
      → resolve_all lookups config.in_shadow config.muxer (target_addresses shuffle_ids config)
        ≡ some (printed config.muxer found)
      → Dials g d shuffle_addrs begin polls config
      → Joined found
  dials-Joined found resolved h =
      let texts = printed config.muxer found in
      let permuted = h.permutes texts in
      let same : length (shuffle_addrs texts) ≡ length found =
        sym (length-perm permuted) ∙ length-printed config.muxer found in
      let fit = printed-All (Parses g d) config.muxer h.parses found in
      let run =
        dial_loop-count g d config.connect_to (shuffle_addrs texts) s h.small
          (All-perm (Parses g d) permuted fit) h.begins in
      let count = min (length (shuffle_addrs texts)) (config.connect_to + 1) in
      record {
        dialled = (dial_each g d s (take count (shuffle_addrs texts))).0;
        dialling =
            ap
              (λ n.
                (dial_each g d s (take (min n (config.connect_to + 1)) (shuffle_addrs texts))).0)
              same;
        joined =
            connect_joined p g d shuffle_ids shuffle_addrs lookups begin polls config s m texts _ _
              resolved run h.ends
            ∙ ap
                (λ n. some (
                  done (
                    last_swarm (dial_each g d s (take count (shuffle_addrs texts))).0
                        (in_time (begin + waiting_time) polls),
                    count_events p (heard (begin + waiting_time) polls) m,
                    connections (min n (config.connect_to + 1)),
                  )))
                same;
      }

  -- In Shadow a node takes the IPv4 addresses that the first lookups of its peers found, whichever of
  -- them fail, shuffles them, dials the first `connect_to` + 1, or all if there are fewer, and when
  -- the waiting time is over returns the number of these connections, or an error if there is none. Every
  -- name is looked up, the parser accepts what `format_addr` prints of an IPv4 address, dialling always
  -- begins, `shuffle_addrs` returns a permutation, the clock is read after the waiting time, and
  -- `connect_to` + 1 is below 2^32.
  pub connect_gossipsub_peers-Joined :
      config.in_shadow ≡ true
      → ((t : Text) → 0 < length (lookups t))
      → Dials g d shuffle_addrs begin polls config
      → Joined (dialable lookups (target_addresses shuffle_ids config))
  connect_gossipsub_peers-Joined shadow tried h =
      let targets = target_addresses shuffle_ids config in
      dials-Joined (dialable lookups targets)
        (ap (λ b. resolve_all lookups b config.muxer targets) shadow
          ∙ resolve_all_lem config.muxer lookups targets tried)
        h

  -- Outside Shadow, however often the name of the service fails to resolve before it does, a node takes
  -- the IPv4 addresses of the service, shuffles them, dials the first `connect_to` + 1, or all if there
  -- are fewer, and returns the number of these connections, or an error if there is none. The other
  -- conditions are as in Shadow.
  pub connect_gossipsub_peers_retries :
      (fails : List Text) (found : List SocketAddr) (later : Attempts)
      → config.in_shadow ≡ false
      → lookups (service_address config) ≡ failures fails ++ ok found ∷ later
      → Dials g d shuffle_addrs begin polls config
      → Joined (ipv4 found)
  connect_gossipsub_peers_retries fails found later outside answers h =
      let addrs = format_addrs config.muxer found in
      let one = service_address config in
      let answer : resolve_address (lookups one) config.in_shadow config.muxer ≡ some (ok addrs) =
        rw (outside, answers) ((resolve_address-first fails [] found later config.muxer).0) in
      dials-Joined (ipv4 found)
        (ap (resolve_all lookups config.in_shadow config.muxer)
            (target_addresses_service shuffle_ids config outside)
          ∙ resolve_single lookups config.in_shadow config.muxer one addrs answer
          ∙ ap some (format_addrs_lem config.muxer found))
        h
