-- ===== src/Connect/Calm.antt =====
-- `connect_gossipsub_peers` where the parser accepts the addresses that are made for it.
use mathlib.Core.List.{Permᴰ}
use dst_libp2p_test_node.Prelude.{
  All-perm, ℕ, ◌+◌, ◌%◌, ◌^◌, ◌≡◌, refl, ◌∙◌, true, false, Bool, List, [], ◌∷◌, ◌++◌, none, some,
  arith, length, ltb, All, All-append, if◌then◌else◌, inl, inr, Bool-cases, Option-cases,
}
use dst_libp2p_test_node.Text.{Text}
use dst_libp2p_test_node.Outcome.{done, panic, ok, err, Result-cases}
use dst_libp2p_test_node.Gossipsub.{Gossipsub}
use dst_libp2p_test_node.Env.{PeerConfig}
use dst_libp2p_test_node.Metrics.Interface.{Prometheus}
use dst_libp2p_test_node.Metrics.{GossipSubMetrics}
use dst_libp2p_test_node.Connect.{
  Ipv4Addr, format_addr, format_addrs, resolve_address, resolve_all, target_addresses, Dialer, Poll,
  waiting_time, dial_loop, connect_gossipsub_peers,
}
use dst_libp2p_test_node.Connect.Waiting.{in_time}
use dst_libp2p_test_node.Connect.Joined.{resolving, connect_none, connect_waits, connect_joined}
use dst_libp2p_test_node.Connect.Found.{Attempts, ipv4, printed-All, format_addrs_lem}
use dst_libp2p_test_node.Connect.Dial.{Parses, dial_full, dial_next}

module _ (P : Text → Type 0) (muxer : Text)
    (good : (ip : Ipv4Addr) → P (format_addr muxer ip)) where
  resolve_address-All :
      (attempts : Attempts) (in_shadow : Bool) (addrs : List Text)
      → resolve_address attempts in_shadow muxer ≡ some (ok addrs)
      → All P addrs
  unfolding resolve_address
  resolve_address-All [] in_shadow addrs e = absurd (cc)
  resolve_address-All (ok found ∷ later) in_shadow addrs e =
      let same : format_addrs muxer found ≡ addrs = cc in
      rw (← same, format_addrs_lem muxer found) (printed-All P muxer good (ipv4 found))
  resolve_address-All (err x ∷ later) true addrs e = absurd (cc)
  resolve_address-All (err x ∷ later) false addrs e = resolve_address-All later false addrs e

  resolve_all-All :
      (lookups : Text → Attempts) (in_shadow : Bool) (ts resolved : List Text)
      → resolve_all lookups in_shadow muxer ts ≡ some resolved
      → All P resolved
  unfolding resolve_all
  resolve_all-All lookups in_shadow [] resolved e = let same : [] ≡ resolved = cc in rw (← same) tt
  resolve_all-All lookups in_shadow (t ∷ ts) resolved e =
      let whole = resolve_all lookups in_shadow muxer (t ∷ ts) in
      let rest = resolve_all lookups in_shadow muxer ts in
      elim (Option-cases (resolve_address (lookups t) in_shadow muxer)) [
        | inl trying ↦ absurd (let none_ : whole ≡ none = rw (resolve_all, trying) refl in cc)
        | inr (r, tried) ↦ elim (Result-cases r) [
          | inl (x, failed) ↦
              let same : whole ≡ rest = rw (resolve_all, tried, failed) refl in
              resolve_all-All lookups in_shadow ts resolved (cc)
          | inr (addrs, found) ↦ elim (Option-cases rest) [
            | inl later ↦
                absurd (let none_ : whole ≡ none = rw (resolve_all, tried, found, later) refl in cc)
            | inr (rs, more) ↦
                let all : whole ≡ some (addrs ++ rs) = rw (resolve_all, tried, found, more) refl in
                let same : addrs ++ rs ≡ resolved = cc in
                rw (← same) (
                  All-append P addrs rs (resolve_address-All (lookups t) in_shadow addrs (cc))
                    (resolve_all-All lookups in_shadow ts rs more))
          ]
        ]
      ]

module _ (g : Gossipsub) (d : Dialer g) where
  -- The loop comes to its end where the parser accepts every address.
  dial_loop-done :
      (target : ℕ) (addrs : List Text) (n : ℕ) (s : g.Swarm)
      → All (Parses g d) addrs
      → (s' : g.Swarm) × (k : ℕ) × (dial_loop g d target addrs n s ≡ done (s', k))
  dial_loop-done target [] n s parses = (s, n, unfold dial_loop in refl)
  dial_loop-done target (a ∷ addrs) n s ((m, parsed), parses) =
      elim (Bool-cases (ltb (target % 2 ^ 32) n)) [
        | inl full ↦ (s, n, dial_full g d target a addrs n s full)
        | inr more ↦
            let n' = if (d.dial s m).1 then (n + 1) % 2 ^ 32 else n in
            let (s', k, run) = dial_loop-done target addrs n' (d.dial s m).0 parses in
            (s', k, dial_next g d target a addrs n s m more parsed ∙ run)
      ]

module _ (p : Prometheus) (g : Gossipsub) (d : Dialer g) (shuffle_ids : List ℕ → List ℕ)
    (shuffle_addrs : List Text → List Text) (lookups : Text → Attempts) (begin : ℕ)
    (polls : List (Poll g)) (config : PeerConfig) (s : g.Swarm) (m : GossipSubMetrics p) where
  -- The node never stops with a panic while it connects.
  pub connect-calm :
      ((addrs : List Text) → Permᴰ addrs (shuffle_addrs addrs))
      → ((ip : Ipv4Addr) → Parses g d (format_addr config.muxer ip))
      → ¬ (
          connect_gossipsub_peers p g d shuffle_ids shuffle_addrs lookups begin polls config s m
          ≡ some panic)
  connect-calm permutes parses e =
      elim (Option-cases
        (resolving p g d shuffle_ids shuffle_addrs lookups begin polls config s m)) [
          | inl trying ↦ absurd (
              cc (
                connect_none p g d shuffle_ids shuffle_addrs lookups begin polls config s m trying))
          | inr (rs, found) ↦
              let fit =
                resolve_all-All (Parses g d) config.muxer parses lookups config.in_shadow
                  (target_addresses shuffle_ids config) rs found in
              let (s1, n, dials) =
                dial_loop-done g d config.connect_to (shuffle_addrs rs) 0 s
                  (All-perm (Parses g d) (permutes rs) fit) in
              elim (Bool-cases
                (ltb (length (in_time (begin + waiting_time) polls)) (length polls))) [
                  | inl ends ↦ absurd (
                      cc (
                        connect_joined p g d shuffle_ids shuffle_addrs lookups begin polls config s
                          m rs s1 n found dials (ground arith)))
                  | inr waits ↦ absurd (
                      cc (
                        connect_waits p g d shuffle_ids shuffle_addrs lookups begin polls config s m
                          rs s1 n found dials (ground arith)))
                ]
        ]
