-- ===== src/Connect/Found.antt =====
-- What the names resolve to, all together.
use mathlib.Core.List.{map-append}
use dst_libp2p_test_node.Prelude.{
  ℕ, suc, ◌<◌, ◌≡◌, refl, ap, ◌∙◌, sym, map, Bool, append-nil, true, false, List, [], ◌∷◌, ◌++◌,
  some, arith, length, All,
}
use dst_libp2p_test_node.Text.{Text, codes}
use dst_libp2p_test_node.Outcome.{Result, ok, err}
use dst_libp2p_test_node.Env.{PeerConfig}
use dst_libp2p_test_node.Connect.SocketAddr.{v4, v6}
use dst_libp2p_test_node.Connect.{
  Ipv4Addr, SocketAddr, format_addr, format_addrs, resolve_address, resolve_all, target_addresses,
}
use dst_libp2p_test_node.Text.Decimal.{display}
use dst_libp2p_test_node.Env.{my_port}

-- What a resolver answers to one name, attempt by attempt.
abbrev pub Attempts : Type 0
Attempts = List (Result (List SocketAddr))

-- The addresses of IPv4.
abbrev pub ipv4 : List SocketAddr → List Ipv4Addr
ipv4 [] = []
ipv4 (v4 ip ∷ addrs) = ip ∷ ipv4 addrs
ipv4 (v6 ip ∷ addrs) = ipv4 addrs

-- Those that the first attempt found.
abbrev pub first_found : Attempts → List Ipv4Addr
first_found (ok found ∷ later) = ipv4 found
first_found _ = []

-- Those of all names, in their order.
abbrev pub dialable : (Text → Attempts) → List Text → List Ipv4Addr
dialable lookups [] = []
dialable lookups (t ∷ ts) = first_found (lookups t) ++ dialable lookups ts

-- As they are dialled.
abbrev pub printed : Text → List Ipv4Addr → List Text
printed muxer = map (format_addr muxer)

pub printed-All :
    (P : Text → Type 0) (muxer : Text)
    → ((ip : Ipv4Addr) → P (format_addr muxer ip))
    → (ips : List Ipv4Addr) → All P (printed muxer ips)
printed-All P muxer good [] = tt
printed-All P muxer good (ip ∷ ips) = (good ip, printed-All P muxer good ips)

pub length-printed : (muxer : Text) (ips : List Ipv4Addr) → length (printed muxer ips) ≡ length ips
length-printed muxer [] = refl
length-printed muxer (ip ∷ ips) = ap suc (length-printed muxer ips)

module _ (muxer : Text) where
  pub format_addrs_lem :
      (found : List SocketAddr) → format_addrs muxer found ≡ printed muxer (ipv4 found)
  unfolding format_addrs
  format_addrs_lem [] = refl
  format_addrs_lem (v4 ip ∷ addrs) = ap (λ ts. format_addr muxer ip ∷ ts) (format_addrs_lem addrs)
  format_addrs_lem (v6 ip ∷ addrs) = format_addrs_lem addrs

  -- In Shadow the first attempt decides.
  resolve_all_next :
      (lookups : Text → Attempts) (t : Text) (ts resolved : List Text) (attempts : Attempts)
      → lookups t ≡ attempts
      → 0 < length attempts
      → resolve_all lookups true muxer ts ≡ some resolved
      → resolve_all lookups true muxer (t ∷ ts)
        ≡ some (printed muxer (first_found attempts) ++ resolved)
  unfolding resolve_all resolve_address
  resolve_all_next lookups t ts resolved [] same tried run = absurd (omega arith)
  resolve_all_next lookups t ts resolved (err e ∷ later) same tried run = rw (resolve_all, same) run
  resolve_all_next lookups t ts resolved (ok found ∷ later) same tried run =
      rw (resolve_all, same, run) (ap (λ a. some (a ++ resolved)) (format_addrs_lem found))

  pub resolve_all_lem :
      (lookups : Text → Attempts) (ts : List Text)
      → ((t : Text) → 0 < length (lookups t))
      → resolve_all lookups true muxer ts ≡ some (printed muxer (dialable lookups ts))
  unfolding resolve_all
  resolve_all_lem lookups [] tried = refl
  resolve_all_lem lookups (t ∷ ts) tried =
      resolve_all_next lookups t ts _ (lookups t) refl (tried t) (resolve_all_lem lookups ts tried)
      ∙ ap some
          (sym (map-append (format_addr muxer) (first_found (lookups t)) (dialable lookups ts)))

-- `<service>:5000`
abbrev pub service_address : PeerConfig → Text
service_address config = config.service ++ codes ":" ++ display my_port

pub target_addresses_service :
    (shuffle : List ℕ → List ℕ) (config : PeerConfig)
    → config.in_shadow ≡ false
    → target_addresses shuffle config ≡ service_address config ∷ []
unfolding target_addresses
target_addresses_service shuffle config outside = rw (target_addresses, outside) refl

pub resolve_single :
    (lookups : Text → Attempts) (in_shadow : Bool) (muxer t : Text) (addrs : List Text)
    → resolve_address (lookups t) in_shadow muxer ≡ some (ok addrs)
    → resolve_all lookups in_shadow muxer (t ∷ []) ≡ some addrs
unfolding resolve_all
resolve_single lookups in_shadow muxer t addrs found =
    rw (resolve_all, found) (ap some (append-nil addrs))
