-- ===== src/Connect/Resolve.antt =====
-- What names are resolved to.
use dst_libp2p_test_node.Prelude.{
  ◌≡◌, refl, true, false, List, [], ◌∷◌, ◌++◌, map, some, if◌then◌else◌, inl, inr, append_assoc,
  Bool-cases,
}
use dst_libp2p_test_node.Text.{Text, codes, text_eq}
use dst_libp2p_test_node.Text.Decimal.{display}
use dst_libp2p_test_node.Outcome.{Result, ok, err}
use dst_libp2p_test_node.Env.{listen_address, my_port}
use dst_libp2p_test_node.Connect.{
  SocketAddr, Ipv4Addr, display_ip, format_addr, format_addrs, resolve_address,
}

-- Failed attempts.
abbrev pub failures : List Text → List (Result (List SocketAddr))
failures = map err

-- Outside Shadow a node tries again until the name resolves, and takes what the first success found;
-- in Shadow the first attempt decides.
pub resolve_address-first :
    (fails : List Text) (e : Text) (found : List SocketAddr)
    (later : List (Result (List SocketAddr))) (muxer : Text)
    → (resolve_address (failures fails ++ ok found ∷ later) false muxer
        ≡ some (ok (format_addrs muxer found)))
      × (resolve_address (failures (e ∷ fails) ++ ok found ∷ later) true muxer ≡ some (err e))
      × (resolve_address (ok found ∷ later) true muxer ≡ some (ok (format_addrs muxer found)))
unfolding resolve_address
resolve_address-first [] e found later muxer = (refl, refl, refl)
resolve_address-first (f ∷ fails) e found later muxer =
    ((resolve_address-first fails e found later muxer).0, refl, refl)

-- The transport and the port of an address.
transport : Text → Text
transport muxer =
    if text_eq muxer (codes "quic")
    then codes "/udp/" ++ display my_port ++ codes "/quic-v1"
    else codes "/tcp/" ++ display my_port

-- A node dials its peers by the transport and the port at which a node with the same muxer listens:
-- what stands behind the IP address is the same text.
pub format_addr-listens :
    (muxer : Text) (a : Ipv4Addr)
    → (suffix : Text) × (listen_address muxer ≡ codes "/ip4/0.0.0.0" ++ suffix)
      × (format_addr muxer a ≡ codes "/ip4/" ++ display_ip a ++ suffix)
unfolding listen_address format_addr transport
format_addr-listens muxer a = elim (Bool-cases (text_eq muxer (codes "quic"))) [
  | inl quic ↦ (transport muxer, simp (quic, append_assoc), simp (quic, append_assoc))
  | inr other ↦ (transport muxer, simp (other, append_assoc), simp (other, append_assoc))
]
