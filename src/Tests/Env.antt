-- ===== src/Tests/Env.antt =====
-- Configurations.
use dst_libp2p_test_node.Prelude.{
  ◌≡◌, refl, true, false, ◌∷◌, ◌++◌, Option, some, none, arith, if◌then◌else◌,
}
use dst_libp2p_test_node.Text.{Text, codes, text_eq, is_ascii, to_lowercase, eq_ignore_ascii_case}
use dst_libp2p_test_node.Text.Decimal.{display, parse_unsigned}
use dst_libp2p_test_node.Outcome.{done, panic, ok, err}
use dst_libp2p_test_node.Env.{
  PeerConfig, Environment, var_number, host_id, listen_address, is_known_muxer, read_config,
  get_peer_details,
}
use dst_libp2p_test_node.Env.Checks.{IsValid, get_peer_details-IsValid, get_peer_details-panic}
use dst_libp2p_test_node.Env.Hostname.{host_id-display, pod, unset, defaults}
use dst_libp2p_test_node.Env.Case.{get_peer_details_case}

abbrev id : Text → Text
id s = s

defaults_example :
    get_peer_details id unset (some (pod 7))
    ≡ done (
        ok (record {
          hostname = pod 7;
          my_id = 7;
          network_size = 100;
          connect_to = 10;
          chunks = 1;
          muxer = codes "yamux";
          address = codes "/ip4/0.0.0.0/tcp/5000";
          service = codes "nimp2p-service";
          in_shadow = false;
        }))
defaults_example = defaults id 7 (omega arith)

abbrev default_config : PeerConfig
default_config = record {
  hostname = pod 7;
  my_id = 7;
  network_size = 100;
  connect_to = 10;
  chunks = 1;
  muxer = codes "yamux";
  address = codes "/ip4/0.0.0.0/tcp/5000";
  service = codes "nimp2p-service";
  in_shadow = false;
}

get_peer_details-IsValid_example :
    IsValid default_config
    × (◌≡◌ {A = Option Text} (some (pod 7)) (some (pod 7)))
    × (host_id (pod 7) ≡ some 7)
get_peer_details-IsValid_example =
    get_peer_details-IsValid id unset (some (pod 7)) default_config defaults_example

-- A machine whose name has no dash cannot start the node.
localhost_stops : get_peer_details id unset (some (codes "localhost")) ≡ panic
unfolding host_id
localhost_stops =
    (get_peer_details-panic id unset (some (codes "localhost"))).1 (codes "localhost", refl, refl)

host_id-display_example :
    (host_id (codes "node" ++ b'-' ∷ display 12) ≡ some 12)
    × (host_id (codes "node" ++ b'-' ∷ (display 12 ++ b'-' ∷ codes "x")) ≡ some 12)
host_id-display_example = host_id-display (codes "node") 12 (codes "x") (omega arith) (omega arith)

abbrev muxer_is : Text → Environment
muxer_is m name = if text_eq name (codes "MUXER") then some m else none

agree :
    (name : Text)
    → text_eq name (codes "MUXER") ≡ false
    → muxer_is (codes "QUIC") name ≡ muxer_is (codes "quic") name
agree name other = rw other refl

quic_upper : muxer_is (codes "QUIC") (codes "MUXER") ≡ some (codes "QUIC")
unfolding text_eq
quic_upper = refl

quic_lower : muxer_is (codes "quic") (codes "MUXER") ≡ some (codes "quic")
unfolding text_eq
quic_lower = refl

quic_words :
    (is_ascii (codes "QUIC") ≡ true)
    × (is_ascii (codes "quic") ≡ true)
    × (eq_ignore_ascii_case (codes "QUIC") (codes "quic") ≡ true)
unfolding is_ascii eq_ignore_ascii_case
quic_words = (refl, refl, refl)

get_peer_details_case_example :
    get_peer_details id (muxer_is (codes "QUIC")) (some (pod 7))
    ≡ get_peer_details id (muxer_is (codes "quic")) (some (pod 7))
get_peer_details_case_example =
    get_peer_details_case id (muxer_is (codes "QUIC")) (muxer_is (codes "quic")) (some (pod 7))
      (codes "QUIC") (codes "quic") agree quic_upper quic_lower quic_words.0 quic_words.1
      quic_words.2

-- FRAGMENTS=0 is accepted, and the dashes of a muxer are not.
abbrev no_fragments : Environment
no_fragments name = if text_eq name (codes "FRAGMENTS") then some (codes "0") else none

accepts_no_fragments :
    read_config id no_fragments (pod 7) 7 ≡ ok (record default_config { chunks = 0 })
unfolding read_config var_number parse_unsigned is_known_muxer to_lowercase eq_ignore_ascii_case
    listen_address
accepts_no_fragments = refl

unknown_muxer :
    read_config id (muxer_is (codes "mplex")) (pod 7) 7 ≡ err (codes "Unknown muxer type: mplex")
unfolding read_config var_number parse_unsigned is_known_muxer to_lowercase eq_ignore_ascii_case
    listen_address
unknown_muxer = refl
