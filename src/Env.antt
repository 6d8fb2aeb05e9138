-- ===== src/Env.antt =====
-- rust-test-node/src/env.rs: the configuration that `get_peer_details` reads from the host name
-- and the environment. An environment is a function from names to values; `none` is a variable that
-- is absent or not Unicode. The logging of `info!` is left out.
pub mod Checks
pub mod Hostname
pub mod Case
use dst_libp2p_test_node.Prelude.{
  ℕ, ◌≡◌, refl, Bool, ◌&&◌, ◌||◌, not, List, [], ◌∷◌, ◌++◌, Option, none, some, leb, if◌then◌else◌,
  get_elem?,
}
use dst_libp2p_test_node.Text.{Text, codes, text_eq, to_lowercase, eq_ignore_ascii_case}
use dst_libp2p_test_node.Text.Split.{split}
use dst_libp2p_test_node.Text.Decimal.{parse_unsigned, display, max_u64, max_u32}
use dst_libp2p_test_node.Outcome.{Run, done, panic, Result, ok, err, ◌>>=◌, unwrap, unwrap_or}

abbrev pub my_port : ℕ
my_port = 5000

abbrev pub http_publish_port : ℕ
http_publish_port = 8645

abbrev pub prometheus_port : ℕ
prometheus_port = 8008

pub record PeerConfig : Type 0 where
  pub hostname : Text
  pub my_id : ℕ
  pub network_size : ℕ
  pub connect_to : ℕ
  pub chunks : ℕ
  pub muxer : Text
  pub address : Text
  pub service : Text
  pub in_shadow : Bool

abbrev pub Environment : Type 0
Environment = Text → Option Text

-- `env::var(name).unwrap_or_else(|_| text).parse().unwrap_or(number)`
unfoldable pub var_number : Environment → ℕ → Text → Text → ℕ → ℕ
var_number var top name text number =
    unwrap_or (parse_unsigned top (unwrap_or (var name) text)) number

-- `hostname.split('-').nth(1).and_then(|s| s.parse::<usize>().ok())`
unfoldable pub host_id : Text → Option ℕ
unfolding split parse_unsigned
host_id hostname = elim (get_elem? (split b'-' hostname) 1) [
  | none ↦ none
  | some s ↦ parse_unsigned max_u64 s
]

unfoldable pub listen_address : Text → Text
unfolding text_eq display
listen_address muxer =
    if text_eq muxer (codes "quic")
    then codes "/ip4/0.0.0.0/udp/" ++ display my_port ++ codes "/quic-v1"
    else codes "/ip4/0.0.0.0/tcp/" ++ display my_port

unfoldable pub is_known_muxer : Text → Bool
unfolding text_eq
is_known_muxer muxer = text_eq (codes "quic") muxer || text_eq (codes "yamux") muxer

-- What is read behind the host name, with the two checks, in the source's order.
unfoldable pub read_config : (Text → Text) → Environment → Text → ℕ → Result PeerConfig
read_config unicode var hostname my_id =
    let network_size = var_number var max_u64 (codes "PEERS") (codes "100") 100 in
    let connect_to = var_number var max_u64 (codes "CONNECTTO") (codes "10") 10 in
    let muxer = to_lowercase unicode (unwrap_or (var (codes "MUXER")) (codes "yamux")) in
    let service = unwrap_or (var (codes "SERVICE")) (codes "nimp2p-service") in
    let in_shadow = eq_ignore_ascii_case (unwrap_or (var (codes "SHADOWENV")) []) (codes "true") in
    let address = listen_address muxer in
    let chunks = var_number var max_u32 (codes "FRAGMENTS") (codes "1") 1 in
    if not (is_known_muxer muxer)
    then err (codes "Unknown muxer type: " ++ muxer)
    else if leb network_size connect_to
    then err (
        codes "Not enough peers to make target connections. Network size: " ++ display network_size)
    else ok (record {
      hostname = hostname;
      my_id = my_id;
      network_size = network_size;
      connect_to = connect_to;
      chunks = chunks;
      muxer = muxer;
      address = address;
      service = service;
      in_shadow = in_shadow;
    })

-- `host` is the operating system's answer, `none` where it is not Unicode.
unfoldable pub get_peer_details :
    (Text → Text) → Environment → Option Text → Run (Result PeerConfig)
get_peer_details unicode var none = done (err (codes "Failed to get hostname"))
get_peer_details unicode var (some hostname) = do
  my_id ← unwrap (host_id hostname)
  done (read_config unicode var hostname my_id)
