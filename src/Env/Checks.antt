-- ===== src/Env/Checks.antt =====
-- What an accepted configuration satisfies, and which environments are refused.
use dst_libp2p_test_node.Prelude.{
  ℕ, ◌≤◌, ◌<◌, ◌≡◌, ◌↔◌, ◌⊎◌, inl, inr, refl, true, Option, none, some, arith, get_elem?,
  Option-cases,
}
use dst_libp2p_test_node.Text.{Text, codes, text_eq_iff, to_lowercase}
use dst_libp2p_test_node.Text.Split.{split}
use dst_libp2p_test_node.Text.Decimal.{parse_unsigned, parse-le, max_u64, max_u32}
use dst_libp2p_test_node.Outcome.{done, panic, ok, unwrap_or}
use dst_libp2p_test_node.Env.{
  PeerConfig, Environment, var_number, host_id, listen_address, is_known_muxer, read_config,
  get_peer_details,
}

pub var_number-le :
    (var : Environment) (top : ℕ) (name text : Text) (n : ℕ)
    → n ≤ top
    → var_number var top name text n ≤ top
unfolding var_number
var_number-le var top name text n h =
    elim (Option-cases (parse_unsigned top (unwrap_or (var name) text))) [
      | inl bad ↦ rw bad h
      | inr (m, good) ↦ rw good (parse-le top _ m good)
    ]

-- What a configuration promises to the rest of the program.
pub record IsValid (c : PeerConfig) : Type 0 where
  pub id_bound : c.my_id ≤ max_u64
  pub size_bound : c.network_size ≤ max_u64
  pub enough_peers : c.connect_to < c.network_size
  pub chunks_bound : c.chunks ≤ max_u32
  pub known_muxer : (c.muxer ≡ codes "quic") ⊎ (c.muxer ≡ codes "yamux")
  pub address_fits : c.address ≡ listen_address c.muxer

known_muxer_cases : (m : Text) → is_known_muxer m ≡ true → (m ≡ codes "quic") ⊎ (m ≡ codes "yamux")
unfolding is_known_muxer
known_muxer_cases m h =
    ground (arith, (text_eq_iff (codes "quic") m).0, (text_eq_iff (codes "yamux") m).0)

pub host_id_found :
    (h s : Text) → get_elem? (split b'-' h) 1 ≡ some s → host_id h ≡ parse_unsigned max_u64 s
unfolding host_id
host_id_found h s found = rw (found, host_id) refl

host_id_missing : (h : Text) → get_elem? (split b'-' h) 1 ≡ none → host_id h ≡ none
unfolding host_id
host_id_missing h missing = rw (missing, host_id) refl

read_config-IsValid :
    (unicode : Text → Text) (var : Environment) (h : Text) (i : ℕ) (c : PeerConfig)
    → i ≤ max_u64
    → read_config unicode var h i ≡ ok c
    → IsValid c × (c.hostname ≡ h) × (c.my_id ≡ i)
unfolding read_config
read_config-IsValid unicode var h i c le e =
    let m = to_lowercase unicode (unwrap_or (var (codes "MUXER")) (codes "yamux")) in
    let size_le = var_number-le var max_u64 (codes "PEERS") (codes "100") 100 (omega arith) in
    let chunks_le = var_number-le var max_u32 (codes "FRAGMENTS") (codes "1") 1 (omega arith) in
    (ground (arith, size_le, chunks_le, known_muxer_cases m), ground arith, ground arith)

host_id-le : (h : Text) (i : ℕ) → host_id h ≡ some i → i ≤ max_u64
unfolding host_id
host_id-le h i e = elim (Option-cases (get_elem? (split b'-' h) 1)) [
  | inl missing ↦ absurd (cc (host_id_missing h missing))
  | inr (s, found) ↦ parse-le max_u64 s i (cc (host_id_found h s found))
]

pub get_peer_details-some :
    (unicode : Text → Text) (var : Environment) (h : Text) (i : ℕ)
    → host_id h ≡ some i
    → get_peer_details unicode var (some h) ≡ done (read_config unicode var h i)
unfolding get_peer_details
get_peer_details-some unicode var h i good = rw good refl

get_peer_details_bad :
    (unicode : Text → Text) (var : Environment) (h : Text)
    → host_id h ≡ none
    → get_peer_details unicode var (some h) ≡ panic
unfolding get_peer_details
get_peer_details_bad unicode var h bad = rw bad refl

-- An accepted configuration has the machine's host name and the number in it, all its numbers are in
-- the range of their types, it dials fewer peers than the network has, its muxer is one of the two
-- that are built, and its listening address is that muxer's.
pub get_peer_details-IsValid :
    (unicode : Text → Text) (var : Environment) (host : Option Text) (c : PeerConfig)
    → get_peer_details unicode var host ≡ done (ok c)
    → IsValid c × (host ≡ some c.hostname) × (host_id c.hostname ≡ some c.my_id)
get_peer_details-IsValid unicode var none c e = absurd (unfold get_peer_details in cc)
get_peer_details-IsValid unicode var (some h) c e = elim (Option-cases (host_id h)) [
  | inl bad ↦ absurd (cc (get_peer_details_bad unicode var h bad))
  | inr (i, good) ↦
      let accepted : read_config unicode var h i ≡ ok c =
        cc (get_peer_details-some unicode var h i good) in
      let (valid, same_host, same_id) =
        read_config-IsValid unicode var h i c (host_id-le h i good) accepted in
      (valid, cc, cc)
]

-- The node stops with a panic exactly if the host name is Unicode and has no number in its second part.
pub get_peer_details-panic :
    (unicode : Text → Text) (var : Environment) (host : Option Text)
    → (get_peer_details unicode var host ≡ panic)
      ↔ ((h : Text) × (host ≡ some h) × (host_id h ≡ none))
get_peer_details-panic unicode var none =
    (λ e. absurd (unfold get_peer_details in cc), λ (k, same, bad). absurd (cc))
get_peer_details-panic unicode var (some h) = elim (Option-cases (host_id h)) [
  | inl bad ↦ (λ e. (h, refl, bad), λ _. get_peer_details_bad unicode var h bad)
  | inr (i, good) ↦
      (λ e. absurd (cc (get_peer_details-some unicode var h i good)), λ (k, same, bad). absurd (cc))
]
