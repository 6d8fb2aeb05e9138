-- ===== src/Env/Hostname.antt =====
-- The host names of a StatefulSet, `pod-17`, against the number that the node reads from them, and
-- the configuration of a node with no variable set.
use dst_libp2p_test_node.Prelude.{
  ℕ, ◌≤◌, ◌≡◌, refl, ◌∙◌, false, List, [], ◌∷◌, ◌++◌, none, some, arith, All,
}
use dst_libp2p_test_node.Text.{Text, codes, to_lowercase, eq_ignore_ascii_case}
use dst_libp2p_test_node.Text.Split.{split-append, split_single, Lacks}
use dst_libp2p_test_node.Text.Decimal.{
  IsDigit, display, display-All, parse_unsigned, parse-display, max_u64, max_u32,
}
use dst_libp2p_test_node.Outcome.{done, ok}
use dst_libp2p_test_node.Env.{
  Environment, var_number, host_id, listen_address, is_known_muxer, read_config, get_peer_details,
}
use dst_libp2p_test_node.Env.Checks.{get_peer_details-some, host_id_found}

digits_lack : (b : ℕ) (s : List ℕ) → b ≡ b'-' → All IsDigit s → Lacks b s
digits_lack b [] e h = tt
digits_lack b (c ∷ s) e (hc, hs) = (omega arith, digits_lack b s e hs)

-- Whatever stands before the first dash, and behind a second one, a host name that has a number
-- between them gives that number.
pub host_id-display :
    (name : Text) (i : ℕ) (rest : Text)
    → Lacks b'-' name
    → i ≤ max_u64
    → (host_id (name ++ b'-' ∷ display i) ≡ some i)
      × (host_id (name ++ b'-' ∷ (display i ++ b'-' ∷ rest)) ≡ some i)
host_id-display name i rest h le =
    let numeral : Lacks b'-' (display i) = digits_lack b'-' (display i) refl (display-All i) in
    (
      host_id_found _ (display i)
            (rw (split-append b'-' name (display i) h, split_single b'-' (display i) numeral))
          ∙ parse-display max_u64 i le,
      host_id_found _ (display i)
            (rw (split-append b'-' name _ h, split-append b'-' (display i) rest numeral))
          ∙ parse-display max_u64 i le,
    )

abbrev pub pod : ℕ → Text
pod i = codes "pod-" ++ display i

pub pod_id : (i : ℕ) → i ≤ max_u64 → host_id (pod i) ≡ some i
pod_id i le = (host_id-display (codes "pod") i [] (omega arith) le).0

abbrev pub unset : Environment
unset name = none

unset_numbers :
    (var_number unset max_u64 (codes "PEERS") (codes "100") 100 ≡ 100)
    × (var_number unset max_u64 (codes "CONNECTTO") (codes "10") 10 ≡ 10)
    × (var_number unset max_u32 (codes "FRAGMENTS") (codes "1") 1 ≡ 1)
unfolding var_number parse_unsigned
unset_numbers = (refl, refl, refl)

-- With no variable set, every pod of the StatefulSet starts with the documented defaults: a network
-- of 100 peers of which 10 are dialled, one fragment, yamux on TCP port 5000, outside Shadow.
pub defaults :
    (unicode : Text → Text) (i : ℕ)
    → i ≤ max_u64
    → get_peer_details unicode unset (some (pod i))
      ≡ done (
          ok (record {
            hostname = pod i;
            my_id = i;
            network_size = 100;
            connect_to = 10;
            chunks = 1;
            muxer = codes "yamux";
            address = codes "/ip4/0.0.0.0/tcp/5000";
            service = codes "nimp2p-service";
            in_shadow = false;
          }))
unfolding read_config var_number parse_unsigned is_known_muxer to_lowercase eq_ignore_ascii_case
    listen_address
defaults unicode i le = get_peer_details-some unicode unset (pod i) i (pod_id i le)
