-- ===== src/Env/Case.antt =====
-- The letter case of MUXER.
use mathlib.Core.Path.{fun_ext}
use dst_libp2p_test_node.Prelude.{ℕ, ◌≡◌, refl, ap, true, false, map, Option, none, some}
use dst_libp2p_test_node.Text.{
  Text, codes, text_eq, text_eq_sound, is_ascii, to_ascii_lowercase, to_lowercase,
  eq_ignore_ascii_case,
}
use dst_libp2p_test_node.Text.Decimal.{max_u64, max_u32}
use dst_libp2p_test_node.Outcome.{done, ◌>>=◌, unwrap}
use dst_libp2p_test_node.Env.{Environment, var_number, host_id, read_config, get_peer_details}

-- Two environments that agree on every variable but MUXER.
abbrev pub AgreeButMuxer : Environment → Environment → Type 0
AgreeButMuxer var var' = (name : Text) → text_eq name (codes "MUXER") ≡ false → var name ≡ var' name

to_lowercase_eq :
    (unicode : Text → Text) (m m' : Text)
    → is_ascii m ≡ true
    → is_ascii m' ≡ true
    → eq_ignore_ascii_case m m' ≡ true
    → to_lowercase unicode m ≡ to_lowercase unicode m'
unfolding to_lowercase eq_ignore_ascii_case
to_lowercase_eq unicode m m' a a' e =
    rw (a, a') (text_eq_sound (map to_ascii_lowercase m) (map to_ascii_lowercase m') e)

var_number_eq :
    (var var' : Environment) (top n : ℕ) (name text : Text)
    → var name ≡ var' name
    → var_number var top name text n ≡ var_number var' top name text n
unfolding var_number
var_number_eq var var' top n name text e = rw e refl

read_config_case :
    (unicode : Text → Text) (var var' : Environment) (h : Text) (i : ℕ) (m m' : Text)
    → AgreeButMuxer var var'
    → var (codes "MUXER") ≡ some m
    → var' (codes "MUXER") ≡ some m'
    → is_ascii m ≡ true
    → is_ascii m' ≡ true
    → eq_ignore_ascii_case m m' ≡ true
    → read_config unicode var h i ≡ read_config unicode var' h i
unfolding read_config text_eq
read_config_case unicode var var' h i m m' agree e e' a a' same = simp (
  e,
  e',
  to_lowercase_eq unicode m m' a a' same,
  var_number_eq var var' max_u64 100 (codes "PEERS") (codes "100") (agree (codes "PEERS") refl),
  var_number_eq var var' max_u64 10 (codes "CONNECTTO") (codes "10")
      (agree (codes "CONNECTTO") refl),
  var_number_eq var var' max_u32 1 (codes "FRAGMENTS") (codes "1") (agree (codes "FRAGMENTS") refl),
  agree (codes "SERVICE") refl,
  agree (codes "SHADOWENV") refl,
)

-- The letter case of an ASCII value of MUXER makes no difference: neither to the configuration nor
-- to an error message.
pub get_peer_details_case :
    (unicode : Text → Text) (var var' : Environment) (host : Option Text) (m m' : Text)
    → AgreeButMuxer var var'
    → var (codes "MUXER") ≡ some m
    → var' (codes "MUXER") ≡ some m'
    → is_ascii m ≡ true
    → is_ascii m' ≡ true
    → eq_ignore_ascii_case m m' ≡ true
    → get_peer_details unicode var host ≡ get_peer_details unicode var' host
unfolding get_peer_details
get_peer_details_case unicode var var' none m m' agree e e' a a' same = refl
get_peer_details_case unicode var var' (some h) m m' agree e e' a a' same =
    ap (λ config. unwrap (host_id h) >>= λ i. done (config i))
      (fun_ext λ i. read_config_case unicode var var' h i m m' agree e e' a a' same)
