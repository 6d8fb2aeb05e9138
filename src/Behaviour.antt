-- ===== src/Behaviour.antt =====
-- rust-test-node/src/main.rs: `configure_gossipsub_params`, `build_behaviour` and the constants that they
-- give to gossipsub. gossipsub's builder and its `Behaviour` are the interface `BehaviourBuilder`.
use dst_libp2p_test_node.Prelude.{ℕ, ◌+◌, ◌-◌, ◌*◌, ◌%◌, ◌^◌, ◌≤◌, ◌≡◌, refl, Bool, true, arith}
use dst_libp2p_test_node.Prelude.Int.{ℤ, pos, negsuc}
use dst_libp2p_test_node.Text.{Text, codes}
use dst_libp2p_test_node.Outcome.{Run, done, panic, Result, ok, err, ◌>>=◌}
use dst_libp2p_test_node.MessageId.{Message, Hasher, msg_id_provider}

abbrev pub gossipsub_d_low : ℤ
gossipsub_d_low = pos 4

abbrev pub gossipsub_d : ℤ
gossipsub_d = pos 6

abbrev pub gossipsub_d_high : ℤ
gossipsub_d_high = pos 8

-- `as usize` of an i64
abbrev pub as_usize : ℤ → ℕ
as_usize (pos n) = n % 2 ^ 64
as_usize (negsuc n) = 2 ^ 64 - (n + 1)

-- gossipsub's modes; `no_validation` is its `None`.
pub data ValidationMode : Type 0 where
  strict permissive anonymous no_validation : ValidationMode

-- The calls of the builder. Times are in seconds; a number of type f64 is the source's literal.
pub record Settings : Type 0 where
  pub validation_mode : ValidationMode
  pub message_id_fn : Message → Text
  pub flood_publish : Bool
  pub heartbeat_interval : ℕ
  pub prune_backoff : ℕ
  pub gossip_factor : Text
  pub mesh_n : ℕ
  pub mesh_n_low : ℕ
  pub mesh_n_high : ℕ
  pub mesh_outbound_min : ℕ
  pub gossip_lazy : ℕ
  pub opportunistic_graft_peers : ℕ
  pub max_transmit_size : ℕ

abbrev pub settings : Hasher → Settings
settings h = record {
  validation_mode = permissive;
  message_id_fn = msg_id_provider h;
  flood_publish = true;
  heartbeat_interval = 1;
  prune_backoff = 60;
  gossip_factor = codes "0.25";
  mesh_n = as_usize gossipsub_d;
  mesh_n_low = as_usize gossipsub_d_low;
  mesh_n_high = as_usize gossipsub_d_high;
  mesh_outbound_min = 3;
  gossip_lazy = 6;
  opportunistic_graft_peers = 0;
  max_transmit_size = 1024 * 1024;
}

-- The conditions that the builder's errors name.
pub record MeetsLimits (s : Settings) : Type 0 where
  pub outbound_low : s.mesh_outbound_min ≤ s.mesh_n_low
  pub low_n : s.mesh_n_low ≤ s.mesh_n
  pub n_high : s.mesh_n ≤ s.mesh_n_high
  pub outbound_half : s.mesh_outbound_min * 2 ≤ s.mesh_n
  pub transmits : 100 ≤ s.max_transmit_size

-- `build` of a ConfigBuilder that starts from the defaults and gets these calls, and
-- `Behaviour::new(MessageAuthenticity::Signed(key), config)`, which refuses signed messages only where
-- messages are validated as anonymous ones.
pub record BehaviourBuilder : Type 1 where
  pub Config : Type 0
  pub build : Settings → Result Config
  pub build_ok : (s : Settings) → MeetsLimits s → (c : Config) × (build s ≡ ok c)
  pub Keypair : Type 0
  pub Behaviour : Type 0
  pub new_signed : Keypair → Config → Result Behaviour
  pub new_signed_ok :
      (key : Keypair) (s : Settings) (c : Config)
      → build s ≡ ok c
      → ¬ (s.validation_mode ≡ anonymous)
      → (x : Behaviour) × (new_signed key c ≡ ok x)
  pub with_metrics : Behaviour → Behaviour

-- The interface can be met: a builder that keeps the calls.
abbrev pub lenient : BehaviourBuilder
lenient = record {
  Config = Settings;
  build = λ s. ok s;
  build_ok = λ s h. (s, refl);
  Keypair = ℕ;
  Behaviour = ℕ × Settings;
  new_signed = λ key c. ok (key, c);
  new_signed_ok = λ key s c e permits. ((key, c), refl);
  with_metrics = λ x. x;
}

-- `expect` of a result whose error only goes into the panic's message
abbrev pub expect {ℓ} : {A : Type ℓ} → Result A → Run A
expect (ok a) = done a
expect (err e) = panic

module _ (bb : BehaviourBuilder) (h : Hasher) where
  pub configure_gossipsub_params : Run bb.Config
  configure_gossipsub_params = expect (bb.build (settings h))

  pub build_behaviour : bb.Keypair → Run bb.Behaviour
  build_behaviour key = configure_gossipsub_params >>= λ config.
      expect (bb.new_signed key config) >>= λ x. done (bb.with_metrics x)

  settings-MeetsLimits : MeetsLimits (settings h)
  settings-MeetsLimits = omega arith

  -- The node's settings of gossipsub are accepted, so that building the behaviour never panics; and
  -- gossipsub's lower bound for a mesh is the constant that
  -- `main` also gives to `GossipSubMetrics::new`.
  pub build_behaviour-done :
      (key : bb.Keypair)
      → (config : bb.Config) × (x : bb.Behaviour) × (configure_gossipsub_params ≡ done config)
        × (bb.new_signed key config ≡ ok x)
        × (build_behaviour key ≡ done (bb.with_metrics x))
        × (pos (settings h).mesh_n_low ≡ gossipsub_d_low)
  unfolding build_behaviour configure_gossipsub_params
  build_behaviour-done key =
      let (config, built) = bb.build_ok (settings h) settings-MeetsLimits in
      let (x, made) = bb.new_signed_ok key (settings h) config built (λ e. cc) in
      (config, x, rw built refl, made, rw (built, made) refl, refl)
