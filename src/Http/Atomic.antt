-- ===== src/Http/Atomic.antt =====
-- The publishing service without lock and channel: a request is served at one moment, between its
-- coming and its answer, by `publish_new_message` on the node as it is then.
use dst_libp2p_test_node.Prelude.{ℕ, ◌≡◌, ◌≢◌, ◌==◌, [], ◌∷◌, Option, none, some, if◌then◌else◌}
use dst_libp2p_test_node.Text.{Text}
use dst_libp2p_test_node.Outcome.{done, Result}
use dst_libp2p_test_node.Env.{PeerConfig}
use dst_libp2p_test_node.ByteOrder.{ByteOrder}
use dst_libp2p_test_node.Clock.{Instant}
use dst_libp2p_test_node.Gossipsub.{Gossipsub}
use dst_libp2p_test_node.Metrics.Interface.{Prometheus}
use dst_libp2p_test_node.Publish.{PublishCommand, publish_new_message}
use dst_libp2p_test_node.MainLoop.{Node, LoopEvent, publish_command, step}
use dst_libp2p_test_node.MainLoop.Events.{Network}
use dst_libp2p_test_node.Http.{PublishRequest, Reply, command, answer_reply}
use dst_libp2p_test_node.Http.Channel.{
  Phase, idle, gone, locking, sending, waiting, answered, replied, IsOwn, System,
}
use dst_libp2p_test_node.Http.Pending.{Commands}

-- What a client knows: its request has not come, waits, has its answer, or is given up; a command that
-- is given up may still be published.
pub data Status : Type 0 where
  fresh : Status
  wanted : PublishCommand → Status
  settled : Reply → Status
  left : Option PublishCommand → Status

-- What may become of a request that is given up.
pub data MayLeave : Status → Option PublishCommand → Type 0 where
  before : (cmd : PublishCommand) → MayLeave (wanted cmd) none
  too_late : (cmd : PublishCommand) → MayLeave (wanted cmd) (some cmd)
  after : (page : Reply) → MayLeave (settled page) none

-- Only request `i` changes, to `x`.
pub record Changes (f : ℕ → Status) (i : ℕ) (x : Status) (f' : ℕ → Status) : Type 0 where
  pub there : f' i ≡ x
  pub elsewhere : (j : ℕ) → j ≢ i → f' j ≡ f j

-- The command of request `i` in the channel.
abbrev pub find : ℕ → Commands → Option PublishCommand
find i [] = none
find i ((j, cmd) ∷ q) = let rest = find i q in if i == j then some cmd else rest

-- What the client of a handler knows.
abbrev pub view : Phase → Option PublishCommand → Status
view idle o = fresh
view (locking cmd) o = wanted cmd
view (sending cmd) o = wanted cmd
view (waiting cmd) o = wanted cmd
view (answered r) o = settled (answer_reply (some r))
view (replied page) o = settled page
view gone o = left o

module _ (p : Prometheus) (g : Gossipsub) (net : Network g) where
  pub record Service : Type 0 where
    pub status : ℕ → Status
    pub node : Node p g net

  abbrev pub service : System p g net → Service
  service s = record { status = λ i. view (s.phase i) (find i s.queue); node = s.node }

  abbrev pub Same : Service → Service → Type 0
  Same a a' = ((i : ℕ) → a'.status i ≡ a.status i) × (a'.node ≡ a.node)

  module _ (b : ByteOrder) (config : PeerConfig) where
    pub data Serves (a a' : Service) : Type 0 where
      ask :
          (i : ℕ) (req : PublishRequest)
          → a.status i ≡ fresh
          → Changes a.status i (wanted (command config req)) a'.status
          → a'.node ≡ a.node
          → Serves a a'
      serve_one :
          (i : ℕ) (cmd : PublishCommand) (now : Instant) (shown : Text) (s' : g.Swarm)
          (r : Result Text)
          → a.status i ≡ wanted cmd
          → publish_new_message g b cmd now shown a.node.swarm ≡ done (s', r)
          → step p g net b config.chunks a.node (publish_command cmd now shown) ≡ done a'.node
          → Changes a.status i (settled (answer_reply (some r))) a'.status
          → Serves a a'
      serve_left :
          (i : ℕ) (cmd : PublishCommand) (now : Instant) (shown : Text)
          → a.status i ≡ left (some cmd)
          → step p g net b config.chunks a.node (publish_command cmd now shown) ≡ done a'.node
          → Changes a.status i (left none) a'.status
          → Serves a a'
      own_turn :
          (e : LoopEvent g)
          → IsOwn e
          → step p g net b config.chunks a.node e ≡ done a'.node
          → ((i : ℕ) → a'.status i ≡ a.status i)
          → Serves a a'
      leave :
          (i : ℕ) (o : Option PublishCommand)
          → MayLeave (a.status i) o
          → Changes a.status i (left o) a'.status
          → a'.node ≡ a.node
          → Serves a a'
