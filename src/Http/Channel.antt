-- ===== src/Http/Channel.antt =====
-- rust-test-node/src/main.rs: the requests to `POST /publish` at work together with the loop of `main`:
-- the lock around the sender, the channel of commands, and the answers that the loop sends back. A
-- step is what one task does between two points at which it may wait. The channel closes only when
-- the loop ends, so `send` does not fail while the node runs.
use dst_libp2p_test_node.Prelude.{
  ℕ, ◌<◌, ◌≡◌, ◌==◌, List, [], ◌∷◌, ◌++◌, Option, none, some, length, if◌then◌else◌,
}
use dst_libp2p_test_node.Text.{Text}
use dst_libp2p_test_node.Outcome.{done, Result}
use dst_libp2p_test_node.Env.{PeerConfig}
use dst_libp2p_test_node.ByteOrder.{ByteOrder}
use dst_libp2p_test_node.Clock.{Instant}
use dst_libp2p_test_node.Gossipsub.{Gossipsub}
use dst_libp2p_test_node.Metrics.Interface.{Prometheus}
use dst_libp2p_test_node.Publish.{PublishCommand, publish_new_message}
use dst_libp2p_test_node.MainLoop.{Node, LoopEvent, health_tick, publish_command, swarm_event, step}
use dst_libp2p_test_node.MainLoop.Events.{SwarmEvent, Network}
use dst_libp2p_test_node.Http.{PublishRequest, Reply, command, answer_reply}

-- mpsc::channel::<PublishCommand>(10)
abbrev pub channel_capacity : ℕ
channel_capacity = 10

-- Where the handler of a request stands: waiting for the lock, sending with the lock held, waiting for
-- the answer, with the answer at hand, or at its end. A client that hangs up drops the handler.
pub data Phase : Type 0 where
  idle gone : Phase
  locking sending waiting : PublishCommand → Phase
  answered : Result Text → Phase
  replied : Reply → Phase

abbrev pub update : (ℕ → Phase) → ℕ → Phase → ℕ → Phase
update phase i p j = if j == i then p else phase j

-- `cmd.response_tx.send(response)`, whose failure is not looked at: the receiver may be gone.
abbrev pub deliver : Phase → Result Text → Phase
deliver (waiting cmd) r = answered r
deliver p r = p

-- The lock is released when the handler that holds it is dropped.
abbrev pub release : Option ℕ → ℕ → Option ℕ
release none i = none
release (some j) i = if j == i then none else some j

-- A handler that is not at its end.
pub data IsPending : Phase → Type 0 where
  locks : (cmd : PublishCommand) → IsPending (locking cmd)
  sends : (cmd : PublishCommand) → IsPending (sending cmd)
  waits : (cmd : PublishCommand) → IsPending (waiting cmd)
  holds : (r : Result Text) → IsPending (answered r)

-- The branches of `select!` that take no command.
pub data IsOwn {g : Gossipsub} : LoopEvent g → Type 0 where
  ticks : IsOwn health_tick
  polls : (s : g.Swarm) (e : SwarmEvent) (now : Instant) → IsOwn (swarm_event s e now)

module _ (p : Prometheus) (g : Gossipsub) (net : Network g) where
  -- `queue` are the commands in the channel, each with the number of its request.
  pub record System : Type 0 where
    pub lock : Option ℕ
    pub queue : List (ℕ × PublishCommand)
    pub phase : ℕ → Phase
    pub node : Node p g net

  abbrev pub init : Node p g net → System
  init n = record { lock = none; queue = []; phase = λ i. idle; node = n }

  module _ (b : ByteOrder) (config : PeerConfig) where
    pub data Step (s : System) : System → Type 0 where
      request :
          (i : ℕ) (req : PublishRequest)
          → s.phase i ≡ idle
          → Step s (record s { phase = update s.phase i (locking (command config req)) })
      acquire :
          (i : ℕ) (cmd : PublishCommand)
          → s.phase i ≡ locking cmd
          → s.lock ≡ none
          → Step s (record s { lock = some i; phase = update s.phase i (sending cmd) })
      send :
          (i : ℕ) (cmd : PublishCommand)
          → s.phase i ≡ sending cmd
          → length s.queue < channel_capacity
          → Step s (record s {
            lock = none;
            queue = s.queue ++ (i, cmd) ∷ [];
            phase = update s.phase i (waiting cmd);
          })
      publish :
          (i : ℕ) (cmd : PublishCommand) (rest : List (ℕ × PublishCommand)) (now : Instant)
          (shown : Text) (s' : g.Swarm) (r : Result Text) (n' : Node p g net)
          → s.queue ≡ (i, cmd) ∷ rest
          → publish_new_message g b cmd now shown s.node.swarm ≡ done (s', r)
          → step p g net b config.chunks s.node (publish_command cmd now shown) ≡ done n'
          → Step s (record s {
            queue = rest;
            phase = update s.phase i (deliver (s.phase i) r);
            node = n';
          })
      turn :
          (e : LoopEvent g) (n' : Node p g net)
          → IsOwn e
          → step p g net b config.chunks s.node e ≡ done n'
          → Step s (record s { node = n' })
      reply :
          (i : ℕ) (r : Result Text)
          → s.phase i ≡ answered r
          → Step s (record s { phase = update s.phase i (replied (answer_reply (some r))) })
      hang_up :
          (i : ℕ)
          → IsPending (s.phase i)
          → Step s (record s { lock = release s.lock i; phase = update s.phase i gone })

    pub data Reach (n : Node p g net) : System → Type 0 where
      start : Reach n (init n)
      later : {s t : System} → Reach n s → Step s t → Reach n t

    -- The steps from one moment to another.
    pub data Steps : System → System → Type 0 where
      stop : {s : System} → Steps s s
      go : {s t u : System} → Step s t → Steps t u → Steps s u
