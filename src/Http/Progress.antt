-- ===== src/Http/Progress.antt =====
-- No request is stuck.
use mathlib.Core.List.{Memᴰ}
use dst_libp2p_test_node.Prelude.{
  ℕ, zero, suc, ◌+◌, ◌≤◌, ap, ◌<◌, ◌≡◌, ◌≢◌, refl, ◌⊎◌, List, [], ◌∷◌, some, arith, length,
  length-append, All, All-append, ltb, ◌∙◌, inl, inr, Bool-cases, Option-cases,
}
use dst_libp2p_test_node.Text.{Text}
use dst_libp2p_test_node.Outcome.{Result}
use dst_libp2p_test_node.Env.{PeerConfig}
use dst_libp2p_test_node.ByteOrder.{ByteOrder}
use dst_libp2p_test_node.Clock.{Instant}
use dst_libp2p_test_node.Gossipsub.{Gossipsub}
use dst_libp2p_test_node.Metrics.Interface.{Prometheus}
use dst_libp2p_test_node.Publish.{PublishCommand}
use dst_libp2p_test_node.Publish.Total.{IsServed, publish_new_message_returns}
use dst_libp2p_test_node.MainLoop.{publish_command}
use dst_libp2p_test_node.MainLoop.Events.{Network}
use dst_libp2p_test_node.MainLoop.Counting.{step-Counted}
use dst_libp2p_test_node.Http.{Reply, answer_reply}
use dst_libp2p_test_node.Http.Channel.{
  Phase, idle, gone, locking, sending, waiting, answered, replied, update, deliver,
  channel_capacity, System, Step, acquire, send, publish, reply, IsPending, sends, waits, holds,
}
use dst_libp2p_test_node.Http.Pending.{IsPending-cases, Commands, Held, update_other, update_cases}
use dst_libp2p_test_node.Http.Invariant.{IsOrderly}

-- How many steps a request may still take, where those in the channel count one more.
abbrev pub weight : Phase → ℕ
weight (locking cmd) = 5
weight (sending cmd) = 4
weight (waiting cmd) = 2
weight (answered r) = 1
weight _ = 0

-- The requests that are numbered below `n`.
abbrev pub load : (ℕ → Phase) → ℕ → ℕ
load f zero = 0
load f (suc n) = weight (f n) + load f n

pub load-above :
    (f : ℕ → Phase) (i : ℕ) (p : Phase) (n : ℕ) → n ≤ i → load (update f i p) n ≡ load f n
load-above f i p zero h = refl
load-above f i p (suc n) h =
    rw (update_other f i p n (λ e. omega arith)) (omega (arith, load-above f i p n (omega arith)))

pub load-update :
    (f : ℕ → Phase) (i : ℕ) (p : Phase) (n : ℕ)
    → i < n
    → load (update f i p) n + weight (f i) ≡ load f n + weight p
load-update f i p zero h = elim h [ ]
load-update f i p (suc n) h = elim (update_cases f i p n) [
  | inl (same, now) ↦ rw (now, ap f same) (omega (arith, load-above f i p n (omega arith)))
  | inr (apart, other) ↦ rw other (omega (arith, load-update f i p n (ground arith)))
]

abbrev pub Wants : PublishCommand → Phase → Type 0
Wants cmd p = (p ≡ locking cmd) ⊎ (p ≡ sending cmd)

-- No command that is on its way stops the node.
pub record AllServed (queue : Commands) (phase : ℕ → Phase) : Type 0 where
  pub in_channel : All (λ e. IsServed e.1) queue
  pub on_its_way : (i : ℕ) (cmd : PublishCommand) → Wants cmd (phase i) → IsServed cmd

Wants-update :
    (f : ℕ → Phase) (i : ℕ) (p : Phase)
    → ((j : ℕ) (cmd : PublishCommand) → Wants cmd (f j) → IsServed cmd)
    → ((cmd : PublishCommand) → Wants cmd p → IsServed cmd)
    → (j : ℕ) (cmd : PublishCommand) → Wants cmd (update f i p j)
    → IsServed cmd
Wants-update f i p old new j cmd w = elim (update_cases f i p j) [
  | inl (_, now) ↦ new cmd (rw now at w)
  | inr (_, other) ↦ old j cmd (rw other at w)
]

not_wanting : (p : Phase) → weight p ≤ 2 → (cmd : PublishCommand) → Wants cmd p → IsServed cmd
not_wanting p light cmd (inl e) = absurd (let w = ap weight e in omega arith)
not_wanting p light cmd (inr e) = absurd (let w = ap weight e in omega arith)

pub List-cases : {A : Type 0} (xs : List A) → (xs ≡ []) ⊎ ((x : A) × (ys : List A) × (xs ≡ x ∷ ys))
List-cases [] = inl refl
List-cases (x ∷ ys) = inr (x, ys, refl)

sending_only : (cmd c : PublishCommand) → Wants c (sending cmd) → cmd ≡ c
sending_only cmd c (inl e) = absurd (cc)
sending_only cmd c (inr e) = cc

-- The handler has not been dropped.
abbrev pub IsLive : Phase → Type 0
IsLive p = IsPending p ⊎ ((page : Reply) × (p ≡ replied page))

deliver-IsLive :
    (x : Phase) (cmd : PublishCommand) (r : Result Text)
    → (x ≡ waiting cmd) ⊎ (x ≡ gone)
    → IsLive (deliver x r) ⊎ (deliver x r ≡ x)
deliver-IsLive x cmd r (inl e) = rw e (inl (inl (holds r)))
deliver-IsLive x cmd r (inr e) = rw e (inr refl)

module _ (p : Prometheus) (g : Gossipsub) (net : Network g) (b : ByteOrder)
    (config : PeerConfig) where
  -- A step that one handler takes, or the loop for it.
  pub record Advance (s : System p g net) : Type 0 where
    pub next : System p g net
    pub step_to : Step p g net b config s next
    pub of : ℕ
    pub to : Phase
    pub moved : next.phase ≡ update s.phase of to
    pub begun : s.phase of ≢ idle
    pub lighter : weight to + length next.queue < weight (s.phase of) + length s.queue
    pub served : AllServed next.queue next.phase
    pub live : IsLive to ⊎ (to ≡ s.phase of)

  module _ (now : Instant) (shown : Text) (s : System p g net)
      (orderly : IsOrderly p g net b config s) (served : AllServed s.queue s.phase) where
    deliver-weight :
        (x : Phase) (cmd : PublishCommand) (r : Result Text)
        → (x ≡ waiting cmd) ⊎ (x ≡ gone)
        → (x ≢ idle) × (weight (deliver x r) ≤ weight x) × (weight (deliver x r) ≤ 2)
    deliver-weight x cmd r (inl e) = rw e ((λ h. cc), omega arith, omega arith)
    deliver-weight x cmd r (inr e) = rw e ((λ h. cc), omega arith, omega arith)

    Advance-publish :
        (i : ℕ) (cmd : PublishCommand) (rest : Commands) → s.queue ≡ (i, cmd) ∷ rest → Advance s
    Advance-publish i cmd rest first =
        let fine : All (λ e. IsServed e.1) ((i, cmd) ∷ rest) = rw first at served.in_channel in
        let here : All (Held s.phase) ((i, cmd) ∷ rest) = rw first at orderly.each_held in
        let ((s', r), run) = publish_new_message_returns g b cmd now shown s.node.swarm fine.0 in
        let (n', turned, _) =
          step-Counted p g net b config.chunks cmd.topic s.node (publish_command cmd now shown)
            fine.0 in
        let (begun, less, light) = deliver-weight (s.phase i) cmd r here.0 in
        record {
          next = _;
          step_to = publish i cmd rest now shown s' r n' first run turned;
          of = i;
          to = deliver (s.phase i) r;
          moved = refl;
          begun = begun;
          lighter = omega (arith, ap length first);
          served = record {
            in_channel = fine.1;
            on_its_way = Wants-update s.phase i _ served.on_its_way (not_wanting _ light);
          };
          live = deliver-IsLive (s.phase i) cmd r here.0;
        }

    Advance-send : (i : ℕ) (cmd : PublishCommand) → s.phase i ≡ sending cmd → Advance s
    Advance-send i cmd here = elim (Bool-cases (ltb (length s.queue) channel_capacity)) [
      | inl room ↦ record {
        next = _;
        step_to = send i cmd here (ground arith);
        of = i;
        to = waiting cmd;
        moved = refl;
        begun = λ e. cc;
        lighter = rw here (omega (arith, length-append s.queue ((i, cmd) ∷ [])));
        served = record {
          in_channel =
              All-append (λ e. IsServed e.1) s.queue ((i, cmd) ∷ []) served.in_channel
                (served.on_its_way i cmd (inr here), tt);
          on_its_way =
              Wants-update s.phase i _ served.on_its_way (not_wanting (waiting cmd) (omega arith));
        };
        live = inl (inl (waits cmd));
      }
      | inr full ↦ elim (List-cases s.queue) [
        | inl empty ↦ absurd (let none_ = ap length empty in ground arith)
        | inr ((j, c), rest, first) ↦ Advance-publish j c rest first
      ]
    ]

    -- Whatever the handler of a request waits for, some step can be taken.
    pub advance : (i : ℕ) → IsPending (s.phase i) → Advance s
    advance i pending = elim (IsPending-cases (s.phase i) pending) [
      | inl (cmd, here) ↦ elim (Option-cases s.lock) [
        | inl free ↦ record {
          next = _;
          step_to = acquire i cmd here free;
          of = i;
          to = sending cmd;
          moved = refl;
          begun = λ e. cc;
          lighter = rw here (omega arith);
          served = record {
            in_channel = served.in_channel;
            on_its_way = Wants-update s.phase i _ served.on_its_way (λ c w.
                let same : cmd ≡ c = sending_only cmd c w in
                served.on_its_way i c (inl (here ∙ ap locking same)));
          };
          live = inl (inl (sends cmd));
        }
        | inr (j, held) ↦ let (c, sends_) = orderly.lock_held j held in Advance-send j c sends_
      ]
      | inr (inl (cmd, here)) ↦ Advance-send i cmd here
      | inr (inr (inl (cmd, here))) ↦ elim (List-cases s.queue) [
        | inl empty ↦
            let lost : Memᴰ (i, cmd) [] = rw empty at (orderly.all_queued i cmd here) in
            absurd (elim lost [ ])
        | inr ((j, c), rest, first) ↦ Advance-publish j c rest first
      ]
      | inr (inr (inr (r, here))) ↦ record {
        next = _;
        step_to = reply i r here;
        of = i;
        to = replied (answer_reply (some r));
        moved = refl;
        begun = λ e. cc;
        lighter = rw here (omega arith);
        served = record {
          in_channel = served.in_channel;
          on_its_way = Wants-update s.phase i _ served.on_its_way (not_wanting _ (omega arith));
        };
        live = inl (inr (answer_reply (some r), refl));
      }
    ]
