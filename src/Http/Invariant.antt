-- ===== src/Http/Invariant.antt =====
-- Every step of the handlers and of the loop keeps the requests orderly.
use mathlib.Core.List.{Memᴰ}
use dst_libp2p_test_node.Prelude.{
  ℕ, ◌<◌, ◌≡◌, ◌≢◌, ap, sym, ◌∙◌, ◌==◌, [], ◌∷◌, ◌++◌, Option, none, some, arith, length,
  length-append, All-append, inl, inr, Bool-cases,
}
use dst_libp2p_test_node.Outcome.{Result}
use dst_libp2p_test_node.Text.{Text}
use dst_libp2p_test_node.Env.{PeerConfig}
use dst_libp2p_test_node.ByteOrder.{ByteOrder}
use dst_libp2p_test_node.Gossipsub.{Gossipsub}
use dst_libp2p_test_node.Metrics.Interface.{Prometheus}
use dst_libp2p_test_node.Publish.{PublishCommand}
use dst_libp2p_test_node.MainLoop.{Node}
use dst_libp2p_test_node.MainLoop.Events.{Network}
use dst_libp2p_test_node.Http.{command}
use dst_libp2p_test_node.Http.Channel.{
  Phase, idle, gone, locking, sending, waiting, answered, update, deliver, release,
  channel_capacity, System, Step, request, acquire, send, publish, turn, reply, hang_up, Reach,
  start, later,
}
use dst_libp2p_test_node.Http.Pending.{
  Commands, Held, Outside, Held-Foreign, Held-update, Held-gone, Once-snoc, Mem-snoc, Mem-last,
  update_self, update_other, update_cases, Orderly, Orderly-quiet,
}

-- A handler in one phase is in no other.
module _ (f : ℕ → Phase) (i : ℕ) where
  pub locking-Outside : (cmd : PublishCommand) → f i ≡ locking cmd → Outside (f i)
  locking-Outside cmd e = (λ c w. cc, λ g. cc)

  pub sending-Outside : (cmd : PublishCommand) → f i ≡ sending cmd → Outside (f i)
  sending-Outside cmd e = (λ c w. cc, λ g. cc)

  idle-Outside : f i ≡ idle → Outside (f i)
  idle-Outside e = (λ c w. cc, λ g. cc)

  pub answered-Outside : (r : Result Text) → f i ≡ answered r → Outside (f i)
  answered-Outside r e = (λ c w. cc, λ g. cc)

module _ (lock : Option ℕ) (queue : Commands) (f : ℕ → Phase) (h : Orderly lock queue f) (i : ℕ)
    (cmd : PublishCommand) where
  Orderly-acquire :
      f i ≡ locking cmd → lock ≡ none → Orderly (some i) queue (update f i (sending cmd))
  Orderly-acquire here free = record {
    bounded = h.bounded;
    once = h.once;
    each_held =
        Held-update f i (sending cmd) queue
          (Held-Foreign f i queue (locking-Outside f i cmd here) h.each_held) h.each_held;
    lock_held = λ j e.
        let same : j ≡ i = cc in
        (cmd, ap (update f i (sending cmd)) same ∙ update_self f i (sending cmd));
    lock_needed = λ j c e. elim (update_cases f i (sending cmd) j) [
      | inl (same, _) ↦ cc
      | inr (_, other) ↦ absurd (cc (h.lock_needed j c (sym other ∙ e)))
    ];
    all_queued = λ j c e. elim (update_cases f i (sending cmd) j) [
      | inl (_, now) ↦ absurd (cc)
      | inr (_, other) ↦ h.all_queued j c (sym other ∙ e)
    ];
  }

  Orderly-send :
      f i ≡ sending cmd
      → length queue < channel_capacity
      → Orderly none (queue ++ (i, cmd) ∷ []) (update f i (waiting cmd))
  Orderly-send here room =
      let out = Held-Foreign f i queue (sending-Outside f i cmd here) h.each_held in
      record {
        bounded = omega (arith, length-append queue ((i, cmd) ∷ []));
        once = Once-snoc queue i cmd out h.once;
        each_held =
            All-append (Held (update f i (waiting cmd))) queue ((i, cmd) ∷ [])
              (Held-update f i (waiting cmd) queue out h.each_held)
              (inl (update_self f i (waiting cmd)), tt);
        lock_held = λ j e. absurd (cc);
        lock_needed = λ j c e. elim (update_cases f i (waiting cmd) j) [
          | inl (_, now) ↦ absurd (cc)
          | inr (apart, other) ↦
              absurd (apart (cc (h.lock_needed j c (sym other ∙ e), h.lock_needed i cmd here)))
        ];
        all_queued = λ j c e. elim (update_cases f i (waiting cmd) j) [
          | inl (same, now) ↦
              let this : ◌≡◌ {A = ℕ × PublishCommand} (i, cmd) (j, c) = cc in
              rw (← this) (Mem-last (i, cmd) queue)
          | inr (_, other) ↦ Mem-snoc (j, c) (i, cmd) queue (h.all_queued j c (sym other ∙ e))
        ];
      }

release_other : (lock : Option ℕ) (i j : ℕ) → j ≢ i → lock ≡ some j → release lock i ≡ some j
release_other none i j apart e = absurd (cc)
release_other (some k) i j apart e = let same : k ≡ j = cc in ground arith

release_held : (lock : Option ℕ) (i j : ℕ) → release lock i ≡ some j → (j ≢ i) × (lock ≡ some j)
release_held none i j e = absurd (cc)
release_held (some k) i j e = elim (Bool-cases (k == i)) [
  | inl same ↦ absurd (cc (rw same at e))
  | inr apart ↦ let this : some k ≡ some j = rw apart at e in (ground arith, this)
]

module _ (f : ℕ → Phase) (i : ℕ) (p : Phase) (quiet : (c : PublishCommand) → p ≢ waiting c)
    (idle' : (c : PublishCommand) → p ≢ sending c) where
  -- The loop takes the first command, and its handler goes on.
  Orderly-take :
      (lock : Option ℕ) (cmd : PublishCommand) (rest : Commands)
      → Orderly lock ((i, cmd) ∷ rest) f
      → ((c : PublishCommand) → f i ≢ sending c)
      → Orderly lock rest (update f i p)
  Orderly-take lock cmd rest h free = record {
    bounded = omega (arith, h.bounded);
    once = h.once.1;
    each_held = Held-update f i p rest h.once.0 h.each_held.1;
    lock_held = λ j e.
        let (c, s) = h.lock_held j e in
        elim (update_cases f i p j) [
          | inl (same, _) ↦ absurd (free c (ap f (sym same) ∙ s))
          | inr (_, other) ↦ (c, other ∙ s)
        ];
    lock_needed = λ j c e. elim (update_cases f i p j) [
      | inl (_, now) ↦ absurd (idle' c (sym now ∙ e))
      | inr (_, other) ↦ h.lock_needed j c (sym other ∙ e)
    ];
    all_queued = λ j c e. elim (update_cases f i p j) [
      | inl (_, now) ↦ absurd (quiet c (sym now ∙ e))
      | inr (apart, other) ↦ elim (h.all_queued j c (sym other ∙ e)) [
        | Memᴰ.head same ↦ absurd (apart (ap (λ x. x.0) same))
        | Memᴰ.tail m ↦ m
      ]
    ];
  }

module _ (f : ℕ → Phase) (i : ℕ) where
  Orderly-publish :
      (lock : Option ℕ) (cmd : PublishCommand) (rest : Commands) (r : Result Text)
      → Orderly lock ((i, cmd) ∷ rest) f
      → Orderly lock rest (update f i (deliver (f i) r))
  Orderly-publish lock cmd rest r h = elim h.each_held.0 [
    | inl waits ↦
        rw waits (Orderly-take f i (answered r) (λ c e. cc) (λ c e. cc) lock cmd rest h (λ c e. cc))
    | inr left ↦ rw left (Orderly-take f i gone (λ c e. cc) (λ c e. cc) lock cmd rest h (λ c e. cc))
  ]

  Orderly-hang_up :
      (lock : Option ℕ) (queue : Commands)
      → Orderly lock queue f
      → Orderly (release lock i) queue (update f i gone)
  Orderly-hang_up lock queue h = record {
    bounded = h.bounded;
    once = h.once;
    each_held = Held-gone f i queue h.each_held;
    lock_held = λ j e.
        let (apart, held) = release_held lock i j e in
        let (c, s) = h.lock_held j held in (c, update_other f i gone j apart ∙ s);
    lock_needed = λ j c e. elim (update_cases f i gone j) [
      | inl (_, now) ↦ absurd (cc)
      | inr (apart, other) ↦ release_other lock i j apart (h.lock_needed j c (sym other ∙ e))
    ];
    all_queued = λ j c e. elim (update_cases f i gone j) [
      | inl (_, now) ↦ absurd (cc)
      | inr (_, other) ↦ h.all_queued j c (sym other ∙ e)
    ];
  }

module _ (p : Prometheus) (g : Gossipsub) (net : Network g) (b : ByteOrder)
    (config : PeerConfig) where
  abbrev pub IsOrderly : System p g net → Type 0
  IsOrderly s = Orderly s.lock s.queue s.phase

  -- A step of a handler or of the loop keeps this.
  pub Step-Orderly :
      (s : System p g net) {t : System p g net}
      → Step p g net b config s t
      → IsOrderly s
      → IsOrderly t
  Step-Orderly s (request i req here) h =
      Orderly-quiet s.lock s.queue s.phase h i (locking (command config req))
        (idle-Outside s.phase i here) (λ c e. cc) (λ c e. cc) (λ c e. cc)
  Step-Orderly s (acquire i cmd here free) h =
      Orderly-acquire s.lock s.queue s.phase h i cmd here free
  Step-Orderly s (send i cmd here room) h = Orderly-send s.lock s.queue s.phase h i cmd here room
  Step-Orderly s (publish i cmd rest now shown s' r n' first out turned) h =
      Orderly-publish s.phase i s.lock cmd rest r (rw first at h)
  Step-Orderly s (turn e n' own turned) h = h
  Step-Orderly s (reply i r here) h =
      Orderly-quiet s.lock s.queue s.phase h i _ (answered-Outside s.phase i r here) (λ c e. cc)
        (λ c e. cc) (λ c e. cc)
  Step-Orderly s (hang_up i here) h = Orderly-hang_up s.phase i s.lock s.queue h

  -- At every moment of the node's life, in whatever order its requests and its loop take their steps:
  -- the channel holds at most ten commands, each of another request, whose handler waits for the
  -- answer or has been dropped; the lock around the sender is held exactly by a handler that sends;
  -- and the command of every handler that waits for its answer is in the channel, none is lost.
  pub Reach-Orderly :
      (n : Node p g net) {s : System p g net} → Reach p g net b config n s → IsOrderly s
  Reach-Orderly n start = record {
    bounded = omega arith;
    once = tt;
    each_held = tt;
    lock_held = λ i e. absurd (cc);
    lock_needed = λ i c e. absurd (cc);
    all_queued = λ i c e. absurd (cc);
  }
  Reach-Orderly n (later {s = s} r st) = Step-Orderly s st (Reach-Orderly n r)
