-- ===== src/Http/Refines.antt =====
-- The handlers, the lock, the channel and the loop implement the service.
use mathlib.Core.List.{Memᴰ}
use dst_libp2p_test_node.Prelude.{
  ℕ, ◌≡◌, ◌≢◌, refl, ap, sym, ◌∙◌, ◌⊎◌, ◌==◌, [], ◌∷◌, ◌++◌, Option, none, some, arith, All, inl,
  inr, Bool-cases,
}
use dst_libp2p_test_node.Text.{Text}
use dst_libp2p_test_node.Outcome.{done, Result}
use dst_libp2p_test_node.Env.{PeerConfig}
use dst_libp2p_test_node.ByteOrder.{ByteOrder}
use dst_libp2p_test_node.Clock.{Instant}
use dst_libp2p_test_node.Gossipsub.{Gossipsub}
use dst_libp2p_test_node.Metrics.Interface.{Prometheus}
use dst_libp2p_test_node.Publish.{PublishCommand, publish_new_message}
use dst_libp2p_test_node.MainLoop.{Node, publish_command, step}
use dst_libp2p_test_node.MainLoop.Events.{Network}
use dst_libp2p_test_node.Http.{command, answer_reply}
use dst_libp2p_test_node.Http.Channel.{
  Phase, gone, locking, sending, waiting, update, deliver, release, System, Step, request, acquire,
  send, publish, turn, reply, hang_up, Reach, IsPending,
}
use dst_libp2p_test_node.Http.Pending.{
  IsPending-cases, Commands, Held, Foreign, Outside, Held-Foreign, Once, update_self, update_other,
}
use dst_libp2p_test_node.Http.Invariant.{
  IsOrderly, Reach-Orderly, locking-Outside, sending-Outside, answered-Outside,
}
use dst_libp2p_test_node.Http.Atomic.{
  Status, settled, left, MayLeave, before, too_late, after, Changes, find, view, service, Same,
  Serves, ask, serve_one, serve_left, own_turn, leave,
}

find-Foreign : (i : ℕ) (q : Commands) → Foreign i q → find i q ≡ none
find-Foreign i [] h = refl
find-Foreign i ((j, cmd) ∷ q) (apart, h) = elim (Bool-cases (i == j)) [
  | inl same ↦ absurd (apart (ground arith))
  | inr other ↦ rw other (find-Foreign i q h)
]

find-cons :
    (j i : ℕ) (cmd : PublishCommand) (q : Commands) → j ≢ i → find j ((i, cmd) ∷ q) ≡ find j q
find-cons j i cmd q apart = ground arith

find_first : (i : ℕ) (cmd : PublishCommand) (q : Commands) → find i ((i, cmd) ∷ q) ≡ some cmd
find_first i cmd q = ground arith

find-snoc :
    (j i : ℕ) (cmd : PublishCommand) (q : Commands) → j ≢ i → find j (q ++ (i, cmd) ∷ []) ≡ find j q
find-snoc j i cmd [] apart = ground arith
find-snoc j i cmd ((k, c) ∷ q) apart = rw (find-snoc j i cmd q apart) refl

Foreign-Mem :
    (i j : ℕ) (cmd : PublishCommand) (q : Commands) → Foreign j q → Memᴰ (i, cmd) q → i ≢ j
Foreign-Mem i j cmd [] h m = elim m [ ]
Foreign-Mem i j cmd (e ∷ q) (apart, h) (Memᴰ.head same) = λ k. apart (sym (ap (λ x. x.0) same) ∙ k)
Foreign-Mem i j cmd (e ∷ q) (apart, h) (Memᴰ.tail m) = Foreign-Mem i j cmd q h m

find-Mem :
    (i : ℕ) (cmd : PublishCommand) (q : Commands) → Once q → Memᴰ (i, cmd) q → find i q ≡ some cmd
find-Mem i cmd [] once m = elim m [ ]
find-Mem i cmd ((j, c) ∷ q) (away, once) (Memᴰ.head e) =
    let same : i ≡ j = ap (λ x. x.0) e in let this : cmd ≡ c = ap (λ x. x.1) e in ground arith
find-Mem i cmd ((j, c) ∷ q) (away, once) (Memᴰ.tail m) =
    let apart = Foreign-Mem i j cmd q away m in find-cons i j c q apart ∙ find-Mem i cmd q once m

-- A phase changes, and the channel holds the same of the other requests.
view-Changes :
    (f : ℕ → Phase) (q q' : Commands) (i : ℕ) (p : Phase) (x : Status)
    → view p (find i q') ≡ x
    → ((j : ℕ) → j ≢ i → find j q' ≡ find j q)
    → Changes (λ j. view (f j) (find j q)) i x (λ j. view (update f i p j) (find j q'))
view-Changes f q q' i p x here same = record {
  there = ap (λ y. view y (find i q')) (update_self f i p) ∙ here;
  elsewhere = λ j apart. rw (update_other f i p j apart, same j apart) refl;
}

-- A request whose client sees no change.
Changes-same : (f f' : ℕ → Status) (i : ℕ) → Changes f i (f i) f' → (j : ℕ) → f' j ≡ f j
Changes-same f f' i h j = elim (Bool-cases (j == i)) [
  | inl same ↦ let e : j ≡ i = ground arith in rw e h.there
  | inr apart ↦ h.elsewhere j (λ e. ground arith)
]

module _ (p : Prometheus) (g : Gossipsub) (net : Network g) (b : ByteOrder) (config : PeerConfig)
    (s : System p g net) (orderly : IsOrderly p g net b config s) where
  -- The step is one of the service, or is not seen.
  abbrev Refined : System p g net → Type 0
  Refined t =
      Serves p g net b config (service p g net s) (service p g net t)
      ⊎ Same p g net (service p g net s) (service p g net t)

  stays : (j i : ℕ) → j ≢ i → find j s.queue ≡ find j s.queue
  stays j i apart = refl

  -- A handler that has no command in the channel.
  not_found : (i : ℕ) → Outside (s.phase i) → find i s.queue ≡ none
  not_found i out = find-Foreign i s.queue (Held-Foreign s.phase i s.queue out orderly.each_held)

  hang_up-Refined :
      (i : ℕ) (h : IsPending (s.phase i))
      → (o : Option PublishCommand) → find i s.queue ≡ o
      → MayLeave (view (s.phase i) (find i s.queue)) o
      → Refined (record s { lock = release s.lock i; phase = update s.phase i gone })
  hang_up-Refined i h o found may = inl (
      leave i o may
        (view-Changes s.phase s.queue s.queue i gone (left o) (ap left found) (λ j apart. refl))
        refl)

  publish-Refined :
      (i : ℕ) (cmd : PublishCommand) (rest : Commands) (now : Instant) (shown : Text) (s' : g.Swarm)
      (r : Result Text) (n' : Node p g net)
      → s.queue ≡ (i, cmd) ∷ rest
      → publish_new_message g b cmd now shown s.node.swarm ≡ done (s', r)
      → step p g net b config.chunks s.node (publish_command cmd now shown) ≡ done n'
      → Refined
          (record s { queue = rest; phase = update s.phase i (deliver (s.phase i) r); node = n' })
  publish-Refined i cmd rest now shown s' r n' first out turned =
      let here : All (Held s.phase) ((i, cmd) ∷ rest) = rw first at orderly.each_held in
      let once : Once ((i, cmd) ∷ rest) = rw first at orderly.once in
      let found : find i s.queue ≡ some cmd = ap (find i) first ∙ find_first i cmd rest in
      let other : (j : ℕ) → j ≢ i → find j rest ≡ find j s.queue =
        λ j apart. sym (ap (find j) first ∙ find-cons j i cmd rest apart) in
      elim here.0 [
        | inl waits_ ↦ inl (
            serve_one i cmd now shown s' r (rw waits_ refl) out turned (
              view-Changes s.phase s.queue rest i (deliver (s.phase i) r)
                (settled (answer_reply (some r))) (rw waits_ refl) other))
        | inr gone_ ↦ inl (
            serve_left i cmd now shown (rw (gone_, found) refl) turned (
              view-Changes s.phase s.queue rest i (deliver (s.phase i) r) (left none)
                (rw gone_ (ap left (find-Foreign i rest once.0))) other))
      ]

  Step-Refined : {t : System p g net} → Step p g net b config s t → Refined t
  Step-Refined (request i req here) = inl (
      ask i req (rw here refl)
        (view-Changes s.phase s.queue s.queue i (locking (command config req)) _ refl
          (λ j apart. refl))
        refl)
  Step-Refined (acquire i cmd here free) = inr (
    Changes-same _ _ i
        (view-Changes s.phase s.queue s.queue i (sending cmd) _ (rw here refl) (λ j apart. refl)),
    refl,
  )
  Step-Refined (send i cmd here room) = inr (
    Changes-same _ _ i (
        view-Changes s.phase s.queue (s.queue ++ (i, cmd) ∷ []) i (waiting cmd) _ (rw here refl)
          (λ j apart. find-snoc j i cmd s.queue apart)),
    refl,
  )
  Step-Refined (publish i cmd rest now shown s' r n' first out turned) =
      publish-Refined i cmd rest now shown s' r n' first out turned
  Step-Refined (turn e n' own turned) = inl (own_turn e own turned (λ i. refl))
  Step-Refined (reply i r here) = inr (
    Changes-same _ _ i
        (view-Changes s.phase s.queue s.queue i _ _ (rw here refl) (λ j apart. refl)),
    refl,
  )
  Step-Refined (hang_up i h) = elim (IsPending-cases (s.phase i) h) [
    | inl (cmd, here) ↦
        hang_up-Refined i h none (not_found i (locking-Outside s.phase i cmd here))
          (rw here (before cmd))
    | inr (inl (cmd, here)) ↦
        hang_up-Refined i h none (not_found i (sending-Outside s.phase i cmd here))
          (rw here (before cmd))
    | inr (inr (inl (cmd, here))) ↦
        hang_up-Refined i h (some cmd)
          (find-Mem i cmd s.queue orderly.once (orderly.all_queued i cmd here))
          (rw here (too_late cmd))
    | inr (inr (inr (r, here))) ↦
        hang_up-Refined i h none (not_found i (answered-Outside s.phase i r here))
          (rw here (after (answer_reply (some r))))
  ]

module _ (p : Prometheus) (g : Gossipsub) (net : Network g) (b : ByteOrder)
    (config : PeerConfig) where
  -- To its clients the node is a service that serves each request at one moment: at every moment of its
  -- life, each step of a handler or of the loop either is not seen from outside, or is a step of the
  -- service, in which a request comes, is served by `publish_new_message` on the node as it is then
  -- and settled with that answer, or is given up, or in which the loop does its own work.
  pub Reach-Refined :
      (n : Node p g net) (s : System p g net) {t : System p g net}
      → Reach p g net b config n s
      → Step p g net b config s t
      → Serves p g net b config (service p g net s) (service p g net t)
        ⊎ Same p g net (service p g net s) (service p g net t)
  Reach-Refined n s r st = Step-Refined p g net b config s (Reach-Orderly p g net b config n r) st
