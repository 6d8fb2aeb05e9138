-- ===== src/Http/Drain.antt =====
-- All requests can be answered.
use dst_libp2p_test_node.Prelude.{
  ℕ, zero, suc, ◌+◌, ◌≤◌, ◌<◌, ◌≡◌, ap, sym, ◌∙◌, ◌⊎◌, ◌==◌, arith, length, inl, inr, Bool-cases,
  ltb,
}
use dst_libp2p_test_node.Text.{Text}
use dst_libp2p_test_node.Env.{PeerConfig}
use dst_libp2p_test_node.ByteOrder.{ByteOrder}
use dst_libp2p_test_node.Clock.{Instant}
use dst_libp2p_test_node.Gossipsub.{Gossipsub}
use dst_libp2p_test_node.Metrics.Interface.{Prometheus}
use dst_libp2p_test_node.MainLoop.Events.{Network}
use dst_libp2p_test_node.MainLoop.{Node}
use dst_libp2p_test_node.Http.{Reply}
use dst_libp2p_test_node.Http.Channel.{
  Phase, idle, gone, locking, sending, waiting, answered, replied, System, Steps, stop, go, Reach,
  IsPending, locks, sends, waits, holds,
}
use dst_libp2p_test_node.Http.Pending.{update_cases}
use dst_libp2p_test_node.Http.Invariant.{IsOrderly, Step-Orderly, Reach-Orderly}
use dst_libp2p_test_node.Http.Progress.{load, load-update, AllServed, Advance, advance, IsLive}

IsPending-or : (x : Phase) → IsPending x ⊎ (¬ IsPending x)
IsPending-or (locking cmd) = inl (locks cmd)
IsPending-or (sending cmd) = inl (sends cmd)
IsPending-or (waiting cmd) = inl (waits cmd)
IsPending-or (answered r) = inl (holds r)
IsPending-or idle = inr (λ h. elim h [ ])
IsPending-or gone = inr (λ h. elim h [ ])
IsPending-or (replied x) = inr (λ h. elim h [ ])

pub find-IsPending :
    (f : ℕ → Phase) (n : ℕ) → ((i : ℕ) × IsPending (f i)) ⊎ ((i : ℕ) → i < n → ¬ IsPending (f i))
find-IsPending f zero = inr (λ i h. elim h [ ])
find-IsPending f (suc n) = elim (IsPending-or (f n)) [
  | inl here ↦ inl (n, here)
  | inr none_ ↦ elim (find-IsPending f n) [
    | inl found ↦ inl found
    | inr all ↦ inr (λ i h w. elim (Bool-cases (i == n)) [
      | inl same ↦ none_ (let e : i ≡ n = ground arith in rw (ap f e) at w)
      | inr apart ↦ all i (ground arith) w
    ])
  ]
]

idle_quiet : (x : Phase) → x ≡ idle → ¬ IsPending x
idle_quiet x e h = elim (rw e at h) [ ]

-- Where no handler below `n` is at work, and none has come from `n` on, those not dropped are at their end.
pub quiet-replied :
    (f : ℕ → Phase) (n : ℕ)
    → ((i : ℕ) → n ≤ i → f i ≡ idle)
    → ((i : ℕ) → i < n → ¬ IsPending (f i))
    → (i : ℕ) → IsLive (f i)
    → (page : Reply) × (f i ≡ replied page)
quiet-replied f n below quiet i (inr (page, e)) = (page, e)
quiet-replied f n below quiet i (inl pending) = elim (Bool-cases (ltb i n)) [
  | inl inside ↦ absurd (quiet i (ground arith) pending)
  | inr outside ↦ absurd (idle_quiet (f i) (below i (ground arith)) pending)
]

module _ (p : Prometheus) (g : Gossipsub) (net : Network g) where
  -- The numbers of the requests that have come are below `n`.
  abbrev pub Below : ℕ → System p g net → Type 0
  Below n s = (i : ℕ) → n ≤ i → s.phase i ≡ idle

  -- Every handler that was not dropped is at its end.
  abbrev pub Answers : System p g net → System p g net → Type 0
  Answers s t = (i : ℕ) → IsLive (s.phase i) → (page : Reply) × (t.phase i ≡ replied page)

module _ (p : Prometheus) (g : Gossipsub) (net : Network g) (b : ByteOrder) (config : PeerConfig)
    (now : Instant) (shown : Text) (n : ℕ) where
  Advance-Below :
      (s : System p g net) (a : Advance p g net b config s)
      → Below p g net n s
      → Below p g net n a.next
  Advance-Below s a below i h = elim (update_cases s.phase a.of a.to i) [
    | inl (same, _) ↦ absurd (a.begun (ap s.phase (sym same) ∙ below i h))
    | inr (_, other) ↦ ap (λ f. f i) a.moved ∙ other ∙ below i h
  ]

  Advance-IsLive :
      (s : System p g net) (a : Advance p g net b config s) (i : ℕ)
      → IsLive (s.phase i)
      → IsLive (a.next.phase i)
  Advance-IsLive s a i h = rw a.moved (elim (update_cases s.phase a.of a.to i) [
    | inl (same, now_) ↦ rw now_ (elim a.live [ inl live ↦ live | inr kept ↦ rw (kept, ← same) h ])
    | inr (_, other) ↦ rw other h
  ])

  pub Advance-less :
      (s : System p g net) (a : Advance p g net b config s)
      → Below p g net n s
      → load a.next.phase n + length a.next.queue < load s.phase n + length s.queue
  Advance-less s a below = elim (Bool-cases (ltb a.of n)) [
    | inl inside ↦
        rw a.moved (omega (arith, load-update s.phase a.of a.to n (ground arith), a.lighter))
    | inr outside ↦ absurd (a.begun (below a.of (ground arith)))
  ]

  drain_from :
      (k : ℕ) (s : System p g net)
      → load s.phase n + length s.queue < k
      → IsOrderly p g net b config s
      → AllServed s.queue s.phase
      → Below p g net n s
      → (t : System p g net) × Steps p g net b config s t × Answers p g net s t
  drain_from zero s h orderly served below = elim h [ ]
  drain_from (suc k) s h orderly served below = elim (find-IsPending s.phase n) [
    | inl (i, pending) ↦
        let a = advance p g net b config now shown s orderly served i pending in
        let (t, steps, answers) =
          drain_from k a.next (omega (arith, Advance-less s a below))
            (Step-Orderly p g net b config s a.step_to orderly) a.served
            (Advance-Below s a below) in
        (t, go a.step_to steps, λ i live. answers i (Advance-IsLive s a i live))
    | inr quiet ↦ (s, stop, quiet-replied s.phase n below quiet)
  ]

  -- Whatever has happened, there are steps after which every request that the node has got, and whose
  -- client has not hung up, is answered: handlers and loop are never in each other's way for good, if
  -- no command that is on its way stops the node, and the numbers of the requests are below `n`.
  pub Reach-Answers :
      (node : Node p g net) (s : System p g net)
      → Reach p g net b config node s
      → AllServed s.queue s.phase
      → Below p g net n s
      → (t : System p g net) × Steps p g net b config s t × Answers p g net s t
  Reach-Answers node s reach served below =
      drain_from (suc (load s.phase n + length s.queue)) s (omega arith)
        (Reach-Orderly p g net b config node reach) served below
