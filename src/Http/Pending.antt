-- ===== src/Http/Pending.antt =====
-- What holds of the requests, the lock and the channel at every moment.
use mathlib.Core.List.{Memᴰ}
use dst_libp2p_test_node.Prelude.{
  ℕ, ◌≤◌, ◌≡◌, ◌≢◌, refl, ap, sym, ◌∙◌, ◌⊎◌, ◌==◌, List, [], ◌∷◌, ◌++◌, Option, some, arith, length,
  All, All-append, inl, inr, Bool-cases,
}
use dst_libp2p_test_node.Outcome.{Result}
use dst_libp2p_test_node.Text.{Text}
use dst_libp2p_test_node.Publish.{PublishCommand}
use dst_libp2p_test_node.Http.Channel.{
  Phase, gone, locking, sending, waiting, answered, update, channel_capacity, IsPending, locks,
  sends, waits, holds,
}

abbrev pub Commands : Type 0
Commands = List (ℕ × PublishCommand)

pub update_self : (f : ℕ → Phase) (i : ℕ) (p : Phase) → update f i p i ≡ p
update_self f i p = ground arith

pub update_other : (f : ℕ → Phase) (i : ℕ) (p : Phase) (j : ℕ) → j ≢ i → update f i p j ≡ f j
update_other f i p j h = ground arith

pub IsPending-cases :
    (p : Phase)
    → IsPending p
    → ((cmd : PublishCommand) × (p ≡ locking cmd))
      ⊎ (((cmd : PublishCommand) × (p ≡ sending cmd))
          ⊎ (((cmd : PublishCommand) × (p ≡ waiting cmd)) ⊎ ((r : Result Text) × (p ≡ answered r))))
IsPending-cases _ (locks cmd) = inl (cmd, refl)
IsPending-cases _ (sends cmd) = inr (inl (cmd, refl))
IsPending-cases _ (waits cmd) = inr (inr (inl (cmd, refl)))
IsPending-cases _ (holds r) = inr (inr (inr (r, refl)))

-- A command in the channel has a handler that waits for its answer, or none.
abbrev pub Held : (ℕ → Phase) → ℕ × PublishCommand → Type 0
Held f (i, cmd) = (f i ≡ waiting cmd) ⊎ (f i ≡ gone)

-- The handler has no command in the channel.
abbrev pub Outside : Phase → Type 0
Outside p = ((cmd : PublishCommand) → p ≢ waiting cmd) × (p ≢ gone)

abbrev pub Foreign : ℕ → Commands → Type 0
Foreign i = All (λ e. e.0 ≢ i)

-- Each number of a request occurs once.
abbrev pub Once : Commands → Type 0
Once [] = Unit
Once (e ∷ q) = Foreign e.0 q × Once q

pub Held-Foreign :
    (f : ℕ → Phase) (i : ℕ) (q : Commands) → Outside (f i) → All (Held f) q → Foreign i q
Held-Foreign f i [] out h = tt
Held-Foreign f i ((j, cmd) ∷ q) (apart, stays) (h, hs) = (
  λ e. elim h [ inl w ↦ apart cmd (ap f (sym e) ∙ w) | inr g ↦ stays (ap f (sym e) ∙ g) ],
  Held-Foreign f i q (apart, stays) hs,
)

pub Held-update :
    (f : ℕ → Phase) (i : ℕ) (p : Phase) (q : Commands)
    → Foreign i q
    → All (Held f) q
    → All (Held (update f i p)) q
Held-update f i p [] out h = tt
Held-update f i p ((j, cmd) ∷ q) (apart, out) (h, hs) =
    (rw (update_other f i p j apart) h, Held-update f i p q out hs)

pub Held-gone :
    (f : ℕ → Phase) (i : ℕ) (q : Commands) → All (Held f) q → All (Held (update f i gone)) q
Held-gone f i [] h = tt
Held-gone f i ((j, cmd) ∷ q) (h, hs) = (
  elim (Bool-cases (j == i)) [ inl same ↦ inr (rw same refl) | inr apart ↦ rw apart h ],
  Held-gone f i q hs,
)

pub Once-snoc :
    (q : Commands) (i : ℕ) (cmd : PublishCommand) → Foreign i q → Once q → Once (q ++ (i, cmd) ∷ [])
Once-snoc [] i cmd out once = (tt, tt)
Once-snoc (e ∷ q) i cmd (apart, out) (away, once) = (
  All-append (λ x. x.0 ≢ e.0) q ((i, cmd) ∷ []) away ((λ h. apart (sym h)), tt),
  Once-snoc q i cmd out once,
)

pub Mem-snoc : {A : Type 0} (x y : A) (q : List A) → Memᴰ x q → Memᴰ x (q ++ y ∷ [])
Mem-snoc x y [] m = elim m [ ]
Mem-snoc x y (z ∷ q) (Memᴰ.head e) = Memᴰ.head e
Mem-snoc x y (z ∷ q) (Memᴰ.tail m) = Memᴰ.tail (Mem-snoc x y q m)

pub Mem-last : {A : Type 0} (y : A) (q : List A) → Memᴰ y (q ++ y ∷ [])
Mem-last y [] = Memᴰ.head refl
Mem-last y (z ∷ q) = Memᴰ.tail (Mem-last y q)

pub update_cases :
    (f : ℕ → Phase) (i : ℕ) (p : Phase) (j : ℕ)
    → ((j ≡ i) × (update f i p j ≡ p)) ⊎ ((j ≢ i) × (update f i p j ≡ f j))
update_cases f i p j = elim (Bool-cases (j == i)) [
  | inl same ↦ inl (ground arith, rw same refl)
  | inr apart ↦ inr ((λ e. ground arith), rw apart refl)
]

-- The channel holds no more commands than it has room for, each of another request, and each with a
-- handler that waits for its answer or has been dropped. The lock is held by the handler that sends,
-- and by no other. The command of every handler that waits for an answer is in the channel.
pub record Orderly (lock : Option ℕ) (queue : Commands) (phase : ℕ → Phase) : Type 0 where
  pub bounded : length queue ≤ channel_capacity
  pub once : Once queue
  pub each_held : All (Held phase) queue
  pub lock_held : (i : ℕ) → lock ≡ some i → (cmd : PublishCommand) × (phase i ≡ sending cmd)
  pub lock_needed : (i : ℕ) (cmd : PublishCommand) → phase i ≡ sending cmd → lock ≡ some i
  pub all_queued : (i : ℕ) (cmd : PublishCommand) → phase i ≡ waiting cmd → Memᴰ (i, cmd) queue

module _ (lock : Option ℕ) (queue : Commands) (f : ℕ → Phase) (h : Orderly lock queue f) where
  -- A handler that has nothing in the channel and no lock changes to such a phase again, or ends.
  pub Orderly-quiet :
      (i : ℕ) (p : Phase)
      → Outside (f i)
      → ((cmd : PublishCommand) → f i ≢ sending cmd)
      → ((cmd : PublishCommand) → p ≢ waiting cmd)
      → ((cmd : PublishCommand) → p ≢ sending cmd)
      → Orderly lock queue (update f i p)
  Orderly-quiet i p out free quiet free' = record {
    bounded = h.bounded;
    once = h.once;
    each_held = Held-update f i p queue (Held-Foreign f i queue out h.each_held) h.each_held;
    lock_held = λ j e.
        let (cmd, s) = h.lock_held j e in
        elim (update_cases f i p j) [
          | inl (same, _) ↦ absurd (free cmd (ap f (sym same) ∙ s))
          | inr (_, other) ↦ (cmd, other ∙ s)
        ];
    lock_needed = λ j cmd e. elim (update_cases f i p j) [
      | inl (_, now) ↦ absurd (free' cmd (sym now ∙ e))
      | inr (_, other) ↦ h.lock_needed j cmd (sym other ∙ e)
    ];
    all_queued = λ j cmd e. elim (update_cases f i p j) [
      | inl (_, now) ↦ absurd (quiet cmd (sym now ∙ e))
      | inr (_, other) ↦ h.all_queued j cmd (sym other ∙ e)
    ];
  }
