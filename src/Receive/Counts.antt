-- ===== src/Receive/Counts.antt =====
-- How many reports the receiver makes for each publication, over any sequence of messages.
use dst_libp2p_test_node.Prelude.{
  ℕ, ◌+◌, ◌*◌, ◌%◌, ◌^◌, ◌≤◌, ◌<◌, ◌≡◌, refl, ap, ◌∙◌, Bool, true, false, List, [], ◌∷◌, ◌++◌, none,
  some, arith, ltb, if◌then◌else◌, length, take, length-take, All, inl, inr, Bool-cases,
}
use dst_libp2p_test_node.Prelude.Int.{ℤ, pos, ltb_ℤ}
use dst_libp2p_test_node.Outcome.{done, unwrap_or}
use dst_libp2p_test_node.ByteOrder.{Bytes, ByteOrder}
use dst_libp2p_test_node.Clock.{Instant, elapsed_ms}
use dst_libp2p_test_node.Metrics.Interface.{Prometheus}
use dst_libp2p_test_node.Receive.{
  Report, Receiver, count_fragment, create_message_handler, receive_all,
}
use dst_libp2p_test_node.Receive.SeenMap.{get, put, get-put, get-remove, int_eq, int_eq_iff}

-- Fragments of the publication at `t` that wait for the others.
abbrev pub pending : {p : Prometheus} → ℤ → Receiver p → ℕ
pending t r = unwrap_or (get t r.seen) 0

-- Reports about the publication at `t`.
abbrev pub count_reports : ℤ → List Report → ℕ
count_reports t [] = 0
count_reports t (x ∷ xs) =
    let rest = count_reports t xs in if int_eq x.tx_time t then rest + 1 else rest

abbrev pub reports : {p : Prometheus} → ℤ → Receiver p → ℕ
reports t r = count_reports t r.stdout

-- A time that the handler takes for a stamp.
abbrev pub IsStamp : ℤ → Type 0
IsStamp t = ltb_ℤ t (pos 1_000_000) ≡ false

-- The messages of a sequence that carry the stamp `t`.
abbrev pub is_stamped : ByteOrder → ℤ → Bytes → Bool
is_stamped b t m = elim (b.read_i64 (take 8 m)) [ none ↦ false | some z ↦ int_eq z t ]

abbrev pub count_stamped : ByteOrder → ℤ → List (Bytes × Instant) → ℕ
count_stamped b t [] = 0
count_stamped b t ((m, now) ∷ ms) =
    let rest = count_stamped b t ms in if is_stamped b t m then rest + 1 else rest

count_reports-append :
    (t : ℤ) (xs : List Report) (x : Report)
    → count_reports t (xs ++ x ∷ [])
      ≡ (if int_eq x.tx_time t then count_reports t xs + 1 else count_reports t xs)
count_reports-append t [] x = ground arith
count_reports-append t (y ∷ xs) x = ground (arith, count_reports-append t xs x)

module _ (p : Prometheus) where
  -- The count behind a fragment of the publication at `z`.
  abbrev counted : ℤ → Receiver p → ℕ
  counted z r = (pending z r + 1) % 2 ^ 32

  pending-count_fragment :
      (chunks : ℕ) (now : Instant) (z t : ℤ) (r : Receiver p)
      → pending t (count_fragment p chunks now z r) ≡ (
          if int_eq z t then (if ltb (counted z r) chunks then counted z r else 0) else pending t r)
  unfolding count_fragment
  pending-count_fragment chunks now z t r =
      ground (arith, get-put z t (counted z r) r.seen, get-remove z t (put z (counted z r) r.seen))

  reports-count_fragment :
      (chunks : ℕ) (now : Instant) (z t : ℤ) (r : Receiver p)
      → reports t (count_fragment p chunks now z r) ≡ (
          if ltb (counted z r) chunks
          then reports t r
          else if int_eq z t
          then reports t r + 1
          else reports t r)
  unfolding count_fragment
  reports-count_fragment chunks now z t r =
      ground (
        arith,
        count_reports-append t r.stdout (record { tx_time = z; delay_ms = elapsed_ms now z }),
      )

balance_step :
    (chunks n q u : ℕ) (same : Bool)
    → (same ≡ true → u ≡ q)
    → 0 < chunks
    → chunks < 2 ^ 32
    → q < chunks
    → let c = (u + 1) % 2 ^ 32 in
      let q' = if same then (if ltb c chunks then c else 0) else q in
      (q' < chunks)
      × ((if ltb c chunks then n else if same then n + 1 else n) * chunks + q'
          ≡ n * chunks + q + (if same then 1 else 0))
balance_step chunks n q u true h k f l = elim (Bool-cases (ltb ((u + 1) % 2 ^ 32) chunks)) [
  | inl more ↦ rw more (ground (arith, h refl), ground (arith, h refl))
  | inr full ↦ rw full (k, ground (arith, h refl))
]
balance_step chunks n q u false h k f l = elim (Bool-cases (ltb ((u + 1) % 2 ^ 32) chunks)) [
  | inl more ↦ rw more (l, omega arith)
  | inr full ↦ rw full (l, omega arith)
]

module _ (p : Prometheus) (chunks : ℕ) (positive : 0 < chunks) (fits : chunks < 2 ^ 32) where
  -- What one counted fragment of the publication at `z` does to the publication at `t`.
  count_fragment-balance :
      (now : Instant) (z t : ℤ) (r : Receiver p)
      → pending t r < chunks
      → let r' = count_fragment p chunks now z r in
        (pending t r' < chunks)
        × (reports t r' * chunks + pending t r'
            ≡ reports t r * chunks + pending t r + (if int_eq z t then 1 else 0))
  count_fragment-balance now z t r below =
      rw (pending-count_fragment p chunks now z t r, reports-count_fragment p chunks now z t r)
        (balance_step chunks (reports t r) (pending t r) (pending z r) (int_eq z t)
          (λ same. ap (λ k. pending k r) ((int_eq_iff z t).0 same)) positive fits below)

pub length-take_8 : (m : Bytes) → 8 ≤ length m → length (take 8 m) ≡ 8
length-take_8 m long = length-take 8 m ∙ omega arith

module _ (p : Prometheus) (b : ByteOrder) (chunks : ℕ) where
  -- The handler on data of eight bytes or more, whose first eight are read as `z`.
  pub create_message_handler_long :
      (m : Bytes) (now : Instant) (z : ℤ) (r : Receiver p)
      → 8 ≤ length m
      → b.read_i64 (take 8 m) ≡ some z
      → create_message_handler p b m chunks now r
        ≡ done (if ltb_ℤ z (pos 1_000_000) then r else count_fragment p chunks now z r)
  unfolding create_message_handler
  create_message_handler_long m now z r long read =
      let enough : ltb (length m) 8 ≡ false = ground arith in rw (enough, read)

  pub is_stamped_lem :
      (m : Bytes) (z t : ℤ) → b.read_i64 (take 8 m) ≡ some z → is_stamped b t m ≡ int_eq z t
  is_stamped_lem m z t read = rw (read, is_stamped)

  unstamped : (z t : ℤ) → IsStamp t → ltb_ℤ z (pos 1_000_000) ≡ true → int_eq z t ≡ false
  unstamped z t stamp small = ground arith

  module _ (positive : 0 < chunks) (fits : chunks < 2 ^ 32) (t : ℤ) (stamp : IsStamp t) where
    create_message_handler-balance :
        (m : Bytes) (now : Instant) (r : Receiver p)
        → pending t r < chunks
        → 8 ≤ length m
        → (r' : Receiver p) × (create_message_handler p b m chunks now r ≡ done r')
          × (pending t r' < chunks)
          × (reports t r' * chunks + pending t r'
              ≡ reports t r * chunks + pending t r + (if is_stamped b t m then 1 else 0))
    create_message_handler-balance m now r below long =
        let (z, read) = b.read_total (take 8 m) (length-take_8 m long) in
        let run = create_message_handler_long m now z r long read in
        elim (Bool-cases (ltb_ℤ z (pos 1_000_000))) [
          | inl small ↦ (
            r,
            rw small at run,
            below,
            rw (is_stamped_lem m z t read, unstamped z t stamp small) (omega arith),
          )
          | inr big ↦
              let (below', balance) =
                count_fragment-balance p chunks positive fits now z t r below in
              (
                count_fragment p chunks now z r,
                rw big at run,
                below',
                rw (is_stamped_lem m z t read) balance,
              )
        ]

    -- However the messages of different publications are mixed, the number of reports for each stamp
    -- is the number of its messages divided by the number of fragments, counted from where the
    -- receiver stood, and the rest waits.
    pub receive_all-balance :
        (ms : List (Bytes × Instant)) (r : Receiver p)
        → pending t r < chunks
        → All (λ x. 8 ≤ length x.0) ms
        → (r' : Receiver p) × (receive_all p b chunks ms r ≡ done r')
          × (pending t r' < chunks)
          × (reports t r' * chunks + pending t r'
              ≡ reports t r * chunks + pending t r + count_stamped b t ms)
    unfolding receive_all
    receive_all-balance [] r below long = (r, refl, below, omega arith)
    receive_all-balance ((m, now) ∷ ms) r below (long, longs) =
        let (r1, run1, below1, balance1) = create_message_handler-balance m now r below long in
        let (r2, run2, below2, balance2) = receive_all-balance ms r1 below1 longs in
        (r2, rw run1 run2, below2, balance2 ∙ ground (arith, balance1))
