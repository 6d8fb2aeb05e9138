-- ===== src/Receive/Complete.antt =====
-- The fragments of one publication that come with no other message between them.
use dst_libp2p_test_node.Prelude.{
  ℕ, ◌+◌, ◌%◌, ◌^◌, ◌≤◌, ◌<◌, ◌≡◌, refl, ap, ◌∙◌, true, false, List, [], ◌∷◌, ◌++◌, some, arith,
  ltb, length, take, All,
}
use dst_libp2p_test_node.Prelude.Int.{ℤ}
use dst_libp2p_test_node.Outcome.{done}
use dst_libp2p_test_node.ByteOrder.{Bytes, ByteOrder}
use dst_libp2p_test_node.Clock.{Instant, elapsed_ms}
use dst_libp2p_test_node.Metrics.Interface.{Prometheus}
use dst_libp2p_test_node.Metrics.{inc_received_message}
use dst_libp2p_test_node.Receive.{
  Report, Receiver, count_fragment, create_message_handler, receive_all,
}
use dst_libp2p_test_node.Receive.SeenMap.{put, get-put, get-remove, int_eq_refl}
use dst_libp2p_test_node.Receive.Counts.{pending, IsStamp, create_message_handler_long}

-- The message carries the stamp `t`.
abbrev pub Carries : ByteOrder → ℤ → Bytes × Instant → Type 0
Carries b t m = (8 ≤ length m.0) × (b.read_i64 (take 8 m.0) ≡ some t)

-- The line that is printed when the publication at `t` is complete at `now`.
abbrev pub report : ℤ → Instant → Report
report t now = record { tx_time = t; delay_ms = elapsed_ms now t }

module _ (p : Prometheus) (chunks : ℕ) (fits : chunks < 2 ^ 32) (t : ℤ) where
  -- Nothing is said yet, and one more fragment waits.
  record Waits (n : ℕ) (r r' : Receiver p) : Type 0 where
    pub waiting : pending t r' ≡ pending t r + n
    pub same_stdout : r'.stdout ≡ r.stdout
    pub same_metrics : r'.metrics ≡ r.metrics

  count_fragment-Waits :
      (now : Instant) (r : Receiver p)
      → pending t r + 1 < chunks
      → Waits 1 r (count_fragment p chunks now t r)
  unfolding count_fragment
  count_fragment-Waits now r h =
      let c = (pending t r + 1) % 2 ^ 32 in
      let exact : c ≡ pending t r + 1 = omega arith in
      let more : ltb c chunks ≡ true = ground arith in
      record {
        waiting = rw (more, get-put t t c r.seen, int_eq_refl t) exact;
        same_stdout = rw more refl;
        same_metrics = rw more refl;
      }

  -- The publication is reported once, and forgotten.
  pub record Completes (now : Instant) (r r' : Receiver p) : Type 0 where
    pub printed : r'.stdout ≡ r.stdout ++ report t now ∷ []
    pub counted : r'.metrics ≡ inc_received_message p r.metrics
    pub forgotten : pending t r' ≡ 0

  count_fragment-Completes :
      (now : Instant) (r : Receiver p)
      → pending t r + 1 ≡ chunks
      → Completes now r (count_fragment p chunks now t r)
  unfolding count_fragment
  count_fragment-Completes now r h =
      let c = (pending t r + 1) % 2 ^ 32 in
      let full : ltb c chunks ≡ false = ground arith in
      record {
        printed = rw full refl;
        counted = rw full refl;
        forgotten = rw (full, get-remove t t (put t c r.seen), int_eq_refl t) refl;
      }

module _ (p : Prometheus) (b : ByteOrder) (chunks : ℕ) (fits : chunks < 2 ^ 32) (t : ℤ)
    (stamp : IsStamp t) where
  handler_counts :
      (m : Bytes) (now : Instant) (r : Receiver p)
      → Carries b t (m, now)
      → create_message_handler p b m chunks now r ≡ done (count_fragment p chunks now t r)
  handler_counts m now r (long, read) =
      rw stamp at (create_message_handler_long p b chunks m now t r long read)

  -- From a receiver on which nothing of the publication waits, the last of `chunks` messages with its
  -- stamp prints the one line, with the time that has passed since the publication, counts one
  -- received message, and leaves nothing waiting; the messages before it print and count nothing.
  pub receive_all-Completes :
      (ms : List (Bytes × Instant)) (m : Bytes) (now : Instant) (r : Receiver p)
      → All (Carries b t) ms
      → Carries b t (m, now)
      → pending t r + length ms + 1 ≡ chunks
      → (r' : Receiver p) × (receive_all p b chunks (ms ++ (m, now) ∷ []) r ≡ done r')
        × Completes p chunks fits t now r r'
  unfolding receive_all
  receive_all-Completes [] m now r _ carries n = (
    count_fragment p chunks now t r,
    rw (handler_counts m now r carries) refl,
    count_fragment-Completes p chunks fits t now r (omega arith),
  )
  receive_all-Completes ((m0, now0) ∷ ms) m now r (carries0, all) carries n =
      let r1 = count_fragment p chunks now0 t r in
      let waits = count_fragment-Waits p chunks fits t now0 r (omega arith) in
      let (r', run, complete) =
        receive_all-Completes ms m now r1 all carries (omega (arith, waits.waiting)) in
      (
        r',
        rw (handler_counts m0 now0 r carries0) run,
        record {
          printed = complete.printed ∙ ap (λ out. out ++ report t now ∷ []) waits.same_stdout;
          counted = complete.counted ∙ ap (inc_received_message p) waits.same_metrics;
          forgotten = complete.forgotten;
        },
      )
