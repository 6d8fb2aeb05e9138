-- ===== src/Receive/Effects.antt =====
-- What one message can change outside MSG_SEEN, and which messages stop the node.
use dst_libp2p_test_node.Prelude.{
  ℕ, ◌+◌, ◌≤◌, ◌<◌, ◌≡◌, ◌↔◌, refl, ◌⊎◌, true, [], ◌∷◌, ◌++◌, ◌%◌, ◌^◌, arith, ltb, length, take,
  inl, inr, Bool-cases,
}
use dst_libp2p_test_node.Prelude.Int.{ℤ, pos, ltb_ℤ}
use dst_libp2p_test_node.Outcome.{done, panic, unwrap_or}
use dst_libp2p_test_node.ByteOrder.{Bytes, ByteOrder}
use dst_libp2p_test_node.Clock.{Instant}
use dst_libp2p_test_node.Metrics.Interface.{Prometheus}
use dst_libp2p_test_node.Metrics.{inc_received_message}
use dst_libp2p_test_node.Receive.{Report, Receiver, count_fragment, create_message_handler}
use dst_libp2p_test_node.Receive.SeenMap.{get}
use dst_libp2p_test_node.Receive.Complete.{report}
use dst_libp2p_test_node.Receive.Counts.{create_message_handler_long, length-take_8}

module _ (p : Prometheus) where
  -- No line is printed and nothing is counted; or one line is printed and one message is counted.
  abbrev pub Reports : Receiver p → Receiver p → Type 0
  Reports r r' =
      ((r'.stdout ≡ r.stdout) × (r'.metrics ≡ r.metrics))
      ⊎ ((x : Report) × (r'.stdout ≡ r.stdout ++ x ∷ [])
          × (r'.metrics ≡ inc_received_message p r.metrics))

  count_fragment-Reports :
      (chunks : ℕ) (now : Instant) (z : ℤ) (r : Receiver p)
      → Reports r (count_fragment p chunks now z r)
  unfolding count_fragment
  count_fragment-Reports chunks now z r =
      elim (Bool-cases (ltb ((unwrap_or (get z r.seen) 0 + 1) % 2 ^ 32) chunks)) [
        | inl more ↦ rw more (inl (refl, refl))
        | inr full ↦ rw full (inr (report z now, refl, refl))
      ]

module _ (p : Prometheus) (b : ByteOrder) (chunks : ℕ) (m : Bytes) (now : Instant)
    (r : Receiver p) where
  -- Data of eight bytes or more is handled.
  pub create_message_handler_returns :
      8 ≤ length m
      → (r' : Receiver p) × (create_message_handler p b m chunks now r ≡ done r') × Reports p r r'
  create_message_handler_returns long =
      let (z, read) = b.read_total (take 8 m) (length-take_8 m long) in
      let run = create_message_handler_long p b chunks m now z r long read in
      elim (Bool-cases (ltb_ℤ z (pos 1_000_000))) [
        | inl small ↦ (r, rw small at run, inl (refl, refl))
        | inr big ↦ (
          count_fragment p chunks now z r,
          rw big at run,
          count_fragment-Reports p chunks now z r,
        )
      ]

  handler_short : ltb (length m) 8 ≡ true → create_message_handler p b m chunks now r ≡ panic
  unfolding create_message_handler
  handler_short h = rw h refl

  -- A message from the network stops the node with a panic exactly if it is shorter than eight bytes.
  pub create_message_handler-panic :
      (create_message_handler p b m chunks now r ≡ panic) ↔ (length m < 8)
  create_message_handler-panic = (
    λ stopped. elim (Bool-cases (ltb (length m) 8)) [
      | inl short ↦ ground arith
      | inr long ↦
          let (r', run, _) = create_message_handler_returns (ground arith) in absurd (cc run)
    ],
    λ short. handler_short (ground arith),
  )
