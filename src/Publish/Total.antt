-- ===== src/Publish/Total.antt =====
-- `publish_new_message` as a whole: when it panics, what it sends, and what it answers.
use mathlib.Core.Path.{ap₂}
use dst_libp2p_test_node.Prelude.{
  ℕ, ◌+◌, ◌/◌, ◌^◌, ◌≤◌, ◌<◌, ◌≡◌, ◌↔◌, refl, ap, ◌∙◌, ◌⊎◌, Bool, true, false, ◌||◌, ◌==◌, ltb,
  ◌++◌, Option, none, some, arith, inl, inr, Bool-cases,
}
use dst_libp2p_test_node.Prelude.Int.{ℤ, pos}
use dst_libp2p_test_node.Text.{Text, codes}
use dst_libp2p_test_node.Outcome.{done, panic, Result, ok, err}
use dst_libp2p_test_node.ByteOrder.{Bytes, ByteOrder}
use dst_libp2p_test_node.Clock.{Instant, unix_nano}
use dst_libp2p_test_node.Gossipsub.{Gossipsub}
use dst_libp2p_test_node.Publish.{
  PublishCommand, max_vec, payload, answer, publish_loop, publish_new_message,
}
use dst_libp2p_test_node.Publish.Fragments.{fragments}
use dst_libp2p_test_node.Publish.Loop.{failure, Refuses, publish_loop_lem}

-- The size of a command's fragments.
abbrev pub fragment_size : PublishCommand → ℕ
fragment_size cmd = cmd.msg_size / cmd.chunks

-- The bytes that the fragments of a command published at `now` have in common.
abbrev pub base_of : ByteOrder → PublishCommand → Instant → Bytes
base_of b cmd now = payload b (unix_nano now) (fragment_size cmd)

-- The commands that do not stop the node.
pub record IsServed (cmd : PublishCommand) : Type 0 where
  pub some_chunks : 0 < cmd.chunks
  pub room_for_time : 8 ≤ fragment_size cmd
  pub fits_vec : fragment_size cmd ≤ max_vec

module _ (g : Gossipsub) (b : ByteOrder) (cmd : PublishCommand) (now : Instant) (shown : Text)
    (s : g.Swarm) where
  published_loop : g.Swarm × ℤ × Option Text
  published_loop = publish_loop g cmd.topic cmd.chunks 0 (base_of b cmd now) (pos 0) s

  abbrev refused : Bool
  refused = cmd.chunks == 0 || ltb max_vec (fragment_size cmd) || ltb (fragment_size cmd) 8

  publish_new_message-refused : refused ≡ true → publish_new_message g b cmd now shown s ≡ panic
  unfolding publish_new_message
  publish_new_message-refused h = rw h refl

  IsServed-of : refused ≡ false → IsServed cmd
  IsServed-of h = ground arith

  publish_new_message_served :
      IsServed cmd
      → publish_new_message g b cmd now shown s
        ≡ done (published_loop.0, answer shown published_loop.1 published_loop.2)
  unfolding publish_new_message published_loop
  publish_new_message_served h =
      let fine : (cmd.chunks == 0 || ltb max_vec (fragment_size cmd) || ltb (fragment_size cmd) 8)
          ≡ false =
        ground (arith, h.some_chunks, h.room_for_time, h.fits_vec) in
      rw fine refl

  pub publish_new_message_returns :
      IsServed cmd
      → (out : g.Swarm × Result Text) × (publish_new_message g b cmd now shown s ≡ done out)
  publish_new_message_returns served = (
    (published_loop.0, answer shown published_loop.1 published_loop.2),
    publish_new_message_served served,
  )

  -- The whole node stops with a panic exactly at a command that is not served: with no chunks, with
  -- fragments too short for the time stamp, or with fragments longer than a vector can be.
  pub publish_new_message-panic :
      (publish_new_message g b cmd now shown s ≡ panic) ↔ (¬ IsServed cmd)
  publish_new_message-panic = (
    λ e served. cc (publish_new_message_served served),
    λ bad. elim (Bool-cases refused) [
      | inl stops ↦ publish_new_message-refused stops
      | inr runs ↦ absurd (bad (IsServed-of runs))
    ],
  )

  answer_sent :
      (n : ℕ) → 0 < n → answer shown (pos n) none ≡ ok (codes "Message published at time " ++ shown)
  unfolding answer
  answer_sent n h = ground arith

  answer_failed : (res : ℤ) (e : Text) → answer shown res (some e) ≡ err e
  unfolding answer
  answer_failed res e = refl

  pub publish_new_message_fails :
      (s' : g.Swarm) (n : ℤ) (e : Text)
      → IsServed cmd
      → publish_loop g cmd.topic cmd.chunks 0 (base_of b cmd now) (pos 0) s ≡ (s', n, some e)
      → publish_new_message g b cmd now shown s ≡ done (s', err e)
  unfolding published_loop
  publish_new_message_fails s' n e served run =
      publish_new_message_served served ∙ rw run (ap (λ r. done (s', r)) (answer_failed n e))

  -- A served command is answered: either every one of its fragments was sent, in order, and the answer
  -- is the success with the time; or gossipsub answered fragment `j` with an error, the fragments before
  -- it were sent and none behind it, and the answer is that error. There are fewer than 2^31 chunks.
  pub publish_new_message-answer :
      IsServed cmd
      → cmd.chunks < 2 ^ 31
      → (s' : g.Swarm) × (r : Result Text) × (publish_new_message g b cmd now shown s
          ≡ done (s', r))
        × (((r ≡ ok (codes "Message published at time " ++ shown))
              × (g.sent s' ≡ g.sent s ++ fragments cmd.topic (base_of b cmd now) 0 cmd.chunks))
            ⊎ ((j : ℕ) × (e : Text) × (j < cmd.chunks)
                × Refuses g cmd.topic (base_of b cmd now) 0 j s e
                × (r ≡ err (failure e))
                × (g.sent s' ≡ g.sent s ++ fragments cmd.topic (base_of b cmd now) 0 j)))
  publish_new_message-answer served small =
      let out = published_loop in
      (
        out.0,
        answer shown out.1 out.2,
        publish_new_message_served served,
        unfold published_loop in
            elim (publish_loop_lem g cmd.topic cmd.chunks 0 0 (base_of b cmd now)
              (base_of b cmd now) s (λ k. refl) (omega arith)) [
                | inl all ↦ inl (
                  ap₂ (answer shown) all.counted all.no_failure
                      ∙ answer_sent (0 + cmd.chunks) (omega (arith, served.some_chunks)),
                  all.all_sent,
                )
                | inr stop ↦ inr (
                  stop.stopped_at,
                  stop.error,
                  stop.before_end,
                  stop.refused,
                  ap (answer shown published_loop.1) stop.failed ∙ answer_failed _ _,
                  stop.sent_before,
                )
              ],
      )
