-- ===== src/Publish.antt =====
-- rust-test-node/src/main.rs: `publish_new_message`, which cuts a message of the wanted size into
-- fragments and publishes them. The sender of the answer is the result of the function.
pub mod Fragments
pub mod Loop
pub mod Total
use dst_libp2p_test_node.Prelude.{
  ℕ, zero, suc, ◌+◌, ◌-◌, ◌/◌, ◌%◌, ◌^◌, List, [], ◌∷◌, ◌++◌, Option, none, some, ltb, ◌==◌, ◌||◌,
  if◌then◌else◌, length, set, drop, replicate,
}
use dst_libp2p_test_node.Prelude.Int.{ℤ, pos, ltb_ℤ, ◌+ℤ◌}
use dst_libp2p_test_node.Text.{Text, codes}
use dst_libp2p_test_node.Word.{wrap_i32}
use dst_libp2p_test_node.Outcome.{Run, done, panic, Result, ok, err}
use dst_libp2p_test_node.ByteOrder.{Bytes, ByteOrder}
use dst_libp2p_test_node.Clock.{Instant, unix_nano}
use dst_libp2p_test_node.Gossipsub.{Gossipsub}

pub record PublishCommand : Type 0 where
  pub topic : Text
  pub msg_size : ℕ
  pub chunks : ℕ

-- `if buffer.len() > 10 { buffer[10] = chunk as u8; }`
unfoldable pub mark : ℕ → Bytes → Bytes
mark chunk buffer = if ltb 10 (length buffer) then set buffer 10 (chunk % 256) else buffer

-- The greatest length of a vector, `isize::MAX`.
abbrev pub max_vec : ℕ
max_vec = 2 ^ 63 - 1

-- `vec![0u8; size]` with the time written over its first eight bytes
abbrev pub payload : ByteOrder → ℤ → ℕ → Bytes
payload b now_nano size = b.write_i64 now_nano ++ drop 8 (replicate size 0)

-- `if let Some(error) = publish_error … else if res > 0 … else …`
unfoldable pub answer : Text → ℤ → Option Text → Result Text
answer shown res (some error) = err error
answer shown res none =
    if ltb_ℤ (pos 0) res
    then ok (codes "Message published at time " ++ shown)
    else err (codes "No fragments published")

module _ (g : Gossipsub) where
  -- The loop over `0..cmd.chunks` with `rounds` rounds left; `res` is an `i32`.
  unfoldable pub publish_loop : Text → ℕ → ℕ → Bytes → ℤ → g.Swarm → g.Swarm × ℤ × Option Text
  publish_loop topic zero chunk buffer res swarm = (swarm, res, none)
  publish_loop topic (suc rounds) chunk buffer res swarm =
      let marked = mark chunk buffer in
      let swarm' = (g.publish swarm topic marked).0 in
      elim (g.publish swarm topic marked).1 [
        | none ↦ publish_loop topic rounds (chunk + 1) marked (wrap_i32 (res +ℤ pos 1)) swarm'
        | some e ↦ (swarm', res, some (codes "Failed to publish: " ++ e))
      ]

  -- `shown` is the clock's reading as it prints. The division, the allocation and `&mut buffer[..8]`
  -- panic.
  unfoldable pub publish_new_message :
      ByteOrder → PublishCommand → Instant → Text → g.Swarm → Run (g.Swarm × Result Text)
  publish_new_message b cmd now shown swarm =
      let size = cmd.msg_size / cmd.chunks in
      let (swarm', res, publish_error) =
        publish_loop cmd.topic cmd.chunks 0 (payload b (unix_nano now) size) (pos 0) swarm in
      if cmd.chunks == 0 || ltb max_vec size || ltb size 8
      then panic
      else done (swarm', answer shown res publish_error)
