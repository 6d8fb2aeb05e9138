-- ===== src/Delivery.antt =====
-- A message from `publish_new_message` on one node to `create_message_handler` on another.
pub mod Request
use dst_libp2p_test_node.Prelude.{ℕ, ◌+◌, ◌^◌, ◌<◌, ◌≡◌, List, [], ◌∷◌, ◌++◌, arith, length, All}
use dst_libp2p_test_node.Word.{InI64}
use dst_libp2p_test_node.Outcome.{done}
use dst_libp2p_test_node.ByteOrder.{Bytes, ByteOrder}
use dst_libp2p_test_node.Clock.{Instant, unix_nano, InRange, unix_nano_lem}
use dst_libp2p_test_node.Metrics.Interface.{Prometheus}
use dst_libp2p_test_node.Publish.{PublishCommand}
use dst_libp2p_test_node.Publish.Fragments.{fragment, fragment-header}
use dst_libp2p_test_node.Publish.Total.{IsServed, fragment_size, base_of}
use dst_libp2p_test_node.Receive.{Receiver, receive_all}
use dst_libp2p_test_node.Metrics.{inc_received_message}
use dst_libp2p_test_node.Receive.Complete.{Carries, report, receive_all-Completes}
use dst_libp2p_test_node.Receive.Counts.{pending, IsStamp}

-- The message is one of the fragments of the command that was published at `sent_at`.
abbrev pub IsFragment : ByteOrder → PublishCommand → Instant → Bytes × Instant → Type 0
IsFragment b cmd sent_at m = (k : ℕ) × (m.0 ≡ fragment (base_of b cmd sent_at) k)

module _ (p : Prometheus) (b : ByteOrder) (cmd : PublishCommand) (sent_at : Instant) (seconds : ℕ)
    (served : IsServed cmd) (clock : InRange sent_at seconds) where
  stamp_fits : InI64 (unix_nano sent_at)
  stamp_fits = rw (unix_nano_lem sent_at seconds clock) (omega arith)

  fragment-Carries :
      (m : Bytes × Instant) → IsFragment b cmd sent_at m → Carries b (unix_nano sent_at) m
  fragment-Carries m (k, e) =
      let (size, read) =
        fragment-header b (unix_nano sent_at) (fragment_size cmd) k stamp_fits
          served.room_for_time in
      (rw e (rw size served.room_for_time), rw e read)

  All-Carries :
      (ms : List (Bytes × Instant))
      → All (IsFragment b cmd sent_at) ms
      → All (Carries b (unix_nano sent_at)) ms
  All-Carries [] h = tt
  All-Carries (m ∷ ms) (h, hs) = (fragment-Carries m h, All-Carries ms hs)

  IsStamp-valid : 0 < seconds → IsStamp (unix_nano sent_at)
  IsStamp-valid h = rw (unix_nano_lem sent_at seconds clock) (ground arith)

-- A command that is published after the first second of 1970, and of which a receiver with the same
-- number of chunks gets as many fragments as it has, in any order, makes that receiver print one line:
-- with the time of publication, and with the milliseconds that have passed until the last fragment.
-- The receiver counts one message, and nothing of the message stays behind. There are fewer than 2^32
-- chunks, and nothing with this stamp waits at the receiver before.
pub delivery :
    (p : Prometheus) (b : ByteOrder) (cmd : PublishCommand) (sent_at : Instant) (seconds : ℕ)
    (ms : List (Bytes × Instant)) (m : Bytes) (now : Instant) (r : Receiver p)
    → IsServed cmd
    → InRange sent_at seconds
    → 0 < seconds
    → cmd.chunks < 2 ^ 32
    → All (IsFragment b cmd sent_at) ms
    → IsFragment b cmd sent_at (m, now)
    → length ms + 1 ≡ cmd.chunks
    → pending (unix_nano sent_at) r ≡ 0
    → (r' : Receiver p) × (receive_all p b cmd.chunks (ms ++ (m, now) ∷ []) r ≡ done r')
      × (r'.stdout ≡ r.stdout ++ report (unix_nano sent_at) now ∷ [])
      × (r'.metrics ≡ inc_received_message p r.metrics)
      × (pending (unix_nano sent_at) r' ≡ 0)
delivery p b cmd sent_at seconds ms m now r served clock later fits all last count clean =
    let (r', run, complete) =
      receive_all-Completes p b cmd.chunks fits (unix_nano sent_at)
        (IsStamp-valid p b cmd sent_at seconds served clock later) ms m now r
        (All-Carries p b cmd sent_at seconds served clock ms all)
        (fragment-Carries p b cmd sent_at seconds served clock (m, now) last)
        (omega (arith, clean, count)) in
    (r', run, complete.printed, complete.counted, complete.forgotten)
