-- ===== src/Receive.antt =====
-- rust-test-node/src/main.rs: `create_message_handler`, which reports a message once all its
-- fragments have come, and the map MSG_SEEN from a publication's time to the fragments counted so
-- far. `async` and the lock are left out: one task at a time calls the handler, and waits for it.
pub mod SeenMap
pub mod Counts
pub mod Complete
pub mod Effects
use dst_libp2p_test_node.Prelude.{
  ℕ, ◌+◌, ◌%◌, ◌^◌, Bool, List, [], ◌∷◌, ◌++◌, Option, none, some, ltb, leb, if◌then◌else◌, length,
  take,
}
use dst_libp2p_test_node.Prelude.Int.{ℤ, pos, ◌-ℤ◌, ltb_ℤ}
use dst_libp2p_test_node.Word.{wrap_i64, div_trunc}
use dst_libp2p_test_node.Outcome.{Run, done, panic, ◌>>=◌, unwrap_or}
use dst_libp2p_test_node.ByteOrder.{Bytes, ByteOrder}
use dst_libp2p_test_node.Clock.{Instant, elapsed_ms}
use dst_libp2p_test_node.Metrics.Interface.{Prometheus}
use dst_libp2p_test_node.Metrics.{GossipSubMetrics, inc_received_message}
use SeenMap.{Seen, get, put, remove}

-- A line `{} milliseconds: {}` on the standard output.
pub record Report : Type 0 where
  pub tx_time : ℤ
  pub delay_ms : ℤ

-- What the handler changes: MSG_SEEN, the standard output, the metrics.
pub record Receiver (p : Prometheus) : Type 0 where
  pub seen : Seen
  pub stdout : List Report
  pub metrics : GossipSubMetrics p

module _ (p : Prometheus) where
  -- The body of `if tx_time >= 1000000`. The count is a `u32`.
  pub count_fragment : ℕ → Instant → ℤ → Receiver p → Receiver p
  count_fragment chunks now tx_time r =
      let count = (unwrap_or (get tx_time r.seen) 0 + 1) % 2 ^ 32 in
      let counted = put tx_time count r.seen in
      if ltb count chunks then record r { seen = counted } else record {
        seen = remove tx_time counted;
        stdout = r.stdout ++ record { tx_time = tx_time; delay_ms = elapsed_ms now tx_time } ∷ [];
        metrics = inc_received_message p r.metrics;
      }

module _ (p : Prometheus) (b : ByteOrder) where
  -- `&message.data[0..8]` panics on shorter data.
  pub create_message_handler : Bytes → ℕ → Instant → Receiver p → Run (Receiver p)
  create_message_handler data' chunks now r =
      if ltb (length data') 8 then panic else elim (b.read_i64 (take 8 data')) [
        | none ↦ done r
        | some tx_time ↦
            done
              (if ltb_ℤ tx_time (pos 1_000_000) then r else count_fragment p chunks now tx_time r)
      ]

  -- The messages that come one after another, each with the clock at its arrival.
  pub receive_all : ℕ → List (Bytes × Instant) → Receiver p → Run (Receiver p)
  receive_all chunks [] r = done r
  receive_all chunks ((m, now) ∷ ms) r =
      create_message_handler m chunks now r >>= λ r'. receive_all chunks ms r'
