-- ===== src/Clock.antt =====
-- `chrono::Utc::now()`: a reading is an input of the model. The nanoseconds since the Unix epoch are
-- computed on `i64`, with the wrap-around of a release build.
use dst_libp2p_test_node.Prelude.{
  inl, inr, Bool-cases, ◌⊎◌, ℕ, suc, false, leb, ◌+◌, ◌-◌, ◌*◌, ◌/◌, ◌<◌, ◌≤◌, ◌^◌, ◌≡◌, arith,
}
use dst_libp2p_test_node.Prelude.Int.{ℤ, pos, sub_ℕ, ◌+ℤ◌, ◌-ℤ◌, ◌*ℤ◌}
use dst_libp2p_test_node.Word.{wrap_i64, wrap_i64_id, as_i64, InI64, neg_ℕ, div_trunc}

pub record Instant : Type 0 where
  pub timestamp : ℤ
  pub nanosecond : ℕ

-- now.timestamp() * 1_000_000_000 + now.nanosecond() as i64
unfoldable pub unix_nano : Instant → ℤ
unix_nano now = wrap_i64 (wrap_i64 (now.timestamp *ℤ pos 1_000_000_000) +ℤ as_i64 now.nanosecond)

-- The clock shows a time from 1970 to the year 2262, where the nanoseconds fit.
pub record InRange (now : Instant) (seconds : ℕ) : Type 0 where
  pub since_epoch : now.timestamp ≡ pos seconds
  pub seconds_fit : seconds < 9_223_372_035
  pub nanos_fit : now.nanosecond < 2_000_000_000

pos_add : (a b : ℕ) → pos a +ℤ pos b ≡ pos (a + b)
unfolding ◌+ℤ◌
pos_add a b = ground arith

pos_mul : (a b : ℕ) → pos a *ℤ pos b ≡ pos (a * b)
unfolding ◌*ℤ◌
pos_mul a b = ground arith

-- In that range nothing wraps around.
pub unix_nano_lem :
    (now : Instant) (seconds : ℕ)
    → InRange now seconds
    → unix_nano now ≡ pos (seconds * 1_000_000_000 + now.nanosecond)
unfolding unix_nano
unix_nano_lem now seconds h =
    rw
      (
        h.since_epoch,
        pos_mul seconds 1_000_000_000,
        wrap_i64_id (pos (seconds * 1_000_000_000)) (omega arith),
        wrap_i64_id (pos now.nanosecond) (omega arith),
        pos_add (seconds * 1_000_000_000) now.nanosecond,
      )
      (wrap_i64_id (pos (seconds * 1_000_000_000 + now.nanosecond)) (omega arith))

-- (unix_nano - tx_time) / 1_000_000
unfoldable pub elapsed_ms : Instant → ℤ → ℤ
elapsed_ms now tx_time = div_trunc (wrap_i64 (unix_nano now -ℤ tx_time)) 1_000_000

pos_sub : (a b : ℕ) → pos a -ℤ pos b ≡ sub_ℕ a b
unfolding ◌-ℤ◌
pos_sub a b = ground arith

trunc_le : (n t k : ℕ) → t ≤ n → div_trunc (sub_ℕ n t) k ≡ pos ((n - t) / k)
unfolding div_trunc
trunc_le n t k le = ground arith

trunc_lt : (n t k : ℕ) → n < t → div_trunc (sub_ℕ n t) k ≡ neg_ℕ ((t - n) / k)
unfolding div_trunc
trunc_lt n t k lt =
    let above : leb t n ≡ false = ground arith in
    let more : suc (t - n - 1) ≡ t - n = omega arith in rw (above, more)

-- Within the clock's range no stamp makes the latency wrap around: it is the difference in
-- milliseconds, rounded towards zero, and negative for a stamp from the future.
pub elapsed_ms_lem :
    (now : Instant) (seconds t : ℕ)
    → InRange now seconds
    → t < 2 ^ 63
    → let n = seconds * 1_000_000_000 + now.nanosecond in
      ((t ≤ n) × (elapsed_ms now (pos t) ≡ pos ((n - t) / 1_000_000)))
      ⊎ ((n < t) × (elapsed_ms now (pos t) ≡ neg_ℕ ((t - n) / 1_000_000)))
unfolding elapsed_ms
elapsed_ms_lem now seconds t h k =
    let n = seconds * 1_000_000_000 + now.nanosecond in
    let fits : InI64 (sub_ℕ n t) = ground arith in
    rw (unix_nano_lem now seconds h, pos_sub n t, wrap_i64_id (sub_ℕ n t) fits)
      (elim (Bool-cases (leb t n)) [
        | inl past ↦ inl (ground arith, trunc_le n t 1_000_000 (ground arith))
        | inr future ↦ inr (ground arith, trunc_lt n t 1_000_000 (ground arith))
      ])
