-- ===== src/Export.antt =====
-- rust-test-node/src/env.rs: `start_metrics_server` and `store_metrics`, which show the metrics. The
-- encoder of prometheus_client, the server, the clock and the waiting are inputs; a file system is a
-- function from names to contents.
pub mod Files
pub mod Times
use dst_libp2p_test_node.Prelude.{
  ℕ, ◌+◌, ◌*◌, ◌%◌, ◌^◌, ◌==◌, Option, none, some, List, [], ◌∷◌, ◌++◌, take, if◌then◌else◌,
}
use dst_libp2p_test_node.Text.{Text, codes, text_eq}
use dst_libp2p_test_node.Text.Decimal.{display}
use dst_libp2p_test_node.Outcome.{Result, ok, err, unwrap_or}
use dst_libp2p_test_node.ByteOrder.{Bytes}

-- A page with its header `Content-Type`.
pub record MetricsPage : Type 0 where
  pub content_type : Text
  pub body : Text

-- The answer to `GET /metrics`, from what `encode` returns.
pub metrics_page : Result Text → MetricsPage
metrics_page (ok buffer) = record {
  content_type = codes "text/plain; version=0.0.4";
  body = buffer;
}
metrics_page (err e) = record {
  content_type = codes "text/plain; version=0.0.4";
  body = codes "Failed to encode metrics";
}

abbrev pub Files : Type 0
Files = Text → Option Bytes

-- `OpenOptions::new().create(true).append(true)` with a write
pub append : Text → Bytes → Files → Files
append name bytes files k =
    if text_eq name k then some (unwrap_or (files k) [] ++ bytes) else files k

-- What a write leaves behind: all, or the first bytes if it fails.
abbrev pub written : Option ℕ → Bytes → Bytes
written none bytes = bytes
written (some n) bytes = take n bytes

-- A round of the loop: which of its ends it comes to, with the page, the time as it prints, and how
-- the two writes go.
pub data StoreTurn : Type 0 where
  encode_failed open_failed : Text → StoreTurn
  opened : Text → Text → Option ℕ → Option ℕ → StoreTurn

abbrev pub filename : ℕ → Text
filename peer_id = codes "metrics_pod-" ++ display peer_id ++ codes ".txt"

-- "\n# Metrics snapshot at {}\n"
abbrev pub snapshot_line : Text → Text
snapshot_line now = b'\n' ∷ (codes "# Metrics snapshot at " ++ now ++ b'\n' ∷ [])

-- The milliseconds of the first `sleep`; the product is one of u64.
pub first_delay_ms : ℕ → ℕ
first_delay_ms peer_id = (peer_id * 60) % 2 ^ 64

-- When round `k` is due, in milliseconds from the start of the task: the ticks of `interval` come
-- one period after another, the first at once.
pub round_due_ms : ℕ → ℕ → ℕ → ℕ
round_due_ms peer_id interval_sec k = first_delay_ms peer_id + k * (interval_sec * 1000)

module _ (as_bytes : Text → Bytes) where
  -- The body of `loop`. A failed line is not looked at.
  pub store_turn : ℕ → StoreTurn → Files → Files
  store_turn peer_id (encode_failed e) files = files
  store_turn peer_id (open_failed e) files = files
  store_turn peer_id (opened buffer now line page) files =
      let name = filename peer_id in
      let created = append name [] files in
      let dated = append name (written line (as_bytes (snapshot_line now))) created in
      append name (written page (as_bytes buffer)) dated

  -- The rounds of several nodes' loops, in the order in which they come.
  pub store_metrics : List (ℕ × StoreTurn) → Files → Files
  store_metrics [] files = files
  store_metrics ((peer_id, t) ∷ ts) files = store_metrics ts (store_turn peer_id t files)
