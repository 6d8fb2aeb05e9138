-- ===== src/Tests/Files.antt =====
-- Rounds of the loops that write metrics to files.
use dst_libp2p_test_node.Prelude.{ℕ, ◌≡◌, List, [], ◌∷◌, ◌++◌, none, some, arith, ◌+◌, ◌≤◌, ◌⊎◌}
use dst_libp2p_test_node.Text.{Text, codes}
use dst_libp2p_test_node.Outcome.{ok, unwrap_or}
use dst_libp2p_test_node.ByteOrder.{Bytes}
use dst_libp2p_test_node.Export.Times.{round_due_ms-apart}
use dst_libp2p_test_node.Export.{
  round_due_ms, metrics_page, Files, StoreTurn, open_failed, opened, filename, snapshot_line,
  store_metrics,
}
use dst_libp2p_test_node.Export.Files.{only, store_metrics-only, store_metrics-snapshot}

-- Texts of ASCII letters.
abbrev ascii : Text → Bytes
ascii t = t

abbrev no_files : Files
no_files name = none

abbrev rounds : List (ℕ × StoreTurn)
rounds =
    (1, opened (codes "a 1") (codes "noon") none none)
    ∷ (2, opened (codes "b 2") (codes "noon") none (some 2))
    ∷ (1, open_failed (codes "disk"))
    ∷ (1, opened (codes "a 3") (codes "later") (some 0) none)
    ∷ []

store_metrics-only_example :
    store_metrics ascii rounds no_files (filename 1)
    ≡ store_metrics ascii (only 1 rounds) no_files (filename 1)
store_metrics-only_example = store_metrics-only ascii 1 rounds no_files (omega arith) (omega arith)

store_metrics-snapshot_example :
    (rest : Bytes) × (store_metrics ascii
        (rounds ++ (2, opened (codes "b 4") (codes "later") none none) ∷ rounds)
        no_files
        (filename 2)
      ≡ some (
          (unwrap_or (store_metrics ascii rounds no_files (filename 2)) []
            ++ snapshot_line (codes "later")
            ++ (metrics_page (ok (codes "b 4"))).body)
          ++ rest))
store_metrics-snapshot_example =
    store_metrics-snapshot ascii 2 rounds rounds (codes "b 4") (codes "later") no_files

round_due_ms-apart_example :
    (round_due_ms 3 300 2 + 60 ≤ round_due_ms 4999 300 1)
    ⊎ (round_due_ms 4999 300 1 + 60 ≤ round_due_ms 3 300 2)
round_due_ms-apart_example =
    round_due_ms-apart 3 4999 2 1 (omega arith) (omega arith) (λ e. omega arith)
