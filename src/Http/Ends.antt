-- ===== src/Http/Ends.antt =====
-- However handlers and loop take turns, the work on the requests comes to an end.
use dst_libp2p_test_node.Prelude.{ℕ, suc, ◌+◌, length}
use dst_libp2p_test_node.Text.{Text}
use dst_libp2p_test_node.Env.{PeerConfig}
use dst_libp2p_test_node.ByteOrder.{ByteOrder}
use dst_libp2p_test_node.Gossipsub.{Gossipsub}
use dst_libp2p_test_node.Metrics.Interface.{Prometheus}
use dst_libp2p_test_node.MainLoop.Events.{Network}
use dst_libp2p_test_node.Http.Channel.{System, Step, request, turn}
use dst_libp2p_test_node.Http.Progress.{load}

module _ (p : Prometheus) (g : Gossipsub) (net : Network g) (b : ByteOrder)
    (config : PeerConfig) where
  -- A step on a request that has come: by its handler, by its client, or by the loop that serves it.
  abbrev pub IsWork : {s t : System p g net} → Step p g net b config s t → Type 0
  IsWork (request i req fresh) = ⊥
  IsWork (turn e n' own run) = ⊥
  IsWork _ = Unit

  -- Steps of this kind, in any order.
  pub data Works : System p g net → ℕ → System p g net → Type 0 where
    over : {s : System p g net} → Works s 0 s
    work :
        {s t u : System p g net} {k : ℕ} (st : Step p g net b config s t)
        → IsWork st
        → Works t k u
        → Works s (suc k) u

  -- What is left to do of the requests below `n`.
  abbrev left : ℕ → System p g net → ℕ
  left n s = load s.phase n + length s.queue
