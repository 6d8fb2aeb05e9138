-- ===== src/Tests/Channel.antt =====
-- A request on its way through the lock and the channel.
use dst_libp2p_test_node.Prelude.{ℕ, ◌≡◌, refl, ◌⊎◌, some, arith, inl, inr}
use dst_libp2p_test_node.Text.{codes}
use dst_libp2p_test_node.ByteOrder.{little_endian}
use dst_libp2p_test_node.Gossipsub.{accepting}
use dst_libp2p_test_node.Metrics.Interface.{plain}
use dst_libp2p_test_node.Publish.{PublishCommand}
use dst_libp2p_test_node.Publish.Total.{IsServed}
use dst_libp2p_test_node.Http.{command}
use dst_libp2p_test_node.Http.Channel.{
  idle, locking, sending, update, System, init, request, acquire, Steps, Reach, start, later,
}
use dst_libp2p_test_node.Http.Pending.{update_cases}
use dst_libp2p_test_node.Http.Invariant.{IsOrderly, Reach-Orderly}
use dst_libp2p_test_node.Http.Progress.{Wants}
use dst_libp2p_test_node.Http.Drain.{Below, Answers, Reach-Answers}
use dst_libp2p_test_node.Http.Atomic.{Serves, Same, service}
use dst_libp2p_test_node.Http.Refines.{Reach-Refined}
use dst_libp2p_test_node.Tests.Data.{config, noon, small_net, fresh, request as asked}

abbrev asking : System plain accepting small_net
asking = record (init plain accepting small_net fresh) {
  phase = update (λ i. idle) 0 (locking (command config asked));
}

abbrev locked : System plain accepting small_net
locked = record asking {
  lock = some 0;
  phase = update asking.phase 0 (sending (command config asked));
}

asking_reached : Reach plain accepting small_net little_endian config fresh asking
asking_reached = later start (request 0 asked refl)

Reach-Orderly_example : IsOrderly plain accepting small_net little_endian config asking
Reach-Orderly_example =
    Reach-Orderly plain accepting small_net little_endian config fresh asking_reached

asked-IsServed : IsServed (command config asked)
asked-IsServed = record {
  some_chunks = omega arith;
  room_for_time = omega arith;
  fits_vec = omega arith;
}

asking-Wants : (i : ℕ) (cmd : PublishCommand) → Wants cmd (asking.phase i) → IsServed cmd
asking-Wants i cmd w = elim (update_cases (λ j. idle) 0 (locking (command config asked)) i) [
  | inl (_, here) ↦ elim w [
    | inl e ↦ let same : command config asked ≡ cmd = cc in rw (← same) asked-IsServed
    | inr e ↦ absurd (cc)
  ]
  | inr (_, quiet) ↦ elim w [ inl e ↦ absurd (cc) | inr e ↦ absurd (cc) ]
]

asking-Below : Below plain accepting small_net 1 asking
asking-Below i h = elim (update_cases (λ j. idle) 0 (locking (command config asked)) i) [
  | inl (same, _) ↦ absurd (omega arith)
  | inr (_, quiet) ↦ quiet
]

Reach-Answers_example :
    (t : System plain accepting small_net) × Steps plain accepting small_net little_endian config
      asking t
    × Answers plain accepting small_net asking t
Reach-Answers_example =
    Reach-Answers plain accepting small_net little_endian config noon (codes "noon") 1 fresh asking
      asking_reached (record { in_channel = tt; on_its_way = asking-Wants }) asking-Below

Reach-Refined_example :
    Serves plain accepting small_net little_endian config
      (service plain accepting small_net asking)
      (service plain accepting small_net locked)
    ⊎ Same plain accepting small_net
        (service plain accepting small_net asking)
        (service plain accepting small_net locked)
Reach-Refined_example =
    Reach-Refined plain accepting small_net little_endian config fresh asking asking_reached
      (acquire 0 (command config asked) refl refl)
