-- ===== src/Tests/Messages.antt =====
-- Publishing and receiving.
use dst_libp2p_test_node.Prelude.{
  ℕ, ◌+◌, ◌*◌, ◌≤◌, ◌<◌, ◌^◌, ◌≡◌, ◌↔◌, ◌⊎◌, refl, List, [], ◌∷◌, ◌++◌, some, arith, length, take,
}
use dst_libp2p_test_node.Prelude.Int.{ℤ, pos}
use dst_libp2p_test_node.Text.{Text, codes}
use dst_libp2p_test_node.Text.Decimal.{display, parse_unsigned, parse-display, max_u64}
use dst_libp2p_test_node.Word.{neg_ℕ}
use dst_libp2p_test_node.Outcome.{done, panic, Result, ok, err}
use dst_libp2p_test_node.ByteOrder.{Bytes, little_endian}
use dst_libp2p_test_node.Clock.{unix_nano, InRange, elapsed_ms, elapsed_ms_lem}
use dst_libp2p_test_node.Gossipsub.{accepting}
use dst_libp2p_test_node.Metrics.Interface.{plain}
use dst_libp2p_test_node.Metrics.{inc_received_message}
use dst_libp2p_test_node.Receive.{Receiver, receive_all}
use dst_libp2p_test_node.Receive.SeenMap.{get}
use dst_libp2p_test_node.Receive.Complete.{report}
use dst_libp2p_test_node.Receive.Counts.{pending, reports, count_stamped, receive_all-balance}
use dst_libp2p_test_node.Publish.{payload, publish_new_message}
use dst_libp2p_test_node.Publish.Fragments.{fragment, fragments, fragment-header, fragment-eq_iff}
use dst_libp2p_test_node.Publish.Loop.{failure, Refuses}
use dst_libp2p_test_node.Publish.Total.{
  IsServed, base_of, publish_new_message-panic, publish_new_message-answer,
}
use dst_libp2p_test_node.Delivery.{delivery}
use dst_libp2p_test_node.Http.{ok_200, internal_server_error_500, command, serve, serve-code}
use dst_libp2p_test_node.Tests.Data.{noon, later, hello, tiny, idle, config, request}

abbrev piece : ℕ → Bytes
piece k = fragment (base_of little_endian hello noon) k

pub idle-clean : (t : ℤ) → pending t idle ≡ 0
unfolding get
idle-clean t = refl

hello-IsServed : IsServed hello
hello-IsServed = omega arith

pub noon-InRange : InRange noon 5
noon-InRange = ground arith

delivery_example :
    (r' : Receiver plain) × (receive_all plain little_endian 2
        ((piece 1, noon) ∷ (piece 0, later) ∷ [])
        idle
      ≡ done r')
    × (r'.stdout ≡ report (unix_nano noon) later ∷ [])
    × (r'.metrics ≡ inc_received_message plain idle.metrics)
    × (pending (unix_nano noon) r' ≡ 0)
delivery_example =
    delivery plain little_endian hello noon 5 ((piece 1, noon) ∷ []) (piece 0) later idle
      hello-IsServed noon-InRange (omega arith) (omega arith) ((1, refl), tt) (0, refl)
      (omega arith) (idle-clean (unix_nano noon))

abbrev zeros : Bytes
zeros = 0 ∷ 0 ∷ 0 ∷ 0 ∷ 0 ∷ 0 ∷ 0 ∷ 1 ∷ 9 ∷ []

receive_all-balance_example :
    (r' : Receiver plain) × (receive_all plain little_endian 2
        ((zeros, noon) ∷ (zeros, noon) ∷ (zeros, later) ∷ [])
        idle
      ≡ done r')
    × (pending (pos (2 ^ 56)) r' < 2)
    × (reports (pos (2 ^ 56)) r' * 2 + pending (pos (2 ^ 56)) r'
        ≡ reports (pos (2 ^ 56)) idle * 2
          + pending (pos (2 ^ 56)) idle
          + count_stamped little_endian
              (pos (2 ^ 56))
              ((zeros, noon) ∷ (zeros, noon) ∷ (zeros, later) ∷ []))
receive_all-balance_example =
    receive_all-balance plain little_endian 2 (omega arith) (omega arith) (pos (2 ^ 56)) refl
      ((zeros, noon) ∷ (zeros, noon) ∷ (zeros, later) ∷ []) idle
      (omega (arith, idle-clean (pos (2 ^ 56)))) (omega arith)

publish_new_message-answer_example :
    (s' : List (Text × Bytes)) × (r : Result Text) × (publish_new_message accepting little_endian
        hello noon
        (codes "now")
        []
      ≡ done (s', r))
    × (((r ≡ ok (codes "Message published at time " ++ codes "now"))
          × (s' ≡ fragments (codes "test") (base_of little_endian hello noon) 0 2))
        ⊎ ((j : ℕ) × (e : Text) × (j < 2)
            × Refuses accepting (codes "test") (base_of little_endian hello noon) 0 j [] e
            × (r ≡ err (failure e))
            × (s' ≡ fragments (codes "test") (base_of little_endian hello noon) 0 j)))
publish_new_message-answer_example =
    publish_new_message-answer accepting little_endian hello noon (codes "now") [] hello-IsServed
      (omega arith)

-- A request for ten bytes in two fragments stops the node.
tiny_stops : publish_new_message accepting little_endian tiny noon (codes "now") [] ≡ panic
tiny_stops =
    (publish_new_message-panic accepting little_endian tiny noon (codes "now") []).1
      (λ served. omega (arith, served.room_for_time))

serve-code_example :
    (s' : List (Text × Bytes)) × (r : Result Text) × (publish_new_message accepting little_endian
        (command config request)
        noon
        (codes "now")
        []
      ≡ done (s', r))
    × (((serve accepting little_endian noon (codes "now") [] config request).code ≡ ok_200)
          × ((serve accepting little_endian noon (codes "now") [] config request).body.status
              ≡ codes "success")
          × (s'
              ≡ fragments (codes "test") (base_of little_endian (command config request) noon) 0 2)
        ⊎ ((j : ℕ) × (e : Text) × (j < 2)
            × Refuses accepting
                (codes "test")
                (base_of little_endian (command config request) noon)
                0
                j
                []
                e
            × (serve accepting little_endian noon (codes "now") [] config request ≡ record {
              code = internal_server_error_500;
              body = record { status = codes "error"; message = failure e };
            })
            × (s'
                ≡ fragments
                    (codes "test")
                    (base_of little_endian (command config request) noon)
                    0
                    j)))
serve-code_example =
    serve-code accepting little_endian noon (codes "now") [] config request (omega arith)
      (omega arith)

fragment-header_example :
    (length (fragment (payload little_endian (pos 9) 20) 3) ≡ 20)
    × (little_endian.read_i64 (take 8 (fragment (payload little_endian (pos 9) 20) 3))
        ≡ some (pos 9))
fragment-header_example = fragment-header little_endian (pos 9) 20 3 (omega arith) (omega arith)

fragment-eq_iff_example :
    (fragment zeros 0 ≡ fragment zeros 1) ↔ ((length zeros ≤ 10) ⊎ (◌≡◌ {A = ℕ} 0 1))
fragment-eq_iff_example = fragment-eq_iff zeros 0 1

elapsed_ms_lem_example :
    ((5_000_000_003 ≤ 6_000_000_009) × (elapsed_ms later (pos 5_000_000_003) ≡ pos 1000))
    ⊎ ((6_000_000_009 < 5_000_000_003) × (elapsed_ms later (pos 5_000_000_003) ≡ neg_ℕ 0))
elapsed_ms_lem_example = elapsed_ms_lem later 6 5_000_000_003 (ground arith) (omega arith)

parse-display_example : parse_unsigned max_u64 (display 5000) ≡ some 5000
parse-display_example = parse-display max_u64 5000 (omega arith)
