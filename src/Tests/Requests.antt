-- ===== src/Tests/Requests.antt =====
-- A request on one node and its fragments at another.
use mathlib.Core.List.{Permᴰ}
use dst_libp2p_test_node.Prelude.{ℕ, ◌≡◌, refl, List, [], ◌∷◌, ◌++◌, map, arith}
use dst_libp2p_test_node.Prelude.Int.{◌+ℤ◌}
use dst_libp2p_test_node.Text.{Text, codes}
use dst_libp2p_test_node.Word.{wrap}
use dst_libp2p_test_node.Outcome.{done, ok}
use dst_libp2p_test_node.ByteOrder.{Bytes, little_endian, le_bytes}
use dst_libp2p_test_node.Clock.{Instant, unix_nano}
use dst_libp2p_test_node.Gossipsub.{accepting}
use dst_libp2p_test_node.Metrics.Interface.{plain}
use dst_libp2p_test_node.Metrics.{inc_received_message}
use dst_libp2p_test_node.Publish.{publish_new_message, publish_loop, answer, mark}
use dst_libp2p_test_node.Publish.Fragments.{fragment, fragments}
use dst_libp2p_test_node.Publish.Total.{base_of}
use dst_libp2p_test_node.Receive.{Receiver, receive_all}
use dst_libp2p_test_node.Receive.Complete.{report}
use dst_libp2p_test_node.Receive.Counts.{pending}
use dst_libp2p_test_node.Http.{ok_200, command, serve}
use dst_libp2p_test_node.Delivery.Request.{request-delivery}
use dst_libp2p_test_node.Tests.Data.{noon, later, idle, config, request}
use dst_libp2p_test_node.Tests.Messages.{idle-clean, noon-InRange}

abbrev bit : ℕ → Bytes
bit k = fragment (base_of little_endian (command config request) noon) k

answered_200 : (serve accepting little_endian noon (codes "now") [] config request).code ≡ ok_200
unfolding serve publish_new_message publish_loop answer mark wrap ◌+ℤ◌
answered_200 = refl

abbrev both : List (Text × Bytes)
both = fragments (codes "test") (base_of little_endian (command config request) noon) 0 2

publish_new_message-both :
    publish_new_message accepting little_endian (command config request) noon (codes "now") []
    ≡ done (both, ok (codes "Message published at time " ++ codes "now"))
unfolding publish_new_message publish_loop answer wrap ◌+ℤ◌ mark le_bytes
publish_new_message-both = refl

both_arrive :
    Permᴰ
      (map (λ (x : Text × Bytes). x.1) both)
      (map (λ (x : Bytes × Instant). x.0) ((bit 1, noon) ∷ (bit 0, later) ∷ []))
both_arrive = Permᴰ.swap refl refl

request-delivery_example :
    (r' : Receiver plain) × (receive_all plain little_endian 2
        ((bit 1, noon) ∷ (bit 0, later) ∷ [])
        idle
      ≡ done r')
    × (r'.stdout ≡ report (unix_nano noon) later ∷ [])
    × (r'.metrics ≡ inc_received_message plain idle.metrics)
    × (pending (unix_nano noon) r' ≡ 0)
request-delivery_example =
    request-delivery accepting little_endian noon (codes "now") [] config request plain both
      (ok (codes "Message published at time " ++ codes "now")) both 5 ((bit 1, noon) ∷ []) (bit 0)
      later idle (omega arith) (omega arith) noon-InRange (omega arith) answered_200
      publish_new_message-both refl both_arrive (idle-clean (unix_nano noon))
