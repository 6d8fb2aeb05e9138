-- ===== src/MessageId/Duplicates.antt =====
-- Fragments that are equal, against gossipsub's cache of message ids.
use dst_libp2p_test_node.Prelude.{
  ℕ, suc, ◌+◌, ◌≤◌, ◌≡◌, refl, ap, sym, ◌∙◌, ◌++◌, ◌-◌, append-nil, Bool, true, Option, some, none,
  arith, length, inl, inr, Option-cases,
}
use dst_libp2p_test_node.Prelude.Int.{ℤ, pos}
use dst_libp2p_test_node.Text.{Text}
use dst_libp2p_test_node.Outcome.{done, err}
use dst_libp2p_test_node.ByteOrder.{Bytes, ByteOrder}
use dst_libp2p_test_node.Clock.{Instant, unix_nano}
use dst_libp2p_test_node.Gossipsub.{Gossipsub}
use dst_libp2p_test_node.Publish.{PublishCommand, mark, publish_loop, publish_new_message}
use dst_libp2p_test_node.Publish.Fragments.{fragments, fragment-eq_iff, length-payload, mark-mark}
use dst_libp2p_test_node.Publish.Loop.{failure, step_ok, step_err}
use dst_libp2p_test_node.Publish.Total.{IsServed, fragment_size, base_of, publish_new_message_fails}
use dst_libp2p_test_node.MessageId.{Message, Hasher, msg_id_provider}

-- gossipsub's cache of the ids of published messages: a message whose id is in it is refused as a
-- duplicate, and the id of a message that is published is in it right afterwards.
pub record DuplicateCache (g : Gossipsub) (h : Hasher) : Type 0 where
  pub holds : g.Swarm → Text → Bool
  pub publish_held :
      (s : g.Swarm) (m : Message)
      → holds s (msg_id_provider h m) ≡ true
      → (e : Text) × ((g.publish s m.topic m.data').1 ≡ some e)
  pub holds-publish :
      (s : g.Swarm) (m : Message)
      → (g.publish s m.topic m.data').1 ≡ none
      → holds (g.publish s m.topic m.data').0 (msg_id_provider h m) ≡ true

module _ (g : Gossipsub) (h : Hasher) (cache : DuplicateCache g h) (topic : Text) where
  -- The loop ends at the first fragment, or at the second, which is equal to it.
  record StopsEarly (base : Bytes) (s : g.Swarm) (out : g.Swarm × ℤ × Option Text) : Type 0 where
    reached : ℕ
    error : Text
    early : reached ≤ 1
    stopped : out.2 ≡ some (failure error)
    sent_first : g.sent out.0 ≡ g.sent s ++ fragments topic base 0 reached

  second_refused :
      (base : Bytes) (s : g.Swarm)
      → length base ≤ 10
      → (g.publish s topic (mark 0 base)).1 ≡ none
      → (e : Text) × ((g.publish (g.publish s topic (mark 0 base)).0 topic (mark 1 (mark 0 base))).1
          ≡ some e)
  second_refused base s short fine =
      let first : Message = record {
        source = none;
        topic = topic;
        data' = mark 0 base;
        sequence_number = none;
      } in
      let same : mark 1 (mark 0 base) ≡ mark 0 base =
        mark-mark 1 0 base ∙ (fragment-eq_iff base 1 0).1 (inl short) in
      rw same (
        cache.publish_held (g.publish s topic (mark 0 base)).0 first
          (cache.holds-publish s first fine))

  publish_loop-StopsEarly :
      (rounds : ℕ) (base : Bytes) (s : g.Swarm)
      → length base ≤ 10
      → StopsEarly base s (publish_loop g topic (suc (suc rounds)) 0 base (pos 0) s)
  publish_loop-StopsEarly rounds base s short =
      elim (Option-cases (g.publish s topic (mark 0 base)).1) [
        | inr (e, bad) ↦ rw (step_err g topic (suc rounds) 0 0 base s e bad) (record {
          reached = 0;
          error = e;
          early = omega arith;
          stopped = refl;
          sent_first = g.sent-publish_err s topic (mark 0 base) e bad ∙ sym (append-nil _);
        })
        | inl fine ↦
            let (e, bad) = second_refused base s short fine in
            let s1 = (g.publish s topic (mark 0 base)).0 in
            rw
              (
                step_ok g topic (suc rounds) 0 0 base s fine (omega arith),
                step_err g topic rounds (0 + 1) (0 + 1) (mark 0 base) s1 e bad,
              )
              (record {
                reached = 1;
                error = e;
                early = omega arith;
                stopped = refl;
                sent_first =
                    g.sent-publish_err s1 topic (mark 1 (mark 0 base)) e bad
                    ∙ g.sent-publish_ok s topic (mark 0 base) fine;
              })
      ]

-- A message of two or more fragments that are eight to ten bytes long is never published as a whole:
-- at most its first fragment goes out, and the request is answered with an error. For the fragments
-- are equal, so that gossipsub, whose cache holds the ids of what it has published, refuses the second
-- as a duplicate. (With shorter fragments the command is not served.)
pub publish_new_message-duplicate :
    (g : Gossipsub) (h : Hasher) (cache : DuplicateCache g h) (b : ByteOrder) (cmd : PublishCommand)
    (now : Instant) (shown : Text) (s : g.Swarm)
    → IsServed cmd
    → 2 ≤ cmd.chunks
    → fragment_size cmd ≤ 10
    → (s' : g.Swarm) × (e : Text) × (j : ℕ) × (publish_new_message g b cmd now shown s
        ≡ done (s', err (failure e)))
      × (j ≤ 1)
      × (g.sent s' ≡ g.sent s ++ fragments cmd.topic (base_of b cmd now) 0 j)
publish_new_message-duplicate g h cache b cmd now shown s served two short =
    let base = base_of b cmd now in
    let small : length base ≤ 10 =
      omega (arith, length-payload b (unix_nano now) (fragment_size cmd) served.room_for_time) in
    let count : suc (suc (cmd.chunks - 2)) ≡ cmd.chunks = omega arith in
    let stops = publish_loop-StopsEarly g h cache cmd.topic (cmd.chunks - 2) base s small in
    let out = publish_loop g cmd.topic (suc (suc (cmd.chunks - 2))) 0 base (pos 0) s in
    let run : publish_loop g cmd.topic cmd.chunks 0 base (pos 0) s
        ≡ (out.0, out.1, some (failure stops.error)) =
      ap (λ n. publish_loop g cmd.topic n 0 base (pos 0) s) (sym count)
      ∙ ap (λ x. (out.0, out.1, x)) stops.stopped in
    (
      out.0,
      stops.error,
      stops.reached,
      publish_new_message_fails g b cmd now shown s out.0 out.1 (failure stops.error) served run,
      stops.early,
      stops.sent_first,
    )
