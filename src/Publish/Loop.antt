-- ===== src/Publish/Loop.antt =====
-- The publishing loop: which fragments it hands to gossipsub, and what it counts.
use dst_libp2p_test_node.Prelude.{
  ℕ, zero, suc, ◌+◌, ◌^◌, ◌<◌, ◌≡◌, refl, ap, sym, ◌∙◌, ◌⊎◌, List, [], ◌∷◌, ◌++◌, append_assoc,
  append-nil, Option, none, some, arith, inl, inr, Option-cases,
}
use dst_libp2p_test_node.Prelude.Int.{ℤ, pos, ◌+ℤ◌}
use dst_libp2p_test_node.Text.{Text, codes}
use dst_libp2p_test_node.Word.{wrap_i32, wrap}
use dst_libp2p_test_node.ByteOrder.{Bytes}
use dst_libp2p_test_node.Gossipsub.{Gossipsub}
use dst_libp2p_test_node.Publish.{mark, publish_loop}
use dst_libp2p_test_node.Publish.Fragments.{fragment, fragments, mark-mark}

incremented : (n : ℕ) → n + 1 < 2 ^ 31 → wrap_i32 (pos n +ℤ pos 1) ≡ pos (n + 1)
unfolding wrap ◌+ℤ◌
incremented n h = ground arith

abbrev pub failure : Text → Text
failure e = codes "Failed to publish: " ++ e

-- The swarm behind these calls of `publish`, whatever comes of them.
abbrev pub publish_each : (g : Gossipsub) → g.Swarm → List (Text × Bytes) → g.Swarm
publish_each g s [] = s
publish_each g s ((t, d) ∷ ms) = publish_each g (g.publish s t d).0 ms

-- gossipsub answers this error to fragment `j`, behind the fragments before it.
abbrev pub Refuses : (g : Gossipsub) → Text → Bytes → ℕ → ℕ → g.Swarm → Text → Type 0
Refuses g topic base k j s e =
    (g.publish (publish_each g s (fragments topic base k j)) topic (fragment base (k + j))).1
    ≡ some e

module _ (g : Gossipsub) (topic : Text) where
  -- The loop ended by itself: all fragments are sent, and counted.
  pub record AllSent (base : Bytes) (k rounds n : ℕ) (s : g.Swarm) (out : g.Swarm × ℤ × Option Text)
      : Type 0 where
    pub no_failure : out.2 ≡ none
    pub counted : out.1 ≡ pos (n + rounds)
    pub all_sent : g.sent out.0 ≡ g.sent s ++ fragments topic base k rounds

  -- The loop ended by an error: the fragments before it are sent, and no later one.
  pub record Stopped (base : Bytes) (k rounds : ℕ) (s : g.Swarm) (out : g.Swarm × ℤ × Option Text)
      : Type 0 where
    pub stopped_at : ℕ
    pub error : Text
    pub before_end : stopped_at < rounds
    pub failed : out.2 ≡ some (failure error)
    pub refused : Refuses g topic base k stopped_at s error
    pub sent_before : g.sent out.0 ≡ g.sent s ++ fragments topic base k stopped_at

  pub step_ok :
      (rounds chunk n : ℕ) (buffer : Bytes) (s : g.Swarm)
      → (g.publish s topic (mark chunk buffer)).1 ≡ none
      → n + 1 < 2 ^ 31
      → publish_loop g topic (suc rounds) chunk buffer (pos n) s
        ≡ publish_loop g topic rounds
            (chunk + 1)
            (mark chunk buffer)
            (pos (n + 1))
            (g.publish s topic (mark chunk buffer)).0
  unfolding publish_loop
  step_ok rounds chunk n buffer s ok' h = rw (ok', publish_loop, incremented n h) refl

  pub step_err :
      (rounds chunk n : ℕ) (buffer : Bytes) (s : g.Swarm) (e : Text)
      → (g.publish s topic (mark chunk buffer)).1 ≡ some e
      → publish_loop g topic (suc rounds) chunk buffer (pos n) s
        ≡ ((g.publish s topic (mark chunk buffer)).0, pos n, some (failure e))
  unfolding publish_loop
  step_err rounds chunk n buffer s e bad = rw (bad, publish_loop) refl

  sent_more :
      (chunk j : ℕ) (base buffer : Bytes) (s : g.Swarm)
      → mark chunk buffer ≡ mark chunk base
      → (g.publish s topic (mark chunk buffer)).1 ≡ none
      → g.sent (g.publish s topic (mark chunk buffer)).0 ++ fragments topic base (chunk + 1) j
        ≡ g.sent s ++ fragments topic base chunk (suc j)
  sent_more chunk j base buffer s same fine =
      rw (g.sent-publish_ok s topic (mark chunk buffer) fine, same) (append_assoc (g.sent s) _ _)

  refused_first :
      (chunk : ℕ) (base buffer : Bytes) (s : g.Swarm) (e : Text)
      → mark chunk buffer ≡ mark chunk base
      → (g.publish s topic (mark chunk buffer)).1 ≡ some e
      → Refuses g topic base chunk 0 s e
  refused_first chunk base buffer s e same bad =
      let here : chunk + 0 ≡ chunk = omega arith in rw (here, ← same) bad

  refused_later :
      (chunk j : ℕ) (base buffer : Bytes) (s : g.Swarm) (e : Text)
      → mark chunk buffer ≡ mark chunk base
      → Refuses g topic base (chunk + 1) j (g.publish s topic (mark chunk buffer)).0 e
      → Refuses g topic base chunk (suc j) s e
  refused_later chunk j base buffer s e same bad =
      let here : chunk + suc j ≡ chunk + 1 + j = omega arith in rw (here, ← same) bad

  pub publish_loop_lem :
      (rounds chunk n : ℕ) (base buffer : Bytes) (s : g.Swarm)
      → ((k : ℕ) → mark k buffer ≡ mark k base)
      → n + rounds < 2 ^ 31
      → AllSent base chunk rounds n s (publish_loop g topic rounds chunk buffer (pos n) s)
        ⊎ Stopped base chunk rounds s (publish_loop g topic rounds chunk buffer (pos n) s)
  publish_loop_lem zero chunk n base buffer s same h =
      unfold publish_loop in
      inl (record {
        no_failure = refl;
        counted = ap pos (omega arith);
        all_sent = sym (append-nil _);
      })
  publish_loop_lem (suc rounds) chunk n base buffer s same h =
      elim (Option-cases (g.publish s topic (mark chunk buffer)).1) [
        | inl fine ↦
            rw (step_ok rounds chunk n buffer s fine (omega arith))
              (elim (publish_loop_lem rounds (chunk + 1) (n + 1) base (mark chunk buffer)
                (g.publish s topic (mark chunk buffer)).0 (λ k. mark-mark k chunk buffer ∙ same k)
                (omega arith)) [
                  | inl all ↦ inl (record {
                    no_failure = all.no_failure;
                    counted = all.counted ∙ ap pos (omega arith);
                    all_sent =
                        all.all_sent ∙ sent_more chunk rounds base buffer s (same chunk) fine;
                  })
                  | inr stop ↦ inr (record {
                    stopped_at = suc stop.stopped_at;
                    error = stop.error;
                    before_end = omega arith;
                    failed = stop.failed;
                    refused =
                        refused_later chunk stop.stopped_at base buffer s stop.error (same chunk)
                          stop.refused;
                    sent_before =
                        stop.sent_before
                        ∙ sent_more chunk stop.stopped_at base buffer s (same chunk) fine;
                  })
                ])
        | inr (e, bad) ↦ rw (step_err rounds chunk n buffer s e bad) (
            inr (record {
              stopped_at = 0;
              error = e;
              before_end = omega arith;
              failed = refl;
              refused = refused_first chunk base buffer s e (same chunk) bad;
              sent_before =
                  g.sent-publish_err s topic (mark chunk buffer) e bad ∙ sym (append-nil _);
            }))
      ]
