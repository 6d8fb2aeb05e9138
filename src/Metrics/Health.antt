-- ===== src/Metrics/Health.antt =====
-- `update_health` against the meaning of its three gauges.
use dst_libp2p_test_node.Prelude.{
  ℕ, ◌+◌, ◌<◌, ◌^◌, ◌≡◌, refl, ap, ◌∙◌, Bool, ◌&&◌, List, [], ◌∷◌, arith, length, All,
  if◌then◌else◌, leb, ltb, ◌==◌,
}
use dst_libp2p_test_node.Prelude.Int.{ℤ, pos, negsuc, ◌+ℤ◌, ◌≤ℤ◌, pos_part}
use dst_libp2p_test_node.Text.{Text}
use dst_libp2p_test_node.Word.{wrap_i64_id}
use dst_libp2p_test_node.Metrics.Interface.{Prometheus}
use dst_libp2p_test_node.Metrics.{GossipSubMetrics, Tally, classify, tally, update_health}

-- How many topics have a number of mesh peers that meets the test.
abbrev pub topics_with : (ℕ → Bool) → List (Text × ℤ) → ℕ
topics_with test [] = 0
topics_with test ((topic, c) ∷ counts) =
    let rest = topics_with test counts in if test (pos_part c) then rest + 1 else rest

abbrev pub is_none : ℕ → Bool
is_none n = n == 0

-- At least one, but below `d`.
abbrev pub is_low : ℕ → ℕ → Bool
is_low d n = leb 1 n && ltb n d

-- At least `d`.
abbrev pub is_healthy : ℕ → ℕ → Bool
is_healthy d n = leb d n

-- The numbers of mesh peers are numbers of things.
abbrev pub AreCounts : List (Text × ℤ) → Type 0
AreCounts = All (λ t. pos 0 ≤ℤ t.1)

classify_lem :
    (d n a b c : ℕ)
    → a + b + c + 1 < 2 ^ 63
    → 0 < d
    → classify (pos d) (pos n) (record { no_peers = pos a; low_peers = pos b; healthy = pos c }) ≡ (
        if is_none n
        then record { no_peers = pos (a + 1); low_peers = pos b; healthy = pos c }
        else if is_low d n
        then record { no_peers = pos a; low_peers = pos (b + 1); healthy = pos c }
        else record { no_peers = pos a; low_peers = pos b; healthy = pos (c + 1) })
unfolding classify ◌+ℤ◌
classify_lem d n a b c h k =
    ground (arith, wrap_i64_id (pos (a + 1)), wrap_i64_id (pos (b + 1)), wrap_i64_id (pos (c + 1)))

tally_lem :
    (d : ℕ) (counts : List (Text × ℤ)) (a b c : ℕ)
    → 0 < d
    → AreCounts counts
    → a + b + c + length counts < 2 ^ 63
    → tally (pos d) counts (record { no_peers = pos a; low_peers = pos b; healthy = pos c })
      ≡ record {
        no_peers = pos (a + topics_with is_none counts);
        low_peers = pos (b + topics_with (is_low d) counts);
        healthy = pos (c + topics_with (is_healthy d) counts);
      }
unfolding tally
tally_lem d [] a b c k nn h = ground arith
tally_lem d ((topic, negsuc n) ∷ counts) a b c k nn h = absurd (omega arith)
tally_lem d ((topic, pos n) ∷ counts) a b c k nn h = ground (
  arith,
  classify_lem d n a b c,
  tally_lem d counts (a + 1) b c,
  tally_lem d counts a (b + 1) c,
  tally_lem d counts a b (c + 1),
)

topics_add :
    (d : ℕ) (counts : List (Text × ℤ))
    → 0 < d
    → topics_with is_none counts + topics_with (is_low d) counts + topics_with (is_healthy d) counts
      ≡ length counts
topics_add d [] k = refl
topics_add d ((topic, c) ∷ counts) k = ground (arith, topics_add d counts k)

-- For a positive `d_low`, `update_health` sets the three gauges to the numbers of topics with no mesh
-- peer, with at least one but fewer than `d_low`, and with at least `d_low`; each topic is in exactly
-- one of them, so that they add up to the number of topics. The numbers of mesh peers are not
-- negative, and there are fewer than 2^63 topics.
pub update_health-gauges :
    (p : Prometheus) (m : GossipSubMetrics p) (d : ℕ) (counts : List (Text × ℤ))
    → m.d_low ≡ pos d
    → 0 < d
    → AreCounts counts
    → length counts < 2 ^ 63
    → let m' = update_health p counts m in
      (p.get m'.libp2p_gossipsub_no_peers_topics ≡ pos (topics_with is_none counts))
      × (p.get m'.libp2p_gossipsub_low_peers_topics ≡ pos (topics_with (is_low d) counts))
      × (p.get m'.libp2p_gossipsub_healthy_peers_topics ≡ pos (topics_with (is_healthy d) counts))
      × (topics_with is_none counts
            + topics_with (is_low d) counts
            + topics_with (is_healthy d) counts
          ≡ length counts)
unfolding update_health
update_health-gauges p m d counts low k nn small =
    let t : tally m.d_low counts (record { no_peers = pos 0; low_peers = pos 0; healthy = pos 0 })
        ≡ record {
          no_peers = pos (0 + topics_with is_none counts);
          low_peers = pos (0 + topics_with (is_low d) counts);
          healthy = pos (0 + topics_with (is_healthy d) counts);
        } =
      rw low (tally_lem d counts 0 0 0 k nn (omega arith)) in
    (
      p.get-set _ _ ∙ ap (λ (t : Tally). t.no_peers) t ∙ ap pos (omega arith),
      p.get-set _ _ ∙ ap (λ (t : Tally). t.low_peers) t ∙ ap pos (omega arith),
      p.get-set _ _ ∙ ap (λ (t : Tally). t.healthy) t ∙ ap pos (omega arith),
      topics_add d counts k,
    )
