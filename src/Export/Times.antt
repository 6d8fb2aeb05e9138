-- ===== src/Export/Times.antt =====
-- When the nodes write their snapshots.
use dst_libp2p_test_node.Prelude.{ℕ, ◌+◌, ◌≤◌, ◌<◌, ◌≡◌, ◌≢◌, ◌⊎◌, arith, inl, inr}
use dst_libp2p_test_node.Export.{first_delay_ms, round_due_ms}

-- Any two numbers are equal, or one is less than the other.
trichotomy : (i j : ℕ) → (i ≡ j) ⊎ ((i < j) ⊎ (j < i))
trichotomy i j = ground arith

apart_from :
    (i j k l : ℕ)
    → i < j
    → j < 5000
    → (round_due_ms i 300 k + 60 ≤ round_due_ms j 300 l)
      ⊎ (round_due_ms j 300 l + 60 ≤ round_due_ms i 300 k)
unfolding round_due_ms first_delay_ms
apart_from i j k l less bound = elim (trichotomy k l) [
  | inl same ↦ inl (omega arith)
  | inr (inl before) ↦ inl (omega arith)
  | inr (inr past) ↦ inr (omega arith)
]

-- In Shadow the nodes take turns: with fewer than 5000 nodes that start together, and snapshots every 300
-- seconds, as `main` asks for, any two rounds of two nodes are due at least 60 ms apart.
pub round_due_ms-apart :
    (i j k l : ℕ)
    → i < 5000
    → j < 5000
    → i ≢ j
    → (round_due_ms i 300 k + 60 ≤ round_due_ms j 300 l)
      ⊎ (round_due_ms j 300 l + 60 ≤ round_due_ms i 300 k)
round_due_ms-apart i j k l hi hj apart = elim (trichotomy i j) [
  | inl same ↦ absurd (apart same)
  | inr (inl less) ↦ apart_from i j k l less hj
  | inr (inr more) ↦ elim (apart_from j i l k more hi) [ inl x ↦ inr x | inr x ↦ inl x ]
]
