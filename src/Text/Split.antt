-- ===== src/Text/Split.antt =====
-- `str::split` at one character.
use dst_libp2p_test_node.Prelude.{
  ℕ, ◌≡◌, ◌≢◌, refl, List, [], ◌∷◌, ◌++◌, arith, ◌==◌, if◌then◌else◌, All,
}

cons_head : ℕ → List (List ℕ) → List (List ℕ)
cons_head c [] = (c ∷ []) ∷ []
cons_head c (w ∷ ws) = (c ∷ w) ∷ ws

unfoldable pub split : ℕ → List ℕ → List (List ℕ)
unfolding cons_head
split sep [] = [] ∷ []
split sep (c ∷ s) = let rest = split sep s in if c == sep then [] ∷ rest else cons_head c rest

abbrev pub Lacks : ℕ → List ℕ → Type 0
Lacks b = All (λ c. c ≢ b)

-- A text before the first separator is the first part.
pub split-append :
    (sep : ℕ) (w s : List ℕ) → Lacks sep w → split sep (w ++ sep ∷ s) ≡ w ∷ split sep s
unfolding split
split-append sep [] s h = ground arith
split-append sep (c ∷ w) s h = ground (arith, split-append sep w s h.1)

pub split_single : (sep : ℕ) (w : List ℕ) → Lacks sep w → split sep w ≡ w ∷ []
unfolding split
split_single sep [] h = refl
split_single sep (c ∷ w) h = ground (arith, split_single sep w h.1)
