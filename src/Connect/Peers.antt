-- ===== src/Connect/Peers.antt =====
-- Which peers a node in Shadow resolves.
use mathlib.Core.List.{Permᴰ}
use mathlib.Core.Path.{subst₂}
use dst_libp2p_test_node.Prelude.{
  All-perm, length-perm, ℕ, zero, suc, ◌+◌, ◌-◌, ◌*◌, ◌%◌, ◌^◌, ◌≤◌, ◌<◌, min, ◌≡◌, ◌≢◌, refl, sym,
  ◌∙◌, true, List, [], ◌∷◌, ◌++◌, map, arith, length, length-take, take, All, ltb, leb, ◌&&◌, ◌==◌,
  if◌then◌else◌, some, inl, inr, Bool-cases,
}
use dst_libp2p_test_node.Text.{Text, codes}
use dst_libp2p_test_node.Text.Decimal.{display, max_u64}
use dst_libp2p_test_node.Env.{PeerConfig, my_port, host_id}
use dst_libp2p_test_node.Env.Checks.{IsValid}
use dst_libp2p_test_node.Env.Hostname.{pod, pod_id}
use dst_libp2p_test_node.Connect.{range_from, without, target_addresses}

-- Each number occurs once.
abbrev pub Distinct : List ℕ → Type 0
Distinct [] = Unit
Distinct (x ∷ xs) = All (λ y. y ≢ x) xs × Distinct xs

Distinct-swap : (a b : ℕ) (l : List ℕ) → Distinct (a ∷ b ∷ l) → Distinct (b ∷ a ∷ l)
Distinct-swap a b l ((ba, al), (bl, h)) = ((λ q. ba (sym q), bl), (al, h))

Distinct-perm : {xs ys : List ℕ} → Permᴰ xs ys → Distinct xs → Distinct ys
Distinct-perm Permᴰ.nil h = h
Distinct-perm (Permᴰ.cons e d) (apart, h) = (All-perm _ d (rw (← e) apart), Distinct-perm d h)
Distinct-perm (Permᴰ.swap {a = a} {b = b} {l = l} e e') h =
    subst₂ (λ x y. Distinct (x ∷ y ∷ l)) e' e (Distinct-swap a b l h)
Distinct-perm (Permᴰ.trans d d') h = Distinct-perm d' (Distinct-perm d h)

All-take : (P : ℕ → Type 0) (n : ℕ) (xs : List ℕ) → All P xs → All P (take n xs)
All-take P zero xs h = tt
All-take P (suc n) [] h = tt
All-take P (suc n) (x ∷ xs) (px, h) = (px, All-take P n xs h)

Distinct-take : (n : ℕ) (xs : List ℕ) → Distinct xs → Distinct (take n xs)
Distinct-take zero xs h = tt
Distinct-take (suc n) [] h = tt
Distinct-take (suc n) (x ∷ xs) (apart, h) = (All-take _ n xs apart, Distinct-take n xs h)

range-above : (i n k : ℕ) → k < i → All (λ y. y ≢ k) (range_from i n)
unfolding range_from
range-above i zero k h = tt
range-above i (suc n) k h = (omega arith, range-above (i + 1) n k (omega arith))

without-All : (P : ℕ → Type 0) (my : ℕ) (xs : List ℕ) → All P xs → All P (without my xs)
unfolding without
without-All P my [] h = tt
without-All P my (x ∷ xs) (px, h) = elim (Bool-cases (x == my)) [
  | inl same ↦ rw same (without-All P my xs h)
  | inr apart ↦ rw apart (px, without-All P my xs h)
]

others :
    (i n my top : ℕ) → i + n ≤ top → All (λ y. (y < top) × (y ≢ my)) (without my (range_from i n))
unfolding without range_from
others i zero my top h = tt
others i (suc n) my top h = elim (Bool-cases (i == my)) [
  | inl same ↦ rw same (others (i + 1) n my top (omega arith))
  | inr apart ↦ rw apart ((omega arith, ground arith), others (i + 1) n my top (omega arith))
]

others-Distinct : (i n my : ℕ) → Distinct (without my (range_from i n))
unfolding without range_from
others-Distinct i zero my = tt
others-Distinct i (suc n) my = elim (Bool-cases (i == my)) [
  | inl same ↦ rw same (others-Distinct (i + 1) n my)
  | inr apart ↦ rw apart (
    without-All _ my (range_from (i + 1) n) (range-above (i + 1) n i (omega arith)),
    others-Distinct (i + 1) n my,
  )
]

length-others :
    (i n my : ℕ)
    → length (without my (range_from i n)) ≡ (if leb i my && ltb my (i + n) then n - 1 else n)
unfolding without range_from
length-others i zero my = ground arith
length-others i (suc n) my = ground (arith, length-others (i + 1) n my)

other_pods :
    (n my : ℕ) (ids : List ℕ)
    → n ≤ max_u64
    → All (λ y. (y < n) × (y ≢ my)) ids
    → All (λ y. (y < n) × (y ≢ my) × (host_id (pod y) ≡ some y)) ids
other_pods n my [] le h = tt
other_pods n my (y ∷ ys) le ((lt, ne), h) =
    ((lt, ne, pod_id y (omega arith)), other_pods n my ys le h)

-- `pod-<id>:5000`
abbrev pub pod_address : ℕ → Text
pod_address id = codes "pod-" ++ display id ++ codes ":" ++ display my_port

-- In Shadow a node resolves twice as many peers as it is to connect to, or all the others if there are
-- fewer. They are different peers of the network, never the node itself, and the host name in each
-- address is one from which that peer's own node reads the same number. The doubling does not wrap
-- around for `connect_to` below 2^63, and `shuffle` returns a permutation.
pub target_addresses-others :
    (shuffle : List ℕ → List ℕ) (config : PeerConfig)
    → ((ids : List ℕ) → Permᴰ ids (shuffle ids))
    → IsValid config
    → config.connect_to < 2 ^ 63
    → config.in_shadow ≡ true
    → (ids : List ℕ) × (target_addresses shuffle config ≡ map pod_address ids)
      × (length ids
          ≡ min (2 * config.connect_to) (
              if ltb config.my_id config.network_size
              then config.network_size - 1
              else config.network_size))
      × All
          (λ id. (id < config.network_size) × (id ≢ config.my_id) × (host_id (pod id) ≡ some id))
          ids
      × Distinct ids
unfolding target_addresses
target_addresses-others shuffle config permutes valid small shadow =
    let peers = without config.my_id (range_from 0 config.network_size) in
    let limit = min ((config.connect_to * 2) % 2 ^ 64) (length peers) in
    let shuffled = permutes peers in
    (
      take limit (shuffle peers),
      rw shadow refl,
      length-take limit (shuffle peers)
          ∙ ground (arith, length-perm shuffled, length-others 0 config.network_size config.my_id),
      All-take _ limit (shuffle peers) (
          All-perm _ shuffled (
            other_pods config.network_size config.my_id _ valid.size_bound
              (others 0 config.network_size config.my_id config.network_size (omega arith)))),
      Distinct-take limit (shuffle peers)
          (Distinct-perm shuffled (others-Distinct 0 config.network_size config.my_id)),
    )
