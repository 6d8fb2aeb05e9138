-- ===== src/Connect/Dial.antt =====
-- How many connections the node begins.
use mathlib.Core.Path.{ap₂}
use dst_libp2p_test_node.Prelude.{
  ℕ, ◌+◌, ◌%◌, suc, zero, ◌⊎◌, take, none, ◌^◌, ◌≤◌, ◌<◌, min, ◌≡◌, refl, ap, ◌∙◌, true, false,
  List, [], ◌∷◌, some, arith, length, length-take, sym, All, ltb, if◌then◌else◌, inl, inr,
  Bool-cases,
}
use dst_libp2p_test_node.Text.{Text}
use dst_libp2p_test_node.Outcome.{done}
use dst_libp2p_test_node.Gossipsub.{Gossipsub}
use dst_libp2p_test_node.Connect.{Dialer, dial_loop}

module _ (g : Gossipsub) (d : Dialer g) where
  -- The address is one that the parser accepts.
  abbrev pub Parses : Text → Type 0
  Parses a = (m : d.Multiaddr) × (d.parse a ≡ some m)

  pub dial_full :
      (target : ℕ) (a : Text) (addrs : List Text) (n : ℕ) (s : g.Swarm)
      → ltb (target % 2 ^ 32) n ≡ true
      → dial_loop g d target (a ∷ addrs) n s ≡ done (s, n)
  unfolding dial_loop
  dial_full target a addrs n s full = rw (full, dial_loop) refl

  pub dial_next :
      (target : ℕ) (a : Text) (addrs : List Text) (n : ℕ) (s : g.Swarm) (m : d.Multiaddr)
      → ltb (target % 2 ^ 32) n ≡ false
      → d.parse a ≡ some m
      → dial_loop g d target (a ∷ addrs) n s
        ≡ dial_loop g d target addrs (if (d.dial s m).1 then (n + 1) % 2 ^ 32 else n) (d.dial s m).0
  unfolding dial_loop
  dial_next target a addrs n s m more parsed = rw (more, dial_loop, parsed) refl

  -- The swarm behind the dialling of these addresses one after another, and the number of connections
  -- that are begun.
  abbrev pub dial_each : g.Swarm → List Text → g.Swarm × ℕ
  dial_each s [] = (s, 0)
  dial_each s (a ∷ addrs) = elim (d.parse a) [
    | none ↦ dial_each s addrs
    | some m ↦
        let (s', n) = dial_each (d.dial s m).0 addrs in (s', if (d.dial s m).1 then n + 1 else n)
  ]

  dial_each_next :
      (s : g.Swarm) (a : Text) (m : d.Multiaddr) (addrs : List Text)
      → d.parse a ≡ some m
      → dial_each s (a ∷ addrs) ≡ (
        (dial_each (d.dial s m).0 addrs).0,
        (if (d.dial s m).1
            then (dial_each (d.dial s m).0 addrs).1 + 1
            else (dial_each (d.dial s m).0 addrs).1),
      )
  dial_each_next s a m addrs parsed = rw (dial_each, parsed) refl

  dial_each-begins :
      (addrs : List Text) (s : g.Swarm)
      → All Parses addrs
      → ((t : g.Swarm) (m : d.Multiaddr) → (d.dial t m).1 ≡ true)
      → (dial_each s addrs).1 ≡ length addrs
  dial_each-begins [] s parses begins = refl
  dial_each-begins (a ∷ addrs) s ((m, parsed), parses) begins =
      ap (λ (x : g.Swarm × ℕ). x.1) (dial_each_next s a m addrs parsed)
      ∙ rw (begins s m) (omega (arith, dial_each-begins addrs (d.dial s m).0 parses begins))

  All-take : (k : ℕ) (addrs : List Text) → All Parses addrs → All Parses (take k addrs)
  All-take zero addrs h = tt
  All-take (suc k) [] h = tt
  All-take (suc k) (a ∷ addrs) (ha, h) = (ha, All-take k addrs h)

  -- What the loop did from `n` connections on: it dialled the first `tried` addresses.
  pub record Dialled (target : ℕ) (addrs : List Text) (n : ℕ) (s : g.Swarm) : Type 0 where
    pub tried : ℕ
    pub swarm : g.Swarm
    pub begun : ℕ
    pub dialling : dial_each s (take tried addrs) ≡ (swarm, begun)
    pub looped : dial_loop g d target addrs n s ≡ done (swarm, n + begun)
    pub at_most : n + begun ≤ target + 1
    pub within : tried ≤ length addrs
    pub ended : (tried ≡ length addrs) ⊎ (n + begun ≡ target + 1)

  -- However the dialling goes, the loop comes to its end, if the parser accepts every address: it has
  -- dialled addresses from the first one on, begun at most `connect_to` + 1 connections, and stopped
  -- early only when it had begun so many. `connect_to` + 1 is below 2^32.
  pub dial_loop-Dialled :
      (target : ℕ) (addrs : List Text) (n : ℕ) (s : g.Swarm)
      → target + 1 < 2 ^ 32
      → n ≤ target + 1
      → All Parses addrs
      → Dialled target addrs n s
  dial_loop-Dialled target [] n s small le parses = record {
    tried = 0;
    swarm = s;
    begun = 0;
    dialling = refl;
    looped = unfold dial_loop in ap (λ k. done (s, k)) (omega arith);
    at_most = omega arith;
    within = omega arith;
    ended = inl refl;
  }
  dial_loop-Dialled target (a ∷ addrs) n s small le ((m, parsed), parses) =
      elim (Bool-cases (ltb (target % 2 ^ 32) n)) [
        | inl full ↦ record {
          tried = 0;
          swarm = s;
          begun = 0;
          dialling = refl;
          looped = dial_full target a addrs n s full ∙ ap (λ k. done (s, k)) (omega arith);
          at_most = omega arith;
          within = omega arith;
          ended = inr (ground arith);
        }
        | inr more ↦
            let n' = if (d.dial s m).1 then (n + 1) % 2 ^ 32 else n in
            let h = dial_loop-Dialled target addrs n' (d.dial s m).0 small (ground arith) parses in
            let begun' = if (d.dial s m).1 then h.begun + 1 else h.begun in
            let same : n' + h.begun ≡ n + begun' = ground arith in
            record {
              tried = suc h.tried;
              swarm = h.swarm;
              begun = begun';
              dialling =
                  dial_each_next s a m (take h.tried addrs) parsed
                  ∙ ap (λ (x : g.Swarm × ℕ). (x.0, if (d.dial s m).1 then x.1 + 1 else x.1))
                      h.dialling;
              looped =
                  dial_next target a addrs n s m more parsed
                  ∙ h.looped
                  ∙ ap (λ k. done (h.swarm, k)) same;
              at_most = omega (arith, same, h.at_most);
              within = omega (arith, h.within);
              ended = elim h.ended [
                | inl all ↦ inl (omega (arith, all))
                | inr enough ↦ inr (omega (arith, same, enough))
              ];
            }
      ]

  -- Where the parser accepts every address and dialling always begins, the node dials the addresses in
  -- their order until they are used up or `connect_to` + 1 connections are begun: one more than the
  -- target. `connect_to` + 1 is below 2^32.
  pub dial_loop-count :
      (target : ℕ) (addrs : List Text) (s : g.Swarm)
      → target + 1 < 2 ^ 32
      → All Parses addrs
      → ((t : g.Swarm) (m : d.Multiaddr) → (d.dial t m).1 ≡ true)
      → dial_loop g d target addrs 0 s
        ≡ done (
          (dial_each s (take (min (length addrs) (target + 1)) addrs)).0,
          min (length addrs) (target + 1),
        )
  dial_loop-count target addrs s small parses begins =
      let h = dial_loop-Dialled target addrs 0 s small (omega arith) parses in
      let begun : h.begun ≡ h.tried = omega (
        arith,
        ap (λ (x : g.Swarm × ℕ). x.1) h.dialling,
        dial_each-begins (take h.tried addrs) s (All-take h.tried addrs parses) begins,
        length-take h.tried addrs,
        h.within,
      ) in
      let all : h.tried ≡ min (length addrs) (target + 1) = elim h.ended [
        | inl last ↦ omega (arith, begun, last, h.at_most)
        | inr enough ↦ omega (arith, begun, enough, h.within)
      ] in
      h.looped
      ∙ ap done (
          ap₂ (λ (t : g.Swarm) (k : ℕ). (t, k))
            (ap (λ (x : g.Swarm × ℕ). x.0) (sym h.dialling)
              ∙ ap (λ k. (dial_each s (take k addrs)).0) all)
            (omega (arith, begun, all)))
