-- ===== src/Delivery/Request.antt =====
-- From a request to `POST /publish` on one node to the line that another node prints.
use mathlib.Core.List.{Permᴰ}
use dst_libp2p_test_node.Prelude.{
  ℕ, suc, zero, ◌+◌, ◌^◌, ◌<◌, ◌≡◌, refl, ap, sym, ◌∙◌, List, [], ◌∷◌, ◌++◌, map, arith, length,
  length-append, All, All-perm, length-perm, inl, inr,
}
use dst_libp2p_test_node.Text.{Text}
use dst_libp2p_test_node.Outcome.{done, Result}
use dst_libp2p_test_node.ByteOrder.{Bytes, ByteOrder}
use dst_libp2p_test_node.Clock.{Instant, unix_nano, InRange}
use dst_libp2p_test_node.Env.{PeerConfig}
use dst_libp2p_test_node.Gossipsub.{Gossipsub}
use dst_libp2p_test_node.Metrics.Interface.{Prometheus}
use dst_libp2p_test_node.Metrics.{inc_received_message}
use dst_libp2p_test_node.Publish.{PublishCommand, publish_new_message}
use dst_libp2p_test_node.Publish.Fragments.{fragment, fragments}
use dst_libp2p_test_node.Publish.Total.{IsServed, base_of}
use dst_libp2p_test_node.Receive.{Receiver, receive_all}
use dst_libp2p_test_node.Receive.Complete.{report}
use dst_libp2p_test_node.Receive.Counts.{pending}
use dst_libp2p_test_node.Http.{PublishRequest, ok_200, Reply, command, serve, serve-code}
use dst_libp2p_test_node.Delivery.{IsFragment, delivery}

append-cancel : {A : Type 0} (xs ys zs : List A) → xs ++ ys ≡ xs ++ zs → ys ≡ zs
append-cancel [] ys zs e = e
append-cancel (x ∷ xs) ys zs e = append-cancel xs ys zs (cc)

length-map : {A B : Type 0} (f : A → B) (xs : List A) → length (map f xs) ≡ length xs
length-map f [] = refl
length-map f (x ∷ xs) = ap suc (length-map f xs)

-- The data of a message is a fragment.
abbrev IsData : ByteOrder → PublishCommand → Instant → Bytes → Type 0
IsData b cmd at_ d = (k : ℕ) × (d ≡ fragment (base_of b cmd at_) k)

module _ (b : ByteOrder) (cmd : PublishCommand) (at_ : Instant) where
  fragments-IsData :
      (topic : Text) (k n : ℕ)
      → All (IsData b cmd at_) (map (λ x. x.1) (fragments topic (base_of b cmd at_) k n))
  fragments-IsData topic k zero = tt
  fragments-IsData topic k (suc n) = ((k, refl), fragments-IsData topic (k + 1) n)

  length-fragments : (topic : Text) (k n : ℕ) → length (fragments topic (base_of b cmd at_) k n) ≡ n
  length-fragments topic k zero = refl
  length-fragments topic k (suc n) = ap suc (length-fragments topic (k + 1) n)

  arrivals-IsFragment :
      (ms : List (Bytes × Instant)) (m : Bytes) (now : Instant)
      → All (IsData b cmd at_) (map (λ x. x.0) (ms ++ (m, now) ∷ []))
      → All (IsFragment b cmd at_) ms × IsFragment b cmd at_ (m, now)
  arrivals-IsFragment [] m now (h, _) = (tt, h)
  arrivals-IsFragment (x ∷ ms) m now (h, hs) =
      let (rest, last) = arrivals-IsFragment ms m now hs in ((h, rest), last)

module _ (g : Gossipsub) (b : ByteOrder) (at_ : Instant) (shown : Text) (s : g.Swarm)
    (config : PeerConfig) (req : PublishRequest) where
  abbrev cmd : PublishCommand
  cmd = command config req

  -- What a request that is answered by 200 has sent.
  sent_all :
      (s' : g.Swarm) (r : Result Text) (sent : List (Text × Bytes))
      → IsServed cmd
      → config.chunks < 2 ^ 31
      → (serve g b at_ shown s config req).code ≡ ok_200
      → publish_new_message g b cmd at_ shown s ≡ done (s', r)
      → g.sent s' ≡ g.sent s ++ sent
      → sent ≡ fragments req.topic (base_of b cmd at_) 0 config.chunks
  sent_all s' r sent served small code run new =
      let (s1, r1, run1, how) = serve-code g b at_ shown s config req served small in
      let same : s1 ≡ s' = cc in
      elim how [
        | inl (_, _, all) ↦ append-cancel (g.sent s) sent _ (sym new ∙ ap g.sent (sym same) ∙ all)
        | inr (j, e, _, _, bad, _) ↦ absurd (let code' = ap (λ (x : Reply). x.code) bad in cc)
      ]

  -- A request that is answered by 200 makes a node with the same number of chunks, which gets all that
  -- was sent for it, in any order, print exactly one line, with the time of the publication and the
  -- milliseconds until the last message came, count one message, and keep nothing of it. The command
  -- is served after the first second of 1970 with fewer than 2^31 chunks, and nothing with its
  -- stamp waits at the receiver.
  pub request-delivery :
      (p : Prometheus) (s' : g.Swarm) (r : Result Text) (sent : List (Text × Bytes)) (seconds : ℕ)
      (ms : List (Bytes × Instant)) (m : Bytes) (now : Instant) (receiver : Receiver p)
      → IsServed cmd
      → config.chunks < 2 ^ 31
      → InRange at_ seconds
      → 0 < seconds
      → (serve g b at_ shown s config req).code ≡ ok_200
      → publish_new_message g b cmd at_ shown s ≡ done (s', r)
      → g.sent s' ≡ g.sent s ++ sent
      → Permᴰ (map (λ x. x.1) sent) (map (λ x. x.0) (ms ++ (m, now) ∷ []))
      → pending (unix_nano at_) receiver ≡ 0
      → (receiver' : Receiver p) × (receive_all p b config.chunks (ms ++ (m, now) ∷ []) receiver
          ≡ done receiver')
        × (receiver'.stdout ≡ receiver.stdout ++ report (unix_nano at_) now ∷ [])
        × (receiver'.metrics ≡ inc_received_message p receiver.metrics)
        × (pending (unix_nano at_) receiver' ≡ 0)
  request-delivery p s' r sent seconds ms m now receiver served small clock later code run new
        arrives clean =
      let all = sent_all s' r sent served small code run new in
      let each : All (IsData b cmd at_) (map (λ x. x.1) sent) =
        rw all (fragments-IsData b cmd at_ req.topic 0 config.chunks) in
      let (parts, last) =
        arrivals-IsFragment b cmd at_ ms m now (All-perm (IsData b cmd at_) arrives each) in
      let count : length ms + 1 ≡ config.chunks = omega (
        arith,
        length-perm arrives,
        length-map (λ (x : Text × Bytes). x.1) sent,
        length-map (λ (x : Bytes × Instant). x.0) (ms ++ (m, now) ∷ []),
        length-append ms ((m, now) ∷ []),
        ap length all,
        length-fragments b cmd at_ req.topic 0 config.chunks,
      ) in
      delivery p b cmd at_ seconds ms m now receiver served clock later (omega arith) parts last
        count clean
