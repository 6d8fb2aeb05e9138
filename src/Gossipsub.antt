-- ===== src/Gossipsub.antt =====
-- What the program uses of libp2p's gossipsub to publish: `Behaviour::publish`, with the documented
-- effect that it is relied on for. An identity topic is its name. The error is its `{:?}` text.
use dst_libp2p_test_node.Prelude.{◌≡◌, refl, List, [], ◌∷◌, ◌++◌, Option, none, some}
use dst_libp2p_test_node.Text.{Text}
use dst_libp2p_test_node.ByteOrder.{Bytes}

-- `publish` returns `none` for `Ok`. `sent` are the messages that were accepted for publishing.
pub record Gossipsub : Type 1 where
  pub Swarm : Type 0
  pub publish : Swarm → Text → Bytes → Swarm × Option Text
  pub sent : Swarm → List (Text × Bytes)
  pub sent-publish_ok :
      (s : Swarm) (t : Text) (d : Bytes)
      → (publish s t d).1 ≡ none
      → sent (publish s t d).0 ≡ sent s ++ (t, d) ∷ []
  pub sent-publish_err :
      (s : Swarm) (t : Text) (d : Bytes) (e : Text)
      → (publish s t d).1 ≡ some e
      → sent (publish s t d).0 ≡ sent s

pub no_error : (A : Type 0) (e : Text) → ◌≡◌ {A = Option Text} none (some e) → A
no_error A e h = absurd (cc)

-- The interface can be met: a swarm that accepts every message.
abbrev pub accepting : Gossipsub
accepting = record {
  Swarm = List (Text × Bytes);
  publish = λ s t d. (s ++ (t, d) ∷ [], none);
  sent = λ s. s;
  sent-publish_ok = λ s t d h. refl;
  sent-publish_err = λ s t d e h. no_error (s ++ (t, d) ∷ [] ≡ s) e h;
}
