-- ===== src/Tests/Ids.antt =====
-- Ids of messages, and a swarm that refuses what it has published before.
use dst_libp2p_test_node.Prelude.{
  ℕ, ◌≤◌, ◌≡◌, ◌↔◌, refl, true, List, [], ◌∷◌, ◌++◌, Option, none, some, arith, if◌then◌else◌, inl,
  inr, Bool-cases,
}
use dst_libp2p_test_node.Text.{Text, codes, text_eq, text_eq_refl}
use dst_libp2p_test_node.Outcome.{done, err}
use dst_libp2p_test_node.ByteOrder.{Bytes, little_endian}
use dst_libp2p_test_node.Gossipsub.{Gossipsub}
use dst_libp2p_test_node.Publish.{PublishCommand, publish_new_message}
use dst_libp2p_test_node.Publish.Fragments.{fragments}
use dst_libp2p_test_node.Publish.Loop.{failure}
use dst_libp2p_test_node.Publish.Total.{IsServed, base_of}
use dst_libp2p_test_node.MessageId.{Message, msg_id_provider, msg_id_provider-eq_iff}
use dst_libp2p_test_node.MessageId.Duplicates.{DuplicateCache, publish_new_message-duplicate}
use dst_libp2p_test_node.Tests.Data.{noon}
use dst_libp2p_test_node.Tests.Starting.{length_hash}

-- Data of one length, of two senders on two topics.
abbrev from_a : Message
from_a = record {
  source = some (1 ∷ []);
  topic = codes "a";
  data' = 1 ∷ 2 ∷ [];
  sequence_number = some 7;
}

abbrev from_b : Message
from_b = record {
  source = some (2 ∷ []);
  topic = codes "b";
  data' = 3 ∷ 4 ∷ [];
  sequence_number = none;
}

msg_id_provider-eq_iff_example :
    (msg_id_provider length_hash from_a ≡ msg_id_provider length_hash from_b) ↔ (◌≡◌ {A = ℕ} 2 2)
msg_id_provider-eq_iff_example = msg_id_provider-eq_iff length_hash from_a from_b

-- The message that gossipsub makes of the data, as far as its id goes.
abbrev as_message : Text → Bytes → Message
as_message t d = record { source = none; topic = t; data' = d; sequence_number = none }

-- The messages that were sent, and the last id.
abbrev Sender : Type 0
Sender = List (Text × Bytes) × Text

same_id :
    (m : Message)
    → msg_id_provider length_hash (as_message m.topic m.data') ≡ msg_id_provider length_hash m
unfolding msg_id_provider
same_id m = refl

refusing : Sender → Text → Bytes → Sender × Option Text
refusing (sent, known) t d =
    let name = msg_id_provider length_hash (as_message t d) in
    if text_eq known name
    then ((sent, known), some (codes "Duplicate"))
    else ((sent ++ (t, d) ∷ [], name), none)

refusing_ok :
    (s : Sender) (t : Text) (d : Bytes)
    → (refusing s t d).1 ≡ none
    → ((refusing s t d).0.0 ≡ s.0 ++ (t, d) ∷ [])
      × ((refusing s t d).0.1 ≡ msg_id_provider length_hash (as_message t d))
unfolding refusing
refusing_ok (sent, known) t d h =
    let name = msg_id_provider length_hash (as_message t d) in
    elim (Bool-cases (text_eq known name)) [
      | inl same ↦
          absurd
            (let bad : ◌≡◌ {A = Option Text} (some (codes "Duplicate")) none = rw same at h in cc)
      | inr new ↦ rw new (refl, refl)
    ]

refusing_err :
    (s : Sender) (t : Text) (d : Bytes) (e : Text)
    → (refusing s t d).1 ≡ some e
    → (refusing s t d).0.0 ≡ s.0
unfolding refusing
refusing_err (sent, known) t d e h =
    let name = msg_id_provider length_hash (as_message t d) in
    elim (Bool-cases (text_eq known name)) [
      | inl same ↦ rw same refl
      | inr new ↦ absurd (let bad : ◌≡◌ {A = Option Text} none (some e) = rw new at h in cc)
    ]

refusing_held :
    (s : Sender) (m : Message)
    → text_eq s.1 (msg_id_provider length_hash m) ≡ true
    → (e : Text) × ((refusing s m.topic m.data').1 ≡ some e)
unfolding refusing
refusing_held (sent, known) m h = (codes "Duplicate", rw (same_id m, h) refl)

abbrev remembering : Gossipsub
remembering = record {
  Swarm = Sender;
  publish = refusing;
  sent = λ s. s.0;
  sent-publish_ok = λ s t d h. (refusing_ok s t d h).0;
  sent-publish_err = refusing_err;
}

abbrev last_id : DuplicateCache remembering length_hash
last_id = record {
  holds = λ s name. text_eq s.1 name;
  publish_held = refusing_held;
  holds-publish = λ s m h.
      rw ((refusing_ok s m.topic m.data' h).1, same_id m)
        (text_eq_refl (msg_id_provider length_hash m));
}

-- Three fragments of eight bytes.
abbrev short : PublishCommand
short = record { topic = codes "test"; msg_size = 24; chunks = 3 }

short-IsServed : IsServed short
short-IsServed = record {
  some_chunks = omega arith;
  room_for_time = omega arith;
  fits_vec = omega arith;
}

publish_new_message-duplicate_example :
    (s' : Sender) × (e : Text) × (j : ℕ) × (publish_new_message remembering little_endian short noon
        (codes "noon")
        ([], [])
      ≡ done (s', err (failure e)))
    × (j ≤ 1)
    × (s'.0 ≡ [] ++ fragments (codes "test") (base_of little_endian short noon) 0 j)
publish_new_message-duplicate_example =
    publish_new_message-duplicate remembering length_hash last_id little_endian short noon
      (codes "noon") ([], []) short-IsServed (omega arith) (omega arith)
