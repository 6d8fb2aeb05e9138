-- ===== src/MessageId.antt =====
-- rust-test-node/src/main.rs: `msg_id_provider`. The hasher of `std` is an input, as the function from
-- the data to the 64-bit number that `finish` returns.
pub mod Duplicates
use dst_libp2p_test_node.Prelude.{
  ℕ, ◌≤◌, ◌≡◌, ◌↔◌, refl, ap, sym, ◌∙◌, Bool, true, Option, some, none,
}
use dst_libp2p_test_node.Text.{Text}
use dst_libp2p_test_node.Text.Decimal.{display, parse_unsigned, parse-display, max_u64}
use dst_libp2p_test_node.ByteOrder.{Bytes}

-- gossipsub's `Message`; its source is the bytes of a peer's id.
pub record Message : Type 0 where
  pub source : Option Bytes
  pub topic : Text
  pub data' : Bytes
  pub sequence_number : Option ℕ

-- `DefaultHasher`
pub record Hasher : Type 0 where
  pub hash : Bytes → ℕ
  pub hash-le : (bytes : Bytes) → hash bytes ≤ max_u64

module _ (h : Hasher) where
  unfoldable pub msg_id_provider : Message → Text
  msg_id_provider m = display (h.hash m.data')

  -- Two messages have the same id exactly if the hashes of their data agree: the topic, the sender and
  -- the sequence number play no part, so that a message sent anew has the id that it had.
  pub msg_id_provider-eq_iff :
      (m m' : Message)
      → (msg_id_provider m ≡ msg_id_provider m') ↔ (h.hash m.data' ≡ h.hash m'.data')
  unfolding msg_id_provider
  msg_id_provider-eq_iff m m' = (
    λ e.
        let read : some (h.hash m.data') ≡ some (h.hash m'.data') =
          sym (parse-display max_u64 _ (h.hash-le m.data'))
          ∙ ap (parse_unsigned max_u64) e
          ∙ parse-display max_u64 _ (h.hash-le m'.data') in
        cc,
    λ e. ap display e,
  )
