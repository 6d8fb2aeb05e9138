-- ===== src/ByteOrder.antt =====
-- What the program uses of the crate `byteorder`: `write_i64::<LittleEndian>` into eight bytes and
-- `read_i64::<LittleEndian>` from eight bytes, with the documented facts that it relies on.
use native.Mathlib.Nat.{pow-suc}
use mathlib.Core.Path.{subst}
use dst_libp2p_test_node.Prelude.{
  ℕ, zero, suc, ◌+◌, ◌*◌, ◌/◌, ◌%◌, ◌^◌, ◌<◌, ◌≡◌, refl, ap, List, [], ◌∷◌, Option, none, some,
  arith, length, if◌then◌else◌, ◌==◌, true, ==_iff, inl, inr, Bool-cases,
}
use dst_libp2p_test_node.Prelude.Int.{ℤ}
use dst_libp2p_test_node.Word.{
  InI64, to_bits, to_bits-lt, of_bits, of_bits-InI64, wrap_i64_id, wrap,
}

abbrev pub Bytes : Type 0
Bytes = List ℕ

-- `read_i64` is `none` where the reader ends early.
pub record ByteOrder : Type 0 where
  pub write_i64 : ℤ → Bytes
  pub read_i64 : Bytes → Option ℤ
  pub length-write : (z : ℤ) → length (write_i64 z) ≡ 8
  pub read-write : (z : ℤ) → InI64 z → read_i64 (write_i64 z) ≡ some z
  pub read_total : (b : Bytes) → length b ≡ 8 → (z : ℤ) × (read_i64 b ≡ some z)
  pub read-InI64 : (b : Bytes) (z : ℤ) → read_i64 b ≡ some z → InI64 z

-- The interface can be met, by little-endian digits of the bit pattern.
unfoldable pub le_bytes : ℕ → ℕ → Bytes
le_bytes zero n = []
le_bytes (suc k) n = (n % 256) ∷ le_bytes k (n / 256)

unfoldable pub of_le : Bytes → ℕ
of_le [] = 0
of_le (b ∷ bs) = b % 256 + 256 * of_le bs

of_le-le_bytes : (k n : ℕ) → n < 256 ^ k → of_le (le_bytes k n) ≡ n
unfolding le_bytes of_le
of_le-le_bytes zero n h = omega arith
of_le-le_bytes (suc k) n h =
    omega (arith, pow-suc 256 k, of_le-le_bytes k (n / 256) (omega (arith, pow-suc 256 k)))

of_le-lt : (bs : Bytes) → of_le bs < 256 ^ length bs
unfolding of_le
of_le-lt [] = omega arith
of_le-lt (b ∷ bs) = omega (arith, pow-suc 256 (length bs), of_le-lt bs)

pub length-le_bytes : (k n : ℕ) → length (le_bytes k n) ≡ k
unfolding le_bytes
length-le_bytes zero n = refl
length-le_bytes (suc k) n = ap suc (length-le_bytes k (n / 256))

unfoldable pub read_le : Bytes → Option ℤ
unfolding of_le
read_le bs = if length bs == 8 then some (of_bits (2 ^ 64) (of_le bs)) else none

pub read_le-write : (z : ℤ) → InI64 z → read_le (le_bytes 8 (to_bits (2 ^ 64) z)) ≡ some z
unfolding read_le of_bits wrap
read_le-write z h =
    rw (length-le_bytes, of_le-le_bytes 8 (to_bits (2 ^ 64) z) (to_bits-lt z))
      (ap some (wrap_i64_id z h))

pub read_le_total : (b : Bytes) → length b ≡ 8 → (z : ℤ) × (read_le b ≡ some z)
unfolding read_le
read_le_total b h = (of_bits (2 ^ 64) (of_le b), rw h refl)

length_8 : (b : Bytes) → (length b == 8) ≡ true → length b ≡ 8
length_8 b h = (==_iff (length b) 8).0 h

pub read_le-InI64 : (b : Bytes) (z : ℤ) → read_le b ≡ some z → InI64 z
unfolding read_le
read_le-InI64 b z e = elim (Bool-cases (length b == 8)) [
  | inl full ↦
      let read : some (of_bits (2 ^ 64) (of_le b)) ≡ some z = rw (full, read_le) at e in
      subst InI64 (cc)
        (of_bits-InI64 (of_le b) (omega (arith, of_le-lt b, ap (λ k. 256 ^ k) (length_8 b full))))
  | inr short ↦ absurd (cc (rw (short, read_le) at e))
]

abbrev pub little_endian : ByteOrder
little_endian = record {
  write_i64 = λ z. le_bytes 8 (to_bits (2 ^ 64) z);
  read_i64 = read_le;
  length-write = λ z. length-le_bytes 8 _;
  read-write = read_le-write;
  read_total = read_le_total;
  read-InI64 = read_le-InI64;
}
