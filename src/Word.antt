-- ===== src/Word.antt =====
-- Signed machine integers over ℤ: wrap-around of `i64` and `i32`, casts, and division.
use dst_libp2p_test_node.Prelude.{
  ℕ, zero, suc, ◌-◌, ◌/◌, ◌%◌, ◌^◌, ◌<◌, ◌≡◌, arith, ltb, if◌then◌else◌, inl, inr, Bool-cases,
}
use dst_libp2p_test_node.Prelude.Int.{ℤ, pos, negsuc}

-- The bit pattern of an integer in `w` bits, for the modulus `m` = 2 ^ w.
unfoldable pub to_bits : ℕ → ℤ → ℕ
to_bits m (pos n) = n % m
to_bits m (negsuc n) = m - 1 - n % m

-- The integer that a bit pattern stands for.
unfoldable pub of_bits : ℕ → ℕ → ℤ
of_bits m n = if ltb n (m / 2) then pos n else negsuc (m - 1 - n)

unfoldable pub wrap : ℕ → ℤ → ℤ
unfolding to_bits of_bits
wrap m z = of_bits m (to_bits m z)

abbrev pub wrap_i64 : ℤ → ℤ
wrap_i64 = wrap (2 ^ 64)

abbrev pub wrap_i32 : ℤ → ℤ
wrap_i32 = wrap (2 ^ 32)

-- `n as i64` for an unsigned `n`
abbrev pub as_i64 : ℕ → ℤ
as_i64 n = wrap_i64 (pos n)

abbrev pub InI64 : ℤ → Type 0
InI64 (pos n) = n < 2 ^ 63
InI64 (negsuc n) = n < 2 ^ 63

-- A value that fits is not changed.
pub wrap_i64_id : (z : ℤ) → InI64 z → wrap_i64 z ≡ z
unfolding wrap
wrap_i64_id (pos n) h = ground arith
wrap_i64_id (negsuc n) h = ground arith

pub to_bits-lt : (z : ℤ) → to_bits (2 ^ 64) z < 2 ^ 64
unfolding to_bits
to_bits-lt (pos n) = omega arith
to_bits-lt (negsuc n) = omega arith

pub of_bits-InI64 : (n : ℕ) → n < 2 ^ 64 → InI64 (of_bits (2 ^ 64) n)
unfolding of_bits
of_bits-InI64 n h = elim (Bool-cases (ltb n (2 ^ 63))) [
  | inl low ↦ rw low (ground arith)
  | inr high ↦ rw high (ground arith)
]

unfoldable pub neg_ℕ : ℕ → ℤ
neg_ℕ zero = pos 0
neg_ℕ (suc n) = negsuc n

-- `z / k` on `i64`, which rounds towards zero, for a positive literal `k`.
unfoldable pub div_trunc : ℤ → ℕ → ℤ
unfolding neg_ℕ
div_trunc (pos n) k = pos (n / k)
div_trunc (negsuc n) k = neg_ℕ (suc n / k)
