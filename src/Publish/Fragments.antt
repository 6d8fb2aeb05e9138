-- ===== src/Publish/Fragments.antt =====
-- The fragments of one message: the payload with the fragment's number in its eleventh byte.
use dst_libp2p_test_node.Prelude.{
  ℕ, zero, suc, ◌+◌, ◌%◌, ◌≤◌, ◌<◌, ◌≡◌, refl, ap, sym, ◌∙◌, ◌⊎◌, ◌↔◌, List, [], ◌∷◌, Option, some,
  arith, ltb, length, length-set, length-append, length-drop, length-replicate, set-set, take,
  take-set, take_of_append, drop, replicate, get_elem?, get_elem?-set_self, inl, inr, Bool-cases,
}
use dst_libp2p_test_node.Prelude.Int.{ℤ}
use dst_libp2p_test_node.Word.{InI64}
use dst_libp2p_test_node.Text.{Text}
use dst_libp2p_test_node.ByteOrder.{Bytes, ByteOrder}
use dst_libp2p_test_node.Publish.{mark, payload}

-- The fragment with number `k`.
abbrev pub fragment : Bytes → ℕ → Bytes
fragment base k = mark k base

-- `n` fragments from number `k` on, as they are published on a topic.
abbrev pub fragments : Text → Bytes → ℕ → ℕ → List (Text × Bytes)
fragments topic base k zero = []
fragments topic base k (suc n) = (topic, fragment base k) ∷ fragments topic base (k + 1) n

pub length-mark : (k : ℕ) (base : Bytes) → length (mark k base) ≡ length base
unfolding mark
length-mark k base = ground (arith, length-set base 10 (k % 256))

-- The buffer is marked anew in each round, and the last mark stays.
pub mark-mark : (k j : ℕ) (base : Bytes) → mark k (mark j base) ≡ mark k base
unfolding mark
mark-mark k j base = elim (Bool-cases (ltb 10 (length base))) [
  | inl long ↦ rw (long, length-set base 10 (j % 256), long) (set-set base 10 (j % 256) (k % 256))
  | inr short ↦ rw (short, short) refl
]

-- The mark stands behind the time stamp.
pub take-mark : (k : ℕ) (base : Bytes) → take 8 (mark k base) ≡ take 8 base
unfolding mark
take-mark k base = ground (arith, take-set 8 base 10 (k % 256))

pub length-payload :
    (b : ByteOrder) (z : ℤ) (size : ℕ) → 8 ≤ size → length (payload b z size) ≡ size
length-payload b z size h = omega (
  arith,
  length-append (b.write_i64 z) (drop 8 (replicate size 0)),
  b.length-write z,
  length-drop {A = ℕ} 8 (replicate size 0),
  length-replicate {A = ℕ} size 0,
)

pub take-payload : (b : ByteOrder) (z : ℤ) (size : ℕ) → take 8 (payload b z size) ≡ b.write_i64 z
take-payload b z size =
    ap (λ n. take n (payload b z size)) (sym (b.length-write z))
    ∙ take_of_append (b.write_i64 z) (drop 8 (replicate size 0))

-- Every fragment has the size asked for, and its first eight bytes are read back as the time of
-- publication.
pub fragment-header :
    (b : ByteOrder) (z : ℤ) (size k : ℕ)
    → InI64 z
    → 8 ≤ size
    → (length (fragment (payload b z size) k) ≡ size)
      × (b.read_i64 (take 8 (fragment (payload b z size) k)) ≡ some z)
fragment-header b z size k fits h = (
  length-mark k _ ∙ length-payload b z size h,
  ap b.read_i64 (take-mark k _ ∙ take-payload b z size) ∙ b.read-write z fits,
)

mark_byte : (k : ℕ) (base : Bytes) → 10 < length base → get_elem? (mark k base) 10 ≡ some (k % 256)
unfolding mark
mark_byte k base h = ground (arith, get_elem?-set_self base 10 (k % 256))

mark_short : (k : ℕ) (base : Bytes) → length base ≤ 10 → mark k base ≡ base
unfolding mark
mark_short k base h = ground arith

mark_mod : (j k : ℕ) (base : Bytes) → j % 256 ≡ k % 256 → mark j base ≡ mark k base
unfolding mark
mark_mod j k base e = rw e refl

some_apart : (j k : ℕ) → ◌≡◌ {A = Option ℕ} (some j) (some k) → j ≡ k
some_apart j k e = cc

-- Two fragments of a message are equal exactly if it has no room for the mark, that is, if they are
-- at most ten bytes long, or if their numbers agree in the low byte.
pub fragment-eq_iff :
    (base : Bytes) (j k : ℕ)
    → (fragment base j ≡ fragment base k) ↔ ((length base ≤ 10) ⊎ (j % 256 ≡ k % 256))
fragment-eq_iff base j k = (
  λ e. elim (Bool-cases (ltb 10 (length base))) [
    | inl long ↦ inr (
        some_apart (j % 256) (k % 256) (
          sym (mark_byte j base (ground arith))
          ∙ ap (λ f. get_elem? f 10) e
          ∙ mark_byte k base (ground arith)))
    | inr short ↦ inl (ground arith)
  ],
  elim [
    | inl short ↦ mark_short j base short ∙ sym (mark_short k base short)
    | inr same ↦ mark_mod j k base same
  ],
)
