-- ===== src/Receive/SeenMap.antt =====
-- `HashMap<i64, u32>` as an association list: what MSG_SEEN is used for.
use dst_libp2p_test_node.Prelude.{
  ℕ, ◌≡◌, ◌↔◌, refl, Bool, false, true, List, [], ◌∷◌, Option, none, some, arith, ◌==◌,
  if◌then◌else◌,
}
use dst_libp2p_test_node.Prelude.Int.{ℤ, pos, negsuc}

abbrev pub int_eq : ℤ → ℤ → Bool
int_eq (pos a) (pos b) = a == b
int_eq (pos a) (negsuc b) = false
int_eq (negsuc a) (pos b) = false
int_eq (negsuc a) (negsuc b) = a == b

pub int_eq_iff : (a b : ℤ) → (int_eq a b ≡ true) ↔ (a ≡ b)
int_eq_iff a b = ground arith

pub int_eq_refl : (a : ℤ) → int_eq a a ≡ true
int_eq_refl a = (int_eq_iff a a).1 refl

abbrev pub Seen : Type 0
Seen = List (ℤ × ℕ)

unfoldable pub get : ℤ → Seen → Option ℕ
get k [] = none
get k ((j, v) ∷ m) = if int_eq j k then some v else get k m

unfoldable pub remove : ℤ → Seen → Seen
remove k [] = []
remove k ((j, v) ∷ m) = let rest = remove k m in if int_eq j k then rest else (j, v) ∷ rest

-- `*map.entry(k).or_insert(0) = v`
unfoldable pub put : ℤ → ℕ → Seen → Seen
unfolding remove
put k v m = (k, v) ∷ remove k m

pub get-remove : (k j : ℤ) (m : Seen) → get j (remove k m) ≡ (if int_eq k j then none else get j m)
unfolding get remove
get-remove k j [] = ground arith
get-remove k j ((i, v) ∷ m) =
    ground (arith, get-remove k j m, int_eq_iff i k, int_eq_iff i j, int_eq_iff k j)

pub get-put :
    (k j : ℤ) (v : ℕ) (m : Seen) → get j (put k v m) ≡ (if int_eq k j then some v else get j m)
unfolding put get
get-put k j v m = ground (arith, get-remove k j m)
