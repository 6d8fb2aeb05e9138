-- ===== src/Prelude/Perms.antt =====
-- What a permutation of a list keeps.
use mathlib.Core.Path.{◌≡◌, refl, ap, ◌∙◌, subst}
use mathlib.Core.List.{List, Permᴰ}
use Prim.Native.Nat.{suc}
use dst_libp2p_test_node.Prelude.Lists.{length, All}

pub All-perm : {A : Type 0} (P : A → Type 0) {xs ys : List A} → Permᴰ xs ys → All P xs → All P ys
All-perm P Permᴰ.nil h = h
All-perm P (Permᴰ.cons e d) (px, h) = (subst P e px, All-perm P d h)
All-perm P (Permᴰ.swap e e') (pa, (pb, h)) = (subst P e' pb, (subst P e pa, h))
All-perm P (Permᴰ.trans d d') h = All-perm P d' (All-perm P d h)

pub length-perm : {A : Type 0} {xs ys : List A} → Permᴰ xs ys → length xs ≡ length ys
length-perm Permᴰ.nil = refl
length-perm (Permᴰ.cons e d) = ap suc (length-perm d)
length-perm (Permᴰ.swap e e') = refl
length-perm (Permᴰ.trans d d') = length-perm d ∙ length-perm d'
