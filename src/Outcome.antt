-- ===== src/Outcome.antt =====
-- How a call of the program ends: `Run` tells a panic from a return, `Result` is
-- `Result<A, String>` (an error type that is only printed is its text).
use dst_libp2p_test_node.Prelude.{Option, none, some, ◌≡◌, refl, ◌⊎◌, inl, inr}
use dst_libp2p_test_node.Text.{Text}

pub data Run {ℓ} (A : Type ℓ) : Type ℓ where
  done : A → Run A
  panic : Run A

pub data Result {ℓ} (A : Type ℓ) : Type ℓ where
  ok : A → Result A
  err : Text → Result A

infixl 5 ◌>>=◌
abbrev pub ◌>>=◌ {ℓ κ} : {A : Type ℓ} {B : Type κ} → Run A → (A → Run B) → Run B
done a >>= f = f a
panic >>= f = panic

-- `unwrap` of an option or of a result whose error is not used
abbrev pub unwrap {ℓ} : {A : Type ℓ} → Option A → Run A
unwrap none = panic
unwrap (some a) = done a

abbrev pub unwrap_or {ℓ} : {A : Type ℓ} → Option A → A → A
unwrap_or none a = a
unwrap_or (some b) a = b

pub Run-cases {ℓ} : {A : Type ℓ} (r : Run A) → (r ≡ panic) ⊎ ((a : A) × (r ≡ done a))
Run-cases panic = inl refl
Run-cases (done a) = inr (a, refl)

pub Result-cases {ℓ} :
    {A : Type ℓ} (r : Result A) → ((e : Text) × (r ≡ err e)) ⊎ ((a : A) × (r ≡ ok a))
Result-cases (err e) = inl (e, refl)
Result-cases (ok a) = inr (a, refl)
