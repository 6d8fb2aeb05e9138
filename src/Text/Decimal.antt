-- ===== src/Text/Decimal.antt =====
-- Decimal numbers: `parse` of the unsigned integers and their `Display`.
use dst_libp2p_test_node.Prelude.{
  ℕ, zero, suc, ◌+◌, ◌-◌, ◌*◌, ◌/◌, ◌%◌, ◌^◌, ◌≤◌, ◌<◌, ◌≡◌, ◌≢◌, refl, Bool, ◌&&◌, List, [], ◌∷◌,
  Option, none, some, arith, leb, ltb, ◌==◌, if◌then◌else◌, All, inl, inr, Bool-cases,
}

abbrev is_digit : ℕ → Bool
is_digit c = leb b'0' c && leb c b'9'

-- The digits behind the value `n` that is already read; a value past `top` is refused.
scan : ℕ → List ℕ → ℕ → Option ℕ
scan top [] n = some n
scan top (c ∷ s) n =
    let m = n * 10 + (c - b'0') in
    let rest = scan top s m in if is_digit c then (if leb m top then rest else none) else none

-- `str::parse` for an unsigned type with greatest value `top`: a `+` may stand in front of the digits.
unfoldable pub parse_unsigned : ℕ → List ℕ → Option ℕ
unfolding scan
parse_unsigned top [] = none
parse_unsigned top (c ∷ []) = scan top (c ∷ []) 0
parse_unsigned top (c ∷ d ∷ s) = if c == b'+' then scan top (d ∷ s) 0 else scan top (c ∷ d ∷ s) 0

abbrev pub max_u64 : ℕ
max_u64 = 2 ^ 64 - 1

abbrev pub max_u32 : ℕ
max_u32 = 2 ^ 32 - 1

-- The digits of `n` in front of `out`; the fuel bounds their number.
digits : ℕ → ℕ → List ℕ → List ℕ
digits zero n out = out
digits (suc f) n out =
    let more = digits f (n / 10) ((b'0' + n % 10) ∷ out) in
    if ltb n 10 then (b'0' + n) ∷ out else more

-- `Display` of an unsigned integer.
unfoldable pub display : ℕ → List ℕ
unfolding digits
display n = digits (suc n) n []

abbrev pub IsDigit : ℕ → Type 0
IsDigit c = (b'0' ≤ c) × (c ≤ b'9')

scan_last :
    (top n : ℕ) (out : List ℕ)
    → n ≤ top
    → scan top ((b'0' + n % 10) ∷ out) (n / 10) ≡ scan top out n
unfolding scan
scan_last top n out h = ground arith

scan_first :
    (top n : ℕ) (out : List ℕ) → n ≤ top → n < 10 → scan top ((b'0' + n) ∷ out) 0 ≡ scan top out n
unfolding scan
scan_first top n out h k = ground arith

scan-digits :
    (f top n : ℕ) (out : List ℕ) → n < f → n ≤ top → scan top (digits f n out) 0 ≡ scan top out n
unfolding digits
scan-digits zero top n out h le = elim h [ ]
scan-digits (suc f) top n out h le = elim (Bool-cases (ltb n 10)) [
  | inl one ↦ rw one (scan_first top n out le (ground arith))
  | inr more ↦ rw more (
      rw (scan-digits f top (n / 10) ((b'0' + n % 10) ∷ out) (ground arith) (ground arith))
        (scan_last top n out le))
]

digits-All : (f n : ℕ) (out : List ℕ) → All IsDigit out → All IsDigit (digits f n out)
unfolding digits
digits-All zero n out h = h
digits-All (suc f) n out h = elim (Bool-cases (ltb n 10)) [
  | inl one ↦ rw one (ground arith, h)
  | inr more ↦ rw more (digits-All f (n / 10) ((b'0' + n % 10) ∷ out) (ground arith, h))
]

-- A printed number holds digits only.
pub display-All : (n : ℕ) → All IsDigit (display n)
unfolding display
display-All n = digits-All (suc n) n [] tt

digits-ne-nil : (f n : ℕ) (c : ℕ) (out : List ℕ) → digits f n (c ∷ out) ≢ []
unfolding digits
digits-ne-nil zero n c out = λ e. cc
digits-ne-nil (suc f) n c out = ground (arith, digits-ne-nil f (n / 10) (b'0' + n % 10) (c ∷ out))

pub display-ne-nil : (n : ℕ) → display n ≢ []
unfolding display digits
display-ne-nil n = ground (arith, digits-ne-nil n (n / 10) (b'0' + n % 10) [])

parse-scan : (top : ℕ) (s : List ℕ) → s ≢ [] → All IsDigit s → parse_unsigned top s ≡ scan top s 0
unfolding parse_unsigned
parse-scan top [] h _ = absurd (h refl)
parse-scan top (c ∷ []) h _ = refl
parse-scan top (c ∷ d ∷ s) h k = ground arith

-- Reading a printed number gives it back, if it is in the range of the type.
pub parse-display : (top n : ℕ) → n ≤ top → parse_unsigned top (display n) ≡ some n
unfolding display scan
parse-display top n h =
    rw (parse-scan top _ (display-ne-nil n) (display-All n))
      (scan-digits (suc n) top n [] (omega arith) h)

scan-le : (top : ℕ) (s : List ℕ) (n r : ℕ) → n ≤ top → scan top s n ≡ some r → r ≤ top
unfolding scan
scan-le top [] n r h e = ground arith
scan-le top (c ∷ s) n r h e = ground (arith, scan-le top s (n * 10 + (c - b'0')) r)

-- An accepted number is in the range of the type.
pub parse-le : (top : ℕ) (s : List ℕ) (r : ℕ) → parse_unsigned top s ≡ some r → r ≤ top
unfolding parse_unsigned scan
parse-le top [] r e = cc
parse-le top (c ∷ []) r e = scan-le top (c ∷ []) 0 r (omega arith) e
parse-le top (c ∷ d ∷ s) r e = elim (Bool-cases (c == b'+')) [
  | inl signed ↦ scan-le top (d ∷ s) 0 r (omega arith) (rw (signed, parse_unsigned) at e)
  | inr plain ↦ scan-le top (c ∷ d ∷ s) 0 r (omega arith) (rw (plain, parse_unsigned) at e)
]
