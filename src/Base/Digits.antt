-- ===== src/Base/Digits.antt =====
-- How many digits printf writes for a number, and how they grow.
use Prim.Native.Nat.{ℕ, zero, suc, ◌+◌, ◌*◌, ◌/◌, ◌%◌, ◌≤◌, ◌<◌, ◌^◌}
use mathlib.Core.Path.{◌≡◌, refl, ap, sym, ◌∙◌}
use mathlib.Core.Logic.{inl, inr}
use mathlib.Core.Bool.{true, false}
use mathlib.Core.List.{[], ◌∷◌, ◌++◌, append_assoc}
use native.Mathlib.Omega.{arith}
use tr181_xpon.Base.Tests.{ltb, Bool-cases, ltb→lt, lt→ltb}
use tr181_xpon.Base.CString.{Text, length}
use tr181_xpon.Base.Decimal.{digits_fuel, decimal, percent_d}

-- The first number with more than so many digits.
abbrev pub limit : ℕ → ℕ
limit zero = 1
limit (suc k) = 10 * limit k

small_digit :
    (f n : ℕ) (rest : Text) → ltb n 10 ≡ true → digits_fuel (suc f) n rest ≡ (b'0' + n) ∷ rest
unfolding digits_fuel
small_digit f n rest h = rw (h, digits_fuel) refl

large_digits :
    (f n : ℕ) (rest : Text)
    → ltb n 10 ≡ false
    → digits_fuel (suc f) n rest ≡ digits_fuel f (n / 10) ((b'0' + n % 10) ∷ rest)
unfolding digits_fuel
large_digits f n rest h = rw (h, digits_fuel) refl

no_fuel : (n : ℕ) (rest : Text) → digits_fuel zero n rest ≡ rest
unfolding digits_fuel
no_fuel n rest = refl

ge→ltb : (n m : ℕ) → m ≤ n → ltb n m ≡ false
ge→ltb n m h = ground arith

is_large : (n : ℕ) → ltb n 10 ≡ false → 10 ≤ n
is_large n h = ground arith

digits_at_most :
    (k f n : ℕ) (rest : Text)
    → n < limit (suc k)
    → length (digits_fuel f n rest) ≤ suc k + length rest
digits_at_most k zero n rest h = omega (arith, ap length (no_fuel n rest))
digits_at_most zero (suc f) n rest h = elim (Bool-cases (ltb n 10)) [
  | inl small ↦ omega (arith, ap length (small_digit f n rest small))
  | inr large ↦ absurd (omega (arith, is_large n large))
]
digits_at_most (suc k) (suc f) n rest h = elim (Bool-cases (ltb n 10)) [
  | inl small ↦ omega (arith, ap length (small_digit f n rest small))
  | inr large ↦ omega (
    arith,
    ap length (large_digits f n rest large),
    digits_at_most k f (n / 10) ((b'0' + n % 10) ∷ rest) (omega arith),
  )
]

limit-positive : (k : ℕ) → 1 ≤ limit k
limit-positive zero = omega arith
limit-positive (suc k) = omega (arith, limit-positive k)

digits_keep : (f n : ℕ) (rest : Text) → length rest ≤ length (digits_fuel f n rest)
digits_keep zero n rest = omega (arith, ap length (no_fuel n rest))
digits_keep (suc f) n rest = elim (Bool-cases (ltb n 10)) [
  | inl small ↦ omega (arith, ap length (small_digit f n rest small))
  | inr large ↦ omega (
    arith,
    ap length (large_digits f n rest large),
    digits_keep f (n / 10) ((b'0' + n % 10) ∷ rest),
  )
]

digits_at_least :
    (k f n : ℕ) (rest : Text)
    → limit k ≤ n
    → k < f
    → suc k + length rest ≤ length (digits_fuel f n rest)
digits_at_least k zero n rest h l = absurd (omega arith)
digits_at_least zero (suc f) n rest h l = elim (Bool-cases (ltb n 10)) [
  | inl small ↦ omega (arith, ap length (small_digit f n rest small))
  | inr large ↦ omega (
    arith,
    ap length (large_digits f n rest large),
    digits_keep f (n / 10) ((b'0' + n % 10) ∷ rest),
  )
]
digits_at_least (suc k) (suc f) n rest h l = elim (Bool-cases (ltb n 10)) [
  | inl small ↦ absurd (omega (arith, limit-positive k, ltb→lt n 10 small))
  | inr large ↦ omega (
    arith,
    ap length (large_digits f n rest large),
    digits_at_least k f (n / 10) ((b'0' + n % 10) ∷ rest) (omega arith) (omega arith),
  )
]

digits_fuel-rest : (f n : ℕ) (rest : Text) → digits_fuel f n rest ≡ digits_fuel f n [] ++ rest
digits_fuel-rest zero n rest = no_fuel n rest ∙ ap (λ t. t ++ rest) (sym (no_fuel n []))
digits_fuel-rest (suc f) n rest = elim (Bool-cases (ltb n 10)) [
  | inl small ↦ small_digit f n rest small ∙ ap (λ t. t ++ rest) (sym (small_digit f n [] small))
  | inr large ↦
      let d = b'0' + n % 10 in
      large_digits f n rest large
      ∙ digits_fuel-rest f (n / 10) (d ∷ rest)
      ∙ sym (append_assoc (digits_fuel f (n / 10) []) (d ∷ []) rest)
      ∙ ap (λ t. t ++ rest) (sym (large_digits f n [] large ∙ digits_fuel-rest f (n / 10) (d ∷ [])))
]

-- More fuel than digits changes nothing.
digits_fuel-more :
    (k f n : ℕ) (rest : Text)
    → n < limit (suc k)
    → k < f
    → digits_fuel (suc f) n rest ≡ digits_fuel f n rest
digits_fuel-more k zero n rest h l = absurd (omega arith)
digits_fuel-more zero (suc f) n rest h l =
    let small = lt→ltb n 10 (omega arith) in
    small_digit (suc f) n rest small ∙ sym (small_digit f n rest small)
digits_fuel-more (suc k) (suc f) n rest h l = elim (Bool-cases (ltb n 10)) [
  | inl small ↦ small_digit (suc f) n rest small ∙ sym (small_digit f n rest small)
  | inr large ↦
      large_digits (suc f) n rest large
      ∙ digits_fuel-more k f (n / 10) ((b'0' + n % 10) ∷ rest) (omega arith) (omega arith)
      ∙ sym (large_digits f n rest large)
]

percent_d_digits : (n : ℕ) → n < 2 ^ 31 → percent_d n ≡ digits_fuel 10 n []
unfolding percent_d decimal
percent_d_digits n s = rw (lt→ltb n (2 ^ 31) s, percent_d) refl

pub percent_d-at_most : (k n : ℕ) → n < limit (suc k) → n < 2 ^ 31 → length (percent_d n) ≤ suc k
percent_d-at_most k n h s =
    omega (arith, ap length (percent_d_digits n s), digits_at_most k 10 n [] h)

pub percent_d-at_least :
    (k n : ℕ) → limit k ≤ n → k < 10 → n < 2 ^ 31 → suc k ≤ length (percent_d n)
percent_d-at_least k n h l s =
    omega (arith, ap length (percent_d_digits n s), digits_at_least k 10 n [] h l)

-- The last digit stands behind the digits of a tenth of the number.
pub percent_d_snoc :
    (n : ℕ) → 10 ≤ n → n < 2 ^ 31 → percent_d n ≡ percent_d (n / 10) ++ ((b'0' + n % 10) ∷ [])
percent_d_snoc n h s =
    let d = b'0' + n % 10 in
    percent_d_digits n s
    ∙ large_digits 9 n [] (ge→ltb n 10 h)
    ∙ digits_fuel-rest 9 (n / 10) (d ∷ [])
    ∙ ap (λ t. t ++ (d ∷ []))
        (sym (
          percent_d_digits (n / 10) (omega arith)
          ∙ digits_fuel-more 8 9 (n / 10) [] (omega arith) (omega arith)))
