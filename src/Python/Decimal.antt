-- ===== src/Python/Decimal.antt =====
-- `str` of an integer and `int` of a digit text, and that they are inverse.
use algorandscout.Prelude.{
  All, Bool-cases, Text, [], arith, codes, if◌then◌else◌, inl, inr, refl, suc, zero, ℕ, ◌%◌, ◌*◌,
  ◌+◌, ◌-◌, ◌/◌, ◌<◌, ◌==◌, ◌∷◌, ◌≡◌, ◌≤◌,
}
use algorandscout.Prelude.Int.{negsuc, pos, ℤ}

-- Digits in front of `out`, the last one first. Fuel above `n` is enough.
unfoldable pub digits : ℕ → ℕ → Text → Text
digits zero n out = out
digits (suc f) n out =
    let last = (b'0' + n % 10) ∷ out in
    let rest = digits f (n / 10) last in if n / 10 == 0 then last else rest

-- `str(n)` of a number that is not negative.
unfoldable pub str_ℕ : ℕ → Text
unfolding digits
str_ℕ n = digits (suc n) n []

-- `str(n)`
unfoldable pub str_ℤ : ℤ → Text
unfolding str_ℕ
str_ℤ (pos n) = str_ℕ n
str_ℤ (negsuc n) = b'-' ∷ str_ℕ (suc n)

abbrev pub IsDigit : ℕ → Type 0
IsDigit c = (b'0' ≤ c) × (c ≤ b'9')

-- The number that decimal digits spell behind `n`.
unfoldable pub value_from : ℕ → Text → ℕ
value_from n [] = n
value_from n (c ∷ s) = value_from (n * 10 + (c - b'0')) s

pub value_from-digits :
    (f n : ℕ) (out : Text) → n < f → value_from 0 (digits f n out) ≡ value_from n out
unfolding digits value_from
value_from-digits zero n out h = elim h [ ]
value_from-digits (suc f) n out h =
    ground (arith, value_from-digits f (n / 10) ((b'0' + n % 10) ∷ out))

-- The digits of a number spell that number.
pub value_from-str_ℕ : (n : ℕ) → value_from 0 (str_ℕ n) ≡ n
unfolding str_ℕ value_from
value_from-str_ℕ n = value_from-digits (suc n) n [] (omega arith)

pub digits-IsDigit : (f n : ℕ) (out : Text) → All IsDigit out → All IsDigit (digits f n out)
unfolding digits
digits-IsDigit zero n out h = h
digits-IsDigit (suc f) n out h = elim (Bool-cases (n / 10 == 0)) [
  | inl e ↦ rw e ((omega arith, omega arith), h)
  | inr e ↦ rw e (digits-IsDigit f (n / 10) _ ((omega arith, omega arith), h))
]

pub str_ℕ-IsDigit : (n : ℕ) → All IsDigit (str_ℕ n)
unfolding str_ℕ
str_ℕ-IsDigit n = digits-IsDigit (suc n) n [] tt

str_max : str_ℕ 18446744073709551615 ≡ codes "18446744073709551615"
unfolding str_ℕ
str_max = refl
