-- ===== src/Mapping/Amounts/RoundTrip.antt =====
-- `decimal_string` loses nothing: its text reads back as the amount.
use mathlib.Core.Path.{ap₂}
use algorandscout.Mapping.Amounts.{decimal_string, decimal_text, point, rjust}
use algorandscout.Prelude.{
  All, All-append, Bool-cases, Text, [], ap, arith, drop, false, if◌then◌else◌, inl, inr, is_nil,
  length, length-append, length-drop, length-replicate, refl, replicate, rstrip, suc, take,
  take-append-drop, true, zero, ℕ, ◌&&◌, ◌*◌, ◌++◌, ◌+◌, ◌-◌, ◌==◌, ◌∙◌, ◌∷◌, ◌≡◌, ◌≤◌,
}
use algorandscout.Prelude.Int.{negsuc, pos, ℤ}
use algorandscout.Python.{Platform, nat, num, ok, text}
use algorandscout.Python.Decimal.{IsDigit, str_ℕ, str_ℕ-IsDigit, value_from, value_from-str_ℕ}

-- An independent reading of a decimal text at a scale of `10 ^ d`: the digits in front of the point,
-- those behind it, and zeros for the places that are not written.
unfoldable pub before_point : Text → Text
before_point [] = []
before_point (c ∷ s) = elim (c == b'.') [ true ↦ [] | false ↦ c ∷ before_point s ]

unfoldable pub behind_point : Text → Text
behind_point [] = []
behind_point (c ∷ s) = elim (c == b'.') [ true ↦ s | false ↦ behind_point s ]

unfoldable pub read_unsigned : ℕ → Text → ℕ
unfolding before_point behind_point
read_unsigned d s =
    value_from 0
      (before_point s ++ (behind_point s ++ replicate (d - length (behind_point s)) b'0'))

abbrev pub negated : ℕ → ℤ
negated zero = pos 0
negated (suc n) = negsuc n

unfoldable pub read_decimal : ℕ → Text → ℤ
unfolding read_unsigned
read_decimal d [] = pos 0
read_decimal d (c ∷ s) =
    if c == b'-' then negated (read_unsigned d s) else pos (read_unsigned d (c ∷ s))

all_gone :
    (c x : ℕ) {s : Text} (r : Text) (k : ℕ)
    → (is_nil r && x == c) ≡ true
    → r ++ replicate k c ≡ s
    → replicate (suc k) c ≡ x ∷ s
all_gone c x [] k h e = ap₂ ◌∷◌ (ground arith) e
all_gone c x (y ∷ r) k h e = cc

-- What `rstrip` took off is the character, some number of times.
rstrip-replicate : (c : ℕ) (s : Text) → (k : ℕ) × (rstrip (λ x. x == c) s ++ replicate k c ≡ s)
rstrip-replicate c [] = (0, refl)
rstrip-replicate c (x ∷ s) =
    let (k, e) = rstrip-replicate c s in
    elim (Bool-cases (is_nil (rstrip (λ y. y == c) s) && x == c)) [
      | inl gone ↦ (suc k, rw (gone, rstrip) (all_gone c x (rstrip (λ y. y == c) s) k gone e))
      | inr kept ↦ (k, rw (kept, rstrip) (ap (◌∷◌ x) e))
    ]

value_from-append : (s t : Text) (n : ℕ) → value_from n (s ++ t) ≡ value_from (value_from n s) t
unfolding value_from
value_from-append [] t n = refl
value_from-append (c ∷ s) t n = value_from-append s t (n * 10 + (c - b'0'))

pub value_from-zeros : (k : ℕ) (s : Text) → value_from 0 (replicate k b'0' ++ s) ≡ value_from 0 s
unfolding value_from
value_from-zeros zero s = refl
value_from-zeros (suc k) s = value_from-zeros k s

before_point-append : (s t : Text) → All IsDigit s → before_point (s ++ b'.' ∷ t) ≡ s
unfolding before_point
before_point-append [] t a = refl
before_point-append (c ∷ s) t (k, a) = ground (arith, before_point-append s t a)

behind_point-append : (s t : Text) → All IsDigit s → behind_point (s ++ b'.' ∷ t) ≡ t
unfolding behind_point
behind_point-append [] t a = refl
behind_point-append (c ∷ s) t (k, a) = ground (arith, behind_point-append s t a)

before_point-All : (s : Text) → All IsDigit s → before_point s ≡ s
unfolding before_point
before_point-All [] a = refl
before_point-All (c ∷ s) (k, a) = ground (arith, before_point-All s a)

behind_point-All : (s : Text) → All IsDigit s → behind_point s ≡ []
unfolding behind_point
behind_point-All [] a = refl
behind_point-All (c ∷ s) (k, a) = ground (arith, behind_point-All s a)

All-take : (n : ℕ) (s : Text) → All IsDigit s → All IsDigit (take n s)
All-take zero s a = tt
All-take (suc n) [] a = tt
All-take (suc n) (c ∷ s) (k, a) = (k, All-take n s a)

-- The point put between digits, and read again.
read_unsigned-parts :
    (d : ℕ) (t frac : Text)
    → All IsDigit t
    → read_unsigned d (if is_nil frac then t else t ++ b'.' ∷ frac)
      ≡ value_from 0 (t ++ (frac ++ replicate (d - length frac) b'0'))
unfolding read_unsigned
read_unsigned-parts d t [] a = rw (before_point-All t a, behind_point-All t a)
read_unsigned-parts d t (c ∷ frac) a =
    rw (before_point-append t (c ∷ frac) a, behind_point-append t (c ∷ frac) a)

read_unsigned-point :
    (d : ℕ) (s : Text) → d ≤ length s → All IsDigit s → read_unsigned d (point d s) ≡ value_from 0 s
unfolding point
read_unsigned-point d s h a =
    let cut = length s - d in
    let frac = rstrip (λ c. c == b'0') (drop cut s) in
    let (k, e) = rstrip-replicate b'0' (drop cut s) in
    let count : d - length frac ≡ k = omega (
      arith,
      length-append frac (replicate k b'0'),
      length-replicate {A = ℕ} k b'0',
      length-drop cut s,
      ap length e,
    ) in
    read_unsigned-parts d (take cut s) frac (All-take cut s a)
    ∙ rw (count, e) (ap (value_from 0) (take-append-drop cut s))

pub rjust-All : (w : ℕ) (s : Text) → All IsDigit s → All IsDigit (rjust w b'0' s)
rjust-All w s a = All-append IsDigit (replicate (w - length s) b'0') s (zeros (w - length s)) a
  where
    zeros : (k : ℕ) → All IsDigit (replicate k b'0')
    zeros zero = tt
    zeros (suc k) = ((omega arith, omega arith), zeros k)

rjust-long : (d n : ℕ) → d + 1 ≤ length (rjust (d + 1) b'0' (str_ℕ n))
rjust-long d n = omega (
  arith,
  length-append (replicate (d + 1 - length (str_ℕ n)) b'0') (str_ℕ n),
  length-replicate {A = ℕ} (d + 1 - length (str_ℕ n)) b'0',
)

-- The digits of `n`, filled up and with the point put in, read as `n`.
read_unsigned-decimal : (d n : ℕ) → read_unsigned d (point d (rjust (d + 1) b'0' (str_ℕ n))) ≡ n
read_unsigned-decimal d n =
    let s = rjust (d + 1) b'0' (str_ℕ n) in
    let long : d ≤ length s = omega (
      arith,
      length-append (replicate (d + 1 - length (str_ℕ n)) b'0') (str_ℕ n),
      length-replicate {A = ℕ} (d + 1 - length (str_ℕ n)) b'0',
    ) in
    read_unsigned-point d s long (rjust-All (d + 1) (str_ℕ n) (str_ℕ-IsDigit n))
    ∙ value_from-zeros (d + 1 - length (str_ℕ n)) (str_ℕ n)
    ∙ value_from-str_ℕ n

-- The first character is a digit, so it is not taken for a sign.
point-cons : (d c : ℕ) (s : Text) → d ≤ length s → (t : Text) × (point d (c ∷ s) ≡ c ∷ t)
unfolding point
point-cons d c s h =
    let more : suc (length s) - d ≡ suc (length s - d) = omega arith in
    let frac = rstrip (λ x. x == b'0') (drop (length s - d) s) in
    elim (Bool-cases (is_nil frac)) [
      | inl e ↦ (take (length s - d) s, rw (more, e))
      | inr e ↦ (take (length s - d) s ++ b'.' ∷ frac, rw (more, e))
    ]

read_decimal-unsigned :
    (d : ℕ) (s : Text)
    → d + 1 ≤ length s
    → All IsDigit s
    → read_decimal d (point d s) ≡ pos (read_unsigned d (point d s))
read_decimal-unsigned d [] h a = absurd (omega arith)
read_decimal-unsigned d (c ∷ s) h (k, a) =
    let (t, e) = point-cons d c s (omega arith) in
    let digit : (c == b'-') ≡ false = ground arith in rw e (unfold read_decimal in rw digit)

read_decimal-decimal_text : (n : ℤ) (d : ℕ) → read_decimal d (decimal_text n d) ≡ n
read_decimal-decimal_text (pos n) d =
    let s = rjust (d + 1) b'0' (str_ℕ n) in
    let whole : All IsDigit s = rjust-All (d + 1) (str_ℕ n) (str_ℕ-IsDigit n) in
    unfold decimal_text in
    read_decimal-unsigned d s (rjust-long d n) whole ∙ ap pos (read_unsigned-decimal d n)
read_decimal-decimal_text (negsuc n) d =
    unfold decimal_text read_decimal in ap negated (read_unsigned-decimal d (suc n))

-- For positive `decimals` and any integer amount, of any size and either sign, `decimal_string`
-- returns a text, and it reads back, at a scale of `10 ^ decimals`, as exactly that amount.
pub decimal_string-exact :
    (P : Platform) (n : ℤ) (d : ℕ)
    → (s : Text) × (decimal_string P (num n) (nat (suc d)) ≡ ok (text s))
      × (read_decimal (suc d) s ≡ n)
unfolding decimal_string
decimal_string-exact P n d =
    (decimal_text n (suc d), ground arith, read_decimal-decimal_text n (suc d))
