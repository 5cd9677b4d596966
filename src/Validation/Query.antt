-- ===== src/Validation/Query.antt =====
-- `classify_query`: which kind of identifier a search term is.
use mathlib.Core.List.{cons-ne-nil}
use native.Mathlib.Nat.{pow-suc}
use algorandscout.Prelude.{
  All, Bool, List, Text, [], ap, arith, every, false, length, lstrip, refl, rstrip, some, suc, true,
  zero, ℕ, ◌%◌, ◌+◌, ◌/◌, ◌<◌, ◌^◌, ◌∙◌, ◌∷◌, ◌≡◌, ◌≢◌, ◌≤◌,
}
use algorandscout.Python.{Platform}
use algorandscout.Python.Decimal.{IsDigit, digits, str_ℕ, str_ℕ-IsDigit}
use algorandscout.Validation.{address, classify_query, classify_term, numeric, strip, transaction}
use algorandscout.Validation.Address.{IsAddress, IsTxid}
use algorandscout.Validation.Base32.{All-base32_match, IsBase32}

-- The Unicode tables on ASCII characters: no base32 character is a space, and a decimal digit is a
-- digit and no space.
pub record AsciiTables (P : Platform) : Type 0 where
  pub base32_no_space : (c : ℕ) → IsBase32 c → P.is_space c ≡ false
  pub digit_no_space : (c : ℕ) → IsDigit c → P.is_space c ≡ false
  pub digit_is_digit : (c : ℕ) → IsDigit c → P.is_digit c ≡ true

module _ (p : ℕ → Bool) where
  lstrip_none : (s : Text) → All (λ c. p c ≡ false) s → lstrip p s ≡ s
  lstrip_none [] a = refl
  lstrip_none (c ∷ s) (k, a) = ground arith

  rstrip_none : (s : Text) → All (λ c. p c ≡ false) s → rstrip p s ≡ s
  rstrip_none [] a = refl
  rstrip_none (c ∷ s) (k, a) = ground (arith, rstrip_none s a)

  rstrip-rstrip : (s : Text) → rstrip p (rstrip p s) ≡ rstrip p s
  rstrip-rstrip [] = refl
  rstrip-rstrip (c ∷ s) = ground (arith, rstrip-rstrip s)

  lstrip-rstrip-lstrip : (s : Text) → lstrip p (rstrip p (lstrip p s)) ≡ rstrip p (lstrip p s)
  lstrip-rstrip-lstrip [] = refl
  lstrip-rstrip-lstrip (c ∷ s) = ground (arith, lstrip-rstrip-lstrip s)

All-imp {ℓ κ μ} :
    {A : Type ℓ} {P : A → Type κ} {Q : A → Type μ} (xs : List A)
    → ((a : A) → P a → Q a)
    → All P xs
    → All Q xs
All-imp [] f h = tt
All-imp (x ∷ xs) f (px, h) = (f x px, All-imp xs f h)

length-digits :
    (k f n : ℕ) (out : Text) → n < 10 ^ suc k → length (digits f n out) ≤ length out + suc k
unfolding digits
length-digits k zero n out h = omega arith
length-digits zero (suc f) n out h = ground arith
length-digits (suc k) (suc f) n out h =
    ground (arith, pow-suc 10 (suc k), length-digits k f (n / 10) ((b'0' + n % 10) ∷ out))

length-str_ℕ : (n : ℕ) → n < 2 ^ 64 → length (str_ℕ n) ≤ 20
unfolding str_ℕ
length-str_ℕ n h = omega (arith, length-digits 19 (suc n) n [] (omega arith))

digits-ne-nil : (f n : ℕ) (out : Text) → out ≢ [] → digits f n out ≢ []
unfolding digits
digits-ne-nil zero n out h = h
digits-ne-nil (suc f) n out h = ground (arith, digits-ne-nil f (n / 10) ((b'0' + n % 10) ∷ out))

str_ℕ-ne-nil : (n : ℕ) → str_ℕ n ≢ []
unfolding str_ℕ
str_ℕ-ne-nil n = ground (arith, digits-ne-nil n (n / 10) ((b'0' + n % 10) ∷ []))

every-All : (q : ℕ → Bool) (s : Text) → All (λ c. q c ≡ true) s → every q s ≡ true
every-All q [] h = refl
every-All q (c ∷ s) (k, h) = rw (k, every-All q s h)

module _ (P : Platform) where
  strip_none : (s : Text) → All (λ c. P.is_space c ≡ false) s → strip P s ≡ s
  strip_none s a = rw (lstrip_none P.is_space s a) (rstrip_none P.is_space s a)

  -- White space around a search term does not change what it is taken for.
  pub classify_query-strip : (s : Text) → classify_query P (strip P s) ≡ classify_query P s
  unfolding classify_query
  classify_query-strip s =
      rw (lstrip-rstrip-lstrip P.is_space s, rstrip-rstrip P.is_space (lstrip P.is_space s))

  classify_stripped :
      (s : Text) → All (λ c. P.is_space c ≡ false) s → classify_query P s ≡ classify_term P s
  classify_stripped s a = unfold classify_query in ap (classify_term P) (strip_none s a)

  term_address : (s : Text) → IsAddress P s → classify_term P s ≡ some address
  unfolding classify_term
  term_address [] a = absurd (omega arith)
  term_address (c ∷ s) a = rw (a.fits, All-base32_match (c ∷ s) (cons-ne-nil c s) a.alphabet)

  term_txid : (s : Text) → IsTxid P s → classify_term P s ≡ some transaction
  unfolding classify_term
  term_txid [] a = absurd (omega arith)
  term_txid (c ∷ s) a = rw (a.fits, All-base32_match (c ∷ s) (cons-ne-nil c s) a.alphabet)

  term_numeric :
      (s : Text)
      → s ≢ []
      → length s ≤ 20
      → All (λ c. P.is_digit c ≡ true) s
      → classify_term P s ≡ some numeric
  unfolding classify_term
  term_numeric [] n h a = absurd (n refl)
  term_numeric (c ∷ s) n h a = ground (arith, every-All P.is_digit (c ∷ s) a)

  module _ (t : AsciiTables P) where
    -- Given the Unicode tables on ASCII characters, a well-formed address is searched as an
    -- address, a well-formed transaction id as a transaction, and the decimal text of every uint64
    -- as a number.
    pub classify_query_kinds :
        ((s : Text) → IsAddress P s → classify_query P s ≡ some address)
        × ((s : Text) → IsTxid P s → classify_query P s ≡ some transaction)
        × ((n : ℕ) → n < 2 ^ 64 → classify_query P (str_ℕ n) ≡ some numeric)
    classify_query_kinds = (
      λ s a. classify_stripped s (All-imp s t.base32_no_space a.alphabet) ∙ term_address s a,
      λ s a. classify_stripped s (All-imp s t.base32_no_space a.alphabet) ∙ term_txid s a,
      λ n h.
          classify_stripped (str_ℕ n) (All-imp (str_ℕ n) t.digit_no_space (str_ℕ-IsDigit n))
          ∙ term_numeric (str_ℕ n) (str_ℕ-ne-nil n) (length-str_ℕ n h)
              (All-imp (str_ℕ n) t.digit_is_digit (str_ℕ-IsDigit n)),
    )
