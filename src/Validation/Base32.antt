-- ===== src/Validation/Base32.antt =====
-- `_BASE32_RE` against an independent description of base32 characters.
use algorandscout.Prelude.{
  All, List, Text, [], arith, refl, some, true, ℕ, ◌++◌, ◌∷◌, ◌≡◌, ◌≢◌, ◌≤◌, ◌⊎◌,
}
use algorandscout.Python.{Platform}
use algorandscout.Validation.{base32_match, base32_rest, in_alphabet, padding}

abbrev pub IsBase32 : ℕ → Type 0
IsBase32 c = ((b'A' ≤ c) × (c ≤ b'Z')) ⊎ ((b'2' ≤ c) × (c ≤ b'7'))

pub in_alphabet-IsBase32 : (c : ℕ) → in_alphabet c ≡ true → IsBase32 c
unfolding in_alphabet
in_alphabet-IsBase32 c h = ground arith

pub IsBase32-in_alphabet : (c : ℕ) → IsBase32 c → in_alphabet c ≡ true
unfolding in_alphabet
IsBase32-in_alphabet c h = ground arith

-- Documented behaviour of `base64.b32decode`: it raises on a character that is neither in the
-- alphabet nor padding.
pub record RefusesOther (P : Platform) : Type 0 where
  pub refuses :
      (s : Text) (raw : List ℕ) → P.b32decode s ≡ some raw → All (λ c. IsBase32 c ⊎ (c ≡ b'=')) s

All-front {ℓ κ} : {A : Type ℓ} (Q : A → Type κ) (xs ys : List A) → All Q (xs ++ ys) → All Q xs
All-front Q [] ys h = tt
All-front Q (x ∷ xs) ys (q, h) = (q, All-front Q xs ys h)

pub All-padding :
    (s : Text)
    → All (λ c. IsBase32 c ⊎ (c ≡ b'=')) (s ++ padding s)
    → All (λ c. IsBase32 c ⊎ (c ≡ b'=')) s
All-padding s h = All-front _ s (padding s) h

base32_rest-All :
    (s : Text) → base32_rest s ≡ true → All (λ c. IsBase32 c ⊎ (c ≡ b'=')) s → All IsBase32 s
unfolding base32_rest
base32_rest-All [] h a = tt
base32_rest-All (c ∷ s) h (k, a) = ground (arith, in_alphabet-IsBase32 c, base32_rest-All s)

-- A text that matches and that the decoder takes is base32 throughout: no final newline.
pub base32_match-All :
    (s : Text) → base32_match s ≡ true → All (λ c. IsBase32 c ⊎ (c ≡ b'=')) s → All IsBase32 s
unfolding base32_match
base32_match-All [] h a = tt
base32_match-All (c ∷ s) h (k, a) = ground (arith, in_alphabet-IsBase32 c, base32_rest-All s)

All-base32_rest : (s : Text) → All IsBase32 s → base32_rest s ≡ true
unfolding base32_rest
All-base32_rest [] a = refl
All-base32_rest (c ∷ s) (k, a) = rw (IsBase32-in_alphabet c k, All-base32_rest s a) (ground arith)

pub All-base32_match : (s : Text) → s ≢ [] → All IsBase32 s → base32_match s ≡ true
unfolding base32_match
All-base32_match [] n a = absurd (n refl)
All-base32_match (c ∷ s) n (k, a) = rw (IsBase32-in_alphabet c k, All-base32_rest s a)
