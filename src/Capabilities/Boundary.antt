-- ===== src/Capabilities/Boundary.antt =====
-- The two tables of features in capabilities.py, against each other.
use mathlib.Core.Path.{subst}
use algorandscout.Capabilities.{is_supported, supported, unsupported, why_unsupported}
use algorandscout.Prelude.{
  Bool, Bool-cases, Option-cases, String, Text, arith, eq_iff, false, inl, inr, is_nil, none, not,
  refl, some, str_eq, true, ◌&&◌, ◌≡◌,
}
use algorandscout.Python.{Fields, Value, end, field, has_key, lookup, text}

-- Every entry is a text that is not empty.
abbrev explained : Fields → Bool
explained end = true
explained (field k (text s) r) = not (is_nil s) && explained r
explained (field k v r) = false

-- No key of the first dictionary is a key of the second.
abbrev disjoint : Fields → Fields → Bool
disjoint end b = true
disjoint (field k v r) b = not (has_key b k) && disjoint r b

lookup-explained :
    (d : Fields) (k : String) (v : Value)
    → explained d ≡ true
    → lookup k d ≡ some v
    → (s : Text) × (v ≡ text s) × (is_nil s ≡ false)
lookup-explained end k v e h = cc
lookup-explained (field j (text s) r) k v e h = elim (Bool-cases (str_eq j k)) [
  | inl same ↦ (s, ground arith, ground arith)
  | inr other ↦ lookup-explained r k v (ground arith) (rw other at h)
]
lookup-explained (field j _ r) k v e h = cc

same_key : (j k : String) → str_eq j k ≡ true → j ≡ k
same_key j k h = (eq_iff j k).0 h

lookup-disjoint :
    (a b : Fields) (k : String) → disjoint a b ≡ true → has_key a k ≡ true → lookup k b ≡ none
lookup-disjoint end b k e h = cc
lookup-disjoint (field j v r) b k e h = elim (Bool-cases (str_eq j k)) [
  | inl same ↦
      subst (λ i. lookup i b ≡ none) (same_key j k same)
        (elim (Option-cases (lookup j b)) [
          | inl none_it ↦ none_it
          | inr (w, some_it) ↦ ground arith
        ])
  | inr other ↦ lookup-disjoint r b k (ground arith) (rw (other, has_key) at h)
]

-- No feature is both answered and refused, and whatever is refused is refused with a reason in
-- words.
pub why_unsupported-is_supported :
    (feature : String) (reason : Value)
    → why_unsupported feature ≡ some reason
    → (is_supported feature ≡ false) × ((s : Text) × (reason ≡ text s) × (is_nil s ≡ false))
unfolding is_supported why_unsupported
why_unsupported-is_supported feature reason h = (
  elim (Bool-cases (has_key supported feature)) [
    | inl yes_it ↦ let e = lookup-disjoint supported unsupported feature refl yes_it in cc
    | inr no_it ↦ no_it
  ],
  lookup-explained unsupported feature reason refl h,
)
