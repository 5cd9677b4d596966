-- ===== src/Metrics/Tables.antt =====
-- Python's `defaultdict` with counters: association lists over a test for equal keys.
use algorandscout.Prelude.{
  Bool, List, Text, [], arith, false, if◌then◌else◌, ltb, true, ◌==◌, ◌↔◌, ◌∷◌, ◌≡◌,
}

module _ {ℓ κ} {K : Type ℓ} {V : Type κ} (eq : K → K → Bool) where
  -- `d[k]`, with the default where the key is missing.
  unfoldable pub at : V → K → List (K × V) → V
  at default k [] = default
  at default k ((j, v) ∷ l) = if eq j k then v else at default k l

  -- `d[k] = f(d[k])`: a new key starts from the default and goes to the end.
  unfoldable pub update : V → (V → V) → K → List (K × V) → List (K × V)
  update default f k [] = (k, f default) ∷ []
  update default f k ((j, v) ∷ l) = if eq j k then (j, f v) ∷ l else (j, v) ∷ update default f k l

  -- Reading behind an update, for a test that decides equality.
  module _ (eq_iff : (a b : K) → (eq a b ≡ true) ↔ (a ≡ b)) where
    pub at-update :
        (default : V) (f : V → V) (k j : K) (l : List (K × V))
        → at default j (update default f k l)
          ≡ (if eq k j then f (at default j l) else at default j l)
    unfolding at update
    at-update default f k j [] = ground arith
    at-update default f k j ((i, v) ∷ l) =
        ground (arith, eq_iff i k, eq_iff i j, eq_iff k j, at-update default f k j l)

-- Keys in ascending order: `sorted(d.items())`, on keys that are all different.
module _ {ℓ κ} {K : Type ℓ} {V : Type κ} (before : K → K → Bool) where
  unfoldable pub insert_sorted : K × V → List (K × V) → List (K × V)
  insert_sorted e [] = e ∷ []
  insert_sorted e (d ∷ l) = if before d.0 e.0 then d ∷ insert_sorted e l else e ∷ d ∷ l

  unfoldable pub sorted_items : List (K × V) → List (K × V)
  unfolding insert_sorted
  sorted_items [] = []
  sorted_items (e ∷ l) = insert_sorted e (sorted_items l)

-- `s < t` on texts.
abbrev pub text_before : Text → Text → Bool
text_before [] [] = false
text_before [] (d ∷ t) = true
text_before (c ∷ s) [] = false
text_before (c ∷ s) (d ∷ t) = if c == d then text_before s t else ltb c d
