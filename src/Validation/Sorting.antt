-- ===== src/Validation/Sorting.antt =====
-- `sorted({...})` of characters: insertion into an ordered list without repetition.
use algorandscout.Prelude.{List, [], if◌then◌else◌, ltb, ℕ, ◌==◌, ◌∷◌}

insert : ℕ → List ℕ → List ℕ
insert c [] = c ∷ []
insert c (d ∷ l) = if c == d then d ∷ l else if ltb c d then c ∷ d ∷ l else d ∷ insert c l

unfoldable pub sorted_set : List ℕ → List ℕ
unfolding insert
sorted_set [] = []
sorted_set (c ∷ l) = insert c (sorted_set l)
