-- ===== src/Cache/Behind.antt =====
-- How many entries of the cache were used or written after one.
-- The entries used or written after the one of `k`.
use algorandscout.Cache.Finds.{find-append, find-delete_ne}
use algorandscout.Cache.Ordered.{
  Entries, Entry, Key, delete, find, key_eq, key_eq_iff, length-delete,
}
use algorandscout.Prelude.{
  Bool-cases, [], arith, drop, false, if◌then◌else◌, inl, inr, length, length-append, none, refl,
  some, suc, ℕ, ◌++◌, ◌+◌, ◌<◌, ◌∙◌, ◌∷◌, ◌≡◌, ◌≤◌,
}
use algorandscout.Python.{Value}

unfoldable pub behind : Key → Entries → ℕ
behind k [] = 0
behind k ((j, d) ∷ l) = if key_eq j k then length l else behind k l

behind-delete :
    (k i : Key) (e : ℕ × Value) (l : Entries)
    → key_eq i k ≡ false
    → find k l ≡ some e
    → behind k (delete i l) ≤ behind k l
unfolding behind delete find
behind-delete k i e [] h f = cc
behind-delete k i e ((j, d) ∷ l) h f =
    ground (arith, behind-delete k i e l h, length-delete i l, key_eq_iff j i, key_eq_iff i k)

behind-snoc :
    (k : Key) (e : ℕ × Value) (x : Entry) (l : Entries)
    → find k l ≡ some e
    → behind k (l ++ x ∷ []) ≡ suc (behind k l)
unfolding behind find
behind-snoc k e x [] f = cc
behind-snoc k e x ((j, d) ∷ l) f = ground (arith, behind-snoc k e x l, length-append l (x ∷ []))

-- The last entry has none behind it.
pub behind-last :
    (k : Key) (e : ℕ × Value) (l : Entries) → find k l ≡ none → behind k (l ++ (k, e) ∷ []) ≡ 0
unfolding behind find
behind-last k e [] f = ground (arith, key_eq_iff k k)
behind-last k e ((j, d) ∷ l) f = ground (arith, behind-last k e l)

-- The first entry is not the one of `k` if there are more than those behind `k`.
pub behind-drop :
    (k : Key) (e : ℕ × Value) (l : Entries)
    → find k l ≡ some e
    → behind k l + 1 < length l
    → (find k (drop 1 l) ≡ some e) × (behind k (drop 1 l) ≡ behind k l)
unfolding behind find
behind-drop k e [] f h = cc
behind-drop k e ((j, d) ∷ l) f h = elim (Bool-cases (key_eq j k)) [
  | inl same ↦ absurd (ground arith)
  | inr other ↦ (ground arith, ground arith)
]

-- The entry of `k` is there, with at most `n` behind it.
abbrev pub IsRecent : Key → ℕ × Value → ℕ → Entries → Type 0
IsRecent k e n l = (find k l ≡ some e) × (behind k l ≤ n)

pub snoc-IsRecent :
    (k : Key) (e : ℕ × Value) (n : ℕ) (x : Entry) (l : Entries)
    → IsRecent k e n l
    → IsRecent k e (n + 1) (l ++ x ∷ [])
snoc-IsRecent k e n x l (f, b) =
    (find-append k l (x ∷ []) ∙ rw f refl, omega (arith, behind-snoc k e x l f))

pub delete-IsRecent :
    (k i : Key) (e : ℕ × Value) (n : ℕ) (l : Entries)
    → key_eq i k ≡ false
    → IsRecent k e n l
    → IsRecent k e n (delete i l)
delete-IsRecent k i e n l h (f, b) =
    (find-delete_ne i k l h ∙ f, omega (arith, behind-delete k i e l h f))
