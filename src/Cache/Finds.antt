-- ===== src/Cache/Finds.antt =====
-- `find` against the operations that change the list.
use mathlib.Core.Path.{subst}
use algorandscout.Cache.Ordered.{
  Absent, Absent-delete, Entries, Entry, IsDistinct, Key, delete, find, key_eq, key_eq_iff,
}
use algorandscout.Cache.Steps.{to_back}
use algorandscout.Prelude.{
  All, Bool-cases, Option-cases, [], arith, drop, false, inl, inr, length, none, refl, some, suc,
  sym, true, zero, ℕ, ◌++◌, ◌∙◌, ◌∷◌, ◌≡◌, ◌≤◌, ◌⊎◌,
}
use algorandscout.Python.{Value}

pub find-append :
    (k : Key) (l m : Entries)
    → find k (l ++ m) ≡ (elim (find k l) [ none ↦ find k m | some e ↦ some e ])
unfolding find
find-append k [] m = ground arith
find-append k ((j, e) ∷ l) m = ground (arith, find-append k l m)

pub find-Absent : (k : Key) (l : Entries) → Absent k l → find k l ≡ none
unfolding find
find-Absent k [] a = refl
find-Absent k ((j, e) ∷ l) (n, a) = rw n (find-Absent k l a)

pub find-delete_ne : (k j : Key) (l : Entries) → key_eq k j ≡ false → find j (delete k l) ≡ find j l
unfolding find delete
find-delete_ne k j [] h = refl
find-delete_ne k j ((i, e) ∷ l) h =
    ground (arith, find-delete_ne k j l h, key_eq_iff i k, key_eq_iff i j, key_eq_iff k j)

-- Dropping fewer entries than there are in front keeps the last one.
pub drop-snoc :
    (n : ℕ) (l : Entries) (e : Entry) → n ≤ length l → drop n (l ++ e ∷ []) ≡ drop n l ++ e ∷ []
drop-snoc zero l e h = refl
drop-snoc (suc n) [] e h = elim h [ ]
drop-snoc (suc n) (x ∷ l) e h = drop-snoc n l e (omega arith)

pub delete_absent : (k : Key) (l : Entries) → find k l ≡ none → delete k l ≡ l
unfolding find delete
delete_absent k [] h = refl
delete_absent k ((j, e) ∷ l) h = ground (arith, delete_absent k l)

pub All-find {ℓ} :
    (P : Key → Type ℓ) (j : Key) (y : ℕ × Value) (l : Entries)
    → All (λ e. P e.0) l
    → find j l ≡ some y
    → P j
unfolding find
All-find P j y [] a h = absurd (ground arith)
All-find P j y ((i, e) ∷ l) (p, a) h = elim (Bool-cases (key_eq i j)) [
  | inl same ↦ subst P ((key_eq_iff i j).0 same) p
  | inr other ↦ All-find P j y l a (ground arith)
]

-- What is found after a deletion, a use or an eviction was found before.
module _ (j : Key) (e : ℕ × Value) where
  pub find-delete :
      (k : Key) (l : Entries)
      → IsDistinct l
      → find j (delete k l) ≡ some e
      → (key_eq k j ≡ false) × (find j l ≡ some e)
  find-delete k l d h = elim (Bool-cases (key_eq k j)) [
    | inl same ↦
        let eq : k ≡ j = (key_eq_iff k j).0 same in
        let gone : find j (delete k l) ≡ none =
          rw (← eq) (find-Absent k (delete k l) (Absent-delete k l d)) in
        absurd (ground arith)
    | inr other ↦ (other, sym (find-delete_ne k j l other) ∙ h)
  ]

  pub find-drop :
      (n : ℕ) (l : Entries) → IsDistinct l → find j (drop n l) ≡ some e → find j l ≡ some e
  unfolding find
  find-drop zero l d h = h
  find-drop (suc n) [] d h = h
  find-drop (suc n) ((i, x) ∷ l) (a, d) h =
      ground (arith, find-drop n l d h, find-Absent i l a, key_eq_iff i j)

  pub find-to_back :
      (k : Key) (x : ℕ × Value) (l : Entries)
      → IsDistinct l
      → find j (to_back k x l) ≡ some e
      → ((key_eq k j ≡ true) × (e ≡ x)) ⊎ ((key_eq k j ≡ false) × (find j l ≡ some e))
  unfolding find
  find-to_back k x l d h =
      let a = find-append j (delete k l) ((k, x) ∷ []) in
      elim (Option-cases (find j (delete k l))) [
        | inl gone ↦ inl (ground arith, ground arith)
        | inr (y, found) ↦ inr (find-delete k l d (ground arith))
      ]
