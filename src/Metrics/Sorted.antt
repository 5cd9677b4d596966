-- ===== src/Metrics/Sorted.antt =====
-- `sorted(d.items())`, for the orders on keys that `render` of metrics.py sorts by.
use algorandscout.Metrics.{RequestKey}
use algorandscout.Metrics.Rendering.{request_before}
use algorandscout.Metrics.Tables.{insert_sorted, sorted_items, text_before}
use algorandscout.Prelude.{
  All, All-map, Bool, Bool-cases, List, Text, [], arith, false, inl, inr, refl, text_eq,
  text_eq_iff, true, ◌∷◌, ◌≡◌, ◌≢◌,
}

pub text_before_trans :
    (a b c : Text) → text_before a b ≡ true → text_before b c ≡ true → text_before a c ≡ true
text_before_trans [] [] [] h k = cc
text_before_trans [] (y ∷ b) [] h k = cc
text_before_trans [] b (z ∷ c) h k = refl
text_before_trans (x ∷ a) [] c h k = cc
text_before_trans (x ∷ a) (y ∷ b) [] h k = cc
text_before_trans (x ∷ a) (y ∷ b) (z ∷ c) h k = ground (arith, text_before_trans a b c)

text_before_connected : (a b : Text) → text_before a b ≡ false → text_before b a ≡ false → a ≡ b
text_before_connected [] [] h k = refl
text_before_connected [] (y ∷ b) h k = cc
text_before_connected (x ∷ a) [] h k = cc
text_before_connected (x ∷ a) (y ∷ b) h k = ground (arith, text_before_connected a b)

text_before_irreflexive : (a : Text) → text_before a a ≡ false
text_before_irreflexive [] = refl
text_before_irreflexive (x ∷ a) = ground (arith, text_before_irreflexive a)

pub request_before_trans :
    (a b c : RequestKey)
    → request_before a b ≡ true
    → request_before b c ≡ true
    → request_before a c ≡ true
request_before_trans a b c h k =
    let ends : text_eq a.0 c.0 ≡ true → text_before a.0 c.0 ≡ false =
      λ e. rw (← ((text_eq_iff a.0 c.0).0 e)) (text_before_irreflexive a.0) in
    let first : text_eq a.0 b.0 ≡ true → a.0 ≡ b.0 = (text_eq_iff a.0 b.0).0 in
    let last : text_eq b.0 c.0 ≡ true → b.0 ≡ c.0 = (text_eq_iff b.0 c.0).0 in
    ground (arith, text_before_trans a.0 b.0 c.0)

pub request_before_connected :
    (a b : RequestKey) → request_before a b ≡ false → request_before b a ≡ false → a ≡ b
request_before_connected a b h k =
    ground (arith, text_before_connected a.0 b.0, text_eq_iff a.0 b.0, text_eq_iff b.0 a.0)

module _ {K V : Type 0} (before : K → K → Bool) where
  -- Each key is before all keys that follow it: so no key is there twice.
  abbrev pub Ascending : List (K × V) → Type 0
  Ascending [] = Unit
  Ascending (e ∷ l) = All (λ d. before e.0 d.0 ≡ true) l × Ascending l

-- No key is there twice.
abbrev pub Distinct : {K V : Type 0} → List (K × V) → Type 0
Distinct [] = Unit
Distinct (e ∷ l) = All (λ d. d.0 ≢ e.0) l × Distinct l

module _ {K V : Type 0} (before : K → K → Bool) where
  All-insert_sorted :
      (Q : K × V → Type 0) (e : K × V) (l : List (K × V))
      → Q e
      → All Q l
      → All Q (insert_sorted before e l)
  unfolding insert_sorted
  All-insert_sorted Q e [] q h = (q, tt)
  All-insert_sorted Q e (d ∷ l) q (r, h) = elim (Bool-cases (before d.0 e.0)) [
    | inl first ↦ rw first (r, All-insert_sorted Q e l q h)
    | inr other ↦ rw other (q, (r, h))
  ]

  pub All-sorted_items :
      (Q : K × V → Type 0) (l : List (K × V)) → All Q l → All Q (sorted_items before l)
  unfolding sorted_items
  All-sorted_items Q [] h = tt
  All-sorted_items Q (e ∷ l) (q, h) =
      All-insert_sorted Q e (sorted_items before l) q (All-sorted_items Q l h)

  module _ (trans : (a b c : K) → before a b ≡ true → before b c ≡ true → before a c ≡ true)
      (connected : (a b : K) → before a b ≡ false → before b a ≡ false → a ≡ b) where
    insert_sorted-Ascending :
        (e : K × V) (l : List (K × V))
        → Ascending before l
        → All (λ d. d.0 ≢ e.0) l
        → Ascending before (insert_sorted before e l)
    unfolding insert_sorted
    insert_sorted-Ascending e [] h k = (tt, tt)
    insert_sorted-Ascending e (d ∷ l) (a, h) (differs, k) = elim (Bool-cases (before d.0 e.0)) [
      | inl first ↦ rw first (
        All-insert_sorted (λ x. before d.0 x.0 ≡ true) e l first a,
        insert_sorted-Ascending e l h k,
      )
      | inr other ↦
          let ahead : before e.0 d.0 ≡ true = elim (Bool-cases (before e.0 d.0)) [
            | inl yes_it ↦ yes_it
            | inr no_it ↦ absurd (differs (connected d.0 e.0 other no_it))
          ] in
          rw other (
            (ahead, All-map _ (λ x. before e.0 x.0 ≡ true) l (λ x q. trans e.0 d.0 x.0 ahead q) a),
            (a, h),
          )
    ]

    pub sorted_items-Ascending :
        (l : List (K × V)) → Distinct l → Ascending before (sorted_items before l)
    unfolding sorted_items
    sorted_items-Ascending [] h = tt
    sorted_items-Ascending (e ∷ l) (fresh, h) =
        insert_sorted-Ascending e (sorted_items before l) (sorted_items-Ascending l h)
          (All-sorted_items (λ d. d.0 ≢ e.0) l fresh)
