-- ===== src/Mapping/Transactions/Depth.antt =====
-- How deep `map_transaction` of mapping.py recurses: no deeper than its payload is nested.
use mathlib.Core.Path.{subst}
use algorandscout.Mapping.Transactions.{map_transaction}
use algorandscout.Mapping.Transactions.Bounded.{
  >>=-IsBounded, IsBounded, no_dict-IsBounded, ok-IsBounded, raise-IsBounded,
  transaction_frame-IsBounded, traverse-IsBounded,
}
use algorandscout.Mapping.Transactions.Frames.{Frame, transaction_frame}
use algorandscout.Prelude.{
  All, All-map, All-zip, Bool-cases, List, Option-cases, String, [], arith, inl, inr, max, refl,
  some, str_eq, suc, zero, ℕ, ◌<◌, ◌∷◌, ◌≡◌, ◌≤◌,
}
use algorandscout.Python.{
  Fields, Items, Platform, Result, Result-cases, Value, arr, as_list, bool, cons, elements, end,
  field, get_or, list, lookup, nil, null, num, obj, ok, or_else, raise, recursion_error, text,
  traverse, truthy,
}
use algorandscout.Python.Gives.{>>=-Gives, Gives, ok-Gives}

-- How deep a JSON value is nested.
unfoldable mutual
  pub depth : Value → ℕ
  depth null = 0
  depth (bool b) = 0
  depth (num n) = 0
  depth (text s) = 0
  depth (obj d) = suc (depth_fields d)
  depth (arr r) = suc (depth_items r)

  pub depth_fields : Fields → ℕ
  depth_fields end = 0
  depth_fields (field k v r) = max (depth v) (depth_fields r)

  pub depth_items : Items → ℕ
  depth_items nil = 0
  depth_items (cons v r) = max (depth v) (depth_items r)

lookup-depth :
    (k : String) (d : Fields) (v : Value) → lookup k d ≡ some v → depth v ≤ depth_fields d
unfolding depth
lookup-depth k end v h = cc
lookup-depth k (field j w r) v h = elim (Bool-cases (str_eq j k)) [
  | inl same ↦ let e : w ≡ v = ground arith in rw (← e) (omega arith)
  | inr other ↦ omega (arith, lookup-depth k r v (rw other at h))
]

elements-depth : (b : ℕ) (r : Items) → depth_items r < b → All (λ v. depth v < b) (elements r)
unfolding depth
elements-depth b nil h = tt
elements-depth b (cons v r) h = (omega arith, elements-depth b r (omega arith))

as_list-depth :
    (v : Value) (b : ℕ) (l : List Value) → depth v ≤ b → as_list v ≡ ok l → All (λ x. depth x < b) l
unfolding depth
as_list-depth (arr r) b l h e =
    let same : elements r ≡ l = cc in
    subst (All (λ x. depth x < b)) same (elements-depth b r (omega arith))
as_list-depth (text []) b l h e = let same : [] ≡ l = cc in subst (All (λ x. depth x < b)) same tt
as_list-depth (obj end) b l h e = let same : [] ≡ l = cc in subst (All (λ x. depth x < b)) same tt
as_list-depth _ b l h e = cc

-- The inner transactions of a transaction are nested less deep than it is.
or_else-depth :
    (d : Fields) (k : String)
    → depth (or_else (get_or d k (list [])) (list [])) ≤ suc (depth_fields d)
unfolding depth
or_else-depth d k = elim (Option-cases (lookup k d)) [
  | inl e ↦ rw e (omega arith)
  | inr (v, e) ↦
      let small = lookup-depth k d v e in
      elim (Bool-cases (truthy v)) [
        | inl yes_it ↦ rw (e, yes_it) (omega arith)
        | inr no_it ↦ rw (e, no_it) (omega arith)
      ]
]

abbrev HasInner : Fields → Frame → Type 0
HasInner tx fr = as_list (or_else (get_or tx "inner-txns" (list [])) (list [])) ≡ ok fr.inner

transaction_frame-inner :
    (P : Platform) (tx : Fields) → Gives (HasInner tx) (transaction_frame P tx)
unfolding transaction_frame
transaction_frame-inner P tx = search (>>=-Gives, ok-Gives) depth 12

-- A transaction nested less deep than the fuel, whose inner transactions are then handled by the
-- same claim.
inner-depth :
    (P : Platform) (d : Fields) (fr : Frame) (b : ℕ)
    → transaction_frame P d ≡ ok fr
    → depth (obj d) < suc b
    → All (λ x. depth x < b) fr.inner
unfolding Gives depth
inner-depth P d fr b e h =
    as_list-depth (or_else (get_or d "inner-txns" (list [])) (list [])) b fr.inner
      (omega (arith, or_else-depth d "inner-txns")) (transaction_frame-inner P d fr e)

traverse-cong :
    {A B : Type 0} (f g : A → Result B) (l : List A)
    → All (λ a. f a ≡ g a) l
    → traverse f l ≡ traverse g l
traverse-cong f g [] h = refl
traverse-cong f g (x ∷ l) (e, h) = rw (e, traverse-cong f g l h) refl

module _ (P : Platform) where
  fuel_irrelevant :
      (n m : ℕ) (v : Value)
      → depth v < n
      → depth v < m
      → map_transaction P n v ≡ map_transaction P m v
  unfolding map_transaction
  fuel_irrelevant zero m v h k = elim h [ ]
  fuel_irrelevant (suc n) zero v h k = elim k [ ]
  fuel_irrelevant (suc n) (suc m) (obj d) h k = elim (Result-cases (transaction_frame P d)) [
    | inr (x, e) ↦ rw e refl
    | inl (fr, e) ↦
        let deep = inner-depth P d fr n e h in
        let deep' = inner-depth P d fr m e k in
        rw
          (
            e,
            traverse-cong (map_transaction P n) (map_transaction P m) fr.inner (
                All-map _ _ fr.inner (λ a q. fuel_irrelevant n m a q.0 q.1)
                  (All-zip _ _ fr.inner deep deep')),
          )
          refl
  ]
  fuel_irrelevant (suc n) (suc m) _ h k = refl

  enough_fuel : (n : ℕ) (v : Value) → depth v < n → IsBounded (map_transaction P n v)
  unfolding map_transaction
  enough_fuel zero v h = elim h [ ]
  enough_fuel (suc n) (obj d) h = elim (Result-cases (transaction_frame P d)) [
    | inr (x, e) ↦ rw e (raise-IsBounded x (rw e at (transaction_frame-IsBounded P d)))
    | inl (fr, e) ↦ rw e (
        >>=-IsBounded _ _
          (traverse-IsBounded (map_transaction P n) fr.inner
            (All-map _ _ fr.inner (λ a q. enough_fuel n a q) (inner-depth P d fr n e h)))
          (λ mapped. ok-IsBounded _))
  ]
  enough_fuel (suc n) _ h = no_dict-IsBounded

-- A recursion one deeper than the payload is nested is enough: with any two such allowances the
-- result is the same, and it is not that the recursion limit was reached.
pub map_transaction-depth :
    (P : Platform) (n m : ℕ) (v : Value)
    → depth v < n
    → depth v < m
    → (map_transaction P n v ≡ map_transaction P m v)
      × (¬ (map_transaction P n v ≡ raise recursion_error))
unfolding IsBounded
map_transaction-depth P n m v h k =
    (fuel_irrelevant P n m v h k, λ e. subst IsBounded e (enough_fuel P n v h))
