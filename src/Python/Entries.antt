-- ===== src/Python/Entries.antt =====
-- The keys of a dictionary, and what an assignment to one of them leaves as it was.
use algorandscout.Prelude.{
  Bool-cases, List, String, [], ap, eq_iff, false, inl, inr, refl, some, str_eq, true, ◌∷◌, ◌≡◌,
}
use algorandscout.Python.Values.{
  Fields, Value, end, field, get, has_key, lookup, null, or_default, put,
}

-- The keys of a dictionary, in order.
abbrev pub names : Fields → List String
names end = []
names (field k v r) = k ∷ names r

lookup_other :
    (k j : String) (v : Value) (d : Fields) → str_eq k j ≡ false → lookup j (put k v d) ≡ lookup j d
lookup_other k j v end e = rw e refl
lookup_other k j v (field i w r) e = elim (Bool-cases (str_eq i k)) [
  | inl same ↦
      rw same (let differs : str_eq i j ≡ false = rw ((eq_iff i k).0 same) e in rw differs refl)
  | inr other ↦ rw other (elim (Bool-cases (str_eq i j)) [
    | inl found ↦ rw found refl
    | inr missing ↦ rw missing (lookup_other k j v r e)
  ])
]

lookup-put : (k : String) (v : Value) (d : Fields) → lookup k (put k v d) ≡ some v
lookup-put k v end = rw ((eq_iff k k).1 refl) refl
lookup-put k v (field i w r) = elim (Bool-cases (str_eq i k)) [
  | inl same ↦ rw (same, same) refl
  | inr other ↦ rw (other, other) (lookup-put k v r)
]

pub get-put_other :
    (k j : String) (v : Value) (d : Fields) → str_eq k j ≡ false → get (put k v d) j ≡ get d j
get-put_other k j v d e = ap (λ o. or_default o null) (lookup_other k j v d e)

pub get-put_same : (k : String) (v : Value) (d : Fields) → get (put k v d) k ≡ v
get-put_same k v d = ap (λ o. or_default o null) (lookup-put k v d)

pub names-put :
    (k : String) (v : Value) (d : Fields) → has_key d k ≡ true → names (put k v d) ≡ names d
names-put k v end h = cc
names-put k v (field i w r) h = elim (Bool-cases (str_eq i k)) [
  | inl same ↦ rw same refl
  | inr other ↦ rw other (ap (λ l. i ∷ l) (names-put k v r (rw (other, has_key) at h)))
]
