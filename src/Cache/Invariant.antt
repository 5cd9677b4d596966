-- ===== src/Cache/Invariant.antt =====
-- The invariant of the cache, kept by every sequence of operations.
use algorandscout.Cache.{
  Cache, Op, apply, clear, clear_all, get, get_at, get_entry, new, run, set, set_at, set_entry, ttl,
}
use algorandscout.Cache.Ordered.{
  Absent-delete, All-delete, All-drop, Entries, IsDistinct, Key, delete, delete-IsDistinct,
  drop-IsDistinct, find, length-delete, snoc-IsDistinct,
}
use algorandscout.Cache.Steps.{
  get_cacheable, get_entry_cases, get_uncacheable, set_cacheable, set_entry_lem, set_uncacheable,
  to_back,
}
use algorandscout.Prelude.{
  All, All-append, List, Option-cases, String, Text, [], arith, inl, inr, length, length-append,
  length-drop, none, some, ℕ, ◌-◌, ◌∷◌, ◌≡◌, ◌≢◌, ◌≤◌,
}
use algorandscout.Python.{Value}

-- At most `max_entries` entries, no key twice, only cacheable kinds, and no more expirations than
-- misses.
pub record IsValid (c : Cache) : Type 0 where
  pub bounded : length c.entries ≤ c.max_entries
  pub distinct : IsDistinct c.entries
  pub cacheable : All (λ e. ttl e.0.0 ≢ none) c.entries
  pub expired : c.expirations ≤ c.misses

pub new-IsValid : (n : ℕ) → IsValid (new n)
new-IsValid n = record {
  bounded = omega arith;
  distinct = tt;
  cacheable = tt;
  expired = omega arith;
}

pub to_back-IsDistinct :
    (k : Key) (e : ℕ × Value) (l : Entries) → IsDistinct l → IsDistinct (to_back k e l)
to_back-IsDistinct k e l d =
    snoc-IsDistinct k e (delete k l) (delete-IsDistinct k l d) (Absent-delete k l d)

to_back-cacheable :
    (k : Key) (e : ℕ × Value) (l : Entries)
    → ttl k.0 ≢ none
    → All (λ e. ttl e.0.0 ≢ none) l
    → All (λ e. ttl e.0.0 ≢ none) (to_back k e l)
to_back-cacheable k e l h a = All-append _ (delete k l) _ (All-delete _ k l a) (h, tt)

-- A use of a key that is there keeps the number of entries.
pub length-to_back :
    (k : Key) (e d : ℕ × Value) (l : Entries)
    → find k l ≡ some d
    → length (to_back k e l) ≡ length l
length-to_back k e d l h =
    omega (arith, length-append (delete k l) ((k, e) ∷ []), rw h at (length-delete k l))

module _ (k : Key) (h : ttl k.0 ≢ none) where
  get_entry-IsValid : (t now : ℕ) (c : Cache) → IsValid c → IsValid (get_entry t now c k).0
  get_entry-IsValid t now c v = elim (get_entry_cases t now c k) [
    | inl (missing, e) ↦ rw e (record {
      bounded = v.bounded;
      distinct = v.distinct;
      cacheable = v.cacheable;
      expired = omega arith;
    })
    | inr (inl (x, found, old, e)) ↦ rw e (record {
      bounded = omega (arith, rw found at (length-delete k c.entries));
      distinct = delete-IsDistinct k c.entries v.distinct;
      cacheable = All-delete _ k c.entries v.cacheable;
      expired = omega arith;
    })
    | inr (inr (x, found, fresh, e)) ↦ rw e (record {
      bounded = omega (arith, length-to_back k x x c.entries found);
      distinct = to_back-IsDistinct k x c.entries v.distinct;
      cacheable = to_back-cacheable k x c.entries h v.cacheable;
      expired = v.expired;
    })
  ]

  set_entry-IsValid : (now : ℕ) (c : Cache) (x : Value) → IsValid c → IsValid (set_entry now c k x)
  set_entry-IsValid now c x v =
      let w = to_back k (now, x) c.entries in
      rw set_entry_lem (record {
        bounded = omega (arith, length-drop (length w - c.max_entries) w);
        distinct = drop-IsDistinct _ w (to_back-IsDistinct k (now, x) c.entries v.distinct);
        cacheable = All-drop _ _ w (to_back-cacheable k (now, x) c.entries h v.cacheable);
        expired = v.expired;
      })

module _ (now : ℕ) (c : Cache) (kind : String) (key : Text) (v : IsValid c) where
  pub get-IsValid : IsValid (get now c kind key).0
  get-IsValid = elim (Option-cases (ttl kind)) [
    | inl e ↦ rw (get_uncacheable now c kind key e) v
    | inr (t, e) ↦
        rw (get_cacheable now c kind key e)
          (get_entry-IsValid (kind, key) (λ z. ground arith) t now c v)
  ]

  pub set-IsValid : (x : Value) → IsValid (set now c kind key x)
  set-IsValid x = elim (Option-cases (ttl kind)) [
    | inl e ↦ rw (set_uncacheable now c kind key x e) v
    | inr (t, e) ↦
        rw (set_cacheable now c kind key x e)
          (set_entry-IsValid (kind, key) (λ z. ground arith) now c x v)
  ]

pub apply-IsValid : (op : Op) (c : Cache) → IsValid c → IsValid (apply op c)
unfolding apply clear
apply-IsValid (get_at now kind key) c v = get-IsValid now c kind key v
apply-IsValid (set_at now kind key x) c v = set-IsValid now c kind key v x
apply-IsValid clear_all c v = record {
  bounded = omega arith;
  distinct = tt;
  cacheable = tt;
  expired = v.expired;
}

run-IsValid_from : (ops : List Op) (c : Cache) → IsValid c → IsValid (run ops c)
unfolding run
run-IsValid_from [] c v = v
run-IsValid_from (op ∷ ops) c v = run-IsValid_from ops (apply op c) (apply-IsValid op c v)

-- After any sequence of gets, sets and clears, in any order and at any clock readings, a new cache
-- holds at most `max_entries` entries, no key twice, only kinds that have a time to live, and has
-- counted no more expirations than misses.
pub run-IsValid : (ops : List Op) (n : ℕ) → IsValid (run ops (new n))
run-IsValid ops n = run-IsValid_from ops (new n) (new-IsValid n)
