-- ===== src/Cache/Freshness.antt =====
-- What the cache serves, against an ideal map that remembers the last write of each key.
use algorandscout.Cache.{
  Cache, Op, apply, clear, clear_all, get, get_at, get_entry, new, run, set, set_at, set_entry, ttl,
}
use algorandscout.Cache.Finds.{All-find, find-delete, find-drop, find-to_back}
use algorandscout.Cache.Invariant.{IsValid, apply-IsValid, new-IsValid, to_back-IsDistinct}
use algorandscout.Cache.Ordered.{Key, find, key_eq, key_eq_iff}
use algorandscout.Cache.Steps.{
  get_cacheable, get_entry_cases, get_uncacheable, set_cacheable, set_entry_lem, set_uncacheable,
  to_back,
}
use algorandscout.Prelude.{
  Bool-cases, List, Option, Option-cases, String, Text, [], arith, if◌then◌else◌, inl, inr, none,
  some, ℕ, ◌-◌, ◌∷◌, ◌≡◌, ◌≢◌, ◌≤◌,
}
use algorandscout.Python.{Value, null}

-- When and what the last `set` of a key behind the last `clear` stored, over the operations so far.
-- The specification: it has no bound, no order and no expiry.
unfoldable pub last_write : Key → List Op → Option (ℕ × Value) → Option (ℕ × Value)
last_write k [] w = w
last_write k (get_at now kind key ∷ ops) w = last_write k ops w
last_write k (set_at now kind key x ∷ ops) w =
    last_write k ops (if key_eq (kind, key) k then some (now, x) else w)
last_write k (clear_all ∷ ops) w = last_write k ops none

abbrev pub Writes : Type 0
Writes = Key → Option (ℕ × Value)

-- Every entry of the cache is the last write of its key.
abbrev pub Remembers : Cache → Writes → Type 0
Remembers c w = (j : Key) (e : ℕ × Value) → find j c.entries ≡ some e → w j ≡ some e

module _ (c : Cache) (w : Writes) (v : IsValid c) (m : Remembers c w) where
  get_entry-Remembers : (t now : ℕ) (k : Key) → Remembers (get_entry t now c k).0 w
  get_entry-Remembers t now k = elim (get_entry_cases t now c k) [
    | inl (missing, e) ↦ rw e m
    | inr (inl (x, found, old, e)) ↦
        rw e (λ j y h. m j y (find-delete j y k c.entries v.distinct h).1)
    | inr (inr (x, found, fresh, e)) ↦ rw e (λ j y h.
        elim (find-to_back j y k x c.entries v.distinct h) [
          | inl (same, is) ↦ cc ((key_eq_iff k j).0 same, m k x found)
          | inr (other, old) ↦ m j y old
        ])
  ]

  set_entry-Remembers :
      (now : ℕ) (k : Key) (x : Value)
      → Remembers (set_entry now c k x) (λ j. if key_eq k j then some (now, x) else w j)
  set_entry-Remembers now k x =
      let b = to_back k (now, x) c.entries in
      let d = to_back-IsDistinct k (now, x) c.entries v.distinct in
      rw set_entry_lem (λ j y h.
        elim (find-to_back j y k (now, x) c.entries v.distinct (find-drop j y _ b d h)) [
          | inl (same, is) ↦ rw (same, is)
          | inr (other, old) ↦ rw other (m j y old)
        ])

  pub get-Remembers : (now : ℕ) (kind : String) (key : Text) → Remembers (get now c kind key).0 w
  get-Remembers now kind key = elim (Option-cases (ttl kind)) [
    | inl e ↦ rw (get_uncacheable now c kind key e) m
    | inr (t, e) ↦ rw (get_cacheable now c kind key e) (get_entry-Remembers t now (kind, key))
  ]

  pub set-Remembers :
      (now : ℕ) (kind : String) (key : Text) (x : Value)
      → Remembers (set now c kind key x) (λ j. if key_eq (kind, key) j then some (now, x) else w j)
  set-Remembers now kind key x = elim (Option-cases (ttl kind)) [
    | inr (t, e) ↦ rw (set_cacheable now c kind key x e) (set_entry-Remembers now (kind, key) x)
    | inl e ↦ rw (set_uncacheable now c kind key x e) (λ j y h.
        elim (Bool-cases (key_eq (kind, key) j)) [
          | inr other ↦ rw other (m j y h)
          | inl same ↦ absurd (
              All-find (λ k. ttl k.0 ≢ none) j y c.entries v.cacheable h
                (rw (← (key_eq_iff (kind, key) j).0 same) e))
        ])
  ]

run-Remembers :
    (ops : List Op) (c : Cache) (w : Writes)
    → IsValid c
    → Remembers c w
    → Remembers (run ops c) (λ j. last_write j ops (w j))
unfolding run last_write
run-Remembers [] c w v m = m
run-Remembers (get_at now kind key ∷ ops) c w v m =
    run-Remembers ops (apply (get_at now kind key) c) w (apply-IsValid (get_at now kind key) c v)
      (unfold apply in get-Remembers c w v m now kind key)
run-Remembers (set_at now kind key x ∷ ops) c w v m =
    run-Remembers ops (apply (set_at now kind key x) c)
      (λ j. if key_eq (kind, key) j then some (now, x) else w j)
      (apply-IsValid (set_at now kind key x) c v)
      (unfold apply in set-Remembers c w v m now kind key x)
run-Remembers (clear_all ∷ ops) c w v m =
    run-Remembers ops (apply clear_all c) (λ j. none) (apply-IsValid clear_all c v)
      (unfold apply clear find in λ j y h. absurd (ground arith))

pub get-value :
    (c : Cache) (now : ℕ) (kind : String) (key : Text)
    → (get now c kind key).1 ≢ null
    → (t : ℕ) × (s : ℕ) × (ttl kind ≡ some t)
      × (now - s ≤ t)
      × (find (kind, key) c.entries ≡ some (s, (get now c kind key).1))
get-value c now kind key h = elim (Option-cases (ttl kind)) [
  | inl e ↦ absurd (h (rw (get_uncacheable now c kind key e)))
  | inr (t, e) ↦ elim (get_entry_cases t now c (kind, key)) [
    | inl (missing, g) ↦ absurd (h (rw (get_cacheable now c kind key e, g)))
    | inr (inl (x, found, old, g)) ↦ absurd (h (rw (get_cacheable now c kind key e, g)))
    | inr (inr (x, found, fresh, g)) ↦
        (t, x.0, e, fresh, rw (get_cacheable now c kind key e, g) found)
  ]
]

-- After any sequence of gets, sets and clears on a new cache, whatever a `get` returns other than
-- `None` is what the last `set` of that key behind the last `clear` stored, and was stored no longer
-- ago than the time to live of its kind: no overwritten and no expired value is served.
pub get-last_write :
    (ops : List Op) (n now : ℕ) (kind : String) (key : Text)
    → (get now (run ops (new n)) kind key).1 ≢ null
    → (t : ℕ) × (s : ℕ) × (ttl kind ≡ some t)
      × (now - s ≤ t)
      × (last_write (kind, key) ops none ≡ some (s, (get now (run ops (new n)) kind key).1))
get-last_write ops n now kind key h =
    let (t, s, e, fresh, found) = get-value (run ops (new n)) now kind key h in
    (
      t,
      s,
      e,
      fresh,
      run-Remembers ops (new n) (λ j. none) (new-IsValid n)
          (unfold find in λ j y k. absurd (ground arith)) (kind, key) _ found,
    )
