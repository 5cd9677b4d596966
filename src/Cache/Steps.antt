-- ===== src/Cache/Steps.antt =====
-- `get` and `set` in closed form: what is left of the list, with its loops gone.
use algorandscout.Cache.{Cache, get, get_entry, set, set_entry, ttl}
use algorandscout.Cache.Ordered.{
  Entries, Key, delete, evict-drop, find, move_to_end-assign, move_to_end-delete,
}
use algorandscout.Prelude.{
  Bool-cases, Option-cases, String, Text, [], arith, drop, inl, inr, length, ltb, ltb→lt, none,
  some, ℕ, ◌++◌, ◌+◌, ◌-◌, ◌<◌, ◌∷◌, ◌≡◌, ◌≤◌, ◌⊎◌,
}
use algorandscout.Python.{Value, null}

-- The list after a use or a write of `k`: every other entry, then the entry of `k`.
abbrev pub to_back : Key → ℕ × Value → Entries → Entries
to_back k e l = delete k l ++ (k, e) ∷ []

module _ (t now : ℕ) (c : Cache) (k : Key) where
  abbrev pub Misses : Type 0
  Misses =
      (find k c.entries ≡ none) × (get_entry t now c k ≡ (record c { misses = c.misses + 1 }, null))

  abbrev pub Expires : Type 0
  Expires =
      (e : ℕ × Value) × (find k c.entries ≡ some e)
      × (t < now - e.0)
      × (get_entry t now c k ≡ (
        record c {
          entries = delete k c.entries;
          expirations = c.expirations + 1;
          misses = c.misses + 1;
        },
        null,
      ))

  abbrev pub Hits : Type 0
  Hits =
      (e : ℕ × Value) × (find k c.entries ≡ some e)
      × (now - e.0 ≤ t)
      × (get_entry t now c k
          ≡ (record c { entries = to_back k e c.entries; hits = c.hits + 1 }, e.1))

  pub get_entry_cases : Misses ⊎ (Expires ⊎ Hits)
  unfolding get_entry
  get_entry_cases = elim (Option-cases (find k c.entries)) [
    | inl e ↦ inl (e, ground arith)
    | inr (x, e) ↦ elim (Bool-cases (ltb t (now - x.0))) [
      | inl old ↦ inr (inl (x, e, ltb→lt _ _ old, ground arith))
      | inr fresh ↦
          inr (inr (x, e, ground arith, ground (arith, move_to_end-delete k c.entries {e = x} e)))
    ]
  ]

pub set_entry_lem :
    (now : ℕ) (c : Cache) (k : Key) (x : Value)
    → (let w = to_back k (now, x) c.entries in
        set_entry now c k x ≡ record c {
          entries = drop (length w - c.max_entries) w;
          evictions = c.evictions + (length w - c.max_entries);
        })
unfolding set_entry
set_entry_lem now c k x = rw (move_to_end-assign k (now, x) c.entries, evict-drop)

-- The tests on the kind.
module _ (now : ℕ) (c : Cache) (kind : String) (key : Text) where
  pub get_cacheable :
      {t : ℕ} → ttl kind ≡ some t → get now c kind key ≡ get_entry t now c (kind, key)
  unfolding get
  get_cacheable h = ground arith

  pub get_uncacheable : ttl kind ≡ none → get now c kind key ≡ (c, null)
  unfolding get
  get_uncacheable h = ground arith

  pub set_cacheable :
      {t : ℕ} (x : Value) → ttl kind ≡ some t → set now c kind key x ≡ set_entry now c (kind, key) x
  unfolding set
  set_cacheable x h = ground arith

  pub set_uncacheable : (x : Value) → ttl kind ≡ none → set now c kind key x ≡ c
  unfolding set
  set_uncacheable x h = ground arith
