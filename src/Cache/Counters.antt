-- ===== src/Cache/Counters.antt =====
-- `CacheStats`: the four counters account for every lookup and for every entry.
use algorandscout.Cache.{
  Cache, Op, apply, clear, clear_all, get_at, get_entry, run, set_at, set_entry, size, ttl,
}
use algorandscout.Cache.Invariant.{length-to_back}
use algorandscout.Cache.Ordered.{Key, delete, find, length-delete}
use algorandscout.Cache.Steps.{
  get_cacheable, get_entry_cases, get_uncacheable, set_cacheable, set_entry_lem, set_uncacheable,
  to_back,
}
use algorandscout.Prelude.{
  List, Option-cases, [], arith, inl, inr, length, length-append, length-drop, none, refl, some, ℕ,
  ◌+◌, ◌-◌, ◌∷◌, ◌≡◌,
}
use algorandscout.Python.{Value}

-- The lookups among the operations: `get` counts only those of a cacheable kind.
unfoldable pub lookups : List Op → ℕ
lookups [] = 0
lookups (get_at now kind key ∷ ops) = (elim (ttl kind) [ none ↦ 0 | some _ ↦ 1 ]) + lookups ops
lookups (_ ∷ ops) = lookups ops

-- The entries that one operation adds: a `set` adds one if its kind is cacheable and its key new.
unfoldable pub added : Op → Cache → ℕ
added (set_at now kind key x) c = elim (ttl kind) [
  | none ↦ 0
  | some _ ↦ elim (find (kind, key) c.entries) [ none ↦ 1 | some _ ↦ 0 ]
]
added _ c = 0

-- The entries that one operation drops without counting them: `clear` drops all.
unfoldable pub cleared : Op → Cache → ℕ
cleared clear_all c = size c
cleared _ c = 0

unfoldable pub total_added : List Op → Cache → ℕ
total_added [] c = 0
total_added (op ∷ ops) c = added op c + total_added ops (apply op c)

unfoldable pub total_cleared : List Op → Cache → ℕ
total_cleared [] c = 0
total_cleared (op ∷ ops) c = cleared op c + total_cleared ops (apply op c)

-- The entries that are there, and those that are counted as gone.
abbrev pub accounted : Cache → ℕ
accounted c = size c + c.evictions + c.expirations

get_entry-counters :
    (t now : ℕ) (c : Cache) (k : Key)
    → (let d = (get_entry t now c k).0 in
        (d.hits + d.misses ≡ c.hits + c.misses + 1) × (accounted d ≡ accounted c))
get_entry-counters t now c k = elim (get_entry_cases t now c k) [
  | inl (missing, e) ↦ rw e (omega arith, refl)
  | inr (inl (x, found, old, e)) ↦
      rw e (omega arith, omega (arith, rw found at (length-delete k c.entries)))
  | inr (inr (x, found, fresh, e)) ↦
      rw e (omega arith, omega (arith, length-to_back k x x c.entries found))
]

set_entry-counters :
    (now : ℕ) (c : Cache) (k : Key) (x : Value)
    → (let d = set_entry now c k x in
        (d.hits + d.misses ≡ c.hits + c.misses)
        × (accounted d ≡ accounted c + (elim (find k c.entries) [ none ↦ 1 | some _ ↦ 0 ])))
set_entry-counters now c k x =
    let w = to_back k (now, x) c.entries in
    let a = length-append (delete k c.entries) ((k, (now, x)) ∷ []) in
    let b = length-drop (length w - c.max_entries) w in
    rw set_entry_lem (refl, ground (arith, length-delete k c.entries))

pub apply-counters :
    (op : Op) (c : Cache)
    → ((apply op c).hits + (apply op c).misses ≡ c.hits + c.misses + lookups (op ∷ []))
      × (accounted (apply op c) + cleared op c ≡ accounted c + added op c)
unfolding apply lookups cleared added clear
apply-counters (get_at now kind key) c = elim (Option-cases (ttl kind)) [
  | inl e ↦ let g = get_uncacheable now c kind key e in (ground arith, ground arith)
  | inr (t, e) ↦
      let g = get_cacheable now c kind key e in
      let (a, b) = get_entry-counters t now c (kind, key) in (ground arith, ground arith)
]
apply-counters (set_at now kind key x) c = elim (Option-cases (ttl kind)) [
  | inl e ↦ let g = set_uncacheable now c kind key x e in (ground arith, ground arith)
  | inr (t, e) ↦
      let g = set_cacheable now c kind key x e in
      let (a, b) = set_entry-counters now c (kind, key) x in (ground arith, ground arith)
]
apply-counters clear_all c = (omega arith, omega arith)

lookups-cons : (op : Op) (ops : List Op) → lookups (op ∷ ops) ≡ lookups (op ∷ []) + lookups ops
unfolding lookups
lookups-cons (get_at now kind key) ops = omega arith
lookups-cons (set_at now kind key x) ops = omega arith
lookups-cons clear_all ops = omega arith

-- Over any sequence of operations, hits and misses together grow by the number of lookups of
-- cacheable kinds, and every entry that was there or was added is still there, or was counted as
-- evicted or expired, or was dropped by a `clear`.
pub run-counters :
    (ops : List Op) (c : Cache)
    → ((run ops c).hits + (run ops c).misses ≡ c.hits + c.misses + lookups ops)
      × (accounted (run ops c) + total_cleared ops c ≡ accounted c + total_added ops c)
unfolding run total_cleared total_added
run-counters [] c = (unfold lookups in omega arith, omega arith)
run-counters (op ∷ ops) c =
    let (a, b) = run-counters ops (apply op c) in
    let (d, e) = apply-counters op c in (omega (arith, lookups-cons op ops), omega arith)
