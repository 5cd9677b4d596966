-- ===== src/Cache/Writes.antt =====
-- What `get` returns after a `set`, and which entries a `set` evicts.
use algorandscout.Cache.{Cache, get, get_entry, set, set_entry, ttl}
use algorandscout.Cache.Finds.{delete_absent, drop-snoc, find-Absent, find-append}
use algorandscout.Cache.Invariant.{IsValid}
use algorandscout.Cache.Ordered.{
  Absent-delete, All-drop, Key, delete, find, key_eq_iff, length-delete,
}
use algorandscout.Cache.Steps.{get_cacheable, set_cacheable, set_entry_lem, to_back}
use algorandscout.Prelude.{
  Bool, String, Text, [], arith, drop, false, if◌then◌else◌, leb, length, length-append, none, refl,
  some, ℕ, ◌++◌, ◌+◌, ◌-◌, ◌<◌, ◌∙◌, ◌∷◌, ◌≡◌, ◌≤◌,
}
use algorandscout.Python.{Value, null}

-- The list that a `set` leaves ends in the written entry, which is found.
pub find-set_entry :
    (now : ℕ) (c : Cache) (k : Key) (x : Value)
    → IsValid c
    → 0 < c.max_entries
    → find k (set_entry now c k x).entries ≡ some (now, x)
find-set_entry now c k x v room =
    let d = delete k c.entries in
    let w = to_back k (now, x) c.entries in
    let n = length w - c.max_entries in
    let few : n ≤ length d = omega (arith, length-append d ((k, (now, x)) ∷ [])) in
    let gone : find k (drop n d) ≡ none =
      find-Absent k (drop n d) (All-drop _ n d (Absent-delete k c.entries v.distinct)) in
    rw (set_entry_lem now c k x, drop-snoc n d (k, (now, x)) few)
      (find-append k (drop n d) ((k, (now, x)) ∷ [])
        ∙ rw gone (unfold find in ground (arith, key_eq_iff k k)))

pub get_entry-value :
    (t now : ℕ) (c : Cache) (k : Key) (e : ℕ × Value)
    → find k c.entries ≡ some e
    → (get_entry t now c k).1 ≡ (if leb (now - e.0) t then e.1 else null)
unfolding get_entry
get_entry-value t now c k e h = ground arith

-- On a valid cache with room for an entry, a `get` of a cacheable kind returns what the last `set`
-- of its key stored, as long as no more than the time to live has passed, and `None` after that.
pub get-set_self :
    (c : Cache) (kind : String) (key : Text) (x : Value) {t : ℕ} (stored now : ℕ)
    → IsValid c
    → ttl kind ≡ some t
    → 0 < c.max_entries
    → (get now (set stored c kind key x) kind key).1 ≡ (if leb (now - stored) t then x else null)
get-set_self c kind key x {t} stored now v h room =
    rw (set_cacheable stored c kind key x h, get_cacheable now _ kind key h)
      (get_entry-value t now (set_entry stored c (kind, key) x) (kind, key) (stored, x)
        (find-set_entry stored c (kind, key) x v room))

-- A write of `k` must make room: the key is new and the cache is full.
abbrev pub is_full_for : Key → Cache → Bool
is_full_for k c = elim (find k c.entries) [
  | none ↦ leb c.max_entries (length c.entries)
  | some _ ↦ false
]

-- How many entries the loop of `set` drops.
excess :
    (now : ℕ) (c : Cache) (k : Key) (x : Value)
    → IsValid c
    → length (to_back k (now, x) c.entries) - c.max_entries ≡ (if is_full_for k c then 1 else 0)
excess now c k x v =
    let a = length-append (delete k c.entries) ((k, (now, x)) ∷ []) in
    let b = v.bounded in ground (arith, a, length-delete k c.entries)

kept :
    (now : ℕ) (c : Cache) (k : Key) (x : Value)
    → 0 < c.max_entries
    → drop (if is_full_for k c then 1 else 0) (to_back k (now, x) c.entries)
      ≡ (if is_full_for k c then drop 1 c.entries else delete k c.entries) ++ (k, (now, x)) ∷ []
kept now c k x room =
    let front = drop-snoc 1 c.entries (k, (now, x)) in
    let gone = delete_absent k c.entries in ground (arith, front, gone)

pub set_entry-lru :
    (now : ℕ) (c : Cache) (k : Key) (x : Value)
    → IsValid c
    → 0 < c.max_entries
    → ((set_entry now c k x).entries
        ≡ (if is_full_for k c then drop 1 c.entries else delete k c.entries) ++ (k, (now, x)) ∷ [])
      × ((set_entry now c k x).evictions ≡ c.evictions + (if is_full_for k c then 1 else 0))
set_entry-lru now c k x v room =
    rw (set_entry_lem now c k x, excess now c k x v) (kept now c k x room, refl)
