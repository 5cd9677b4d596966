-- ===== src/Cache/Recency.antt =====
-- How long an entry of the cache stays: others must be used in its place.
-- A use or a write of another key.
use algorandscout.Cache.{
  Cache, Op, apply, clear, clear_all, get, get_at, get_entry, run, set, set_at, set_entry, ttl,
}
use algorandscout.Cache.Behind.{IsRecent, behind-drop, behind-last, delete-IsRecent, snoc-IsRecent}
use algorandscout.Cache.Finds.{find-Absent, find-append}
use algorandscout.Cache.Invariant.{IsValid, apply-IsValid, set-IsValid}
use algorandscout.Cache.Ordered.{Absent-delete, Entries, Key, delete, find, key_eq, key_eq_iff}
use algorandscout.Cache.Steps.{
  get_cacheable, get_entry_cases, get_uncacheable, set_cacheable, set_uncacheable,
}
use algorandscout.Cache.Writes.{find-set_entry, get_entry-value, is_full_for, set_entry-lru}
use algorandscout.Prelude.{
  All, Bool-cases, List, Option-cases, String, Text, [], ap, arith, drop, false, if◌then◌else◌, inl,
  inr, length, none, refl, some, ℕ, ◌+◌, ◌-◌, ◌<◌, ◌∙◌, ◌∷◌, ◌≡◌, ◌≤◌,
}
use algorandscout.Python.{Value}

get_entry-IsRecent :
    (t now : ℕ) (c : Cache) (k i : Key) (e : ℕ × Value) (n : ℕ)
    → key_eq i k ≡ false
    → IsRecent k e n c.entries
    → IsRecent k e (n + 1) (get_entry t now c i).0.entries
get_entry-IsRecent t now c k i e n h (f, b) = elim (get_entry_cases t now c i) [
  | inl (gone, eq) ↦ rw eq (f, omega arith)
  | inr (inl (x, found, old, eq)) ↦
      let (g, d) = delete-IsRecent k i e n c.entries h (f, b) in rw eq (g, omega arith)
  | inr (inr (x, found, fresh, eq)) ↦
      rw eq (snoc-IsRecent k e n (i, x) _ (delete-IsRecent k i e n c.entries h (f, b)))
]

front-IsRecent :
    (c : Cache) (k i : Key) (e : ℕ × Value) (n : ℕ)
    → key_eq i k ≡ false
    → n + 1 < c.max_entries
    → IsRecent k e n c.entries
    → IsRecent k e n (if is_full_for i c then drop 1 c.entries else delete i c.entries)
front-IsRecent c k i e n h room (f, b) = elim (Bool-cases (is_full_for i c)) [
  | inr other ↦ rw other (delete-IsRecent k i e n c.entries h (f, b))
  | inl full ↦
      let many : c.max_entries ≤ length c.entries = ground arith in
      let (g, d) = behind-drop k e c.entries f (omega arith) in rw full (g, omega arith)
]

set_entry-IsRecent :
    (now : ℕ) (c : Cache) (k i : Key) (x : Value) (e : ℕ × Value) (n : ℕ)
    → IsValid c
    → key_eq i k ≡ false
    → n + 1 < c.max_entries
    → IsRecent k e n c.entries
    → IsRecent k e (n + 1) (set_entry now c i x).entries
set_entry-IsRecent now c k i x e n v h room r =
    rw (set_entry-lru now c i x v (omega arith)).0
      (snoc-IsRecent k e n (i, (now, x)) _ (front-IsRecent c k i e n h room r))

-- Operations on other keys, and no `clear`.
abbrev pub IsOther : Key → Op → Type 0
IsOther k (get_at now kind key) = key_eq (kind, key) k ≡ false
IsOther k (set_at now kind key x) = key_eq (kind, key) k ≡ false
IsOther k clear_all = ⊥

get-IsRecent :
    (now : ℕ) (c : Cache) (kind : String) (key : Text) (k : Key) (e : ℕ × Value) (n : ℕ)
    → key_eq (kind, key) k ≡ false
    → IsRecent k e n c.entries
    → IsRecent k e (n + 1) (get now c kind key).0.entries
get-IsRecent now c kind key k e n h r = elim (Option-cases (ttl kind)) [
  | inl none_it ↦ rw (get_uncacheable now c kind key none_it) (r.0, omega (arith, r.1))
  | inr (t, some_it) ↦
      rw (get_cacheable now c kind key some_it) (get_entry-IsRecent t now c k (kind, key) e n h r)
]

set-IsRecent :
    (now : ℕ) (c : Cache) (kind : String) (key : Text) (x : Value) (k : Key) (e : ℕ × Value)
    → (n : ℕ) → IsValid c
    → key_eq (kind, key) k ≡ false
    → n + 1 < c.max_entries
    → IsRecent k e n c.entries
    → IsRecent k e (n + 1) (set now c kind key x).entries
set-IsRecent now c kind key x k e n v h room r = elim (Option-cases (ttl kind)) [
  | inl none_it ↦ rw (set_uncacheable now c kind key x none_it) (r.0, omega (arith, r.1))
  | inr (t, some_it) ↦
      rw (set_cacheable now c kind key x some_it)
        (set_entry-IsRecent now c k (kind, key) x e n v h room r)
]

apply-IsRecent :
    (op : Op) (c : Cache) (k : Key) (e : ℕ × Value) (n : ℕ)
    → IsValid c
    → IsOther k op
    → n + 1 < c.max_entries
    → IsRecent k e n c.entries
    → IsRecent k e (n + 1) (apply op c).entries
unfolding apply
apply-IsRecent (get_at now kind key) c k e n v h room r = get-IsRecent now c kind key k e n h r
apply-IsRecent (set_at now kind key x) c k e n v h room r =
    set-IsRecent now c kind key x k e n v h room r
apply-IsRecent clear_all c k e n v h room r = absurd h

apply-max_entries : (op : Op) (c : Cache) → (apply op c).max_entries ≡ c.max_entries
unfolding apply get get_entry set set_entry clear
apply-max_entries (get_at now kind key) c = ground arith
apply-max_entries (set_at now kind key x) c = ground arith
apply-max_entries clear_all c = refl

run-IsRecent :
    (ops : List Op) (c : Cache) (k : Key) (e : ℕ × Value) (n : ℕ)
    → IsValid c
    → All (IsOther k) ops
    → n + length ops < c.max_entries
    → IsRecent k e n c.entries
    → IsRecent k e (n + length ops) (run ops c).entries
unfolding run
run-IsRecent [] c k e n v h room r = (r.0, omega (arith, r.1))
run-IsRecent (op ∷ ops) c k e n v (h, hs) room r =
    let same = apply-max_entries op c in
    let (f, b) =
      run-IsRecent ops (apply op c) k e (n + 1) (apply-IsValid op c v) hs (omega arith)
        (apply-IsRecent op c k e n v h (omega arith) r) in
    (f, omega arith)

-- A write leaves no older entry of its key.
find-front :
    (k : Key) (c : Cache)
    → IsValid c
    → find k (if is_full_for k c then drop 1 c.entries else delete k c.entries) ≡ none
find-front k c v = elim (Bool-cases (is_full_for k c)) [
  | inl full ↦
      let gone : find k c.entries ≡ none = ground arith in rw full (find-drop_none c.entries gone)
  | inr other ↦ rw other (find-Absent k _ (Absent-delete k c.entries v.distinct))
]
  where
    find-drop_none : (l : Entries) → find k l ≡ none → find k (drop 1 l) ≡ none
    find-drop_none [] h = h
    find-drop_none ((j, d) ∷ l) h = unfold find in ground arith

set_entry-IsLast :
    (stored : ℕ) (c : Cache) (k : Key) (x : Value)
    → IsValid c
    → 0 < c.max_entries
    → IsRecent k (stored, x) 0 (set_entry stored c k x).entries
set_entry-IsLast stored c k x v room = (
  find-set_entry stored c k x v room,
  rw (set_entry-lru stored c k x v room).0 (
      omega (
        arith,
        behind-last k (stored, x) (if is_full_for k c then drop 1 c.entries else delete k c.entries)
            (find-front k c v),
      )),
)

set_entry-max_entries :
    (stored : ℕ) (c : Cache) (k : Key) (x : Value)
    → (set_entry stored c k x).max_entries ≡ c.max_entries
unfolding set_entry
set_entry-max_entries stored c k x = refl

-- What was stored is served again: if fewer operations than the cache has room for entries have run
-- since, on other keys, and no `clear`, then until the time to live has passed `get` returns the
-- stored value, whatever the cache held before.
pub get-run_recent :
    (c : Cache) (kind : String) (key : Text) (x : Value) {t : ℕ} (stored now : ℕ) (ops : List Op)
    → IsValid c
    → ttl kind ≡ some t
    → All (IsOther (kind, key)) ops
    → length ops < c.max_entries
    → now - stored ≤ t
    → (get now (run ops (set stored c kind key x)) kind key).1 ≡ x
get-run_recent c kind key x {t} stored now ops v h others room fresh =
    let written = set_entry stored c (kind, key) x in
    let (f, b) =
      run-IsRecent ops written (kind, key) (stored, x) 0
        (rw (set_cacheable stored c kind key x h) at (set-IsValid stored c kind key v x)) others
        (omega (arith, set_entry-max_entries stored c (kind, key) x))
        (set_entry-IsLast stored c (kind, key) x v (omega arith)) in
    rw (set_cacheable stored c kind key x h, get_cacheable now _ kind key h)
      (get_entry-value t now (run ops written) (kind, key) (stored, x) f ∙ ground arith)

-- A lookup that hits makes its entry the last one.
get_entry-IsLast :
    (t used : ℕ) (c : Cache) (k : Key) (e : ℕ × Value)
    → IsValid c
    → find k c.entries ≡ some e
    → used - e.0 ≤ t
    → IsRecent k e 0 (get_entry t used c k).0.entries
get_entry-IsLast t used c k e v found fresh = elim (get_entry_cases t used c k) [
  | inl (gone, eq) ↦ absurd cc
  | inr (inl (x, there, old, eq)) ↦
      let same : x ≡ e = ground arith in absurd (omega (arith, (rw same at old)))
  | inr (inr (x, there, fresh, eq)) ↦
      let gone = find-Absent k (delete k c.entries) (Absent-delete k c.entries v.distinct) in
      let same : x ≡ e = ground arith in
      rw (eq, same)
        (
          find-append k (delete k c.entries) ((k, e) ∷ [])
              ∙ rw gone (unfold find in ground (arith, key_eq_iff k k)),
          omega (arith, behind-last k e (delete k c.entries) gone),
        )
]

-- What was used is kept: on a valid cache, a `get` that finds an entry within its time to live
-- keeps it from eviction by fewer other operations than the cache has room for entries, on other
-- keys and without a `clear`, however long before it was written and wherever among the entries it
-- stood. Until its time to live has passed, the next `get` of its key returns its value.
pub get-run_used :
    (c : Cache) (kind : String) (key : Text) (x : Value) {t : ℕ} (stored used now : ℕ)
    (ops : List Op)
    → IsValid c
    → ttl kind ≡ some t
    → find (kind, key) c.entries ≡ some (stored, x)
    → used - stored ≤ t
    → All (IsOther (kind, key)) ops
    → length ops < c.max_entries
    → now - stored ≤ t
    → (get now (run ops (get used c kind key).0) kind key).1 ≡ x
unfolding apply
get-run_used c kind key x {t} stored used now ops v h found in_time others room fresh =
    let used_cache = (get_entry t used c (kind, key)).0 in
    let same : (get used c kind key).0.max_entries ≡ c.max_entries =
      apply-max_entries (get_at used kind key) c in
    let valid : IsValid (get used c kind key).0 = apply-IsValid (get_at used kind key) c v in
    let eq = ap (λ (p : Cache × Value). p.0) (get_cacheable used c kind key h) in
    let (f, b) =
      run-IsRecent ops used_cache (kind, key) (stored, x) 0 (rw eq at valid) others
        (omega (arith, rw eq at same))
        (get_entry-IsLast t used c (kind, key) (stored, x) v found in_time) in
    rw (eq, get_cacheable now _ kind key h)
      (get_entry-value t now (run ops used_cache) (kind, key) (stored, x) f ∙ ground arith)
