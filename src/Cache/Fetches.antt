-- ===== src/Cache/Fetches.antt =====
-- `get_or_fetch` of cache.py.
use algorandscout.Cache.{Cache, get, get_or_fetch, set, store_fetched, ttl}
use algorandscout.Cache.Invariant.{IsValid}
use algorandscout.Cache.Writes.{get-set_self}
use algorandscout.Prelude.{
  String, Text, arith, false, if◌then◌else◌, leb, refl, some, ℕ, ◌-◌, ◌<◌, ◌∙◌, ◌≡◌, ◌≤◌,
}
use algorandscout.Python.{Result, Value, is_null, null, ok}

fetched :
    (now later : ℕ) (c c' : Cache) (kind : String) (key : Text) (x : Value)
    (fetch : Cache → Result Value × Cache)
    → (get now c kind key).1 ≡ null
    → fetch (get now c kind key).0 ≡ (ok x, c')
    → get_or_fetch now later c kind key fetch ≡ (ok x, set later c' kind key x)
unfolding get_or_fetch store_fetched
fetched now later c c' kind key x fetch missed e = rw (missed, e) refl

found :
    (now later : ℕ) (c : Cache) (kind : String) (key : Text) (x : Value)
    (fetch : Cache → Result Value × Cache)
    → (get now c kind key).1 ≡ x
    → is_null x ≡ false
    → get_or_fetch now later c kind key fetch ≡ (ok x, (get now c kind key).0)
unfolding get_or_fetch
found now later c kind key x fetch hit e = rw (hit, e) refl

within : (x : Value) (a t : ℕ) → a ≤ t → (if leb a t then x else null) ≡ x
within x a t h = ground arith

-- A miss of a cacheable kind is fetched once: what `fetch` returned is stored and returned, and the
-- next `get_or_fetch` of the same key within the time to live returns it without calling its
-- `fetch`, whatever that would do. `fetch` must leave a valid cache with room for an entry, and must
-- not return `None`.
pub get_or_fetch_once :
    (c c' : Cache) (kind : String) (key : Text) (x : Value)
    (fetch fetch' : Cache → Result Value × Cache) (now later next last : ℕ) {t : ℕ}
    → (get now c kind key).1 ≡ null
    → fetch (get now c kind key).0 ≡ (ok x, c')
    → is_null x ≡ false
    → IsValid c'
    → 0 < c'.max_entries
    → ttl kind ≡ some t
    → next - later ≤ t
    → (let filled = set later c' kind key x in
        (get_or_fetch now later c kind key fetch ≡ (ok x, filled))
        × (get_or_fetch next last filled kind key fetch' ≡ (ok x, (get next filled kind key).0)))
get_or_fetch_once c c' kind key x fetch fetch' now later next last {t} missed e proper v room h
      fresh =
    (
      fetched now later c c' kind key x fetch missed e,
      found next last (set later c' kind key x) kind key x fetch'
          (get-set_self c' kind key x later next v h room ∙ within x (next - later) t fresh) proper,
    )
