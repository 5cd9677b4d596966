-- ===== src/Cache.antt =====
-- algorandscout/cache.py: `TTLCache`, a bounded LRU cache with a time to live for each kind of data.
-- A clock reading is a number of nanoseconds. The `OrderedDict` is a list, oldest entry first. Each
-- method runs under the lock, so it is one step.
pub mod Ordered
mod Steps
mod Finds
mod Behind
pub mod Invariant
pub mod Writes
pub mod Freshness
pub mod Counters
pub mod Recency
pub mod Fetches
pub mod Tasks
use Ordered.{find, delete, assign, move_to_end, evict}
use algorandscout.Cache.Ordered.{Entries, Key}
use algorandscout.Prelude.{
  List, Option, String, Text, [], if◌then◌else◌, length, ltb, none, some, str_eq, ℕ, ◌*◌, ◌+◌, ◌-◌,
  ◌^◌, ◌∷◌,
}
use algorandscout.Python.{Result, Value, is_null, null, ok, raise}

abbrev pub seconds : ℕ → ℕ
seconds n = n * 10 ^ 9

-- `TTL_SECONDS.get(kind)`
unfoldable pub ttl : String → Option ℕ
ttl kind =
    if str_eq kind "block"
    then some (seconds 3600)
    else if str_eq kind "transaction"
    then some (seconds 3600)
    else if str_eq kind "asset"
    then some (seconds 300)
    else if str_eq kind "application"
    then some (seconds 300)
    else none

abbrev pub max_entries_per_kind : ℕ
max_entries_per_kind = 2048

-- `_data`, `_max` and the four counters of `CacheStats`.
pub record Cache : Type 0 where
  pub entries : Entries
  pub max_entries : ℕ
  pub hits : ℕ
  pub misses : ℕ
  pub evictions : ℕ
  pub expirations : ℕ

-- `TTLCache(max_entries)`
abbrev pub new : ℕ → Cache
new max_entries = record {
  entries = [];
  max_entries = max_entries;
  hits = 0;
  misses = 0;
  evictions = 0;
  expirations = 0;
}

-- `get` behind the test on the kind: `t` is its time to live.
unfoldable pub get_entry : ℕ → ℕ → Cache → Key → Cache × Value
get_entry t now c k = elim (find k c.entries) [
  | none ↦ (record c { misses = c.misses + 1 }, null)
  | some (stored_at, value) ↦
      if ltb t (now - stored_at)
      then (
        record c {
          entries = delete k c.entries;
          expirations = c.expirations + 1;
          misses = c.misses + 1;
        },
        null,
      )
      else (record c { entries = move_to_end k c.entries; hits = c.hits + 1 }, value)
]

-- `get`; `null` is Python's `None`.
unfoldable pub get : ℕ → Cache → String → Text → Cache × Value
get now c kind key = elim (ttl kind) [ none ↦ (c, null) | some t ↦ get_entry t now c (kind, key) ]

-- `set` behind the test on the kind.
unfoldable pub set_entry : ℕ → Cache → Key → Value → Cache
set_entry now c k value =
    let written = move_to_end k (assign k (now, value) c.entries) in
    let (kept, evicted) = evict c.max_entries written in
    record c { entries = kept; evictions = c.evictions + evicted }

unfoldable pub set : ℕ → Cache → String → Text → Value → Cache
set now c kind key value = elim (ttl kind) [ none ↦ c | some t ↦ set_entry now c (kind, key) value ]

unfoldable pub clear : Cache → Cache
clear c = record c { entries = [] }

-- `len(cache)`
abbrev pub size : Cache → ℕ
size c = length c.entries

-- The last lines of `get_or_fetch`: what `fetch` returned is stored, what it raised is not.
unfoldable pub store_fetched : ℕ → String → Text → Result Value × Cache → Result Value × Cache
store_fetched now kind key (ok value, c) = (ok value, set now c kind key value)
store_fetched now kind key (raise e, c) = (raise e, c)

-- `get_or_fetch`, at the clock readings of its `get` and its `set`. The lock is not held while
-- `fetch` is awaited, so `fetch` may also change the cache: other tasks run meanwhile.
unfoldable pub get_or_fetch :
    ℕ → ℕ → Cache → String → Text → (Cache → Result Value × Cache) → Result Value × Cache
unfolding store_fetched
get_or_fetch now later c kind key fetch =
    let (c', hit) = get now c kind key in
    if is_null hit then store_fetched later kind key (fetch c') else (ok hit, c')

-- The operations of the cache, each with its reading of the clock.
pub data Op : Type 0 where
  get_at : ℕ → String → Text → Op
  set_at : ℕ → String → Text → Value → Op
  clear_all : Op

unfoldable pub apply : Op → Cache → Cache
apply (get_at now kind key) c = (get now c kind key).0
apply (set_at now kind key value) c = set now c kind key value
apply clear_all c = clear c

-- Operations in the order in which they take the lock.
unfoldable pub run : List Op → Cache → Cache
run [] c = c
run (op ∷ ops) c = run ops (apply op c)
