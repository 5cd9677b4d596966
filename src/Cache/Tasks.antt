-- ===== src/Cache/Tasks.antt =====
-- `get_or_fetch` of cache.py under concurrency: any number of tasks call it on one cache. A task
-- holds no lock while it awaits its `fetch`, so it is two steps, its `get` and its `set`, and the
-- steps of the tasks interleave in any order.
pub mod Served
pub mod Counted
pub mod Repeats
use algorandscout.Cache.{Cache, clear, get, new, set}
use algorandscout.Cache.Ordered.{Entries}
use algorandscout.Prelude.{List, String, Text, [], if◌then◌else◌, ℕ, ◌++◌, ◌+◌, ◌∷◌, ◌≡◌, ◌≤◌}
use algorandscout.Python.{Exception, Result, Value, is_null, ok, raise}

-- A call of `get_or_fetch`, with the clock reading of its `get`.
pub record CachedRead : Type 0 where
  pub began : ℕ
  pub kind : String
  pub key : Text

-- How a call ended: the cache had the value; `fetch` returned it, and it was stored at this reading
-- of the clock; `fetch` raised.
pub data Answer : Type 0 where
  hit : CachedRead → Value → Answer
  fetched : CachedRead → ℕ → Value → Answer
  failed : CachedRead → Exception → Answer

-- `now` is the latest reading of the clock, `pending` the calls that await their `fetch`, and
-- `fetches` counts the calls of `fetch`. `answers`, and `log`, what `fetch` returned for which key,
-- only record what happened, the latest first.
pub record System : Type 0 where
  pub cache : Cache
  pub now : ℕ
  pub pending : List CachedRead
  pub answers : List Answer
  pub log : Entries
  pub fetches : ℕ

abbrev pub idle : ℕ → System
idle max_entries = record {
  cache = new max_entries;
  now = 0;
  pending = [];
  answers = [];
  log = [];
  fetches = 0;
}

-- `if hit is not None: return hit`, else `fetch()` is called.
unfoldable pub looked_up : CachedRead → Value → System → System
looked_up call x s =
    if is_null x
    then record s { pending = call ∷ s.pending; fetches = s.fetches + 1 }
    else record s { answers = hit call x ∷ s.answers }

-- A call up to its `await`.
unfoldable pub start : CachedRead → System → System
start call s =
    let (c, x) = get call.began s.cache call.kind call.key in
    looked_up call x (record s { cache = c; now = call.began })

-- A call behind its `await`: `rest` are the other calls that wait.
unfoldable pub finish : CachedRead → ℕ → Result Value → List CachedRead → System → System
finish call later (ok x) rest s = record s {
  cache = set later s.cache call.kind call.key x;
  now = later;
  pending = rest;
  answers = fetched call later x ∷ s.answers;
  log = ((call.kind, call.key), (later, x)) ∷ s.log;
}
finish call later (raise e) rest s = record s {
  now = later;
  pending = rest;
  answers = failed call e ∷ s.answers;
}

-- Calls that begin one after another, before any pending `fetch` ends.
unfoldable pub start_all : List CachedRead → System → System
start_all [] s = s
start_all (call ∷ calls) s = start_all calls (start call s)

-- A new call, the end of any pending `fetch` with any outcome, or a `clear`.
pub data Step (s : System) : System → Type 0 where
  starts : (call : CachedRead) → s.now ≤ call.began → Step s (start call s)
  finishes :
      (xs ys : List CachedRead) (call : CachedRead) (later : ℕ) (r : Result Value)
      → s.pending ≡ xs ++ call ∷ ys
      → s.now ≤ later
      → Step s (finish call later r (xs ++ ys) s)
  clears : Step s (record s { cache = clear s.cache })

pub data Reach (max_entries : ℕ) : System → Type 0 where
  initial : Reach max_entries (idle max_entries)
  next : {s t : System} → Reach max_entries s → Step s t → Reach max_entries t
