-- ===== src/Service/Cached.antt =====
-- What the routes of service.py that cache their payload ask of the upstream.
use algorandscout.Cache.{Op, run, ttl}
use algorandscout.Cache.Invariant.{IsValid}
use algorandscout.Cache.Recency.{IsOther, get-run_recent}
use algorandscout.Prelude.{
  All, List, String, Text, false, length, refl, some, ℕ, ◌-◌, ◌<◌, ◌≡◌, ◌≤◌,
}
use algorandscout.Python.{Value, is_null, ok}
use algorandscout.Service.{cached, look_up, store}
use algorandscout.World.{Net, World, pure, read_clock, ◌>>=◌}

-- A payload that was stored by a route is served again without a request to the upstream, if since
-- then fewer operations than the cache has room for entries have run, on other keys, no `clear` was
-- among them, and no more than the time to live has passed.
pub cached-store :
    (kind : String) (key : Text) (v : Value) {t : ℕ} (fetch : Net Value) (w w' : World)
    → (ops : List Op) → IsValid w.cache
    → ttl kind ≡ some t
    → is_null v ≡ false
    → All (IsOther (kind, key)) ops
    → length ops < w.cache.max_entries
    → w'.cache ≡ run ops (store kind key v w).1.cache
    → w'.clock w'.readings - w.clock w.readings ≤ t
    → ((cached kind key fetch w').0 ≡ ok v) × ((cached kind key fetch w').1.sent ≡ w'.sent)
unfolding cached look_up store read_clock ◌>>=◌ pure
cached-store kind key v fetch w w' ops valid h some_v others room same fresh =
    let served =
      get-run_recent w.cache kind key v (w.clock w.readings) (w'.clock w'.readings) ops valid h
        others room fresh in
    rw (same, served, some_v) (refl, refl)
