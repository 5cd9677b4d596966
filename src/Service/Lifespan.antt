-- ===== src/Service/Lifespan.antt =====
-- `lifespan` of service.py: what the application holds from its start to its end.
use algorandscout.Cache
use algorandscout.Cache.{Cache}
use algorandscout.Client.Sessions.{Lives, Sessions, close, new_client}
use algorandscout.Client.Sessions.Ownership.{close-ownership}
use algorandscout.Prelude.{Bool, none, true, ℕ, ◌≡◌}

-- `app.state` behind the start: a client that was given no session, and an empty cache. `started_at`
-- is a wall clock's reading, which only the uptime depends on.
pub record Application : Type 0 where
  pub client : Sessions
  pub cache : Cache

unfoldable pub start_up : ℕ → (ℕ → Bool) → Application
start_up next closed = record {
  client = new_client next closed none;
  cache = Cache.new Cache.max_entries_per_kind;
}

-- The `finally`.
unfoldable pub shut_down : Application → Application
shut_down app = record app { client = close app.client }

-- Whatever the client of the application has lived through, it leaves no session open.
pub shut_down-closes :
    (app : Application) (i : ℕ)
    → Lives app.client
    → app.client.made i ≡ true
    → (shut_down app).client.closed i ≡ true
unfolding shut_down
shut_down-closes app i life made = (close-ownership app.client life).0 i made
