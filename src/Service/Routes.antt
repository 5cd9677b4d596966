-- ===== src/Service/Routes.antt =====
-- The routes of service.py with the templates they are mounted at, the meta routes, and the
-- middleware around every request. The framework parses the parameters before; they are arguments.
pub mod Keeping
mod Handlers
mod Lookups
pub mod Observed
use algorandscout.Cache
use algorandscout.Client.Reads
use algorandscout.Cache.{Cache}
use algorandscout.Capabilities.{capabilities}
use algorandscout.Client.Config.{Config}
use algorandscout.Metrics.{Request, observe_request}
use algorandscout.Metrics.Rendering.{render}
use algorandscout.Prelude.{
  Bool, List, Option, Text, [], codes, if◌then◌else◌, is_nil, none, some, ℕ, ◌+◌, ◌-◌, ◌/◌, ◌∷◌,
}
use algorandscout.Prelude.Int.{ℤ}
use algorandscout.Python.{Platform, Result, Value, dict, obj, ok, raise, text}
use algorandscout.Python.Decimal.{str_ℕ}
use algorandscout.Service.{
  Response, get_address, get_address_transactions, get_block, get_latest_block, get_smart_contract,
  get_token, get_transaction, passthrough, readyz, respond, stats,
}
use algorandscout.Service.Balances.{get_address_token_balances, started}
use algorandscout.Service.Search.{get_token_holders, search}
use algorandscout.World.{Net, World, pure, ◌>>=◌}

-- The routes.
pub data Call : Type 0 where
  call_health call_livez call_readyz call_capabilities call_stats call_latest_block : Call
  call_metrics : Text → Call
  call_address : Text → Bool → Call
  call_address_transactions : Text → Value → Value → Value → Value → Value → Value → Call
  call_token_balances : Text → Value → Value → Bool → Call
  call_transaction : Text → Call
  call_block : ℤ → Bool → Call
  call_token : ℤ → Call
  call_token_holders : ℤ → Value → Value → Bool → Call
  call_smart_contract : ℤ → Call
  call_search : Text → Value → Call
  call_passthrough : Text → List (Text × Value) → Call
  -- no route matches, and the framework answers
  call_unmatched : Response → Call

-- The paths of the decorators.
unfoldable pub route_path : Call → Option Text
route_path call_health = some (codes "/health")
route_path call_livez = some (codes "/livez")
route_path call_readyz = some (codes "/readyz")
route_path call_capabilities = some (codes "/api/v2/capabilities")
route_path call_stats = some (codes "/api/v2/stats")
route_path call_latest_block = some (codes "/api/v2/blocks")
route_path (call_metrics uptime) = some (codes "/metrics")
route_path (call_address address live) = some (codes "/api/v2/addresses/{address}")
route_path (call_address_transactions address limit next after before tx_type asset_id) =
    some (codes "/api/v2/addresses/{address}/transactions")
route_path (call_token_balances address limit next resolve) =
    some (codes "/api/v2/addresses/{address}/token-balances")
route_path (call_transaction txid) = some (codes "/api/v2/transactions/{txid}")
route_path (call_block round with_transactions) = some (codes "/api/v2/blocks/{round_number}")
route_path (call_token asset_id) = some (codes "/api/v2/tokens/{asset_id}")
route_path (call_token_holders asset_id limit next resolve) =
    some (codes "/api/v2/tokens/{asset_id}/holders")
route_path (call_smart_contract app_id) = some (codes "/api/v2/smart-contracts/{app_id}")
route_path (call_search q limit) = some (codes "/api/v2/search")
route_path (call_passthrough path params) = some (codes "/algorand/v2/{path:path}")
route_path (call_unmatched response) = none

-- `_route_for`, given the path of the matched route.
unfoldable pub route_for : Option Text → Text
route_for none = codes "<unmatched>"
route_for (some template) = if is_nil template then codes "<unmatched>" else template

-- `livez`
abbrev pub livez : Net Response
livez = pure (record { status_code = 200; content = dict (("status", text (codes "alive")) ∷ []) })

-- `metrics`, given the printed uptime; the plain text is the content.
unfoldable pub metrics_text : Text → Net Response
metrics_text uptime w = (
  ok (record {
    status_code = 200;
    content = text (
        render w.metrics w.cache (
          (codes "uptime_seconds", uptime)
          ∷ (codes "cache_entries", str_ℕ (Cache.size w.cache))
          ∷ []));
  }),
  w,
)

-- What the middleware observes of a request: 500 if an exception passes.
unfoldable pub status_of : Result Response → ℕ
status_of (ok response) = response.status_code
status_of (raise e) = 500

unfoldable pub measured : Option Text → ℕ → Result Response × World → Request
unfolding route_for status_of
measured template started (r, w) = record {
  route = route_for template;
  status = status_of r;
  duration = (w.clock w.readings - started) / 1000;
}

unfoldable pub record_request : Request → World → World
record_request q w = record w {
  readings = w.readings + 1;
  metrics = observe_request q.route q.status q.duration w.metrics;
}

-- `observability`: `time.perf_counter()` is read from the clock of the world.
unfoldable pub observability : Option Text → Net Response → Net Response
unfolding measured record_request
observability template call_next w =
    let after = call_next (record w { readings = w.readings + 1 }) in
    (after.0, record_request (measured template (w.clock w.readings) after) after.1)

module _ (P : Platform) (c : Config) (fuel : ℕ) (pick : ℕ → ℕ)
    (set_order : List Value → List Value) where
  -- What a route answers; `pick` and `set_order` order the lookups of a page of balances.
  unfoldable pub handle : Call → Net Response
  unfolding metrics_text
  handle call_health = respond (do payload ← Reads.health P c; pure (obj payload))
  handle call_livez = livez
  handle call_readyz = readyz P c fuel
  handle call_capabilities = respond (pure capabilities)
  handle call_stats = respond (stats P c fuel)
  handle call_latest_block = respond (get_latest_block P c fuel)
  handle (call_metrics uptime) = metrics_text uptime
  handle (call_address address live) = respond (get_address P c fuel address live)
  handle (call_address_transactions address limit next after before tx_type asset_id) =
      respond (get_address_transactions P c fuel address limit next after before tx_type asset_id)
  handle (call_token_balances address limit next resolve) =
      respond (get_address_token_balances P c pick set_order address limit next resolve)
  handle (call_transaction txid) = respond (get_transaction P c fuel txid)
  handle (call_block round with_transactions) = respond (get_block P c fuel round with_transactions)
  handle (call_token asset_id) = respond (get_token P c fuel asset_id)
  handle (call_token_holders asset_id limit next resolve) =
      respond (get_token_holders P c fuel asset_id limit next resolve)
  handle (call_smart_contract app_id) = respond (get_smart_contract P c fuel app_id)
  handle (call_search q limit) = respond (search P c fuel q limit)
  handle (call_passthrough path params) = respond (passthrough P c fuel path params)
  handle (call_unmatched response) = pure response

  -- Requests one after the other, the latest first in the list.
  unfoldable pub serve : List Call → World → World
  unfolding handle observability route_path
  serve [] w = w
  serve (call ∷ earlier) w = (observability (route_path call) (handle call) (serve earlier w)).1
