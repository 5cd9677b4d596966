-- ===== src/Service/Routes/Observed.antt =====
-- What the middleware of service.py has observed after any requests.
use algorandscout.Client.Config.{Config}
use algorandscout.Metrics.{Metrics, Request, no_metrics, observe_all}
use algorandscout.Metrics.Histogram.{Describes, observe-Describes, observe_all-Describes, of_route}
use algorandscout.Prelude.{
  List, Option, Text, [], ap, arith, codes, none, refl, some, ℕ, ◌*◌, ◌+◌, ◌-◌, ◌<◌, ◌∷◌, ◌≡◌, ◌≤◌,
}
use algorandscout.Python.{Platform, Result, Value, ok, raise}
use algorandscout.Service.{Response}
use algorandscout.Service.Routes.{
  Call, call_address, call_address_transactions, call_block, call_capabilities, call_health,
  call_latest_block, call_livez, call_metrics, call_passthrough, call_readyz, call_search,
  call_smart_contract, call_stats, call_token, call_token_balances, call_token_holders,
  call_transaction, call_unmatched, handle, measured, observability, record_request, route_for,
  route_path, serve, status_of,
}
use algorandscout.Service.Routes.Handlers.{
  get_address-Keeps, get_address_transactions-Keeps, get_block-Keeps, get_latest_block-Keeps,
  get_smart_contract-Keeps, get_token-Keeps, get_token_holders-Keeps, get_transaction-Keeps,
  passthrough-Keeps, readyz-Keeps, search-Keeps, stats-Keeps,
}
use algorandscout.Service.Routes.Keeping.{Keeps, pure-Keeps, reading, request_part, respond-Keeps}
use algorandscout.Service.Routes.Lookups.{get_address_token_balances-Keeps}
use algorandscout.World.{World}

handle-Keeps :
    (P : Platform) (c : Config) (fuel : ℕ) (pick : ℕ → ℕ) (set_order : List Value → List Value)
    → (call : Call) → Keeps (handle P c fuel pick set_order call)
unfolding handle Keeps
handle-Keeps P c fuel pick set_order call_health = respond-Keeps _ (search reading)
handle-Keeps P c fuel pick set_order call_livez = pure-Keeps _
handle-Keeps P c fuel pick set_order call_readyz = readyz-Keeps P c fuel
handle-Keeps P c fuel pick set_order call_capabilities = respond-Keeps _ (pure-Keeps _)
handle-Keeps P c fuel pick set_order call_stats = respond-Keeps _ (stats-Keeps P c fuel)
handle-Keeps P c fuel pick set_order call_latest_block =
    respond-Keeps _ (get_latest_block-Keeps P c fuel)
handle-Keeps P c fuel pick set_order (call_metrics uptime) = λ w. refl
handle-Keeps P c fuel pick set_order (call_address addr live) =
    respond-Keeps _ (get_address-Keeps P c fuel addr live)
handle-Keeps P c fuel pick set_order
      (call_address_transactions addr limit next after before tx_type asset_id) =
    respond-Keeps _
      (get_address_transactions-Keeps P c fuel addr limit next after before tx_type asset_id)
handle-Keeps P c fuel pick set_order (call_token_balances addr limit next b) =
    respond-Keeps _ (get_address_token_balances-Keeps P c pick set_order addr limit next b)
handle-Keeps P c fuel pick set_order (call_transaction txid) =
    respond-Keeps _ (get_transaction-Keeps P c fuel txid)
handle-Keeps P c fuel pick set_order (call_block round b) =
    respond-Keeps _ (get_block-Keeps P c fuel round b)
handle-Keeps P c fuel pick set_order (call_token id) = respond-Keeps _ (get_token-Keeps P c fuel id)
handle-Keeps P c fuel pick set_order (call_token_holders id limit next b) =
    respond-Keeps _ (get_token_holders-Keeps P c fuel id limit next b)
handle-Keeps P c fuel pick set_order (call_smart_contract id) =
    respond-Keeps _ (get_smart_contract-Keeps P c fuel id)
handle-Keeps P c fuel pick set_order (call_search q limit) =
    respond-Keeps _ (search-Keeps P c fuel q limit)
handle-Keeps P c fuel pick set_order (call_passthrough path params) =
    respond-Keeps _ (passthrough-Keeps P c fuel path params)
handle-Keeps P c fuel pick set_order (call_unmatched response) = pure-Keeps _

-- The description of a route depends on what is kept of the requests alone.
Describes-request_part :
    (m m' : Metrics) (route : Text) (l : List Request)
    → request_part m' ≡ request_part m
    → Describes m route l
    → Describes m' route l
Describes-request_part m m' route l e d = record {
  histogram = rw (ap (λ t. t.1) e) d.histogram;
  count = rw (ap (λ t. t.3) e) d.count;
  sum = rw (ap (λ t. t.2) e) d.sum;
  by_status = λ status. rw (ap (λ t. t.0) e) (d.by_status status);
}

-- The route that a request must be counted under: the template of the route that matched, or a name
-- for all the paths that none matches.
abbrev pub IsRouteOf : Option Text → Text → Type 0
IsRouteOf (some template) route = route ≡ template
IsRouteOf none route = route ≡ codes "<unmatched>"

-- The status that it must be counted under: the one of its response, or 500 if an exception passes.
abbrev pub IsStatusOf : Result Response → ℕ → Type 0
IsStatusOf (ok response) status = status ≡ response.status_code
IsStatusOf (raise e) status = status ≡ 500

-- A request of a route, that found the world `w` and whose handler left `r`: its duration is the time
-- between two readings of the clock, in whole microseconds.
pub record IsMeasured (call : Call) (w : World) (r : Result Response × World) (q : Request)
    : Type 0 where
  pub route : IsRouteOf (route_path call) q.route
  pub status : IsStatusOf r.0 q.status
  pub lower : 1000 * q.duration ≤ r.1.clock r.1.readings - w.clock w.readings
  pub upper : r.1.clock r.1.readings - w.clock w.readings < 1000 * (q.duration + 1)

route_for-IsRouteOf : (call : Call) → IsRouteOf (route_path call) (route_for (route_path call))
unfolding route_path route_for
route_for-IsRouteOf (call_unmatched response) = refl
route_for-IsRouteOf _ = refl

status_of-IsStatusOf : (r : Result Response) → IsStatusOf r (status_of r)
unfolding status_of
status_of-IsStatusOf (ok response) = refl
status_of-IsStatusOf (raise e) = refl

measured-IsMeasured :
    (call : Call) (w : World) (r : Result Response × World)
    → IsMeasured call w r (measured (route_path call) (w.clock w.readings) r)
unfolding measured
measured-IsMeasured call w r = record {
  route = route_for-IsRouteOf call;
  status = status_of-IsStatusOf r.0;
  lower = omega arith;
  upper = omega arith;
}

module _ (P : Platform) (c : Config) (fuel : ℕ) (pick : ℕ → ℕ) (set_order : List Value → List Value)
    (w : World) where
  -- One request was measured for each call, the latest first.
  abbrev pub Logged : List Call → List Request → Type 0
  Logged [] [] = Unit
  Logged (call ∷ earlier) (q ∷ qs) =
      (let before = serve P c fuel pick set_order earlier w in
        IsMeasured call before
          (handle P c fuel pick set_order call (record before { readings = before.readings + 1 }))
          q)
      × Logged earlier qs
  Logged _ _ = ⊥

  -- After any requests of any routes, in a process that had measured none, the metrics describe, for
  -- every route, exactly these requests: each is counted under the template of its route, or under
  -- one name for all unmatched paths, with the status of its response, a 500 for an exception that
  -- passes, and with the time between the clock readings around its handler, in microseconds.
  pub serve-Describes :
      (calls : List Call)
      → w.metrics ≡ no_metrics
      → (qs : List Request) × Logged calls qs
        × ((route : Text)
            → Describes (serve P c fuel pick set_order calls w).metrics route (of_route route qs))
  unfolding serve observability record_request Keeps of_route
  serve-Describes [] e = (
    [],
    tt,
    λ route.
        Describes-request_part no_metrics w.metrics route [] (ap request_part e)
          (unfold observe_all of_route in observe_all-Describes [] route),
  )
  serve-Describes (call ∷ earlier) e =
      let (qs, logged, describes) = serve-Describes earlier e in
      let before = serve P c fuel pick set_order earlier w in
      let began = record before { readings = before.readings + 1 } in
      let after = handle P c fuel pick set_order call began in
      let q = measured (route_path call) (before.clock before.readings) after in
      (
        q ∷ qs,
        (measured-IsMeasured call before after, logged),
        λ route.
            unfold of_route in
            observe-Describes q route after.1.metrics (of_route route qs) (
              Describes-request_part before.metrics after.1.metrics route _
                (handle-Keeps P c fuel pick set_order call began) (describes route)),
      )
