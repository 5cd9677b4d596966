-- ===== src/Service.antt =====
-- algorandscout/service.py: the routes that read the chain, the error handlers and the allowlist of
-- the passthrough.
-- A handler is its body, in the state of World; `request` and the query parameters are its arguments.
pub mod Balances
pub mod Confirmations
pub mod Lifespan
pub mod Passthrough
pub mod Cached
pub mod Failures
pub mod Hits
pub mod Refusals
pub mod Routes
pub mod Search
pub mod Searches
use algorandscout.Cache
use algorandscout.Client.Config.{Config}
use algorandscout.Client.Errors.{caller_error}
use algorandscout.Client.Reads
use algorandscout.Mapping.Accounts.{map_account}
use algorandscout.Mapping.Applications.{map_application}
use algorandscout.Mapping.Assets.{map_asset}
use algorandscout.Mapping.Blocks.{map_block, map_stats}
use algorandscout.Mapping.Transactions.{map_transaction_list}
use algorandscout.Metrics.{observe_upstream}
use algorandscout.Prelude.{
  Bool, List, String, Text, [], codes, false, if◌then◌else◌, ltb, none, some, starts_with, text_eq,
  ℕ, ◌&&◌, ◌++◌, ◌==◌, ◌||◌, ◌∷◌,
}
use algorandscout.Prelude.Int.{pos, ℤ, ◌-ℤ◌}
use algorandscout.Python.{
  AlgorandError, Fields, Platform, Result, Value, algorand_error, as_dict, bool, dict, field, get,
  http_exception, is_null, list, nat, null, num, obj, ok, put, raise, str, text, truthy,
  validation_error,
}
use algorandscout.Python.Decimal.{str_ℤ}
use algorandscout.Validation.{validate_address, validate_txid, validate_uint64}
use Confirmations.{confirmed}
use algorandscout.World.{Net, World, lift, pure, read_clock, ◌>>=◌}

-- `PASSTHROUGH_PREFIXES`
abbrev pub passthrough_prefixes : List Text
passthrough_prefixes =
    codes "/v2/accounts"
    ∷ codes "/v2/assets"
    ∷ codes "/v2/applications"
    ∷ codes "/v2/blocks"
    ∷ codes "/v2/transactions"
    ∷ []

-- `target == p or target.startswith(p + "/")`
unfoldable pub under_prefix : Text → Text → Bool
under_prefix target p = text_eq target p || starts_with target (p ++ codes "/")

-- The `any` of `passthrough`.
unfoldable pub path_allowed : Text → List Text → Bool
unfolding under_prefix
path_allowed target [] = false
path_allowed target (p ∷ l) = under_prefix target p || path_allowed target l

-- `algorand_error_handler`: the status of the response to an error.
unfoldable pub error_status : AlgorandError → ℕ
error_status e =
    if e.not_found
    then 404
    else if elim e.status [ none ↦ false | some s ↦ s == 429 ]
    then 429
    else if caller_error e
    then 400
    else 502

-- A response: its status and its JSON.
pub record Response : Type 0 where
  pub status_code : ℕ
  pub content : Value

abbrev pub upstream_outcome : ℕ → Text
upstream_outcome status = if ltb status 500 then codes "caller_error" else codes "upstream_error"

abbrev pub count_outcome : Text → World → World
count_outcome outcome w = record w {
  metrics = observe_upstream (codes "indexer") outcome w.metrics;
}

-- `algorand_error_handler`
unfoldable pub algorand_error_handler : AlgorandError → Net Response
unfolding error_status
algorand_error_handler e w =
    let status = error_status e in
    (
      ok (record {
        status_code = status;
        content = dict (
            ("error", text e.message)
            ∷ ("upstream_status", elim e.status [ none ↦ null | some s ↦ nat s ])
            ∷ []);
      }),
      count_outcome (upstream_outcome status) w,
    )

-- `validation_error_handler`
unfoldable pub validation_error_handler : Text → Net Response
validation_error_handler message = pure (record {
  status_code = 400;
  content = dict (("error", text message) ∷ ("kind", text (codes "validation")) ∷ []);
})

-- What a request is answered with: the body its handler returned, or what the handler of its
-- exception makes of it. An `HTTPException` carries its status; any other exception goes on.
unfoldable pub answer : Result Value × World → Result Response × World
unfolding algorand_error_handler validation_error_handler
answer (ok body, w) = (ok (record { status_code = 200; content = body }), w)
answer (raise (validation_error message), w) = validation_error_handler message w
answer (raise (algorand_error e), w) = algorand_error_handler e w
answer (raise (http_exception status detail), w) =
    (ok (record { status_code = status; content = dict (("detail", text detail) ∷ []) }), w)
answer (raise e, w) = (raise e, w)

unfoldable pub respond : Net Value → Net Response
unfolding answer
respond handler w = answer (handler w)

-- `get_or_fetch` of the shared cache, whose readings of the clock and whose `fetch` are steps of the
-- world. A `get` is given a reading of the clock, whether it needs it or not.
unfoldable pub look_up : String → Text → Net Value
look_up kind key = do
  now ← read_clock
  λ w. (let (c, hit) = Cache.get now w.cache kind key in (ok hit, record w { cache = c }))

unfoldable pub store : String → Text → Value → Net Value
store kind key value = do
  now ← read_clock
  λ w. (ok value, record w { cache = Cache.set now w.cache kind key value })

unfoldable pub cached : String → Text → Net Value → Net Value
unfolding look_up store
cached kind key fetch = do
  hit ← look_up kind key
  if is_null hit then (do value ← fetch; store kind key value) else pure hit

-- The service: the client's configuration, and the fuel of `map_transaction`.
module _ (P : Platform) (c : Config) (fuel : ℕ) where
  -- `readyz`
  unfoldable pub readyz : Net Response
  readyz = do
    payload ← Reads.health P c
    let ready = truthy (get payload "healthy")
    pure (record {
      status_code = if ready then 200 else 503;
      content = obj (field "ready" (bool ready) payload);
    })

  unfoldable pub stats : Net Value
  stats = do
    payload ← Reads.status P c
    node ← lift (as_dict payload)
    health_payload ← Reads.health P c
    pure (map_stats P node health_payload)

  unfoldable pub get_address : Text → Bool → Net Value
  get_address address live = do
    valid ← lift (validate_address P (text address))
    payload ← Reads.account P c address live
    d ← lift (as_dict payload)
    lift (map_account P d)

  unfoldable pub get_address_transactions :
      Text → Value → Value → Value → Value → Value → Value → Net Value
  get_address_transactions address limit next_token after_time before_time tx_type asset_id = do
    valid ← lift (validate_address P (text address))
    id ← lift (if is_null asset_id then ok (pos 0) else validate_uint64 (codes "asset_id") asset_id)
    payload ←
        Reads.account_transactions P c address limit next_token after_time before_time tx_type
          asset_id
    d ← lift (as_dict payload)
    lift (map_transaction_list P fuel d (get d "current-round"))

  unfoldable pub get_transaction : Text → Net Value
  get_transaction txid = do
    valid ← lift (validate_txid P (text txid))
    payload ← cached "transaction" txid (Reads.transaction P c txid)
    d ← lift (as_dict payload)
    let tx = get d "transaction"
    if truthy tx
        then lift (confirmed P fuel d tx)
        else lift (raise (http_exception 404 (codes "transaction not found")))

  unfoldable pub get_block : ℤ → Bool → Net Value
  get_block round_number include_transactions = do
    valid ← lift (validate_uint64 (codes "round") (num round_number))
    payload ← cached "block" (str_ℤ round_number) (Reads.block P c round_number)
    d ← lift (as_dict payload)
    mapped ← lift (map_block P fuel d include_transactions)
    pure (obj mapped)

  -- `c.block(tip)`, with whatever the node reported.
  unfoldable pub get_latest_block : Net Value
  get_latest_block = do
    payload ← Reads.status P c
    node ← lift (as_dict payload)
    let tip = get node "last-round"
    if is_null tip
        then lift (raise (http_exception 502 (codes "node did not report a round")))
        else (do
          found ← Reads.indexer P c (codes "/v2/blocks/" ++ str P tip) []
          d ← lift (as_dict found)
          mapped ← lift (map_block P fuel d false)
          pure (dict (("items", list (obj mapped ∷ [])) ∷ ("next_page_params", null) ∷ [])))

  unfoldable pub get_token : ℤ → Net Value
  get_token asset_id = do
    valid ← lift (validate_uint64 (codes "asset_id") (num asset_id))
    payload ← cached "asset" (str_ℤ asset_id) (Reads.asset P c asset_id)
    d ← lift (as_dict payload)
    lift (map_asset P d)

  unfoldable pub get_smart_contract : ℤ → Net Value
  get_smart_contract app_id = do
    valid ← lift (validate_uint64 (codes "app_id") (num app_id))
    payload ← cached "application" (str_ℤ app_id) (Reads.application P c app_id)
    d ← lift (as_dict payload)
    lift (map_application P d)

  -- `passthrough`; `params` are the query's, as they came.
  unfoldable pub passthrough : Text → List (Text × Value) → Net Value
  unfolding path_allowed
  passthrough path params =
      let target = codes "/v2/" ++ path in
      if path_allowed target passthrough_prefixes
      then Reads.indexer P c target params
      else lift (raise (http_exception 403 (codes "path not in passthrough allowlist: " ++ target)))
