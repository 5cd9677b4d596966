-- ===== src/Service/Search.antt =====
-- `search` and `get_token_holders` of service.py, which read around errors of the upstream.
use algorandscout.Client.Config.{Config}
use algorandscout.Client.Reads
use algorandscout.Mapping.Accounts.{map_account}
use algorandscout.Mapping.Applications.{map_application}
use algorandscout.Mapping.Assets.{map_asset, map_asset_holders}
use algorandscout.Prelude.{
  List, Bool, Option, String, Text, [], codes, false, if◌then◌else◌, none, some, ℕ, ◌++◌, ◌∷◌,
}
use algorandscout.Prelude.Int.{ℤ}
use algorandscout.Python.{
  Platform, Result, Value, algorand_error, as_dict, dict, list, null, num, ok, raise, text, truthy,
  value_error,
}
use algorandscout.Service.Hits.{asset_decimals, asset_hits, transaction_hit}
use algorandscout.Validation.{
  QueryKind, address, classify_query, numeric, transaction, strip, validate_uint64,
}
use algorandscout.World.{Net, World, lift, pure, ◌>>=◌}

-- A body under `except AlgorandError: pass`, with the results it would append: none if the upstream
-- fails, and what was done stays done.
unfoldable pub passed_over : Result (List Value) × World → Result (List Value) × World
passed_over (ok l, w) = (ok l, w)
passed_over (raise (algorand_error e), w) = (ok [], w)
passed_over (raise e, w) = (raise e, w)

unfoldable pub tried : Net (List Value) → Net (List Value)
unfolding passed_over
tried body w = passed_over (body w)

abbrev pub hit : String → Value → Value
hit type v = dict (("type", text (codes type)) ∷ ("data", v) ∷ [])

abbrev pub found_items : List Value → Value
found_items results = dict (
    ("items", list results)
    ∷ (
      "note",
      text (codes "Asset name/unit matches are candidates, not identities. Resolve by asset ID."),
    )
    ∷ [])

abbrev pub out_of_range_note : Value
out_of_range_note = dict (
    ("items", list [])
    ∷ ("note", text (codes "numeric term exceeds uint64 range; cannot match an asset or app id."))
    ∷ [])

module _ (P : Platform) (c : Config) (fuel : ℕ) where
  unfoldable pub search_address : Text → Net (List Value)
  search_address query = do
    payload ← Reads.account P c query false
    d ← lift (as_dict payload)
    v ← lift (map_account P d)
    pure (hit "address" v ∷ [])

  unfoldable pub search_transaction : Text → Net (List Value)
  search_transaction query = do
    payload ← Reads.transaction P c query
    lift (transaction_hit P fuel payload)

  unfoldable pub search_asset : ℤ → Net (List Value)
  search_asset id = do
    payload ← Reads.asset P c id
    d ← lift (as_dict payload)
    v ← lift (map_asset P d)
    pure (hit "token" v ∷ [])

  unfoldable pub search_application : ℤ → Net (List Value)
  search_application id = do
    payload ← Reads.application P c id
    d ← lift (as_dict payload)
    v ← lift (map_application P d)
    pure (hit "smart_contract" v ∷ [])

  -- The candidates of one search for assets.
  unfoldable pub candidates : Value → Value → Value → Net (List Value)
  candidates unit name limit = do
    payload ← Reads.search_assets P c unit name limit
    d ← lift (as_dict payload)
    lift (asset_hits P d)

  -- `validate_uint64` raises nothing but a `ValidationError`.
  unfoldable pub search_valid : Result ℤ → ℤ → Net Value
  unfolding tried search_asset search_application
  search_valid (raise e) n = pure out_of_range_note
  search_valid (ok id) n = do
    tokens ← tried (search_asset n)
    contracts ← tried (search_application n)
    pure (found_items (tokens ++ contracts))

  -- `int(query)` raises `ValueError` on digits that are not decimal.
  unfoldable pub search_int : Option ℤ → Net Value
  unfolding search_valid
  search_int none = lift (raise value_error)
  search_int (some n) = search_valid (validate_uint64 (codes "id") (num n)) n

  unfoldable pub search_number : Text → Net Value
  unfolding search_int
  search_number query = search_int (P.parse_int query)

  unfoldable pub search_names : Text → Value → Net Value
  search_names query limit = do
    units ← candidates (text query) null limit
    names ← if truthy (list units) then pure [] else candidates null (text query) limit
    pure (found_items (units ++ names))

  unfoldable pub search_kind : Option QueryKind → Text → Value → Net Value
  unfolding search_address search_transaction search_number search_names tried
  search_kind (some address) query limit = do
    results ← tried (search_address query)
    pure (found_items results)
  search_kind (some transaction) query limit = do
    results ← tried (search_transaction query)
    pure (found_items results)
  search_kind (some numeric) query limit = search_number query
  search_kind none query limit = search_names query limit

  unfoldable pub search : Text → Value → Net Value
  unfolding search_kind
  search q limit = let query = strip P q in search_kind (classify_query P query) query limit

  unfoldable pub read_decimals : ℤ → Net (List Value)
  read_decimals asset_id = do
    payload ← Reads.asset P c asset_id
    decimals ← lift (asset_decimals payload)
    pure (decimals ∷ [])

  -- `None` if they are not asked for or the read fails.
  unfoldable pub resolved_decimals : ℤ → Bool → Net Value
  unfolding tried read_decimals
  resolved_decimals asset_id resolve =
      if resolve
      then (do
        found ← tried (read_decimals asset_id)
        pure (elim found [ [] ↦ null | decimals ∷ l ↦ decimals ]))
      else pure null

  unfoldable pub get_token_holders : ℤ → Value → Value → Bool → Net Value
  unfolding resolved_decimals
  get_token_holders asset_id limit next_token resolve = do
    valid ← lift (validate_uint64 (codes "asset_id") (num asset_id))
    payload ← Reads.asset_balances P c asset_id limit next_token
    decimals ← resolved_decimals asset_id resolve
    d ← lift (as_dict payload)
    lift (map_asset_holders P d decimals)
