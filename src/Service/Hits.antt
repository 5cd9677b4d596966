-- ===== src/Service/Hits.antt =====
-- The results that `search` of service.py makes of the payloads it got.
use algorandscout.Mapping.Assets.{map_asset}
use algorandscout.Mapping.Pages.{listed}
use algorandscout.Mapping.Transactions.{map_transaction}
use algorandscout.Prelude.{List, [], codes, if◌then◌else◌, not, ℕ, ◌∷◌}
use algorandscout.Python.{
  Fields, Platform, Result, Value, as_dict, dict, end, field, get, get_or, obj, ok, or_else, text,
  traverse, truthy, ◌>>=◌,
}

-- `((await c.asset(asset_id)).get("asset", {}) or {}).get("params", {}).get("decimals")`
unfoldable pub asset_decimals : Value → Result Value
asset_decimals payload = do
  d ← as_dict payload
  asset ← as_dict (or_else (get_or d "asset" (dict [])) (dict []))
  params ← as_dict (get_or asset "params" (dict []))
  ok (get params "decimals")

module _ (P : Platform) where
  unfoldable pub transaction_hit : ℕ → Value → Result (List Value)
  transaction_hit fuel payload = do
    d ← as_dict payload
    let tx = get d "transaction"
    if not (truthy tx) then ok [] else do
      mapped ← map_transaction P fuel tx
      ok (dict (("type", text (codes "transaction")) ∷ ("data", obj mapped) ∷ []) ∷ [])

  unfoldable pub asset_hit : Value → Result Value
  asset_hit a = do
    v ← map_asset P (field "asset" a end)
    ok (dict (("type", text (codes "token")) ∷ ("data", v) ∷ []))

  unfoldable pub asset_hits : Fields → Result (List Value)
  asset_hits payload = do assets ← listed payload "assets"; traverse asset_hit assets
