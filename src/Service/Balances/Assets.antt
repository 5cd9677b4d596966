-- ===== src/Service/Balances/Assets.antt =====
-- The asset ids that `get_address_token_balances` of service.py collects, and what its `resolve_one`
-- makes of a read.
-- `(asset_payload.get("asset", {}) or {}).get("params", {}) or {}`
use algorandscout.Mapping.Pages.{nested}
use algorandscout.Prelude.{List, Option, [], if◌then◌else◌, none, some, ◌∷◌}
use algorandscout.Python.{
  Result, Value, algorand_error, arr, as_dict, dict, get, get_or, key_match, null, obj, ok, or_else,
  raise, type_error, ◌>>=◌,
}

unfoldable pub asset_params : Value → Result Value
asset_params payload = do
  d ← as_dict payload
  asset ← nested d "asset"
  ok (or_else (get_or asset "params" (dict [])) (dict []))

-- The body of `resolve_one` once its read has ended.
unfoldable pub settled : Result Value → Result (Option Value)
settled (ok payload) = do params ← asset_params payload; ok (some params)
settled (raise (algorand_error e)) = ok none
settled (raise e) = raise e

-- A key put into a set: an equal one is kept as it is.
unfoldable pub add_new : Value → List Value → List Value
add_new v [] = v ∷ []
add_new v (x ∷ l) = if key_match x v then x ∷ l else x ∷ add_new v l

-- `None` is passed over, and a list or a dictionary cannot be hashed.
unfoldable pub add_id : Value → List Value → Result (List Value)
unfolding add_new
add_id null seen = ok seen
add_id (arr r) seen = raise type_error
add_id (obj d) seen = raise type_error
add_id v seen = ok (add_new v seen)

-- `asset_ids`, by first occurrence.
unfoldable pub asset_ids : List Value → List Value → Result (List Value)
unfolding add_id
asset_ids seen [] = ok seen
asset_ids seen (holding ∷ l) = do
  h ← as_dict holding
  more ← add_id (get h "asset-id") seen
  asset_ids more l
