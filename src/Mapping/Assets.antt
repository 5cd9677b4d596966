-- ===== src/Mapping/Assets.antt =====
-- `_token_stub`, `classify_asset`, `map_asset` and `map_asset_holders` of mapping.py.
use algorandscout.Mapping.Amounts.{clean, decimal_string}
use algorandscout.Mapping.Pages.{listed, nested, page, unwrapped}
use algorandscout.Prelude.{
  Bool, List, Option, Text, [], codes, false, if◌then◌else◌, none, not, some, ◌&&◌, ◌∷◌,
}
use algorandscout.Prelude.Int.{leb_ℤ, ltb_ℤ, pos, ℤ}
use algorandscout.Python.{
  Fields, Platform, Result, Value, arr, as_dict, bool, dict, get, get_or, is_null, is_num,
  key_match, nat, null, number, obj, ok, raise, str, text, traverse, type_error, ◌>>=◌,
}

-- `isinstance(total, int) and total > 1 and ... total <= 10_000`
unfoldable pub is_edition : Option ℤ → Bool
is_edition none = false
is_edition (some n) = ltb_ℤ (pos 1) n && leb_ℤ n (pos 10000)

unfoldable pub classify_asset : Fields → Text
unfolding is_edition
classify_asset params =
    let total = get params "total" in
    let decimals = get params "decimals" in
    if is_num total 1 && is_num decimals 0
    then codes "ASA-NFT"
    else if is_edition (number total) && is_num decimals 0
    then codes "ASA-NFT-EDITION"
    else codes "ASA"

-- `params.get(asset_id)` on the resolved parameters: a list or a dictionary is no key.
unfoldable pub find_params : Value → List (Value × Value) → Result (Option Value)
find_params (arr r) params = raise type_error
find_params (obj d) params = raise type_error
find_params asset_id [] = ok none
find_params asset_id ((k, v) ∷ params) =
    if key_match k asset_id then ok (some v) else find_params asset_id params

module _ (P : Platform) where
  -- `str(v) if v is not None else None`
  unfoldable pub str_or_null : Value → Value
  str_or_null null = null
  str_or_null v = text (str P v)

  unfoldable pub token_stub : Value → Fields → Value
  unfolding str_or_null
  token_stub asset_id params = dict (
      ("address", str_or_null asset_id)
      ∷ ("asset_id", asset_id)
      ∷ ("name", get params "name")
      ∷ ("symbol", get params "unit-name")
      ∷ ("decimals", get params "decimals")
      ∷ ("total_supply", str_or_null (get params "total"))
      ∷ ("type", text (classify_asset params))
      ∷ ("icon_url", null)
      ∷ [])

  unfoldable pub map_asset : Fields → Result Value
  unfolding str_or_null
  map_asset payload = do
    asset ← unwrapped payload "asset"
    params ← nested asset "params"
    let total = get params "total"
    let decimals = get_or params "decimals" (nat 0)
    decimal ← if is_null total then ok null else decimal_string P total decimals
    ok (
        dict (
          ("address", text (str P (get asset "index")))
          ∷ ("asset_id", get asset "index")
          ∷ ("name", get params "name")
          ∷ ("symbol", get params "unit-name")
          ∷ ("decimals", decimals)
          ∷ ("type", text (classify_asset params))
          ∷ ("total_supply", str_or_null total)
          ∷ ("total_supply_decimal", decimal)
          ∷ ("url", get params "url")
          ∷ ("metadata_hash", get params "metadata-hash")
          ∷ ("default_frozen", get_or params "default-frozen" (bool false))
          ∷ ("created_at_round", get asset "created-at-round")
          ∷ ("destroyed_at_round", get asset "destroyed-at-round")
          ∷ ("deleted", get_or asset "deleted" (bool false))
          ∷ (
            "roles",
            dict (
                ("creator", get params "creator")
                ∷ ("manager", clean (get params "manager"))
                ∷ ("reserve", clean (get params "reserve"))
                ∷ ("freeze", clean (get params "freeze"))
                ∷ ("clawback", clean (get params "clawback"))
                ∷ []),
          )
          ∷ ("clawback_enabled", bool (not (is_null (clean (get params "clawback")))))
          ∷ ("freeze_enabled", bool (not (is_null (clean (get params "freeze")))))
          ∷ ("as_of_round", get payload "current-round")
          ∷ ("holders_count", null)
          ∷ []))

  unfoldable pub map_holder : Value → Value → Result Value
  map_holder decimals balance = do
    b ← as_dict balance
    decimal ←
        if is_null decimals then ok null else decimal_string P (get_or b "amount" (nat 0)) decimals
    ok (
        dict (
          ("address", dict (("hash", get b "address") ∷ []))
          ∷ ("value", text (str P (get_or b "amount" (nat 0))))
          ∷ ("value_decimal", decimal)
          ∷ ("is_frozen", get_or b "is-frozen" (bool false))
          ∷ ("deleted", get_or b "deleted" (bool false))
          ∷ []))

  unfoldable pub map_asset_holders : Fields → Value → Result Value
  map_asset_holders payload decimals = do
    balances ← listed payload "balances"
    mapped ← traverse (map_holder decimals) balances
    ok (page mapped payload)
