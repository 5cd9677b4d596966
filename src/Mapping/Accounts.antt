-- ===== src/Mapping/Accounts.antt =====
-- `map_account` and `map_account_assets` of mapping.py.
use algorandscout.Mapping.Amounts.{algo_decimals, clean, decimal_string}
use algorandscout.Mapping.Assets.{find_params, token_stub}
use algorandscout.Mapping.Pages.{listed, page, unwrapped}
use algorandscout.Prelude.{List, [], codes, false, if◌then◌else◌, ◌∷◌}
use algorandscout.Prelude.Int.{ltb_ℤ, pos}
use algorandscout.Python.{
  Fields, Platform, Result, Value, as_dict, as_int, bool, dict, get, get_or, is_null, nat, null, ok,
  or_default, or_else, str, text, traverse, ◌>>=◌,
}

module _ (P : Platform) where
  unfoldable pub map_account : Fields → Result Value
  map_account payload = do
    account ← unwrapped payload "account"
    let created = or_else (get_or account "total-created-apps" (nat 0)) (nat 0)
    let amount = get_or account "amount" (nat 0)
    decimal ← decimal_string P amount (nat algo_decimals)
    apps ← as_int created
    ok (
        dict (
          ("hash", get account "address")
          ∷ ("hash_format", text (codes "base32-ed25519"))
          ∷ ("coin_balance", text (str P amount))
          ∷ ("coin_balance_decimal", decimal)
          ∷ ("is_contract", bool (ltb_ℤ (pos 0) apps))
          ∷ ("is_verified", null)
          ∷ ("name", null)
          ∷ ("status", get account "status")
          ∷ ("signature_type", get account "sig-type")
          ∷ ("rekeyed_to", clean (get account "auth-addr"))
          ∷ ("min_balance", get account "min-balance")
          ∷ ("created_at_round", get account "created-at-round")
          ∷ ("deleted", get_or account "deleted" (bool false))
          ∷ (
            "counters",
            dict (
                ("assets_held", get_or account "total-assets-opted-in" (nat 0))
                ∷ ("assets_created", get_or account "total-created-assets" (nat 0))
                ∷ ("apps_opted_in", get_or account "total-apps-opted-in" (nat 0))
                ∷ ("apps_created", created)
                ∷ ("boxes", get_or account "total-boxes" (nat 0))
                ∷ ("box_bytes", get_or account "total-box-bytes" (nat 0))
                ∷ []),
          )
          ∷ ("as_of_round", or_else (get payload "current-round") (get account "round"))
          ∷ ("nonce", null)
          ∷ ("implementation_address", null)
          ∷ []))

  -- A page of holdings; `params` has the resolved asset parameters by asset id.
  unfoldable pub map_holding : List (Value × Value) → Value → Result Value
  map_holding params holding = do
    h ← as_dict holding
    let asset_id = get h "asset-id"
    found ← find_params asset_id params
    meta ← as_dict (or_default found (dict []))
    let decimals = get meta "decimals"
    let stub = token_stub P asset_id meta
    decimal ←
        if is_null decimals then ok null else decimal_string P (get_or h "amount" (nat 0)) decimals
    ok (
        dict (
          ("token", stub)
          ∷ ("value", text (str P (get_or h "amount" (nat 0))))
          ∷ ("value_decimal", decimal)
          ∷ ("is_frozen", get_or h "is-frozen" (bool false))
          ∷ ("opted_in_at_round", get h "opted-in-at-round")
          ∷ ("deleted", get_or h "deleted" (bool false))
          ∷ []))

  unfoldable pub map_account_assets : Fields → List (Value × Value) → Result Value
  map_account_assets payload params = do
    holdings ← listed payload "assets"
    mapped ← traverse (map_holding params) holdings
    ok (page mapped payload)
