-- ===== src/Mapping/Holdings.antt =====
-- The balances of `map_account_assets` and `map_asset_holders` of mapping.py.
use algorandscout.Mapping.Accounts.{map_account_assets, map_holding}
use algorandscout.Mapping.Amounts.{decimal_string}
use algorandscout.Mapping.Amounts.RoundTrip.{decimal_string-exact, read_decimal}
use algorandscout.Mapping.Assets.{
  find_params, map_asset_holders, map_holder, str_or_null, token_stub,
}
use algorandscout.Mapping.Pages.{listed, page, page-Pairs}
use algorandscout.Prelude.{
  All, Bool-cases, List, Option, String, Text, [], ap, arith, false, if◌then◌else◌, inl, inr, none,
  refl, some, suc, true, zero, ◌++◌, ◌∷◌, ◌≡◌, ◌≢◌, ◌⊎◌,
}
use algorandscout.Prelude.Int.{pos}
use algorandscout.Python.{
  >>=-eq-ok, Fields, Platform, Value, arr, as_dict, bool, dict, get, get_or, is_null, key_match,
  nat, null, num, obj, ok, or_default, str, text,
}
use algorandscout.Python.Decimal.{str_ℤ}
use algorandscout.Python.Gives.{Gives, Gives-ok, Pairs, ok-Gives}

-- The amount of a holding.
abbrev pub amount_of : Fields → Value
amount_of b = get_or b "amount" (nat 0)

-- What the decimal text of an amount must be: nothing where the decimals are not known; for an
-- integer amount, a text that reads back as exactly that amount. Nothing is asked where the amount
-- is not an integer, or the decimals are neither `None` nor a natural number.
abbrev pub IsExact : Value → Value → Value → Type 0
IsExact amount null v = v ≡ null
IsExact (num a) (num (pos zero)) v = v ≡ text (str_ℤ a)
IsExact (num a) (num (pos (suc d))) v = (s : Text) × (v ≡ text s) × (read_decimal (suc d) s ≡ a)
IsExact _ _ v = Unit

-- No entry has this key.
abbrev pub IsUnlisted : Value → List (Value × Value) → Type 0
IsUnlisted asset_id = All (λ e. key_match e.0 asset_id ≡ false)

-- What was resolved for an asset: the first entry under its id, or nothing at all where no entry
-- has that id.
abbrev pub IsResolved : Value → List (Value × Value) → Value → Type 0
IsResolved asset_id params v =
    (IsUnlisted asset_id params × (v ≡ dict []))
    ⊎ ((before after : List (Value × Value)) × (key : Value) × (params ≡ before ++ (key, v) ∷ after)
        × IsUnlisted asset_id before
        × (key_match key asset_id ≡ true))

found-IsResolved :
    (asset_id : Value) (params : List (Value × Value)) (found : Option Value)
    → find_params asset_id params ≡ ok found
    → IsResolved asset_id params (or_default found (dict []))
unfolding find_params
found-IsResolved (arr r) params found h = absurd cc
found-IsResolved (obj d) params found h = absurd cc
found-IsResolved asset_id [] found h =
    let same : found ≡ none = ground arith in inl (tt, rw same refl)
found-IsResolved asset_id ((k, v) ∷ params) found h = elim (Bool-cases (key_match k asset_id)) [
  | inl here ↦
      let same : found ≡ some v = ground arith in inr ([], params, k, rw same refl, tt, here)
  | inr other ↦ elim (found-IsResolved asset_id params found (rw other at h)) [
    | inl (absent, nothing) ↦ inl ((other, absent), nothing)
    | inr (before, after, key, e, absent, there) ↦
        inr ((k, v) ∷ before, after, key, ap (λ l. (k, v) ∷ l) e, (other, absent), there)
  ]
]

module _ (P : Platform) where
  -- A value as a text, unless it is `None`.
  abbrev pub IsTextOf : Value → Value → Type 0
  IsTextOf v t = ((v ≡ null) × (t ≡ null)) ⊎ ((v ≢ null) × (t ≡ text (str P v)))

  -- The token of a holding: the asset's own id, and the name, symbol, decimals and supply that were
  -- resolved for it.
  abbrev pub IsToken : Value → Fields → Value → Type 0
  IsToken asset_id meta v =
      (token : Fields) × (v ≡ obj token)
      × (get token "asset_id" ≡ asset_id)
      × IsTextOf asset_id (get token "address")
      × (get token "name" ≡ get meta "name")
      × (get token "symbol" ≡ get meta "unit-name")
      × (get token "decimals" ≡ get meta "decimals")
      × IsTextOf (get meta "total") (get token "total_supply")

  str_or_null-IsTextOf : (v : Value) → IsTextOf v (str_or_null P v)
  unfolding str_or_null
  str_or_null-IsTextOf null = inl (refl, refl)
  str_or_null-IsTextOf v = inr (λ e. cc, refl)

  token_stub-IsToken :
      (asset_id : Value) (meta : Fields) → IsToken asset_id meta (token_stub P asset_id meta)
  unfolding token_stub
  token_stub-IsToken asset_id meta = (
    _,
    refl,
    refl,
    str_or_null-IsTextOf asset_id,
    refl,
    refl,
    refl,
    str_or_null-IsTextOf (get meta "total"),
  )

  decimal-IsExact :
      (amount decimals : Value)
      → Gives
          (IsExact amount decimals)
          (if is_null decimals then ok null else decimal_string P amount decimals)
  unfolding Gives decimal_string
  decimal-IsExact amount null v e = cc
  decimal-IsExact (num a) (num (pos zero)) v e = cc
  decimal-IsExact (num a) (num (pos (suc d))) v e =
      let (s, done, exact) = decimal_string-exact P a d in (s, cc, exact)
  decimal-IsExact _ _ v e = tt

  pub decimal_read_back :
      (amount decimals : Value) {v : Value}
      → (if is_null decimals then ok null else decimal_string P amount decimals) ≡ ok v
      → IsExact amount decimals v
  decimal_read_back amount decimals =
      Gives-ok (IsExact amount decimals) (decimal-IsExact amount decimals)

  -- An item of `map_account_assets`: the holding's asset id and amount, with the parameters that
  -- were resolved for the asset.
  abbrev pub IsHolding : List (Value × Value) → Value → Value → Type 0
  IsHolding params holding v =
      (b meta item : Fields) × (holding ≡ obj b)
      × ((resolved : Value) × IsResolved (get b "asset-id") params resolved
          × (as_dict resolved ≡ ok meta))
      × (v ≡ obj item)
      × IsToken (get b "asset-id") meta (get item "token")
      × (get item "value" ≡ text (str P (amount_of b)))
      × IsExact (amount_of b) (get meta "decimals") (get item "value_decimal")

  -- An item of `map_asset_holders`: the holder's address and amount.
  abbrev pub IsHolder : Value → Value → Value → Type 0
  IsHolder decimals balance v =
      (b item : Fields) × (as_dict balance ≡ ok b)
      × (v ≡ obj item)
      × (get item "address" ≡ dict (("hash", get b "address") ∷ []))
      × (get item "value" ≡ text (str P (amount_of b)))
      × IsExact (amount_of b) decimals (get item "value_decimal")

  as_dict_obj : (v : Value) (d : Fields) → as_dict v ≡ ok d → v ≡ obj d
  as_dict_obj v d h = ground arith

  account_entry :
      (params : List (Value × Value)) (holding : Value) (b meta : Fields) (found : Option Value)
      (decimal : Value) (rest : List (String × Value))
      → as_dict holding ≡ ok b
      → find_params (get b "asset-id") params ≡ ok found
      → as_dict (or_default found (dict [])) ≡ ok meta
      → (if is_null (get meta "decimals")
          then ok null
          else decimal_string P (amount_of b) (get meta "decimals"))
        ≡ ok decimal
      → IsHolding params holding (
          dict (
            ("token", token_stub P (get b "asset-id") meta)
            ∷ ("value", text (str P (amount_of b)))
            ∷ ("value_decimal", decimal)
            ∷ rest))
  account_entry params holding b meta found decimal rest e1 e2 e3 e4 = (
    b,
    meta,
    _,
    as_dict_obj holding b e1,
    (_, found-IsResolved (get b "asset-id") params found e2, e3),
    refl,
    token_stub-IsToken (get b "asset-id") meta,
    refl,
    decimal_read_back _ _ e4,
  )

  balance_entry :
      (decimals balance : Value) (b : Fields) (decimal : Value) (rest : List (String × Value))
      → as_dict balance ≡ ok b
      → (if is_null decimals then ok null else decimal_string P (amount_of b) decimals) ≡ ok decimal
      → IsHolder decimals balance (
          dict (
            ("address", dict (("hash", get b "address") ∷ []))
            ∷ ("value", text (str P (amount_of b)))
            ∷ ("value_decimal", decimal)
            ∷ rest))
  balance_entry decimals balance b decimal rest e1 e2 =
      (b, _, e1, refl, refl, refl, decimal_read_back _ _ e2)

  map_holding-IsHolding :
      (params : List (Value × Value)) (holding : Value)
      → Gives (IsHolding params holding) (map_holding P params holding)
  unfolding map_holding Gives
  map_holding-IsHolding params holding v h =
      let (b, e1, h1) = >>=-eq-ok (as_dict holding) _ h in
      let (found, e2, h2) = >>=-eq-ok (find_params (get b "asset-id") params) _ h1 in
      let (meta, e3, h3) = >>=-eq-ok (as_dict (or_default found (dict []))) _ h2 in
      let (decimal, e4, h4) =
        >>=-eq-ok
          (if is_null (get meta "decimals")
            then ok null
            else decimal_string P (amount_of b) (get meta "decimals"))
          _ h3 in
      ok-Gives (IsHolding params holding) _
        (account_entry params holding b meta found decimal
          (("is_frozen", get_or b "is-frozen" (bool false))
            ∷ ("opted_in_at_round", get b "opted-in-at-round")
            ∷ ("deleted", get_or b "deleted" (bool false))
            ∷ [])
          e1 e2 e3 e4)
        v h4

  map_holder-IsHolder :
      (decimals balance : Value) → Gives (IsHolder decimals balance) (map_holder P decimals balance)
  unfolding map_holder Gives
  map_holder-IsHolder decimals balance v h =
      let (b, e1, h1) = >>=-eq-ok (as_dict balance) _ h in
      let (decimal, e2, h2) =
        >>=-eq-ok (if is_null decimals then ok null else decimal_string P (amount_of b) decimals) _
          h1 in
      ok-Gives (IsHolder decimals balance) _
        (balance_entry decimals balance b decimal
          (("is_frozen", get_or b "is-frozen" (bool false))
            ∷ ("deleted", get_or b "deleted" (bool false))
            ∷ [])
          e1 e2)
        v h2

-- Every page of an account's holdings that `map_account_assets` returns has, for the holdings that
-- were sent, one item each in the same order. Its token has the holding's own asset id, and the name,
-- symbol, decimals and supply of the first of the resolved parameters that stand under that id, or
-- null for each if none do. Its value is the amount as it was sent, with a decimal text that is null
-- where the decimals were not resolved and that, for an integer amount and a natural number of
-- decimals, is exactly the amount.
pub map_account_assets-IsHolding :
    (P : Platform) (payload : Fields) (params : List (Value × Value)) (p : Value)
    → map_account_assets P payload params ≡ ok p
    → (holdings items : List Value) × (listed payload "assets" ≡ ok holdings)
      × (p ≡ page items payload)
      × Pairs (IsHolding P params) holdings items
unfolding map_account_assets
map_account_assets-IsHolding P payload params p h =
    page-Pairs (IsHolding P params) (map_holding P params) payload "assets" p
      (map_holding-IsHolding P params) h

-- Every page of holders that `map_asset_holders` returns has, for the balances that were sent, one
-- item each in the same order: with the holder's own address, the amount as it was sent, and a
-- decimal text that is null without decimals and that, for an integer amount and a natural number of
-- decimals, is exactly the amount.
pub map_asset_holders-IsHolder :
    (P : Platform) (payload : Fields) (decimals p : Value)
    → map_asset_holders P payload decimals ≡ ok p
    → (balances items : List Value) × (listed payload "balances" ≡ ok balances)
      × (p ≡ page items payload)
      × Pairs (IsHolder P decimals) balances items
unfolding map_asset_holders
map_asset_holders-IsHolder P payload decimals p h =
    page-Pairs (IsHolder P decimals) (map_holder P decimals) payload "balances" p
      (map_holder-IsHolder P decimals) h
