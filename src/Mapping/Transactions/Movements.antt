-- ===== src/Mapping/Transactions/Movements.antt =====
-- `_extract_movement` and `_extract_close` of mapping.py.
use algorandscout.Mapping.Amounts.{algo_decimals, clean, decimal_string}
use algorandscout.Prelude.{
  Bool, Option, Text, [], codes, false, if◌then◌else◌, none, some, true, ◌∷◌,
}
use algorandscout.Prelude.Int.{◌+ℤ◌}
use algorandscout.Python.{
  Fields, Platform, Result, Value, as_dict, as_int, bool, dict, field, fields, get, get_or, is_null,
  is_text, nat, null, num, obj, ok, or_else, plus, str, text, truthy, ◌>>=◌,
}
use algorandscout.Python.Decimal.{str_ℤ}

-- The triple that `_extract_movement` returns.
pub record Movement : Type 0 where
  pub counterparty : Value
  pub value : Value
  pub transfer : Value

-- The dictionary that `_extract_close` returns; `closes_asset_holding` stands only in that of an
-- asset transfer.
pub record Close : Type 0 where
  pub closes_account : Bool
  pub closes_asset_holding : Bool
  pub close_remainder_to : Value
  pub close_amount : Text
  pub close_amount_decimal : Value
  pub value_total : Text
  pub value_total_decimal : Value
  pub asset_id : Value

abbrev pub close_value : Option Close → Value
close_value none = null
close_value (some c) = obj (
    field "closes_account" (bool c.closes_account) (
      (if c.closes_asset_holding then field "closes_asset_holding" (bool true) else λ r. r) (
        fields (
          ("close_remainder_to", c.close_remainder_to)
          ∷ ("close_amount", text c.close_amount)
          ∷ ("close_amount_decimal", c.close_amount_decimal)
          ∷ ("value_total", text c.value_total)
          ∷ ("value_total_decimal", c.value_total_decimal)
          ∷ ("asset_id", c.asset_id)
          ∷ []))))

module _ (P : Platform) where
  -- The block that `_extract_movement` builds for an `axfer`.
  unfoldable pub transfer_block : Fields → Value
  transfer_block detail = dict (
      ("asset_id", get detail "asset-id")
      ∷ ("from", or_else (get detail "sender") null)
      ∷ ("to", get detail "receiver")
      ∷ ("amount", text (str P (get_or detail "amount" (nat 0))))
      ∷ ("close_to", clean (get detail "close-to"))
      ∷ ("is_clawback", bool (truthy (get detail "sender")))
      ∷ [])

  -- `str(id) if id else None`
  unfoldable pub str_if : Value → Value
  str_if v = if truthy v then text (str P v) else null

  -- `_extract_movement`
  unfoldable pub extract_movement : Value → Value → Result Movement
  unfolding transfer_block str_if
  extract_movement tx_type detail =
      if is_text tx_type (codes "pay")
      then (do
        d ← as_dict detail
        ok (record {
          counterparty = get d "receiver";
          value = get_or d "amount" (nat 0);
          transfer = null;
        }))
      else if is_text tx_type (codes "axfer")
      then (do
        d ← as_dict detail
        ok (record { counterparty = get d "receiver"; value = nat 0; transfer = transfer_block d }))
      else if is_text tx_type (codes "appl")
      then (do
        d ← as_dict detail
        ok (record {
          counterparty = str_if (get d "application-id");
          value = nat 0;
          transfer = null;
        }))
      else if is_text tx_type (codes "acfg")
      then (do
        d ← as_dict detail
        ok (record { counterparty = str_if (get d "asset-id"); value = nat 0; transfer = null }))
      else if is_text tx_type (codes "afrz")
      then (do
        d ← as_dict detail
        ok (record { counterparty = get d "address"; value = nat 0; transfer = null }))
      else ok (record { counterparty = null; value = nat 0; transfer = null })

  -- The `pay` case of `_extract_close`, with the fields of the transaction itself.
  unfoldable pub close_payment : Fields → Fields → Result (Option Close)
  close_payment detail tx =
      let target = clean (get detail "close-remainder-to") in
      if truthy target
      then (do
        let amount = or_else (get_or detail "amount" (nat 0)) (nat 0)
        let swept =
            or_else (get_or detail "close-amount" (get_or tx "closing-amount" (nat 0))) (nat 0)
        swept_decimal ← decimal_string P swept (nat algo_decimals)
        a ← as_int amount
        s ← as_int swept
        total_decimal ← decimal_string P (num (a +ℤ s)) (nat algo_decimals)
        ok (
            some (record {
              closes_account = true;
              closes_asset_holding = false;
              close_remainder_to = target;
              close_amount = str P swept;
              close_amount_decimal = swept_decimal;
              value_total = str_ℤ (a +ℤ s);
              value_total_decimal = total_decimal;
              asset_id = null;
            })))
      else ok none

  -- The `axfer` case: the sum may be of any values that `+` takes, and amounts are integers.
  unfoldable pub close_transfer : Fields → Result (Option Close)
  close_transfer detail =
      let target = clean (get detail "close-to") in
      if truthy target
      then (do
        let amount = or_else (get_or detail "amount" (nat 0)) (nat 0)
        let swept = or_else (get_or detail "close-amount" (nat 0)) (nat 0)
        total ← plus amount swept
        ok (
            some (record {
              closes_account = false;
              closes_asset_holding = true;
              close_remainder_to = target;
              close_amount = str P swept;
              close_amount_decimal = null;
              value_total = str P total;
              value_total_decimal = null;
              asset_id = get detail "asset-id";
            })))
      else ok none

  -- `_extract_close`
  unfoldable pub extract_close : Value → Value → Fields → Result (Option Close)
  unfolding close_payment close_transfer
  extract_close tx_type detail tx =
      if is_text tx_type (codes "pay")
      then (do d ← as_dict detail; close_payment d tx)
      else if is_text tx_type (codes "axfer")
      then (do d ← as_dict detail; close_transfer d)
      else ok none

  unfoldable pub value_text : Value → Text
  value_text value = if is_null value then codes "0" else str P value
