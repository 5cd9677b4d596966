-- ===== src/Mapping/Transactions/Frames.antt =====
-- What `map_transaction` of mapping.py works out before it turns to the inner transactions, and the
-- dictionary that it makes of that and of the mapped inner transactions.
use algorandscout.Mapping.Amounts.{algo_decimals, clean, decimal_string}
use algorandscout.Mapping.Dates.{iso}
use algorandscout.Mapping.Transactions.Movements.{
  Close, Movement, close_value, extract_close, extract_movement, value_text,
}
use algorandscout.Mapping.Transactions.Tables.{detail_key, method_of, signature_type}
use algorandscout.Prelude.{
  List, Option, String, [], codes, false, if◌then◌else◌, length, none, not, some, str_eq, ◌&&◌, ◌∷◌,
}
use algorandscout.Python.{
  Fields, Platform, Result, Value, as_list, bool, dict, fields, get, get_or, is_null, is_text, list,
  nat, null, ok, or_else, str, text, truthy, ◌>>=◌,
}

pub record Frame : Type 0 where
  pub key : String
  pub detail : Value
  pub movement : Movement
  pub close : Option Close
  pub timestamp : Value
  pub decimal : Value
  pub fee_decimal : Value
  pub signature : Value
  pub inner : List Value

module _ (P : Platform) where
  -- The value as a decimal, of a payment only.
  unfoldable pub value_decimal : Value → Value → Result Value
  value_decimal tx_type value =
      if is_text tx_type (codes "pay") && not (is_null value)
      then decimal_string P value (nat algo_decimals)
      else ok null

  unfoldable pub transaction_frame : Fields → Result Frame
  unfolding value_decimal
  transaction_frame tx = do
    let tx_type = get tx "tx-type"
    key ← detail_key tx_type
    let detail = or_else (get_or tx key (dict [])) (dict [])
    movement ← extract_movement P tx_type detail
    close ← extract_close P tx_type detail tx
    timestamp ← iso (get tx "round-time")
    decimal ← value_decimal tx_type movement.value
    fee_decimal ← decimal_string P (get_or tx "fee" (nat 0)) (nat algo_decimals)
    signature ← signature_type (or_else (get_or tx "signature" (dict [])) (dict []))
    inner ← as_list (or_else (get_or tx "inner-txns" (list [])) (list []))
    ok (record {
      key = key;
      detail = detail;
      movement = movement;
      close = close;
      timestamp = timestamp;
      decimal = decimal;
      fee_decimal = fee_decimal;
      signature = signature;
      inner = inner;
    })

  unfoldable pub transaction_fields : Fields → Frame → List Value → Fields
  unfolding value_text method_of
  transaction_fields tx fr inner =
      let tx_type = get tx "tx-type" in
      let confirmed = get tx "confirmed-round" in
      fields (
        ("hash", get tx "id")
        ∷ ("block_number", confirmed)
        ∷ ("timestamp", fr.timestamp)
        ∷ ("timestamp_unix", get tx "round-time")
        ∷ ("from", dict (("hash", get tx "sender") ∷ []))
        ∷ (
          "to",
          if truthy fr.movement.counterparty
              then dict (("hash", fr.movement.counterparty) ∷ [])
              else null,
        )
        ∷ ("value", text (value_text P fr.movement.value))
        ∷ ("value_decimal", fr.decimal)
        ∷ ("close", close_value fr.close)
        ∷ ("closes_account", bool (elim fr.close [ none ↦ false | some c ↦ c.closes_account ]))
        ∷ (
          "value_total",
          text (elim fr.close [ none ↦ value_text P fr.movement.value | some c ↦ c.value_total ]),
        )
        ∷ ("fee", text (str P (get_or tx "fee" (nat 0))))
        ∷ ("fee_decimal", fr.fee_decimal)
        ∷ ("status", text (if truthy confirmed then codes "ok" else codes "pending"))
        ∷ ("method", method_of tx_type)
        ∷ ("tx_type", tx_type)
        ∷ ("confirmations", null)
        ∷ ("position", get tx "intra-round-offset")
        ∷ ("note", get tx "note")
        ∷ ("group", get tx "group")
        ∷ ("rekey_to", clean (get tx "rekey-to"))
        ∷ ("signature_type", fr.signature)
        ∷ ("validity", dict (("first", get tx "first-valid") ∷ ("last", get tx "last-valid") ∷ []))
        ∷ ("token_transfer", fr.movement.transfer)
        ∷ ("created_asset_index", get tx "created-asset-index")
        ∷ ("created_application_index", get tx "created-application-index")
        ∷ ("logs", get tx "logs")
        ∷ ("internal_transactions_count", nat (length inner))
        ∷ ("internal_transactions", list inner)
        ∷ (
          "algorand",
          if not (str_eq fr.key "") && truthy fr.detail
              then dict ((fr.key, fr.detail) ∷ [])
              else dict [],
        )
        ∷ ("gas_used", null)
        ∷ ("gas_price", null)
        ∷ ("gas_limit", null)
        ∷ ("nonce", null)
        ∷ ("revert_reason", null)
        ∷ [])
