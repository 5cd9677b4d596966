-- ===== src/Witnesses/Payloads.antt =====
-- Witnesses on payloads: transactions, blocks and health.
use algorandscout.Client.Errors.{retryable}
use algorandscout.Client.Readiness.{IsReport, health-IsReport}
use algorandscout.Client.Reads.{
  algod, attempted, caught, errors_of, health, indexer, lag_of, status,
}
use algorandscout.Client.Transport.{
  attempts, delay, get_json, outcome, present, send, sleep, status_error, url_of,
}
use algorandscout.Mapping.Accounts.{map_account_assets, map_holding}
use algorandscout.Mapping.Amounts.{clean, decimal_string, decimal_text, is_zero_address}
use algorandscout.Mapping.Assets.{find_params}
use algorandscout.Mapping.Dates.{iso}
use algorandscout.Mapping.Holdings.{IsHolding, map_account_assets-IsHolding}
use algorandscout.Mapping.Pages.{listed, page}
use algorandscout.Mapping.Transactions.{list_entry, map_transaction, map_transaction_list}
use algorandscout.Mapping.Transactions.Depth.{depth, map_transaction-depth}
use algorandscout.Mapping.Transactions.Frames.{transaction_fields, transaction_frame, value_decimal}
use algorandscout.Mapping.Transactions.Listing.{IsItem, map_transaction_list-IsItem}
use algorandscout.Mapping.Transactions.Movements.{close_payment, extract_close, extract_movement}
use algorandscout.Mapping.Transactions.Reported.{Reports, map_transaction-Reports}
use algorandscout.Mapping.Transactions.Tables.{
  contains, detail_key, detail_key_of, label_of, signature_type,
}
use algorandscout.Prelude.{List, [], arith, codes, refl, true, ◌<◌, ◌∷◌, ◌≡◌}
use algorandscout.Python.{
  Fields, Result, Value, bool, dict, end, fields, get, list, nat, null, ok, raise, recursion_error,
  text,
}
use algorandscout.Python.Gives.{Pairs}
use algorandscout.Witnesses.{ascii, at_start, testnet}
use algorandscout.World.{lift, pure, ◌>>=◌}

-- An application call with a payment inside.
abbrev nested_payment : Value
nested_payment = dict (
    ("tx-type", text (codes "appl"))
    ∷ ("inner-txns", list (dict (("tx-type", text (codes "pay")) ∷ []) ∷ []))
    ∷ [])

shallow : depth nested_payment < 4
unfolding depth
shallow = omega arith

map_transaction-depth_example :
    (map_transaction ascii 4 nested_payment ≡ map_transaction ascii 9 nested_payment)
    × (¬ (map_transaction ascii 4 nested_payment ≡ raise recursion_error))
map_transaction-depth_example =
    map_transaction-depth ascii 4 9 nested_payment shallow (omega (arith, shallow))

abbrev returned_fields : Result Fields → Fields
returned_fields (ok d) = d
returned_fields (raise e) = end

abbrev mapped_payment : Fields
mapped_payment = returned_fields (map_transaction ascii 4 nested_payment)

payment_mapped : map_transaction ascii 4 nested_payment ≡ ok mapped_payment
unfolding map_transaction transaction_frame detail_key extract_movement extract_close close_payment
    clean is_zero_address iso value_decimal decimal_string decimal_text signature_type contains
    label_of detail_key_of
payment_mapped = refl

map_transaction-Reports_example : Reports ascii 4 nested_payment mapped_payment
map_transaction-Reports_example =
    map_transaction-Reports ascii 4 nested_payment mapped_payment payment_mapped

abbrev report : Fields
report = fields (
    ("network", text testnet.network)
    ∷ ("algod_url", text testnet.algod_url)
    ∷ ("indexer_url", text testnet.indexer_url)
    ∷ ("node_round", null)
    ∷ ("indexer_round", null)
    ∷ ("indexer_lag_rounds", null)
    ∷ ("healthy", bool true)
    ∷ ("errors", null)
    ∷ ("note", null)
    ∷ [])

reports : (health ascii testnet at_start).0 ≡ ok report
unfolding health status indexer algod attempted caught get_json attempts outcome send sleep delay
    url_of present status_error retryable errors_of lag_of ◌>>=◌ lift pure
reports = refl

health-IsReport_example :
    IsReport
      (status ascii testnet at_start).0
      (indexer ascii testnet (codes "/health") [] (status ascii testnet at_start).1).0
      (get report "healthy")
health-IsReport_example = health-IsReport ascii testnet at_start report reports

-- A page of the indexer with one payment, four rounds below the tip.
abbrev one_payment : Fields
one_payment = fields (
    (
      "transactions",
      list (dict (("tx-type", text (codes "pay")) ∷ ("confirmed-round", nat 5) ∷ []) ∷ []),
    )
    ∷ [])

abbrev returned_value : Result Value → Value
returned_value (ok v) = v
returned_value (raise e) = null

abbrev listed_payment : Value
listed_payment = returned_value (map_transaction_list ascii 4 one_payment (nat 9))

payment_listed : map_transaction_list ascii 4 one_payment (nat 9) ≡ ok listed_payment
unfolding map_transaction_list list_entry map_transaction transaction_frame transaction_fields
    detail_key extract_movement extract_close close_payment clean is_zero_address iso value_decimal
    decimal_string decimal_text signature_type contains label_of detail_key_of
payment_listed = refl

map_transaction_list-IsItem_example :
    (txs items : List Value) × (listed one_payment "transactions" ≡ ok txs)
    × (listed_payment ≡ page items one_payment)
    × Pairs (IsItem ascii 4 (nat 9)) txs items
map_transaction_list-IsItem_example =
    map_transaction_list-IsItem ascii 4 one_payment (nat 9) listed_payment payment_listed

-- One holding of an asset that was resolved with two decimals.
abbrev one_holding : Fields
one_holding =
    fields
      (("assets", list (dict (("asset-id", nat 31566704) ∷ ("amount", nat 12345) ∷ []) ∷ [])) ∷ [])

abbrev two_decimals : List (Value × Value)
two_decimals = (nat 31566704, dict (("decimals", nat 2) ∷ [])) ∷ []

abbrev held : Value
held = returned_value (map_account_assets ascii one_holding two_decimals)

holding_mapped : map_account_assets ascii one_holding two_decimals ≡ ok held
unfolding map_account_assets map_holding find_params decimal_string decimal_text
holding_mapped = refl

map_account_assets-IsHolding_example :
    (holdings items : List Value) × (listed one_holding "assets" ≡ ok holdings)
    × (held ≡ page items one_holding)
    × Pairs (IsHolding ascii two_decimals) holdings items
map_account_assets-IsHolding_example =
    map_account_assets-IsHolding ascii one_holding two_decimals held holding_mapped
