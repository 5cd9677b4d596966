-- ===== src/Mapping/Blocks.antt =====
-- `map_block` and `map_stats` of mapping.py.
use algorandscout.Mapping.Amounts.{algo_decimals, decimal_string}
use algorandscout.Mapping.Dates.{iso}
use algorandscout.Mapping.Transactions.{map_transaction}
use algorandscout.Prelude.{Bool, [], codes, false, if◌then◌else◌, map, not, true, ℕ, ◌∷◌}
use algorandscout.Python.{
  Fields, Platform, Result, Value, as_list, bool, dict, fields, get, get_or, len, list, nat, null,
  obj, ok, or_else, put, str, text, traverse, ◌>>=◌,
}

module _ (P : Platform) where
  -- The dictionary of `map_block` without its transactions.
  unfoldable pub block_fields : Fields → ℕ → Value → Value → Fields
  block_fields payload count timestamp fees = fields (
      ("height", get payload "round")
      ∷ ("hash", null)
      ∷ ("parent_hash", get payload "previous-block-hash")
      ∷ ("timestamp", timestamp)
      ∷ ("timestamp_unix", get payload "timestamp")
      ∷ ("miner", dict (("hash", get payload "proposer") ∷ []))
      ∷ ("proposer", get payload "proposer")
      ∷ ("transactions_count", nat count)
      ∷ ("transactions_root", get payload "transactions-root")
      ∷ ("seed", get payload "seed")
      ∷ ("genesis_id", get payload "genesis-id")
      ∷ ("fees_collected", get payload "fees-collected")
      ∷ ("fees_collected_decimal", fees)
      ∷ ("proposer_payout", get payload "proposer-payout")
      ∷ ("bonus", get payload "bonus")
      ∷ ("rewards", get payload "rewards")
      ∷ ("upgrade_state", get payload "upgrade-state")
      ∷ ("difficulty", null)
      ∷ ("total_difficulty", null)
      ∷ ("gas_used", null)
      ∷ ("gas_limit", null)
      ∷ ("base_fee_per_gas", null)
      ∷ ("uncles_hashes", list [])
      ∷ ("is_final", bool true)
      ∷ [])

  unfoldable pub map_block : ℕ → Fields → Bool → Result Fields
  map_block fuel payload include_transactions = do
    timestamp ← iso (get payload "timestamp")
    let transactions = or_else (get_or payload "transactions" (list [])) (list [])
    count ← len transactions
    fees ← decimal_string P (get payload "fees-collected") (nat algo_decimals)
    let block = block_fields payload count timestamp fees
    if not include_transactions then ok block else do
      txs ← as_list transactions
      mapped ← traverse (map_transaction P fuel) txs
      ok (put "transactions" (list (map obj mapped)) block)

  unfoldable pub map_stats : Fields → Fields → Value
  map_stats status health = dict (
      ("total_blocks", text (str P (get_or status "last-round" (nat 0))))
      ∷ ("chain_tip", get status "last-round")
      ∷ ("indexer_round", get health "indexer_round")
      ∷ ("indexer_lag_rounds", get health "indexer_lag_rounds")
      ∷ ("average_block_time", get status "time-since-last-round")
      ∷ ("network", get health "network")
      ∷ ("is_evm", bool false)
      ∷ (
        "native_currency",
        dict (("symbol", text (codes "ALGO")) ∷ ("decimals", nat algo_decimals) ∷ []),
      )
      ∷ ("gas_prices", null)
      ∷ ("gas_used_today", null)
      ∷ [])
