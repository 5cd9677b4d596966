-- ===== src/Mapping/Transactions.antt =====
-- `map_transaction` and `map_transaction_list` of mapping.py.
pub mod Tables
pub mod Movements
pub mod Frames
pub mod Framed
pub mod Closing
pub mod Reported
mod Bounded
pub mod Depth
pub mod Shape
pub mod Listing
use algorandscout.Mapping.Pages.{listed, page}
use algorandscout.Mapping.Transactions.Frames.{transaction_fields, transaction_frame}
use algorandscout.Prelude.{if◌then◌else◌, map, suc, zero, ℕ, ◌||◌}
use algorandscout.Prelude.Int.{max_zero, ◌-ℤ◌}
use algorandscout.Python.{
  Fields, Platform, Result, Value, as_dict, as_int, get, is_null, num, obj, ok, put, raise,
  recursion_error, traverse, ◌>>=◌,
}

module _ (P : Platform) where
  -- `map_transaction`; the fuel is how deep the interpreter lets the recursion go.
  unfoldable pub map_transaction : ℕ → Value → Result Fields
  map_transaction zero v = raise recursion_error
  map_transaction (suc fuel) v = do
    tx ← as_dict v
    fr ← transaction_frame P tx
    mapped ← traverse (map_transaction fuel) fr.inner
    ok (transaction_fields P tx fr (map obj mapped))

  -- One round of the loop of `map_transaction_list`: confirmations are filled in if the tip and the
  -- round are known.
  unfoldable pub list_entry : ℕ → Value → Value → Result Value
  list_entry fuel chain_tip tx = do
    mapped ← map_transaction fuel tx
    let round = get mapped "block_number"
    if is_null chain_tip || is_null round then ok (obj mapped) else do
      tip ← as_int chain_tip
      r ← as_int round
      ok (obj (put "confirmations" (num (max_zero (tip -ℤ r))) mapped))

  unfoldable pub map_transaction_list : ℕ → Fields → Value → Result Value
  map_transaction_list fuel payload chain_tip = do
    txs ← listed payload "transactions"
    mapped ← traverse (list_entry fuel chain_tip) txs
    ok (page mapped payload)
