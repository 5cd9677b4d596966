-- ===== src/Service/Confirmations.antt =====
-- The confirmations that `get_transaction` of service.py adds to a mapped transaction.
use algorandscout.Mapping.Transactions.{map_transaction}
use algorandscout.Prelude.{if◌then◌else◌, not, ℕ, ◌&&◌}
use algorandscout.Prelude.Int.{max_zero, ◌-ℤ◌}
use algorandscout.Python.{
  Fields, Platform, Result, Value, as_int, get, num, obj, ok, put, truthy, ◌>>=◌,
}

module _ (P : Platform) (fuel : ℕ) where
  unfoldable pub confirmed : Fields → Value → Result Value
  confirmed payload tx = do
    mapped ← map_transaction P fuel tx
    let tip = get payload "current-round"
    let round = get mapped "block_number"
    if not (truthy tip && truthy round) then ok (obj mapped) else do
      t ← as_int tip
      r ← as_int round
      ok (obj (put "confirmations" (num (max_zero (t -ℤ r))) mapped))
