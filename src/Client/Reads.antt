-- ===== src/Client/Reads.antt =====
-- The reads of `AlgorandClient`: one request each, and `health` and `paginate` above them.
use algorandscout.Client.Config.{Config}
use algorandscout.Client.Transport.{get_json}
use algorandscout.Prelude.{
  Bool, List, Option, String, Text, [], codes, false, if◌then◌else◌, none, not, some, suc, true,
  zero, ℕ, ◌++◌, ◌∷◌,
}
use algorandscout.Prelude.Int.{is_negative, ℤ, ◌-ℤ◌}
use algorandscout.Python.{
  Fields, Platform, Result, Value, algorand_error, as_dict, bool, dict, end, field, fields, get,
  null, num, number, obj, ok, raise, text, truthy,
}
use algorandscout.Python.Decimal.{str_ℤ}
use algorandscout.World.{Net, World, lift, pure, ◌>>=◌}

abbrev pub param : String → Value → Text × Value
param k v = (codes k, v)

-- A read under `except AlgorandError`: an empty dictionary and the error's text, or the payload.
unfoldable pub caught : Result Value × World → Result (Value × Option Text) × World
caught (ok v, w) = (ok (v, none), w)
caught (raise (algorand_error e), w) = (ok (dict [], some e.message), w)
caught (raise e, w) = (raise e, w)

unfoldable pub attempted : Net Value → Net (Value × Option Text)
unfolding caught
attempted read w = caught (read w)

-- The lag in rounds, if both rounds are integers, and the note on a negative one.
unfoldable pub lag_of : Option ℤ → Option ℤ → Value × Value
lag_of (some a) (some b) = (
  num (a -ℤ b),
  if is_negative (a -ℤ b)
      then text (
          codes "negative lag: node and indexer were sampled at different instants, not atomically")
      else null,
)
lag_of _ _ = (null, null)

unfoldable pub errors_of : Option Text → Option Text → Fields
errors_of none none = end
errors_of (some a) none = field "algod" (text a) end
errors_of none (some b) = field "indexer" (text b) end
errors_of (some a) (some b) = field "algod" (text a) (field "indexer" (text b) end)

-- A client: its configuration, which is all that a read needs of it.
module _ (P : Platform) (c : Config) where
  unfoldable pub algod : Text → List (Text × Value) → Net Value
  algod path params = get_json P c.algod_url path params

  unfoldable pub indexer : Text → List (Text × Value) → Net Value
  indexer path params = get_json P c.indexer_url path params

  unfoldable pub status : Net Value
  unfolding algod
  status = algod (codes "/v2/status") []

  unfoldable pub account : Text → Bool → Net Value
  unfolding algod indexer
  account address live =
      if live
      then algod (codes "/v2/accounts/" ++ address) []
      else indexer (codes "/v2/accounts/" ++ address) []

  unfoldable pub account_assets : Text → Value → Value → Net Value
  unfolding indexer
  account_assets address limit next_token =
      indexer (codes "/v2/accounts/" ++ (address ++ codes "/assets"))
        (param "limit" limit ∷ param "next" next_token ∷ [])

  unfoldable pub account_transactions :
      Text → Value → Value → Value → Value → Value → Value → Net Value
  unfolding indexer
  account_transactions address limit next_token after_time before_time tx_type asset_id =
      indexer (codes "/v2/accounts/" ++ (address ++ codes "/transactions")) (
        param "limit" limit
        ∷ param "next" next_token
        ∷ param "after-time" after_time
        ∷ param "before-time" before_time
        ∷ param "tx-type" tx_type
        ∷ param "asset-id" asset_id
        ∷ [])

  unfoldable pub transaction : Text → Net Value
  unfolding indexer
  transaction txid = indexer (codes "/v2/transactions/" ++ txid) []

  unfoldable pub block : ℤ → Net Value
  unfolding indexer
  block round = indexer (codes "/v2/blocks/" ++ str_ℤ round) []

  unfoldable pub asset : ℤ → Net Value
  unfolding indexer
  asset asset_id = indexer (codes "/v2/assets/" ++ str_ℤ asset_id) []

  unfoldable pub asset_balances : ℤ → Value → Value → Net Value
  unfolding indexer
  asset_balances asset_id limit next_token =
      indexer (codes "/v2/assets/" ++ (str_ℤ asset_id ++ codes "/balances"))
        (param "limit" limit ∷ param "next" next_token ∷ [])

  unfoldable pub application : ℤ → Net Value
  unfolding indexer
  application app_id = indexer (codes "/v2/applications/" ++ str_ℤ app_id) []

  unfoldable pub application_boxes : ℤ → Value → Value → Net Value
  unfolding indexer
  application_boxes app_id limit next_token =
      indexer (codes "/v2/applications/" ++ (str_ℤ app_id ++ codes "/boxes"))
        (param "limit" limit ∷ param "next" next_token ∷ [])

  unfoldable pub search_assets : Value → Value → Value → Net Value
  unfolding indexer
  search_assets unit name limit =
      indexer (codes "/v2/assets")
        (param "unit" unit ∷ param "name" name ∷ param "limit" limit ∷ [])

  unfoldable pub health : Net Fields
  unfolding attempted lag_of errors_of indexer status
  health = do
    (node, node_error) ← attempted status
    (idx, idx_error) ← attempted (indexer (codes "/health") [])
    n ← lift (as_dict node)
    i ← lift (as_dict idx)
    let (lag, note) = lag_of (number (get n "last-round")) (number (get i "round"))
    let errors = errors_of node_error idx_error
    pure (
        fields (
          ("network", text c.network)
          ∷ ("algod_url", text c.algod_url)
          ∷ ("indexer_url", text c.indexer_url)
          ∷ ("node_round", get n "last-round")
          ∷ ("indexer_round", get i "round")
          ∷ ("indexer_lag_rounds", lag)
          ∷ ("healthy", bool (not (truthy (obj errors))))
          ∷ ("errors", if truthy (obj errors) then obj errors else null)
          ∷ ("note", note)
          ∷ []))

-- What a consumer of `paginate` meets: the pages as they are yielded, and then the end: whether the
-- bound stopped the walk with the cursor still open, or an exception.
pub record Walk : Type 0 where
  pub pages : List Value
  pub ended : Result Bool

-- `yield payload`, in front of what comes later.
unfoldable pub yielded : Value → Walk × World → Walk × World
yielded payload (rest, w) = (record rest { pages = payload ∷ rest.pages }, w)

-- `paginate`, under a consumer that asks for every page. `fetch` is the paged read with its
-- arguments, and takes the cursor, which is `None` at first. A page is yielded before its cursor is
-- looked at.
unfoldable pub paginate : ℕ → (Value → Net Value) → Value → World → Walk × World
unfolding yielded
paginate zero fetch token w = (record { pages = []; ended = ok true }, w)
paginate (suc left) fetch token w =
    let (r, w') = fetch token w in
    elim r [
      | raise e ↦ (record { pages = []; ended = raise e }, w')
      | ok payload ↦ yielded payload (elim (as_dict payload) [
        | raise e ↦ (record { pages = []; ended = raise e }, w')
        | ok d ↦
            let next = get d "next-token" in
            let rest = paginate left fetch next w' in
            if truthy next then rest else (record { pages = []; ended = ok false }, w')
      ])
    ]
