-- ===== src/Service/Routes/Handlers.antt =====
-- That no handler of service.py touches what the middleware keeps of the requests.
use algorandscout.Client.Reads
use algorandscout.Service.Search
use algorandscout.Client.Config.{Config}
use algorandscout.Prelude.{Bool, List, Option, Text, none, some, ℕ}
use algorandscout.Prelude.Int.{ℤ}
use algorandscout.Python.{Platform, Result, Value, ok, raise}
use algorandscout.Service.{
  get_address, get_address_transactions, get_block, get_latest_block, get_smart_contract, get_token,
  get_transaction, passthrough, readyz, stats,
}
use algorandscout.Service.Routes.Keeping.{Keeps, reading}
use algorandscout.Validation.{QueryKind, address, numeric, transaction}

module _ (P : Platform) (c : Config) (fuel : ℕ) where
  pub stats-Keeps : Keeps (stats P c fuel)
  unfolding stats Reads.status Reads.algod
  stats-Keeps = search reading depth 16

  pub readyz-Keeps : Keeps (readyz P c fuel)
  unfolding readyz
  readyz-Keeps = search reading depth 16

  pub get_address-Keeps : (addr : Text) (live : Bool) → Keeps (get_address P c fuel addr live)
  unfolding get_address
  get_address-Keeps addr live = search reading depth 16

  pub get_address_transactions-Keeps :
      (addr : Text) (limit next after before tx_type asset_id : Value)
      → Keeps (get_address_transactions P c fuel addr limit next after before tx_type asset_id)
  unfolding get_address_transactions Reads.account_transactions Reads.indexer
  get_address_transactions-Keeps addr limit next after before tx_type asset_id =
      search reading depth 16

  pub get_transaction-Keeps : (txid : Text) → Keeps (get_transaction P c fuel txid)
  unfolding get_transaction
  get_transaction-Keeps txid = search reading depth 16

  pub get_block-Keeps : (round : ℤ) (b : Bool) → Keeps (get_block P c fuel round b)
  unfolding get_block Reads.block Reads.indexer
  get_block-Keeps round b = search reading depth 16

  pub get_latest_block-Keeps : Keeps (get_latest_block P c fuel)
  unfolding get_latest_block Reads.status Reads.algod Reads.indexer
  get_latest_block-Keeps = search reading depth 20

  pub get_token-Keeps : (id : ℤ) → Keeps (get_token P c fuel id)
  unfolding get_token
  get_token-Keeps id = search reading depth 16

  pub get_smart_contract-Keeps : (id : ℤ) → Keeps (get_smart_contract P c fuel id)
  unfolding get_smart_contract
  get_smart_contract-Keeps id = search reading depth 16

  pub passthrough-Keeps :
      (path : Text) (params : List (Text × Value)) → Keeps (passthrough P c fuel path params)
  unfolding passthrough Reads.indexer
  passthrough-Keeps path params = search reading depth 16

  search_address-Keeps : (q : Text) → Keeps (Search.search_address P c fuel q)
  unfolding Search.search_address
  search_address-Keeps q = search reading depth 16

  search_transaction-Keeps : (q : Text) → Keeps (Search.search_transaction P c fuel q)
  unfolding Search.search_transaction
  search_transaction-Keeps q = search reading depth 16

  search_asset-Keeps : (id : ℤ) → Keeps (Search.search_asset P c fuel id)
  unfolding Search.search_asset
  search_asset-Keeps id = search reading depth 16

  search_application-Keeps : (id : ℤ) → Keeps (Search.search_application P c fuel id)
  unfolding Search.search_application
  search_application-Keeps id = search reading depth 16

  search_valid-Keeps : (r : Result ℤ) (n : ℤ) → Keeps (Search.search_valid P c fuel r n)
  unfolding Search.search_valid
  search_valid-Keeps (ok id) n =
      search (reading, search_asset-Keeps, search_application-Keeps) depth 16
  search_valid-Keeps (raise e) n = search reading

  search_int-Keeps : (o : Option ℤ) → Keeps (Search.search_int P c fuel o)
  unfolding Search.search_int
  search_int-Keeps none = search reading
  search_int-Keeps (some n) = search_valid-Keeps _ n

  search_names-Keeps : (q : Text) (limit : Value) → Keeps (Search.search_names P c fuel q limit)
  unfolding Search.search_names Search.candidates Reads.search_assets Reads.indexer
  search_names-Keeps q limit = search reading depth 20

  search_kind-Keeps :
      (k : Option QueryKind) (q : Text) (limit : Value)
      → Keeps (Search.search_kind P c fuel k q limit)
  unfolding Search.search_kind Search.search_number
  search_kind-Keeps (some address) q limit = search (reading, search_address-Keeps) depth 12
  search_kind-Keeps (some transaction) q limit = search (reading, search_transaction-Keeps) depth 12
  search_kind-Keeps (some numeric) q limit = search_int-Keeps (P.parse_int q)
  search_kind-Keeps none q limit = search_names-Keeps q limit

  pub search-Keeps : (q : Text) (limit : Value) → Keeps (Search.search P c fuel q limit)
  unfolding Search.search
  search-Keeps q limit = search_kind-Keeps _ _ limit

  pub get_token_holders-Keeps :
      (id : ℤ) (limit next : Value) (b : Bool)
      → Keeps (Search.get_token_holders P c fuel id limit next b)
  unfolding Search.get_token_holders Search.resolved_decimals Search.read_decimals
      Reads.asset_balances Reads.indexer
  get_token_holders-Keeps id limit next b = search reading depth 20
