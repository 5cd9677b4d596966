-- ===== src/Client/Config.antt =====
-- `AlgorandConfig` of client.py: which endpoints a network has, and which URLs win.
use algorandscout.Prelude.{
  Bool, List, Option, Text, [], codes, if◌then◌else◌, is_nil, none, not, rstrip, some, starts_with,
  text_eq, ◌&&◌, ◌++◌, ◌==◌, ◌||◌, ◌∷◌,
}
use algorandscout.Python.{Platform, Result, ok, raise, value_error}

-- `NETWORK_ENDPOINTS`, in its order: the network, its node and its indexer.
abbrev pub network_endpoints : List (Text × (Text × Text))
network_endpoints =
    (
      codes "mainnet",
      (codes "https://mainnet-api.algonode.cloud", codes "https://mainnet-idx.algonode.cloud"),
    )
    ∷ (
      codes "testnet",
      (codes "https://testnet-api.algonode.cloud", codes "https://testnet-idx.algonode.cloud"),
    )
    ∷ (
      codes "betanet",
      (codes "https://betanet-api.algonode.cloud", codes "https://betanet-idx.algonode.cloud"),
    )
    ∷ (codes "localnet", (codes "http://localhost:4001", codes "http://localhost:8980"))
    ∷ []

unfoldable pub endpoints_of : Text → List (Text × (Text × Text)) → Option (Text × Text)
endpoints_of network [] = none
endpoints_of network ((n, e) ∷ l) = if text_eq n network then some e else endpoints_of network l

-- The environment variables that `__post_init__` reads; `none` where one is not set.
pub record Environment : Type 0 where
  pub algod_url : Option Text
  pub indexer_url : Option Text

pub record Config : Type 0 where
  pub network : Text
  pub algod_url : Text
  pub indexer_url : Text
  -- the warnings logged: the role and the other network that its URL mentions
  pub warnings : List (Text × Text)

-- `argument or os.environ.get(...) or default`
unfoldable pub first_of_urls : Text → Option Text → Text → Text
first_of_urls argument none default = if is_nil argument then default else argument
first_of_urls argument (some variable) default =
    if is_nil argument then (if is_nil variable then default else variable) else argument

-- `.rstrip("/")`
unfoldable pub without_slash : Text → Text
without_slash = rstrip (λ c. c == b'/')

-- `other in url`
unfoldable pub mentions : Text → Text → Bool
mentions other [] = is_nil other
mentions other (c ∷ s) = starts_with (c ∷ s) other || mentions other s

module _ (P : Platform) where
  -- The inner loop of the warnings, for one role and its URL.
  unfoldable pub mismatches : Text → Text → Text → List (Text × (Text × Text)) → List (Text × Text)
  unfolding mentions
  mismatches network role url [] = []
  mismatches network role url ((other, e) ∷ l) =
      (if not (text_eq other network) && mentions other (P.lower url)
        then (role, other) ∷ []
        else [])
      ++ mismatches network role url l

  -- A configuration whose URLs are settled, with its warnings.
  unfoldable pub settled : Text → Text → Text → Config
  unfolding mismatches
  settled network algod indexer = record {
    network = network;
    algod_url = algod;
    indexer_url = indexer;
    warnings =
        mismatches network (codes "algod") algod network_endpoints
        ++ mismatches network (codes "indexer") indexer network_endpoints;
  }

  -- `__post_init__`, on the fields and the environment.
  unfoldable pub configure : Text → Text → Text → Environment → Result Config
  unfolding settled
  configure network algod_url indexer_url env = elim (endpoints_of network network_endpoints) [
    | none ↦ raise value_error
    | some (default_algod, default_indexer) ↦ ok (
        settled network (without_slash (first_of_urls algod_url env.algod_url default_algod))
          (without_slash (first_of_urls indexer_url env.indexer_url default_indexer)))
  ]
