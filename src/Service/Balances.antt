-- ===== src/Service/Balances.antt =====
-- `get_address_token_balances` of service.py. The lookups of the assets' parameters run at the same
-- time, at most `RESOLVE_CONCURRENCY` of them; which of them meets its reply next is up to the event
-- loop, and is an argument here.
pub mod Slots
pub mod Endings
pub mod Orders
pub mod Answers
pub mod Assets
mod Moves
mod Verdicts
use Assets.{settled, asset_ids}
use algorandscout.Client.Reads
use algorandscout.Client.Config.{Config}
use algorandscout.Client.Transport.{
  Outcome, again, attempts, finished, max_retries, outcome, send, sleep, url_of,
}
use algorandscout.Mapping.Accounts.{map_account_assets}
use algorandscout.Prelude.{
  Bool, List, Option, Text, [], codes, false, if◌then◌else◌, length, min, none, some, suc, true,
  zero, ℕ, ◌*◌, ◌++◌, ◌+◌, ◌-◌, ◌==◌, ◌∷◌,
}
use algorandscout.Python.{
  Fields, Platform, Result, Value, as_dict, as_list, get, list, ok, or_else, raise, str, text,
}
use algorandscout.Validation.{validate_address}
use algorandscout.World.{Net, lift, pure, ◌>>=◌}

-- `RESOLVE_CONCURRENCY`
abbrev pub resolve_concurrency : ℕ
resolve_concurrency = 8

-- Where a `resolve_one` stands: before the semaphore, in `_get` with some attempts left after the
-- one numbered, or returned.
pub data Phase : Type 0 where
  queued : Phase
  trying : ℕ → ℕ → Phase
  over : Option Value → Phase

-- `asyncio.gather`'s tasks, in the order they were given, each with its asset id.
abbrev pub Lookup : Type 0
Lookup = Value × Phase

abbrev pub is_queued : Phase → ℕ
is_queued queued = 1
is_queued _ = 0

-- 1 for a holder of the semaphore.
abbrev pub holds : Phase → ℕ
holds (trying left n) = 1
holds _ = 0

abbrev pub waiting : List Lookup → ℕ
waiting [] = 0
waiting ((id, p) ∷ l) = is_queued p + waiting l

abbrev pub running : List Lookup → ℕ
running [] = 0
running ((id, p) ∷ l) = holds p + running l

-- `async with semaphore`: the first in the queue enter while there are places.
unfoldable pub admit : ℕ → List Lookup → List Lookup
admit zero l = l
admit (suc places) [] = []
admit (suc places) ((id, queued) ∷ l) = (id, trying (max_retries - 1) 1) ∷ admit places l
admit (suc places) (j ∷ l) = j ∷ admit (suc places) l

-- `resolve_one` returns, or raises into `gather`.
abbrev pub ended : Result (Option Value) → Result Phase
ended (ok found) = ok (over found)
ended (raise e) = raise e

module _ (P : Platform) (c : Config) where
  abbrev pub asset_path : Value → Text
  asset_path id = codes "/v2/assets/" ++ str P id

  abbrev pub asset_url : Value → Text
  asset_url id = url_of P c.indexer_url (asset_path id) []

  -- `resolve_one` with no other beside it.
  unfoldable pub resolve_one : Value → Net (Option Value)
  unfolding settled
  resolve_one id w =
      let (r, w') = attempts P (max_retries - 1) 1 (asset_path id) (asset_url id) w in
      (settled r, w')

  -- What an attempt of the `_get` under a `resolve_one` leads to, the pause behind it included.
  unfoldable pub go_on : Outcome → ℕ → ℕ → Net Phase
  go_on (finished r) left n w = (ended (settled r), w)
  go_on (again e pause) zero n w = (ok (over none), w)
  go_on (again e pause) (suc left) n w = (ok (trying left (n + 1)), sleep n pause w)

  unfoldable pub turn : Value → ℕ → ℕ → Net Phase
  turn id left n w =
      let (a, w') = send (asset_url id) w in
      go_on (outcome P (asset_path id) (asset_url id) a) left n w'

  -- The k-th of the running lookups makes its next attempt. What it raises, `gather` raises.
  unfoldable pub act : ℕ → List Lookup → Net (List Lookup)
  unfolding turn
  act k [] = pure []
  act zero ((id, trying left n) ∷ l) = do p ← turn id left n; pure ((id, p) ∷ l)
  act (suc k) ((id, trying left n) ∷ l) = do r ← act k l; pure ((id, trying left n) ∷ r)
  act k (j ∷ l) = do r ← act k l; pure (j ∷ r)

  unfoldable pub step : ℕ → List Lookup → Net (List Lookup)
  unfolding act
  step k jobs = do
    moved ← act (min k (running jobs - 1)) jobs
    pure (admit (resolve_concurrency - running moved) moved)

  -- At most `turns` attempts, in the order that the event loop picks them.
  unfoldable pub gather : ℕ → (ℕ → ℕ) → List Lookup → Net (List Lookup)
  unfolding step
  gather zero pick jobs = pure jobs
  gather (suc turns) pick jobs =
      if running jobs == 0
      then pure jobs
      else do moved ← step (pick turns) jobs; gather turns pick moved

-- `(resolve_one(a) for a in asset_ids)`
abbrev pub tasks_of : List Value → List Lookup
tasks_of [] = []
tasks_of (id ∷ ids) = (id, queued) ∷ tasks_of ids

abbrev pub started : List Value → List Lookup
started ids = admit resolve_concurrency (tasks_of ids)

-- The `for` loop over the results of `gather`.
unfoldable pub resolved_params : List Lookup → List (Value × Value)
resolved_params [] = []
resolved_params ((id, over (some params)) ∷ l) = (id, params) ∷ resolved_params l
resolved_params (j ∷ l) = resolved_params l

module _ (P : Platform) (c : Config) (pick : ℕ → ℕ) (set_order : List Value → List Value) where
  -- `params`; `set_order` is the order in which Python walks through a set.
  unfoldable pub resolve_all : Bool → Fields → Net (List (Value × Value))
  resolve_all false d = pure []
  resolve_all true d = do
    holdings ← lift (as_list (or_else (get d "assets") (list [])))
    ids ← lift (asset_ids [] holdings)
    let tasks = set_order ids
    jobs ← gather P c (max_retries * length tasks) pick (started tasks)
    pure (resolved_params jobs)

  unfoldable pub get_address_token_balances : Text → Value → Value → Bool → Net Value
  unfolding resolve_all
  get_address_token_balances address limit next_token resolve = do
    valid ← lift (validate_address P (text address))
    payload ← Reads.account_assets P c address limit next_token
    d ← lift (as_dict payload)
    params ← resolve_all resolve d
    lift (map_account_assets P d params)
