-- ===== src/Service/Routes/Lookups.antt =====
-- That the concurrent lookups of service.py do not touch what the middleware keeps of the requests.
use algorandscout.Client.Reads
use algorandscout.Client.Config.{Config}
use algorandscout.Client.Transport.{Outcome, again, finished, send, sleep}
use algorandscout.Prelude.{Bool, List, Text, [], false, refl, suc, true, zero, ℕ, ◌∷◌}
use algorandscout.Python.{Fields, Platform, Value}
use algorandscout.Service.Balances.{
  Lookup, act, gather, get_address_token_balances, go_on, over, queued, resolve_all, step, trying,
  turn,
}
use algorandscout.Service.Routes.Keeping.{Keeps, keeping}

module _ (P : Platform) (c : Config) where
  go_on-Keeps : (o : Outcome) (left n : ℕ) → Keeps (go_on P c o left n)
  unfolding go_on sleep Keeps
  go_on-Keeps (finished r) left n w = refl
  go_on-Keeps (again e pause) zero n w = refl
  go_on-Keeps (again e pause) (suc left) n w = refl

  turn-Keeps : (id : Value) (left n : ℕ) → Keeps (turn P c id left n)
  unfolding turn send Keeps
  turn-Keeps id left n w = go_on-Keeps _ left n _

  act-Keeps : (k : ℕ) (jobs : List Lookup) → Keeps (act P c k jobs)
  unfolding act
  act-Keeps k [] = search keeping
  act-Keeps zero ((id, trying left n) ∷ l) = search (keeping, turn-Keeps)
  act-Keeps (suc k) ((id, trying left n) ∷ l) = search (keeping, act-Keeps k l)
  act-Keeps zero ((id, queued) ∷ l) = search (keeping, act-Keeps zero l)
  act-Keeps zero ((id, over v) ∷ l) = search (keeping, act-Keeps zero l)
  act-Keeps (suc k) ((id, queued) ∷ l) = search (keeping, act-Keeps (suc k) l)
  act-Keeps (suc k) ((id, over v) ∷ l) = search (keeping, act-Keeps (suc k) l)

  step-Keeps : (k : ℕ) (jobs : List Lookup) → Keeps (step P c k jobs)
  unfolding step
  step-Keeps k jobs = search (keeping, act-Keeps)

  gather-Keeps :
      (turns : ℕ) (pick : ℕ → ℕ) (jobs : List Lookup) → Keeps (gather P c turns pick jobs)
  unfolding gather
  gather-Keeps zero pick jobs = search keeping
  gather-Keeps (suc turns) pick jobs =
      search (keeping, step-Keeps, gather-Keeps turns pick) depth 12

  resolve_all-Keeps :
      (pick : ℕ → ℕ) (set_order : List Value → List Value) (b : Bool) (d : Fields)
      → Keeps (resolve_all P c pick set_order b d)
  unfolding resolve_all
  resolve_all-Keeps pick set_order false d = search keeping
  resolve_all-Keeps pick set_order true d = search (keeping, gather-Keeps) depth 16

  pub get_address_token_balances-Keeps :
      (pick : ℕ → ℕ) (set_order : List Value → List Value) (address : Text) (limit next : Value)
      → (b : Bool) → Keeps (get_address_token_balances P c pick set_order address limit next b)
  unfolding get_address_token_balances Reads.account_assets Reads.indexer
  get_address_token_balances-Keeps pick set_order address limit next b =
      search (keeping, resolve_all-Keeps) depth 16
