-- ===== src/Service/Routes/Keeping.antt =====
-- What no route of service.py touches: what the middleware keeps of the requests.
use algorandscout.Client.Reads
use algorandscout.Client.Config.{Config}
use algorandscout.Client.Reads.{attempted, caught}
use algorandscout.Client.Transport.{Outcome-cases, attempts, get_json, outcome, send, sleep}
use algorandscout.Metrics.{Metrics, RequestKey, observe_upstream}
use algorandscout.Prelude.{
  Bool, List, String, Text, arith, false, if◌then◌else◌, inl, inr, length, refl, suc, true, zero, ℕ,
  ◌+◌, ◌∙◌, ◌≡◌,
}
use algorandscout.Prelude.Int.{ℤ}
use algorandscout.Python.{Platform, Result, Value, ok, raise}
use algorandscout.Service.{
  algorand_error_handler, answer, cached, look_up, respond, store, validation_error_handler,
}
use algorandscout.Service.Search.{passed_over, tried}
use algorandscout.World.{Net, World, continue, lift, pure, read_clock, ◌>>=◌}

-- The metrics without the upstream's counters.
abbrev pub request_part :
    Metrics → List (RequestKey × ℕ) × List (Text × List ℕ) × List (Text × ℕ) × List (Text × ℕ)
request_part m = (m.requests, m.buckets, m.latency_sum, m.latency_count)

unfoldable pub Keeps : {A : Type 0} → Net A → Type 0
Keeps m = (w : World) → request_part (m w).1.metrics ≡ request_part w.metrics

pub pure-Keeps : {A : Type 0} (a : A) → Keeps (pure a)
unfolding Keeps pure
pure-Keeps a w = refl

pub lift-Keeps : {A : Type 0} (r : Result A) → Keeps (lift r)
unfolding Keeps lift
lift-Keeps r w = refl

continue-Keeps :
    {A B : Type 0} (f : A → Net B) (w : World) (r : Result A × World)
    → request_part r.1.metrics ≡ request_part w.metrics
    → ((a : A) → Keeps (f a))
    → request_part (continue f r).1.metrics ≡ request_part w.metrics
unfolding Keeps
continue-Keeps f w (ok a, w') e k = k a w' ∙ e
continue-Keeps f w (raise x, w') e k = e

pub >>=-Keeps :
    {A B : Type 0} (m : Net A) (f : A → Net B) → Keeps m → ((a : A) → Keeps (f a)) → Keeps (m >>= f)
unfolding Keeps ◌>>=◌
>>=-Keeps m f h k w = continue-Keeps f w (m w) (h w) k

pub if-Keeps :
    {A : Type 0} (b : Bool) (m n : Net A) → Keeps m → Keeps n → Keeps (if b then m else n)
if-Keeps true m n h k = h
if-Keeps false m n h k = k

attempts-Keeps : (P : Platform) (left n : ℕ) (path url : Text) → Keeps (attempts P left n path url)
unfolding Keeps attempts send sleep outcome
attempts-Keeps P zero n path url w = ground arith
attempts-Keeps P (suc left) n path url w =
    elim (Outcome-cases (outcome P path url (w.upstream (length w.sent) url))) [
      | inl (r, e) ↦ rw e refl
      | inr (x, pause, e) ↦ rw e (attempts-Keeps P left (n + 1) path url _)
    ]

pub get_json-Keeps :
    (P : Platform) (base path : Text) (params : List (Text × Value))
    → Keeps (get_json P base path params)
unfolding get_json
get_json-Keeps P base path params = attempts-Keeps P _ _ _ _

pub look_up-Keeps : (kind : String) (key : Text) → Keeps (look_up kind key)
unfolding Keeps look_up read_clock ◌>>=◌
look_up-Keeps kind key w = refl

pub store-Keeps : (kind : String) (key : Text) (v : Value) → Keeps (store kind key v)
unfolding Keeps store read_clock ◌>>=◌
store-Keeps kind key v w = refl

passed_over-Keeps :
    (r : Result (List Value) × World) (w : World)
    → request_part r.1.metrics ≡ request_part w.metrics
    → request_part (passed_over r).1.metrics ≡ request_part w.metrics
unfolding passed_over
passed_over-Keeps (r, w') w e = ground arith

pub tried-Keeps : (m : Net (List Value)) → Keeps m → Keeps (tried m)
unfolding Keeps tried
tried-Keeps m h w = passed_over-Keeps (m w) w (h w)

caught-Keeps :
    (r : Result Value × World) (w : World)
    → request_part r.1.metrics ≡ request_part w.metrics
    → request_part (caught r).1.metrics ≡ request_part w.metrics
unfolding caught
caught-Keeps (r, w') w e = ground arith

pub attempted-Keeps : (m : Net Value) → Keeps m → Keeps (attempted m)
unfolding Keeps attempted
attempted-Keeps m h w = caught-Keeps (m w) w (h w)

answer-Keeps :
    (r : Result Value × World) (w : World)
    → request_part r.1.metrics ≡ request_part w.metrics
    → request_part (answer r).1.metrics ≡ request_part w.metrics
unfolding answer algorand_error_handler validation_error_handler pure observe_upstream
answer-Keeps (ok v, w') w e = e
answer-Keeps (raise x, w') w e = ground arith

pub respond-Keeps : (m : Net Value) → Keeps m → Keeps (respond m)
unfolding Keeps respond
respond-Keeps m h w = answer-Keeps (m w) w (h w)

pub ruleset keeping = (
  pure-Keeps, lift-Keeps, >>=-Keeps, if-Keeps, get_json-Keeps, look_up-Keeps, store-Keeps,
  tried-Keeps, attempted-Keeps,
)

pub cached-Keeps :
    (kind : String) (key : Text) (fetch : Net Value) → Keeps fetch → Keeps (cached kind key fetch)
unfolding cached
cached-Keeps kind key fetch h = search keeping depth 12

module _ (P : Platform) (c : Config) where
  pub health-Keeps : Keeps (Reads.health P c)
  unfolding Reads.health Reads.status Reads.indexer Reads.algod
  health-Keeps = search keeping depth 16

  pub asset-Keeps : (id : ℤ) → Keeps (Reads.asset P c id)
  unfolding Reads.asset Reads.indexer
  asset-Keeps id = search keeping

  pub application-Keeps : (id : ℤ) → Keeps (Reads.application P c id)
  unfolding Reads.application Reads.indexer
  application-Keeps id = search keeping

  pub account-Keeps : (address : Text) (live : Bool) → Keeps (Reads.account P c address live)
  unfolding Reads.account Reads.indexer Reads.algod
  account-Keeps address live = search keeping

  pub transaction-Keeps : (txid : Text) → Keeps (Reads.transaction P c txid)
  unfolding Reads.transaction Reads.indexer
  transaction-Keeps txid = search keeping

pub ruleset reading = (
  keeping, cached-Keeps, health-Keeps, asset-Keeps, application-Keeps, account-Keeps,
  transaction-Keeps,
)
