-- ===== src/Client/Transport.antt =====
-- `_get` of client.py: three attempts with pauses between them.
pub mod Retries
use algorandscout.Client.Errors.{parse_retry_after, retryable}
use algorandscout.Prelude.{
  List, Option, Text, [], codes, false, if◌then◌else◌, inl, inr, is_nil, leb, length, none, refl,
  some, suc, take, true, zero, ℕ, ◌*◌, ◌++◌, ◌+◌, ◌-◌, ◌==◌, ◌∷◌, ◌≡◌, ◌⊎◌,
}
use algorandscout.Prelude.Int.{pos}
use algorandscout.Python.{
  AlgorandError, Float, Platform, Result, Value, algorand_error, finite, is_null, raise,
}
use algorandscout.Python.Decimal.{str_ℕ}
use algorandscout.World.{Attempt, Net, World, reply, transport_failure}

abbrev pub max_retries : ℕ
max_retries = 3

-- `RETRY_BACKOFF_S`, in microseconds.
abbrev pub retry_backoff : ℕ
retry_backoff = 400000

unfoldable pub not_found : Text → Text → AlgorandError
not_found path url = record {
  message = codes "not found: " ++ path;
  status = some 404;
  url = url;
  not_found = true;
}

unfoldable pub status_error : ℕ → Text → Text → AlgorandError
status_error status body url = record {
  message = codes "HTTP " ++ str_ℕ status ++ codes ": " ++ take 400 body;
  status = some status;
  url = url;
  not_found = false;
}

unfoldable pub transport_error : Text → Text → AlgorandError
transport_error message url = record {
  message = codes "transport failure: " ++ message;
  status = none;
  url = url;
  not_found = false;
}

-- How one attempt ends: with the payload or an exception for the caller, or to be tried again with
-- the error kept in `last` and the pause of `Retry-After`.
pub data Outcome : Type 0 where
  finished : Result Value → Outcome
  again : AlgorandError → Option Float → Outcome

pub Outcome-cases :
    (o : Outcome)
    → ((r : Result Value) × (o ≡ finished r))
      ⊎ ((e : AlgorandError) × (pause : Option Float) × (o ≡ again e pause))
Outcome-cases (finished r) = inl (r, refl)
Outcome-cases (again e pause) = inr (e, pause, refl)

-- `session.get(url)`
unfoldable pub send : Text → World → Attempt × World
send url w = (w.upstream (length w.sent) url, record w { sent = url ∷ w.sent })

-- The pause before the next attempt; `n` is the number of the attempt that failed.
unfoldable pub delay : ℕ → Option Float → World → Float
delay n none w = finite (pos (retry_backoff * n + w.jitter (length w.slept)))
delay n (some pause) w = pause

-- `asyncio.sleep(delay)`
unfoldable pub sleep : ℕ → Option Float → World → World
unfolding delay
sleep n pause w = record w { slept = delay n pause w ∷ w.slept }

-- The parameters that are not `None`.
unfoldable pub present : List (Text × Value) → List (Text × Value)
present [] = []
present ((k, v) ∷ l) = if is_null v then present l else (k, v) ∷ present l

module _ (P : Platform) where
  unfoldable pub outcome : Text → Text → Attempt → Outcome
  unfolding not_found status_error transport_error
  outcome path url (transport_failure message) = again (transport_error message url) none
  outcome path url (reply status body retry_after payload) =
      if status == 404
      then finished (raise (algorand_error (not_found path url)))
      else if leb 400 status
      then (let e = status_error status body url in
          if retryable e
          then again e (parse_retry_after P retry_after)
          else finished (raise (algorand_error e)))
      else finished payload

  -- The attempts from number `n` on, with `left` more behind it. There is no pause behind the last.
  unfoldable pub attempts : ℕ → ℕ → Text → Text → Net Value
  unfolding send sleep
  attempts zero n path url w =
      let (a, w') = send url w in
      elim (outcome path url a) [
        | finished r ↦ (r, w')
        | again e pause ↦ (raise (algorand_error e), w')
      ]
  attempts (suc left) n path url w =
      let (a, w') = send url w in
      elim (outcome path url a) [
        | finished r ↦ (r, w')
        | again e pause ↦ attempts left (n + 1) path url (sleep n pause w')
      ]

  unfoldable pub url_of : Text → Text → List (Text × Value) → Text
  unfolding present
  url_of base path params =
      let query = present params in
      base ++ (path ++ (if is_nil query then [] else b'?' ∷ P.urlencode query))

  -- `_get`
  unfoldable pub get_json : Text → Text → List (Text × Value) → Net Value
  get_json base path params = attempts (max_retries - 1) 1 path (url_of base path params)
