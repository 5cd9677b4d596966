-- ===== src/World.antt =====
-- What the service shares between requests and what it meets outside: the upstream, the clock, the
-- cache and the metrics, threaded through the handlers as a state.
pub mod Upstream
use algorandscout.Cache.{Cache}
use algorandscout.Metrics.{Metrics}
use algorandscout.Prelude.{List, Option, Text, ℕ, ◌+◌}
use algorandscout.Python.{Float, Result, Value, ok, raise}

-- What one HTTP request meets: a reply, with its `Retry-After` header and what parsing its body as
-- JSON returns or raises, or a `ClientError` or a timeout with its text.
pub data Attempt : Type 0 where
  reply : ℕ → Text → Option Text → Result Value → Attempt
  transport_failure : Text → Attempt

-- `upstream n url` is what the n-th request of the process meets, `jitter n` the n-th random delay
-- in microseconds, and `clock n` the n-th reading of the clock in nanoseconds. `sent` and `slept`
-- are the URLs requested and the delays slept, the latest first.
pub record World : Type 0 where
  pub upstream : ℕ → Text → Attempt
  pub jitter : ℕ → ℕ
  pub clock : ℕ → ℕ
  pub readings : ℕ
  pub sent : List Text
  pub slept : List Float
  pub cache : Cache
  pub metrics : Metrics

abbrev pub Net {ℓ} : Type ℓ → Type ℓ
Net A = World → Result A × World

-- What was done before an exception stays done.
abbrev pub continue {ℓ κ} :
    {A : Type ℓ} {B : Type κ} → (A → Net B) → Result A × World → Result B × World
continue f (ok a, w) = f a w
continue f (raise e, w) = (raise e, w)

infixl 5 ◌>>=◌
unfoldable pub ◌>>=◌ {ℓ κ} : {A : Type ℓ} {B : Type κ} → Net A → (A → Net B) → Net B
◌>>=◌ m f w = continue f (m w)

unfoldable pub pure {ℓ} : {A : Type ℓ} → A → Net A
pure a w = (ok a, w)

unfoldable pub lift {ℓ} : {A : Type ℓ} → Result A → Net A
lift r w = (r, w)

-- `time.monotonic()`
unfoldable pub read_clock : Net ℕ
read_clock w = (ok (w.clock w.readings), record w { readings = w.readings + 1 })
