-- ===== src/Client/Errors.antt =====
-- `AlgorandError` and `_parse_retry_after` of client.py.
use algorandscout.Prelude.{
  Bool, Option, Option-cases, Text, arith, false, if◌then◌else◌, inl, inr, is_nil, leb, lstrip, ltb,
  none, not, refl, rstrip, some, true, ◌&&◌, ◌==◌, ◌||◌, ◌≡◌, ◌⊎◌,
}
use algorandscout.Prelude.Int.{is_negative, ltb_ℤ, negsuc, pos, ℤ, ◌≤ℤ◌}
use algorandscout.Python.{AlgorandError, Float, Platform, finite, infinity, minus_infinity, nan}

unfoldable pub retryable : AlgorandError → Bool
retryable e = elim e.status [ none ↦ true | some s ↦ leb 500 s || s == 429 ]

unfoldable pub caller_error : AlgorandError → Bool
caller_error e = elim e.status [ none ↦ false | some s ↦ leb 400 s && ltb s 500 && not (s == 429) ]

-- `MAX_RETRY_AFTER_S`, in microseconds.
abbrev pub max_retry_after : ℤ
max_retry_after = pos 10000000

-- `seconds < 0` and `min(seconds, MAX_RETRY_AFTER_S)`: no order holds of a NaN, and `min` then
-- returns its first argument.
unfoldable pub clamp : Float → Option Float
clamp (finite s) =
    if is_negative s
    then none
    else some (finite (if ltb_ℤ max_retry_after s then max_retry_after else s))
clamp infinity = some (finite max_retry_after)
clamp minus_infinity = none
clamp nan = some nan

-- A delay that `Retry-After` asks for.
abbrev pub IsPause : Float → Type 0
IsPause (finite s) = (pos 0 ≤ℤ s) × (s ≤ℤ max_retry_after)
IsPause _ = ⊥

clamp-IsPause : (x s : Float) → clamp x ≡ some s → IsPause s ⊎ ((s ≡ nan) × (x ≡ nan))
unfolding clamp
clamp-IsPause (finite (pos n)) (finite (pos m)) h = inl (omega arith, ground arith)
clamp-IsPause (finite (pos n)) s h = ground arith
clamp-IsPause (finite (negsuc n)) s h = cc
clamp-IsPause infinity (finite s) h = inl (ground arith)
clamp-IsPause infinity s h = cc
clamp-IsPause minus_infinity s h = cc
clamp-IsPause nan s h = inr (cc, refl)

module _ (P : Platform) where
  unfoldable pub parse_retry_after : Option Text → Option Float
  unfolding clamp
  parse_retry_after none = none
  parse_retry_after (some value) =
      if is_nil value
      then none
      else elim (P.parse_float (rstrip P.is_space (lstrip P.is_space value))) [
        | none ↦ none
        | some s ↦ clamp s
      ]

  -- Whatever a header holds, the pause taken from it is between 0 and 10 seconds, unless the header
  -- reads as a NaN, and then the pause is a NaN.
  pub parse_retry_after-IsPause :
      (header : Option Text) (s : Float)
      → parse_retry_after header ≡ some s
      → IsPause s
        ⊎ ((s ≡ nan)
            × (value : Text) × (header ≡ some value)
            × (P.parse_float (rstrip P.is_space (lstrip P.is_space value)) ≡ some nan))
  unfolding parse_retry_after
  parse_retry_after-IsPause none s h = cc
  parse_retry_after-IsPause (some value) s h =
      elim (Option-cases (P.parse_float (rstrip P.is_space (lstrip P.is_space value)))) [
        | inl e ↦ absurd (ground arith)
        | inr (x, e) ↦ elim (clamp-IsPause x s (ground arith)) [
          | inl pause ↦ inl pause
          | inr (is_nan, from_nan) ↦ inr (is_nan, value, refl, rw (← from_nan) e)
        ]
      ]

-- The three classes of upstream errors: none is both the caller's and retried, and one is neither
-- exactly when it has a status below 400.
pub error_classes :
    (e : AlgorandError)
    → ((caller_error e && retryable e) ≡ false)
      × ((caller_error e || retryable e) ≡ elim e.status [ none ↦ true | some s ↦ leb 400 s ])
unfolding caller_error retryable
error_classes e = (ground arith, ground arith)
