-- ===== src/Validation/Ids.antt =====
-- What `validate_uint64` accepts.
use algorandscout.Prelude.{Text, arith, refl, ℕ, ◌<◌, ◌^◌, ◌↔◌, ◌≡◌}
use algorandscout.Prelude.Int.{negsuc, pos, ℤ}
use algorandscout.Python.{Exception, Value, num, ok, raise}
use algorandscout.Validation.{validate_uint64}
use algorandscout.Validation.Address.{IsValidationError}

validate_uint64_sound :
    (name : Text) (v : Value) (n : ℤ)
    → validate_uint64 name v ≡ ok n
    → (k : ℕ) × (v ≡ num (pos k)) × (n ≡ pos k) × (k < 2 ^ 64)
unfolding validate_uint64
validate_uint64_sound name (num (pos k)) n h = (k, refl, ground arith, ground arith)
validate_uint64_sound name (num (negsuc k)) n h = cc
validate_uint64_sound name _ n h = cc

validate_uint64_complete :
    (name : Text) (k : ℕ) → k < 2 ^ 64 → validate_uint64 name (num (pos k)) ≡ ok (pos k)
unfolding validate_uint64
validate_uint64_complete name k h = ground arith

validate_uint64-error :
    (name : Text) (v : Value) (e : Exception)
    → validate_uint64 name v ≡ raise e
    → IsValidationError e
unfolding validate_uint64
validate_uint64-error name (num (pos k)) e h = ground arith
validate_uint64-error name (num (negsuc k)) e h = ground arith
validate_uint64-error name _ e h = ground arith

-- `validate_uint64` returns exactly the integers from 0 to 2^64 - 1, unchanged, a `bool` not among
-- them, and raises a `ValidationError` on every other value.
pub validate_uint64_iff :
    (name : Text) (v : Value)
    → ((n : ℤ)
        → (validate_uint64 name v ≡ ok n)
          ↔ ((k : ℕ) × (v ≡ num (pos k)) × (n ≡ pos k) × (k < 2 ^ 64)))
      × ((e : Exception) → validate_uint64 name v ≡ raise e → IsValidationError e)
validate_uint64_iff name v = (
  λ n. (
    validate_uint64_sound name v n,
    λ (k, e, e', fits). rw (e, e') (validate_uint64_complete name k fits),
  ),
  validate_uint64-error name v,
)
