-- ===== src/Service/Searches.antt =====
-- What `search` of service.py does when the upstream fails.
use algorandscout.Client.Config.{Config}
use algorandscout.Prelude.{List, Option, Text, codes, none, some, ℕ, ◌≡◌}
use algorandscout.Prelude.Int.{ℤ}
use algorandscout.Python.{Platform, Result, Value, algorand_error, num, ok, raise}
use algorandscout.Service.Search.{
  out_of_range_note, passed_over, search, search_address, search_application, search_asset,
  search_int, search_kind, search_number, search_transaction, search_valid, tried,
}
use algorandscout.Validation.{
  QueryKind, address, numeric, transaction, classify_query, strip, validate_uint64,
}
use algorandscout.World.{Net, World, lift}
use algorandscout.World.Upstream.{>>=_lem, IsUpstreamError, pure_lem}

passed_over_lem : (r : Result (List Value) × World) → ¬ IsUpstreamError (passed_over r).0
unfolding passed_over
passed_over_lem (ok l, w) h = h
passed_over_lem (raise (algorand_error e), w) h = h
passed_over_lem (raise e, w) h = h

tried_lem : (body : Net (List Value)) (w : World) → ¬ IsUpstreamError (tried body w).0
unfolding tried
tried_lem body w = passed_over_lem (body w)

module _ (P : Platform) (c : Config) (fuel : ℕ) where
  search_valid_lem :
      (r : Result ℤ) (n : ℤ) (w : World) → ¬ IsUpstreamError (search_valid P c fuel r n w).0
  unfolding search_valid
  search_valid_lem (raise e) n w = pure_lem out_of_range_note w
  search_valid_lem (ok id) n w = >>=_lem _ _ w (tried_lem (search_asset P c fuel n) w) (λ tokens w'.
      >>=_lem _ _ w' (tried_lem (search_application P c fuel n) w') (λ contracts. pure_lem _))

  search_int_lem : (o : Option ℤ) (w : World) → ¬ IsUpstreamError (search_int P c fuel o w).0
  unfolding search_int lift
  search_int_lem none w = λ h. h
  search_int_lem (some n) w = search_valid_lem (validate_uint64 (codes "id") (num n)) n w

-- A search whose term reads as an address, a transaction id or a number is never answered with an
-- error of the upstream: whatever its requests meet, it returns or raises something else.
pub search-IsUpstreamError :
    (P : Platform) (c : Config) (fuel : ℕ) (k : QueryKind) (q : Text) (limit : Value) (w : World)
    → classify_query P (strip P q) ≡ some k
    → ¬ IsUpstreamError (search P c fuel q limit w).0
unfolding search search_kind search_number
search-IsUpstreamError P c fuel address q limit w h =
    rw h (>>=_lem _ _ w (tried_lem (search_address P c fuel (strip P q)) w) (λ results. pure_lem _))
search-IsUpstreamError P c fuel transaction q limit w h =
    rw h (
      >>=_lem _ _ w (tried_lem (search_transaction P c fuel (strip P q)) w) (λ results. pure_lem _))
search-IsUpstreamError P c fuel numeric q limit w h =
    rw h (search_int_lem P c fuel (P.parse_int (strip P q)) w)
