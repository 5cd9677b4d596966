-- ===== src/Service/Refusals.antt =====
-- What the routes of service.py do with a malformed identifier.
use mathlib.Core.Path.{subst}
use algorandscout.Client.Config.{Config}
use algorandscout.Prelude.{Bool, List, Text, [], codes, lt→ltb, refl, ℕ, ◌++◌, ◌<◌, ◌∷◌, ◌≡◌}
use algorandscout.Prelude.Int.{negsuc, pos, ℤ}
use algorandscout.Python.{
  Exception, Platform, Result, Value, dict, num, ok, raise, text, validation_error,
}
use algorandscout.Python.Decimal.{str_ℕ}
use algorandscout.Service.{
  answer, get_address, get_address_transactions, get_block, get_smart_contract, get_token,
  get_transaction, respond, validation_error_handler,
}
use algorandscout.Service.Balances.{get_address_token_balances}
use algorandscout.Service.Search.{get_token_holders}
use algorandscout.Validation.{max_uint64, validate_address, validate_txid, validate_uint64}
use algorandscout.Validation.Address.{
  HashAvailable, IsAddress, IsTxid, IsValidationError, validate_address_iff, validate_txid_iff,
  validation_errors,
}
use algorandscout.Validation.Base32.{RefusesOther}
use algorandscout.World.{Net, World, lift, pure, ◌>>=◌}

-- A route refuses: its response is a 400 of the kind `validation`, and the state is as it was.
abbrev pub IsRefused : Net Value → World → Type 0
IsRefused handler w =
    (m : Text) × (respond handler w ≡ (
      ok (record {
        status_code = 400;
        content = dict (("error", text m) ∷ ("kind", text (codes "validation")) ∷ []);
      }),
      w,
    ))

-- An integer that names nothing on chain: it is negative or above 2⁶⁴ - 1.
abbrev pub IsOutOfRange : ℤ → Type 0
IsOutOfRange (pos n) = max_uint64 < n
IsOutOfRange (negsuc n) = Unit

refused :
    {A : Type 0} (check : Result A) (rest : A → Net Value) (m : Text) (w : World)
    → check ≡ raise (validation_error m)
    → IsRefused (lift check >>= rest) w
unfolding respond answer validation_error_handler pure lift ◌>>=◌
refused check rest m w h = (m, rw h refl)

abbrev Message : {A : Type 0} → Result A → Type 0
Message r = (m : Text) × (r ≡ raise (validation_error m))

error-Message :
    {A : Type 0} (r : Result A)
    → ((a : A) → ¬ (r ≡ ok a))
    → ((e : Exception) → r ≡ raise e → IsValidationError e)
    → Message r
error-Message (ok a) h k = absurd (h a refl)
error-Message (raise (validation_error m)) h k = (m, refl)
error-Message (raise e) h k = absurd (k e refl)

out_of_range : (name : Text) (n : ℤ) → IsOutOfRange n → Message (validate_uint64 name (num n))
unfolding validate_uint64
out_of_range name (pos n) h =
    (name ++ codes " exceeds uint64 range, got " ++ str_ℕ n, rw (lt→ltb max_uint64 n h) refl)
out_of_range name (negsuc n) h = (_, refl)

module _ (P : Platform) (r : RefusesOther P) (a : HashAvailable P) where
  address-Message : (s : Text) → (¬ IsAddress P s) → Message (validate_address P (text s))
  address-Message s h =
      error-Message (validate_address P (text s))
        (λ t k.
          let (e, valid) = (validate_address_iff P r (text s) t).0 k in
          let same : t ≡ s = cc in h (subst (IsAddress P) same valid))
        (λ e. (validation_errors P a (text s) e).0)

  txid-Message : (s : Text) → (¬ IsTxid P s) → Message (validate_txid P (text s))
  txid-Message s h =
      error-Message (validate_txid P (text s))
        (λ t k.
          let (e, valid) = (validate_txid_iff P r (text s) t).0 k in
          let same : t ≡ s = cc in h (subst (IsTxid P) same valid))
        (λ e. (validation_errors P a (text s) e).1)

-- A malformed identifier is refused with a 400 of the kind `validation`, and before anything is
-- done: no request is sent and neither the cache nor the metrics change. Malformed are a text that is
-- no address on the three address routes, one that is no transaction id on the transaction route, and
-- an integer out of the 64-bit range on the block, the token, the token holders and the smart
-- contract routes. The base32 decoder must refuse foreign characters and SHA-512/256 must be
-- available.
pub malformed-IsRefused :
    (P : Platform) (c : Config) (fuel : ℕ) (w : World) (s : Text) (n : ℤ) (pick : ℕ → ℕ)
    (set_order : List Value → List Value) (live with_transactions resolve : Bool)
    (limit next_token after_time before_time tx_type asset_id : Value)
    → RefusesOther P
    → HashAvailable P
    → (¬ IsAddress P s)
    → (¬ IsTxid P s)
    → IsOutOfRange n
    → IsRefused (get_address P c fuel s live) w
      × IsRefused
          (get_address_transactions P c fuel s limit next_token after_time before_time tx_type
            asset_id)
          w
      × IsRefused (get_address_token_balances P c pick set_order s limit next_token resolve) w
      × IsRefused (get_transaction P c fuel s) w
      × IsRefused (get_block P c fuel n with_transactions) w
      × IsRefused (get_token P c fuel n) w
      × IsRefused (get_token_holders P c fuel n limit next_token resolve) w
      × IsRefused (get_smart_contract P c fuel n) w
unfolding get_address get_address_transactions get_address_token_balances get_transaction get_block
    get_token get_smart_contract get_token_holders
malformed-IsRefused P c fuel w s n pick set_order live with_transactions resolve limit next_token
      after_time before_time tx_type asset_id r a no_address no_txid range =
    let (m, bad_address) = address-Message P r a s no_address in
    let (m', bad_txid) = txid-Message P r a s no_txid in
    (
      refused _ _ m w bad_address,
      refused _ _ m w bad_address,
      refused _ _ m w bad_address,
      refused _ _ m' w bad_txid,
      refused _ _ _ w (out_of_range (codes "round") n range).1,
      refused _ _ _ w (out_of_range (codes "asset_id") n range).1,
      refused _ _ _ w (out_of_range (codes "asset_id") n range).1,
      refused _ _ _ w (out_of_range (codes "app_id") n range).1,
    )
