-- ===== src/Mapping/Amounts.antt =====
-- Amounts and addresses of mapping.py: `decimal_string`, `_clean` and the zero address.
pub mod RoundTrip
use algorandscout.Prelude.{
  Bool, Text, [], codes, drop, if◌then◌else◌, is_nil, length, replicate, rstrip, take, ℕ, ◌++◌, ◌+◌,
  ◌-◌, ◌==◌, ◌||◌, ◌∷◌,
}
use algorandscout.Prelude.Int.{abs_ℤ, is_negative, leb_ℤ, pos, pos_part, ℤ}
use algorandscout.Python.{
  Platform, Result, Value, as_int, is_null, is_text, null, ok, str, text, ◌>>=◌,
}
use algorandscout.Python.Decimal.{digits, str_ℕ}

abbrev pub algo_decimals : ℕ
algo_decimals = 6

abbrev pub zero_address : Text
zero_address = codes "AAAAAAAAAAAAAAAAAAAAAAAAAAAAAAAAAAAAAAAAAAAAAAAAAAAAY5HFKQ"

abbrev pub rjust : ℕ → ℕ → Text → Text
rjust width c s = replicate (width - length s) c ++ s

-- The digits of `decimal_string` with the point put in, for positive `decimals`.
unfoldable pub point : ℕ → Text → Text
point decimals digits =
    let cut = length digits - decimals in
    let frac = rstrip (λ c. c == b'0') (drop cut digits) in
    if is_nil frac then take cut digits else take cut digits ++ b'.' ∷ frac

-- `decimal_string` of an integer, for positive `decimals`.
unfoldable pub decimal_text : ℤ → ℕ → Text
decimal_text amount decimals =
    (if is_negative amount then codes "-" else [])
    ++ point decimals (rjust (decimals + 1) b'0' (str_ℕ (abs_ℤ amount)))

module _ (P : Platform) where
  unfoldable pub decimal_string : Value → Value → Result Value
  unfolding decimal_text
  decimal_string null decimals = ok null
  decimal_string amount decimals = do
    d ← as_int decimals
    if leb_ℤ d (pos 0)
        then ok (text (str P amount))
        else do n ← as_int amount; ok (text (decimal_text n (pos_part d)))

unfoldable pub is_zero_address : Value → Bool
is_zero_address address = is_text address zero_address

-- `_clean`
unfoldable pub clean : Value → Value
unfolding is_zero_address
clean address = if is_null address || is_zero_address address then null else address
