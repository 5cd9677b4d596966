-- ===== src/Validation.antt =====
-- algorandscout/validation.py: malformed identifiers are refused before any upstream call.
-- The codecs, the hash and the Unicode tables come from a `Platform`.
mod Sorting
pub mod Base32
pub mod Address
pub mod Ids
pub mod Query
use Sorting.{sorted_set}
use algorandscout.Prelude.{
  Bool, List, Option, Text, [], codes, drop, every, false, has_char, if◌then◌else◌, is_nil, length,
  lstrip, ltb, none, replicate, rstrip, some, take, text_eq, true, ℕ, ◌%◌, ◌&&◌, ◌++◌, ◌-◌, ◌==◌,
  ◌^◌, ◌||◌, ◌∷◌,
}
use algorandscout.Prelude.Int.{negsuc, pos, ℤ}
use algorandscout.Python.{
  Platform, Result, Value, num, ok, raise, text, validation_error, value_error, ◌>>=◌,
}
use algorandscout.Python.Decimal.{str_ℕ, str_ℤ}

abbrev pub base32_alphabet : Text
base32_alphabet = codes "ABCDEFGHIJKLMNOPQRSTUVWXYZ234567"

abbrev pub address_length : ℕ
address_length = 58

abbrev pub txid_length : ℕ
txid_length = 52

abbrev pub max_uint64 : ℕ
max_uint64 = 2 ^ 64 - 1

-- `ch in BASE32_ALPHABET`, the character class of `_BASE32_RE`.
unfoldable pub in_alphabet : ℕ → Bool
in_alphabet = has_char base32_alphabet

-- The part of `_BASE32_RE` behind its first character: `$` also matches before a final newline.
unfoldable pub base32_rest : Text → Bool
base32_rest [] = true
base32_rest (c ∷ s) = (c == b'\n' && is_nil s) || (in_alphabet c && base32_rest s)

-- `_BASE32_RE.match(s)`
unfoldable pub base32_match : Text → Bool
unfolding base32_rest
base32_match [] = false
base32_match (c ∷ s) = in_alphabet c && base32_rest s

-- `" ".join(l)` of single characters.
abbrev pub spaced : List ℕ → Text
spaced [] = []
spaced (c ∷ []) = c ∷ []
spaced (c ∷ d ∷ l) = c ∷ b' ' ∷ spaced (d ∷ l)

-- The characters that the message lists, in order.
pub bad_characters : Text → Text
bad_characters [] = []
bad_characters (c ∷ s) = let r = bad_characters s in if in_alphabet c then r else c ∷ r

abbrev pub last_4 : List ℕ → List ℕ
last_4 l = drop (length l - 4) l

-- `"=" * (-len(value) % 8)`
abbrev pub padding : Text → Text
padding s = replicate ((8 - length s % 8) % 8) b'='

pub data QueryKind : Type 0 where
  address transaction numeric : QueryKind

module _ (P : Platform) where
  open P use {b32decode, b32_message, sha512_256, is_space, is_digit}

  -- `_b32_decode` under the two `except` clauses of its callers, `what` being the thing decoded.
  unfoldable pub b32_decode : Text → Text → ℕ → Result (List ℕ)
  b32_decode what value expected = elim (b32decode (value ++ padding value)) [
    | none ↦ raise (
        validation_error
          (what ++ codes " is not decodable base32: " ++ b32_message (value ++ padding value)))
    | some raw ↦
        if length raw == expected
        then ok raw
        else raise (
            validation_error (
              codes "decoded to "
              ++ str_ℕ (length raw)
              ++ codes " bytes, expected "
              ++ str_ℕ expected))
  ]

  -- The checksum test, on the 36 decoded bytes.
  unfoldable pub check_address : Text → List ℕ → Result Text
  check_address s raw = elim (sha512_256 (take 32 raw)) [
    | none ↦ raise value_error
    | some digest ↦
        if text_eq (drop 32 raw) (last_4 digest)
        then ok s
        else raise (
            validation_error
              (codes "address checksum does not match — likely a typo or truncation"))
  ]

  unfoldable pub validate_address : Value → Result Text
  validate_address (text s) =
      if is_nil s
      then raise (validation_error (codes "address must be a non-empty string"))
      else if length s == address_length
      then if base32_match s
        then (do raw ← b32_decode (codes "address") s 36; check_address s raw)
        else raise (
            validation_error (
              codes "address contains characters outside the base32 alphabet: "
              ++ spaced (sorted_set (bad_characters s))
              ++ codes " (note that 0, 1, 8 and 9 are not base32 digits)"))
      else raise
          (validation_error (codes "address must be 58 characters, got " ++ str_ℕ (length s)))
  validate_address _ = raise (validation_error (codes "address must be a non-empty string"))

  -- `except ValidationError`, and nothing else, makes it `False`.
  unfoldable pub is_valid_address : Value → Result Bool
  is_valid_address v = elim (validate_address v) [
    | ok s ↦ ok true
    | raise (validation_error m) ↦ ok false
    | raise e ↦ raise e
  ]

  unfoldable pub validate_txid : Value → Result Text
  validate_txid (text s) =
      if is_nil s
      then raise (validation_error (codes "transaction id must be a non-empty string"))
      else if length s == txid_length
      then if base32_match s
        then (do raw ← b32_decode (codes "transaction id") s 32; ok s)
        else raise (
            validation_error
              (codes "transaction id contains characters outside the base32 alphabet"))
      else raise (
          validation_error (codes "transaction id must be 52 characters, got " ++ str_ℕ (length s)))
  validate_txid _ = raise (validation_error (codes "transaction id must be a non-empty string"))

  abbrev pub strip : Text → Text
  strip s = rstrip is_space (lstrip is_space s)

  -- The tests on the stripped term.
  unfoldable pub classify_term : Text → Option QueryKind
  classify_term term =
      if is_nil term
      then none
      else if length term == address_length && base32_match term
      then some address
      else if length term == txid_length && base32_match term
      then some transaction
      else if every is_digit term
      then some numeric
      else none

  -- `query` is a `str`, so `query or ""` is `query`.
  unfoldable pub classify_query : Text → Option QueryKind
  unfolding classify_term
  classify_query query = classify_term (strip query)

unfoldable pub validate_uint64 : Text → Value → Result ℤ
validate_uint64 name (num (pos n)) =
    if ltb max_uint64 n
    then raise (validation_error (name ++ codes " exceeds uint64 range, got " ++ str_ℕ n))
    else ok (pos n)
validate_uint64 name (num (negsuc n)) =
    raise (validation_error (name ++ codes " must not be negative, got " ++ str_ℤ (negsuc n)))
validate_uint64 name _ = raise (validation_error (name ++ codes " must be an integer"))
