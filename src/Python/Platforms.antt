-- ===== src/Python/Platforms.antt =====
-- What the program takes from Python's C libraries and does not implement: Unicode tables, codecs,
-- hashes, the parser of floats and the `repr` of containers.
use algorandscout.Prelude.{Bool, List, Option, Text, codes, false, true, ℕ}
use algorandscout.Prelude.Int.{ℤ}
use algorandscout.Python.Decimal.{str_ℤ}
use algorandscout.Python.Values.{Value, arr, bool, null, num, obj, text}

-- A Python float in microseconds, or one of the values that are no number of them.
pub data Float : Type 0 where
  finite : ℤ → Float
  infinity minus_infinity nan : Float

pub record Platform : Type 0 where
  -- `repr` of a list or a dictionary
  pub repr : Value → Text
  -- `str.isspace` and `str.isdigit` of one character
  pub is_space : ℕ → Bool
  pub is_digit : ℕ → Bool
  -- `int(s)`; `none` where it raises `ValueError`
  pub parse_int : Text → Option ℤ
  -- `float(s)`; `none` where it raises `ValueError`
  pub parse_float : Text → Option Float
  -- `base64.b32decode`; `none` where it raises, with the text of the exception
  pub b32decode : Text → Option (List ℕ)
  pub b32_message : Text → Text
  -- the digest of `hashlib.new("sha512_256", key)`; `none` where the hash is not available
  pub sha512_256 : List ℕ → Option (List ℕ)
  -- `base64.b64decode(s).decode("utf-8")`; `none` where either raises
  pub b64_utf8 : Text → Option Text
  -- `str.isprintable`
  pub is_printable : Text → Bool
  -- `urllib.parse.urlencode`
  pub urlencode : List (Text × Value) → Text
  -- `str.lower`
  pub lower : Text → Text

-- `str(v)`
abbrev pub str : Platform → Value → Text
str P null = codes "None"
str P (bool true) = codes "True"
str P (bool false) = codes "False"
str P (num n) = str_ℤ n
str P (text s) = s
str P (arr r) = P.repr (arr r)
str P (obj d) = P.repr (obj d)
