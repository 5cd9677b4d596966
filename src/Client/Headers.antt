-- ===== src/Client/Headers.antt =====
-- The request headers of `AlgorandConfig` of client.py, and the fields that they are made of.
use algorandscout.Prelude.{
  Bool-cases, List, Option, Text, [], arith, codes, if◌then◌else◌, inl, inr, is_nil, none, not,
  refl, some, text_eq, text_eq_iff, ◌&&◌, ◌∷◌, ◌≡◌,
}

-- `DEFAULT_TOKEN_HEADER`
abbrev pub default_token_header : Text
default_token_header = codes "X-Algo-API-Token"

-- The environment variables behind the fields; `none` where one is not set.
pub record Variables : Type 0 where
  pub api_token : Option Text
  pub token_header : Option Text
  pub user_agent : Option Text

pub record Identity : Type 0 where
  pub api_token : Text
  pub token_header : Text
  pub user_agent : Text

-- `os.environ.get(name, default)`
abbrev pub variable_or : Option Text → Text → Text
variable_or none default = default
variable_or (some value) default = value

-- The defaults of the fields.
unfoldable pub identity_of : Variables → Identity
identity_of env = record {
  api_token = variable_or env.api_token [];
  token_header = variable_or env.token_header default_token_header;
  user_agent = variable_or env.user_agent (codes "Algorandscout/1.0.0");
}

-- `h[name] = value`
unfoldable pub set_header : Text → Text → List (Text × Text) → List (Text × Text)
set_header name value [] = (name, value) ∷ []
set_header name value ((n, v) ∷ l) =
    if text_eq n name then (n, value) ∷ l else (n, v) ∷ set_header name value l

-- `headers`
unfoldable pub headers : Identity → List (Text × Text)
unfolding set_header
headers i =
    let h = (codes "Accept", codes "application/json") ∷ (codes "User-Agent", i.user_agent) ∷ [] in
    if is_nil i.api_token then h else set_header i.token_header i.api_token h

-- `h[name]`, if it is there.
unfoldable pub header : Text → List (Text × Text) → Option Text
header name [] = none
header name ((n, v) ∷ l) = if text_eq n name then some v else header name l

header-set_header :
    (name other value : Text) (l : List (Text × Text))
    → header other (set_header name value l)
      ≡ (if text_eq name other then some value else header other l)
unfolding header set_header
header-set_header name other value [] = ground arith
header-set_header name other value ((n, v) ∷ l) = ground (
  arith,
  header-set_header name other value l,
  text_eq_iff n name,
  text_eq_iff n other,
  text_eq_iff name other,
)

-- A token that is not empty is sent under the configured header; the other headers are those sent
-- without a token.
pub header-headers :
    (i : Identity) (other : Text)
    → header other (headers i) ≡ (
        if not (is_nil i.api_token) && text_eq i.token_header other
        then some i.api_token
        else header other (headers (record i { api_token = [] })))
unfolding headers
header-headers i other = elim (Bool-cases (is_nil i.api_token)) [
  | inl empty ↦ rw empty refl
  | inr token ↦ rw token (header-set_header i.token_header other i.api_token _)
]
