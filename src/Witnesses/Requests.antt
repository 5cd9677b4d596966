-- ===== src/Witnesses/Requests.antt =====
-- Witnesses on requests, errors and metrics.
use algorandscout.Client.Config.{
  Config, configure, endpoints_of, first_of_urls, mentions, mismatches, network_endpoints, settled,
  without_slash,
}
use algorandscout.Client.Errors.{IsPause, clamp, parse_retry_after, parse_retry_after-IsPause}
use algorandscout.Client.Health.{health-IsUpstreamError}
use algorandscout.Client.Reads.{health, indexer}
use algorandscout.Client.Transport.{get_json, url_of}
use algorandscout.Client.Transport.Retries.{Exchange, get_json-Retried}
use algorandscout.Client.Warnings.{Agrees, configure-Agrees}
use algorandscout.Metrics.{Request, observe_all}
use algorandscout.Metrics.Histogram.{Describes, observe_all-Describes, of_route}
use algorandscout.Prelude.{
  List, Text, [], codes, false, lstrip, none, refl, rstrip, some, ◌++◌, ◌↔◌, ◌∷◌, ◌≡◌, ◌⊎◌,
}
use algorandscout.Prelude.Int.{pos}
use algorandscout.Python.{
  AlgorandError, algorand_error, finite, http_exception, nan, nat, ok, raise,
}
use algorandscout.Service.{Response, answer, passthrough, passthrough_prefixes}
use algorandscout.Service.Failures.{IsAttributed, IsCounted, answer-algorand_error, error_content}
use algorandscout.Service.Passthrough.{IsAllowed, passthrough_allowlist}
use algorandscout.Service.Search.{search}
use algorandscout.Service.Searches.{search-IsUpstreamError}
use algorandscout.Validation.{
  base32_match, classify_query, classify_term, in_alphabet, numeric, strip,
}
use algorandscout.Witnesses.{ascii, at_start, testnet}
use algorandscout.World.{World}
use algorandscout.World.Upstream.{IsUpstreamError}

get_json_example :
    Exchange
      (url_of ascii (codes "http://node") (codes "/v2/status") [])
      at_start
      (get_json ascii (codes "http://node") (codes "/v2/status") [] at_start)
get_json_example = get_json-Retried ascii (codes "http://node") (codes "/v2/status") [] at_start

abbrev too_many : AlgorandError
too_many = record {
  message = codes "HTTP 429: slow down";
  status = some 429;
  url = codes "http://indexer";
  not_found = false;
}

answer_example :
    (response : Response) × (outcome : Text) × (v : World) × (answer
        (raise (algorand_error too_many), at_start)
      ≡ (ok response, v))
    × IsAttributed too_many response.status_code outcome
    × (response.content ≡ error_content too_many)
    × IsCounted outcome at_start v
answer_example = answer-algorand_error too_many at_start

passthrough_example :
    (IsAllowed (codes "/v2/accountsX") passthrough_prefixes
      × (passthrough ascii testnet 1000 (codes "accountsX") [] at_start
          ≡ indexer ascii testnet (codes "/v2/accountsX") [] at_start))
    ⊎ ((¬ IsAllowed (codes "/v2/accountsX") passthrough_prefixes)
        × (passthrough ascii testnet 1000 (codes "accountsX") [] at_start ≡ (
          raise (
              http_exception 403
                (codes "path not in passthrough allowlist: " ++ codes "/v2/accountsX")),
          at_start,
        )))
passthrough_example = passthrough_allowlist ascii testnet 1000 (codes "accountsX") [] at_start

abbrev two_requests : List Request
two_requests =
    record { route = codes "/livez"; status = 200; duration = 70000 }
    ∷ record { route = codes "/health"; status = 503; duration = 99000000 }
    ∷ []

observe_all_example :
    Describes (observe_all two_requests) (codes "/livez") (of_route (codes "/livez") two_requests)
observe_all_example = observe_all-Describes two_requests (codes "/livez")

abbrev search_42 : Text
search_42 = codes " 42 "

is_numeric : classify_query ascii (strip ascii search_42) ≡ some numeric
unfolding classify_query classify_term base32_match in_alphabet
is_numeric = refl

search_example : ¬ IsUpstreamError (search ascii testnet 1000 search_42 (nat 10) at_start).0
search_example =
    search-IsUpstreamError ascii testnet 1000 numeric search_42 (nat 10) at_start is_numeric

health_example : ¬ IsUpstreamError (health ascii testnet at_start).0
health_example = health-IsUpstreamError ascii testnet at_start

-- A test network that is pointed at a node of the main network.
abbrev mixed : Config
mixed = record {
  network = codes "testnet";
  algod_url = codes "https://mainnet.example";
  indexer_url = codes "http://indexer";
  warnings = (codes "algod", codes "mainnet") ∷ [];
}

mixed_configured :
    configure ascii
      (codes "testnet")
      (codes "https://mainnet.example/")
      (codes "http://indexer")
      (record { algod_url = none; indexer_url = none })
    ≡ ok mixed
unfolding configure endpoints_of settled mismatches mentions first_of_urls without_slash
mixed_configured = refl

configure_example : (mixed.warnings ≡ []) ↔ (
    Agrees (codes "testnet") (ascii.lower mixed.algod_url) network_endpoints
    × Agrees (codes "testnet") (ascii.lower mixed.indexer_url) network_endpoints)
configure_example =
    configure-Agrees ascii (codes "testnet") (codes "https://mainnet.example/")
      (codes "http://indexer") (record { algod_url = none; indexer_url = none }) mixed
      mixed_configured

two_seconds : parse_retry_after ascii (some (codes " 2")) ≡ some (finite (pos 2000000))
unfolding parse_retry_after clamp
two_seconds = refl

parse_retry_after_example :
    IsPause (finite (pos 2000000))
    ⊎ ((finite (pos 2000000) ≡ nan)
        × (value : Text) × (some (codes " 2") ≡ some value)
        × (ascii.parse_float (rstrip ascii.is_space (lstrip ascii.is_space value)) ≡ some nan))
parse_retry_after_example =
    parse_retry_after-IsPause ascii (some (codes " 2")) (finite (pos 2000000)) two_seconds
