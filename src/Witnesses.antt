-- ===== src/Witnesses.antt =====
-- Inputs at which the results hold: a platform, a client and a state of the service.
mod Identifiers
mod Caching
mod Interleaved
mod Requests
mod Texts
mod Running
mod Payloads
mod Commands
use algorandscout.Cache
use algorandscout.Client.Config.{Config}
use algorandscout.Metrics.{no_metrics}
use algorandscout.Prelude.{
  All, Bool, Text, [], arith, codes, every, if◌then◌else◌, inl, leb, length, none, refl, replicate,
  some, suc, text_eq, true, zero, ℕ, ◌&&◌, ◌*◌, ◌==◌, ◌^◌, ◌||◌, ◌∷◌, ◌≡◌, ◌⊎◌,
}
use algorandscout.Prelude.Int.{pos}
use algorandscout.Python.{Platform, dict, finite, ok}
use algorandscout.Validation.{in_alphabet}
use algorandscout.Validation.Address.{HashAvailable, IsAddress, IsTxid}
use algorandscout.Validation.Base32.{IsBase32, RefusesOther}
use algorandscout.Validation.Query.{AsciiTables}
use algorandscout.World.{World, reply}

abbrev acceptable : ℕ → Bool
acceptable c = in_alphabet c || c == b'='

-- A platform that knows ASCII, and whose decoder and hash return zeros.
abbrev pub ascii : Platform
ascii = record {
  repr = λ v. codes "{}";
  is_space = λ c. c == b' ';
  is_digit = λ c. leb b'0' c && leb c b'9';
  parse_int = λ s. none;
  parse_float = λ s. if text_eq s (codes "2") then some (finite (pos 2000000)) else none;
  b32decode = λ s.
      if every acceptable s then some (replicate (if length s == 64 then 36 else 32) 0) else none;
  b32_message = λ s. codes "Non-base32 digit found";
  sha512_256 = λ key. some (replicate 32 0);
  b64_utf8 = λ s. none;
  is_printable = λ s. true;
  urlencode = λ l. codes "limit=1";
  lower = λ s. s;
}

acceptable-All : (s : Text) → every acceptable s ≡ true → All (λ c. IsBase32 c ⊎ (c ≡ b'=')) s
unfolding in_alphabet
acceptable-All [] h = tt
acceptable-All (c ∷ s) h = (ground arith, acceptable-All s (ground arith))

pub ascii-RefusesOther : RefusesOther ascii
ascii-RefusesOther = record { refuses = λ s raw h. acceptable-All s (ground arith) }

pub ascii-HashAvailable : HashAvailable ascii
ascii-HashAvailable = record { digest = λ key. replicate 32 0; available = λ key. refl }

pub ascii-AsciiTables : AsciiTables ascii
ascii-AsciiTables = record {
  base32_no_space = λ c h. ground arith;
  digit_no_space = λ c h. ground arith;
  digit_is_digit = λ c h. ground arith;
}

All-replicate_A : (n : ℕ) → All IsBase32 (replicate n b'A')
All-replicate_A zero = tt
All-replicate_A (suc n) = (inl (omega arith, omega arith), All-replicate_A n)

abbrev pub address_of_zeros : Text
address_of_zeros = replicate 58 b'A'

abbrev pub txid_of_zeros : Text
txid_of_zeros = replicate 52 b'A'

pub address_of_zeros-IsAddress : IsAddress ascii address_of_zeros
unfolding in_alphabet
address_of_zeros-IsAddress = record {
  fits = refl;
  alphabet = All-replicate_A 58;
  raw = replicate 36 0;
  decodes = refl;
  raw_length = refl;
  digest = replicate 32 0;
  hashes = refl;
  checksum = refl;
}

pub txid_of_zeros-IsTxid : IsTxid ascii txid_of_zeros
unfolding in_alphabet
txid_of_zeros-IsTxid = record {
  fits = refl;
  alphabet = All-replicate_A 52;
  raw = replicate 32 0;
  decodes = refl;
  raw_length = refl;
}

abbrev pub testnet : Config
testnet = record {
  network = codes "testnet";
  algod_url = codes "http://node";
  indexer_url = codes "http://indexer";
  warnings = [];
}

-- A process whose upstream is overloaded once and then answers with an empty dictionary.
abbrev pub at_start : World
at_start = record {
  upstream = λ n url.
      if n == 0
      then reply 503 (codes "busy") none (ok (dict []))
      else reply 200 (codes "{}") none (ok (dict []));
  jitter = λ n. 1000;
  clock = λ n. n * 10 ^ 9;
  readings = 0;
  sent = [];
  slept = [];
  cache = Cache.new 2048;
  metrics = no_metrics;
}
