-- ===== src/Witnesses/Identifiers.antt =====
-- Witnesses on identifiers and on the routes that take them.
use algorandscout.Prelude.{Text, arith, codes, false, some, true, ℕ, ◌<◌, ◌^◌, ◌↔◌, ◌≡◌}
use algorandscout.Prelude.Int.{negsuc}
use algorandscout.Python.{nat, null, ok, text}
use algorandscout.Python.Decimal.{str_ℕ}
use algorandscout.Service.{
  get_address, get_address_transactions, get_block, get_smart_contract, get_token, get_transaction,
}
use algorandscout.Service.Balances.{get_address_token_balances}
use algorandscout.Service.Refusals.{IsRefused, malformed-IsRefused}
use algorandscout.Service.Search.{get_token_holders}
use algorandscout.Validation.{address, classify_query, numeric, transaction, validate_address}
use algorandscout.Validation.Address.{IsAddress, IsTxid, validate_address_iff}
use algorandscout.Validation.Query.{classify_query_kinds}
use algorandscout.Witnesses.{
  address_of_zeros, ascii, ascii-AsciiTables, ascii-HashAvailable, ascii-RefusesOther, at_start,
  testnet,
}

not-IsAddress : ¬ IsAddress ascii (codes "ABC")
not-IsAddress a = omega (arith, a.fits)

not-IsTxid : ¬ IsTxid ascii (codes "ABC")
not-IsTxid a = omega (arith, a.fits)

malformed_example :
    IsRefused (get_address ascii testnet 1000 (codes "ABC") true) at_start
    × IsRefused
        (get_address_transactions ascii testnet 1000
          (codes "ABC")
          (nat 20)
          null
          null
          null
          null
          null)
        at_start
    × IsRefused
        (get_address_token_balances ascii testnet
          (λ n. 0)
          (λ ids. ids)
          (codes "ABC")
          (nat 20)
          null
          true)
        at_start
    × IsRefused (get_transaction ascii testnet 1000 (codes "ABC")) at_start
    × IsRefused (get_block ascii testnet 1000 (negsuc 0) false) at_start
    × IsRefused (get_token ascii testnet 1000 (negsuc 0)) at_start
    × IsRefused (get_token_holders ascii testnet 1000 (negsuc 0) (nat 20) null true) at_start
    × IsRefused (get_smart_contract ascii testnet 1000 (negsuc 0)) at_start
malformed_example =
    malformed-IsRefused ascii testnet 1000 at_start (codes "ABC") (negsuc 0) (λ n. 0) (λ ids. ids)
      true false true (nat 20) null null null null null ascii-RefusesOther ascii-HashAvailable
      not-IsAddress not-IsTxid tt

validate_address_example :
    (validate_address ascii (text address_of_zeros) ≡ ok address_of_zeros)
    ↔ ((text address_of_zeros ≡ text address_of_zeros) × IsAddress ascii address_of_zeros)
validate_address_example =
    validate_address_iff ascii ascii-RefusesOther (text address_of_zeros) address_of_zeros

classify_query_kinds_example :
    ((s : Text) → IsAddress ascii s → classify_query ascii s ≡ some address)
    × ((s : Text) → IsTxid ascii s → classify_query ascii s ≡ some transaction)
    × ((n : ℕ) → n < 2 ^ 64 → classify_query ascii (str_ℕ n) ≡ some numeric)
classify_query_kinds_example = classify_query_kinds ascii ascii-AsciiTables
