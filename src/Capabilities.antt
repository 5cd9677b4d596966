-- ===== src/Capabilities.antt =====
-- algorandscout/capabilities.py: what the API answers and what it cannot, as it is served.
pub mod Boundary
use algorandscout.Prelude.{Bool, Option, String, Text, [], codes, false, ◌++◌, ◌∷◌}
use algorandscout.Python.{Fields, Value, bool, dict, fields, has_key, lookup, nat, obj, text}

-- `CHAIN`
abbrev pub chain : Fields
chain = fields (
    ("name", text (codes "Algorand"))
    ∷ ("family", text (codes "avm"))
    ∷ ("is_evm", bool false)
    ∷ (
      "native_currency",
      dict (
          ("symbol", text (codes "ALGO"))
          ∷ ("decimals", nat 6)
          ∷ ("base_unit", text (codes "microAlgo"))
          ∷ []),
    )
    ∷ ("address_format", text (codes "base32-ed25519-58char"))
    ∷ ("finality", text (codes "instant"))
    ∷ ("reorgs", bool false)
    ∷ (
      "networks",
      dict (
          (
            "mainnet",
            dict (
                ("genesis_id", text (codes "mainnet-v1.0"))
                ∷ ("genesis_hash", text (codes "wGHE2Pwdvd7S12BL5FaOP20EGYesN73ktiC1qzkkit8="))
                ∷ []),
          )
          ∷ ("testnet", dict (("genesis_id", text (codes "testnet-v1.0")) ∷ []))
          ∷ ("betanet", dict (("genesis_id", text (codes "betanet-v1.0")) ∷ []))
          ∷ ("localnet", dict (("genesis_id", text (codes "dockernet-v1")) ∷ []))
          ∷ []),
    )
    ∷ [])

-- `SUPPORTED`: what the API serves
abbrev pub supported : Fields
supported = fields (
    ("blocks", text (codes "Algorand rounds. One round is one block; rounds are final on write."))
    ∷ (
      "transactions",
      text (
          codes "Algorand transactions, all seven types (pay, keyreg, acfg, axfer, "
          ++ codes "afrz, appl, stpf)."),
    )
    ∷ (
      "internal_transactions",
      text (codes "Inner transactions emitted by application calls — a genuine analogue."),
    )
    ∷ (
      "addresses",
      text (codes "Algorand accounts, addressed by 58-character base32 (not 20-byte hex)."),
    )
    ∷ ("token_balances", text (codes "ASA holdings (`/v2/accounts/{addr}/assets`)."))
    ∷ ("tokens", text (codes "Algorand Standard Assets. Fungible and non-fungible alike."))
    ∷ ("token_transfers", text (codes "Asset-transfer (axfer) transactions."))
    ∷ (
      "smart_contracts",
      text (
          codes "Algorand applications (app IDs) with TEAL/AVM approval and "
          ++ codes "clear-state programs, declared state schemas and decoded global state."),
    )
    ∷ (
      "search",
      text (
          codes "Asset unit-name/name search, plus exact address / txid / app-id / "
          ++ codes "round resolution."),
    )
    ∷ ("stats", text (codes "Chain tip, indexer lag, block time."))
    ∷ [])

-- `UNSUPPORTED`: what Algorand cannot supply, and why
abbrev pub unsupported : Fields
unsupported = fields (
    (
      "logs_by_topic",
      text (
          codes "Algorand application logs are an ordered array of opaque byte "
          ++ codes "strings. There are no indexed topics, so there is nothing to filter "
          ++ codes "on. Topic-style queries cannot be emulated without full-scanning and "
          ++ codes "guessing."),
    )
    ∷ (
      "gas_price",
      text (
          codes "Algorand has no gas market. Fees are flat per transaction (minimum "
          ++ codes "1000 microAlgos, raised only by congestion) and compute is bounded by "
          ++ codes "a fixed opcode budget, not purchased."),
    )
    ∷ (
      "gas_used",
      text (
          codes "See gas_price. `fee` in microAlgos is reported instead and is not the "
          ++ codes "same quantity."),
    )
    ∷ (
      "contract_abi",
      text (
          codes "Applications are TEAL/AVM programs. Where a contract follows ARC-4 an "
          ++ codes "ABI-like method surface exists, but it is not stored on chain by "
          ++ codes "default and cannot be recovered from the compiled program."),
    )
    ∷ (
      "contract_source_verification",
      text (
          codes "There is no public verified-source registry for AVM programs. The "
          ++ codes "approval and clear-state programs are available as compiled bytecode "
          ++ codes "only."),
    )
    ∷ (
      "eth_call",
      text (
          codes "There is no read-only VM invocation over the public indexer. "
          ++ codes "Application *state* is readable directly (global state, local state, "
          ++ codes "boxes) which answers most of the same questions without executing "
          ++ codes "anything."),
    )
    ∷ (
      "token_allowance",
      text (
          codes "ASAs have no allowance/approve model. Delegated spending is expressed "
          ++ codes "with clawback addresses and logic signatures, which are not "
          ++ codes "equivalent and must not be presented as such."),
    )
    ∷ (
      "reorg_handling",
      text (codes "Algorand blocks are final on write. There is no reorg depth to expose."),
    )
    ∷ (
      "uncle_blocks",
      text (
          codes "Algorand's consensus produces one block per round with immediate "
          ++ codes "finality, so no competing or orphaned blocks are ever produced. There "
          ++ codes "is no uncle/ommer set to expose, and an empty list here means "
          ++ codes "'structurally impossible', not 'none this round'."),
    )
    ∷ (
      "nonce",
      text (
          codes "Algorand replay protection uses a first-valid/last-valid round window "
          ++ codes "plus the genesis hash, not a monotonic per-account nonce."),
    )
    ∷ [])

-- `CAVEATS`: where a one-to-one mapping would mislead
abbrev pub caveats : Fields
caveats = fields (
    (
      "address_hash",
      text (
          codes "`hash` carries the 58-character base32 Algorand address verbatim. "
          ++ codes "Clients that validate against `^0x[0-9a-fA-F]{40}$` will reject it. "
          ++ codes "That rejection is correct behaviour and this API will not fabricate a "
          ++ codes "hex-shaped address to satisfy it."),
    )
    ∷ (
      "nft_detection",
      text (
          codes "An ASA with total=1 and decimals=0 is *conventionally* a non-fungible "
          ++ codes "token (ARC-3 / ARC-19 / ARC-69). This module reports that as a "
          ++ codes "heuristic and labels it as one. It is not an on-chain type "
          ++ codes "distinction."),
    )
    ∷ (
      "token_symbol",
      text (
          codes "ASA unit-names are not unique — anyone can mint an asset called USDC. "
          ++ codes "Symbol lookup returns candidates, ranked by nothing. Resolve by asset "
          ++ codes "ID, creator, and holder count."),
    )
    ∷ (
      "decimals",
      text (
          codes "ALGO amounts are microAlgos (10^-6). ASA decimals are per-asset and "
          ++ codes "may be 0."),
    )
    ∷ (
      "rewards",
      text (
          codes "`amount` on an account already includes pending rewards in current "
          ++ codes "protocol versions; `amount-without-pending-rewards` is retained for "
          ++ codes "older data and the two may differ on historical rounds."),
    )
    ∷ (
      "indexer_lag",
      text (
          codes "The indexer trails the node. Any answer sourced from history is as-of "
          ++ codes "`indexer_round`, not the chain tip. The service reports both."),
    )
    ∷ [])

abbrev pub module_version : Text
module_version = codes "1.0.0"

-- `capabilities`
unfoldable pub capabilities : Value
capabilities = dict (
    ("module", text (codes "algorandscout"))
    ∷ ("version", text module_version)
    ∷ ("license", text (codes "BANKON (Apache-2.0)"))
    ∷ ("chain", obj chain)
    ∷ ("supported", obj supported)
    ∷ ("unsupported", obj unsupported)
    ∷ ("caveats", obj caveats)
    ∷ (
      "notice",
      text (
          codes "Algorandscout is an independent Algorand explorer API, part of the "
          ++ codes "Open Blockchain Development Kit, licensed under the BANKON License. "
          ++ codes "Its REST layout follows conventions common to explorer APIs so "
          ++ codes "existing tooling interoperates, but Algorand's model governs: see "
          ++ codes "`unsupported` before assuming a field exists."),
    )
    ∷ [])

-- `is_supported`
unfoldable pub is_supported : String → Bool
is_supported feature = has_key supported feature

-- `why_unsupported`; `none` is Python's `None`.
unfoldable pub why_unsupported : String → Option Value
why_unsupported feature = lookup feature unsupported
