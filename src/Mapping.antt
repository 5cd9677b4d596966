-- ===== src/Mapping.antt =====
-- algorandscout/mapping.py: indexer payloads to response objects, one module for each family.
pub mod Amounts
pub mod Dates
pub mod Days
pub mod Pages
pub mod Accounts
pub mod Holdings
pub mod Assets
pub mod Applications
pub mod Transactions
pub mod Blocks
