-- ===== src/Client.antt =====
-- algorandscout/client.py: reads of the node and of the indexer, with retries.
pub mod Errors
pub mod Config
pub mod Sessions
pub mod Transport
pub mod Reads
pub mod Headers
pub mod Pages
pub mod Readiness
pub mod Health
pub mod Warnings
