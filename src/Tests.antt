-- ===== src/Tests.antt =====
-- Concrete inputs of the theorems, and runs of the model on them.
mod Data
mod Sync
mod Writes
mod Rules
mod Crypto
mod Accounts
mod Purge
