-- ===== src/Engine.antt =====
-- internal/engine: the state machine of the ledger and what feeds it.
pub mod Accounts
pub mod Idempotency
pub mod Validator
pub mod Ring
pub mod Loop
pub mod Recover
pub mod Ledger
