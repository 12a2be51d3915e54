-- ===== src/Core.antt =====
-- internal/core: amounts, accounts, transfers, errors and wire payloads.
pub mod Uint128
pub mod Errors
pub mod Account
pub mod Transfer
pub mod Codec
mod Tests
