-- ===== src/Core/Errors.antt =====
-- internal/core/errors.go: the errors of the ledger, with the data that they carry.
use aequitas_ledger.Prelude.{ℕ}
use aequitas_ledger.Core.Uint128.{Uint128}

-- Byte arrays stand as the numbers that they spell, the first byte the most significant.
-- `index_out_of_range` is Go's panic on an index beyond a slice.
pub data LedgerError : Type 0 where
  insufficient_funds : ℕ → Uint128 → Uint128 → LedgerError
  account_not_found duplicate_account_id account_frozen account_closed self_transfer :
      ℕ → LedgerError
  zero_amount : LedgerError
  currency_mismatch : ℕ → ℕ → LedgerError
  balance_overflow idempotency_conflict : ℕ → LedgerError
  buffer_full not_leader ledger_closed : LedgerError
  batch_too_large : ℕ → ℕ → LedgerError
  invalid_ring_buffer_size : ℕ → LedgerError
  invariant_violation : ℕ → Uint128 → Uint128 → LedgerError
  pending_not_found invalid_transfer_flags : ℕ → LedgerError
  over_transfer : ℕ → Uint128 → Uint128 → LedgerError
  transfer_not_found duplicate_transfer_id : ℕ → LedgerError
  ledger_mismatch : ℕ → ℕ → ℕ → LedgerError
  linked_chain_failed linked_chain_open : ℕ → ℕ → LedgerError
  restored_twice : ℕ → LedgerError
  index_out_of_range : LedgerError
