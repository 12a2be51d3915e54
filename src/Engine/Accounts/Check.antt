-- ===== src/Engine/Accounts/Check.antt =====
-- `checkTransfer`, `ValidateTransfer` and `ValidateAccount` of internal/engine/accounts.go.
use aequitas_ledger.Prelude.{
  not, ◌&&◌, ◌||◌, ◌==◌, ◌!=◌, Result, ok, ◌>>=◌, ◌>>◌, fail_if, or_missing, if◌then◌else◌,
}
use aequitas_ledger.Core.Uint128.{Uint128, cmp, is_less, is_greater, is_zero}
use aequitas_ledger.Core.Errors.{
  LedgerError, invalid_transfer_flags, pending_not_found, ledger_mismatch, over_transfer,
  zero_amount, self_transfer, currency_mismatch, account_frozen, account_closed, insufficient_funds,
}
use aequitas_ledger.Core.Account.{
  Account, zero128, balance, available_balance, is_frozen, is_closed,
}
use aequitas_ledger.Core.Transfer.{Transfer, is_pending, is_post, is_void, has_unknown_flags}
use aequitas_ledger.Engine.Accounts.State.{AccountManager, get, pending_entry}

-- At most one of the three flags of a two-phase transfer, and no unknown flag.
unfoldable pub check_flags : Transfer → Result LedgerError (Unit {0})
check_flags t = do
  fail_if (has_unknown_flags t) (invalid_transfer_flags t.flags)
  fail_if (is_post t && (is_pending t || is_void t) || is_void t && is_pending t)
      (invalid_transfer_flags t.flags)

-- A post or a void, against the open hold of the same id: the amount that it settles.
unfoldable pub check_settlement : Transfer → Transfer → Result LedgerError Uint128
check_settlement pending t = do
  fail_if (t.ledger != 0 && t.ledger != pending.ledger)
      (ledger_mismatch t.ledger pending.ledger pending.ledger)
  fail_if (is_post t && not (is_zero t.amount) && is_greater (cmp t.amount pending.amount))
      (over_transfer t.id pending.amount t.amount)
  ok (if is_post t && not (is_zero t.amount) then t.amount else pending.amount)

-- The checks on the two accounts that plain and pending transfers share.
unfoldable pub check_accounts : Account → Account → Transfer → Result LedgerError (Unit {0})
check_accounts debit credit t = do
  fail_if (debit.currency != credit.currency) (currency_mismatch debit.currency credit.currency)
  fail_if (debit.ledger != t.ledger || credit.ledger != t.ledger)
      (ledger_mismatch t.ledger debit.ledger credit.ledger)
  fail_if (is_frozen debit) (account_frozen debit.id)
  fail_if (is_closed debit) (account_closed debit.id)
  fail_if (is_frozen credit) (account_frozen credit.id)
  fail_if (is_closed credit) (account_closed credit.id)

-- A hold needs an available balance, a plain transfer a posted one.
unfoldable pub check_funds : Account → Transfer → Result LedgerError (Unit {0})
check_funds debit t = do
  funds ← if is_pending t then available_balance debit else balance debit
  fail_if (is_less (cmp funds t.amount)) (insufficient_funds debit.id funds t.amount)

-- A plain or pending transfer.
unfoldable pub check_new : AccountManager → Transfer → Result LedgerError Uint128
check_new m t = do
  fail_if (is_zero t.amount) zero_amount
  fail_if (t.debit_account_id == t.credit_account_id) (self_transfer t.debit_account_id)
  debit ← get m t.debit_account_id
  credit ← get m t.credit_account_id
  check_accounts debit credit t
  check_funds debit t
  ok zero128

unfoldable pub check_transfer : AccountManager → Transfer → Result LedgerError Uint128
check_transfer m t = do
  check_flags t
  if is_post t || is_void t
      then (do
        p ← or_missing (pending_entry m t.id) (pending_not_found t.id)
        check_settlement p.transfer t)
      else check_new m t

unfoldable pub validate_transfer : AccountManager → Transfer → Result LedgerError (Unit {0})
unfolding check_transfer
validate_transfer m t = do _ ← check_transfer m t; ok tt

unfoldable pub validate_account : Account → Result LedgerError (Unit {0})
validate_account a = do _ ← balance a; ok tt
