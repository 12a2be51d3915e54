-- ===== src/Core/Account.antt =====
-- internal/core/account.go: accounts and their balances.
pub mod Balances
use aequitas_ledger.Prelude.{ℕ, Bool, Result, ok, err, ◌>>=◌, or_else}
use aequitas_ledger.Core.Uint128.{Uint128, add, sub}
use aequitas_ledger.Core.Errors.{LedgerError, invariant_violation, balance_overflow}
use aequitas_ledger.Core.Transfer.{has_flag}

pub record Account : Type 0 where
  pub id : ℕ
  pub currency : ℕ
  pub ledger : ℕ
  pub code : ℕ
  pub flags : ℕ
  pub user_data128 : ℕ
  pub posted_debits : Uint128
  pub posted_credits : Uint128
  pub pending_debits : Uint128
  pub pending_credits : Uint128

abbrev pub account_flag_frozen : ℕ
account_flag_frozen = 1

abbrev pub account_flag_closed : ℕ
account_flag_closed = 2

-- The zero value of a field that a Go literal leaves out.
abbrev pub zero128 : Uint128
zero128 = record { lo = 0; hi = 0 }

unfoldable pub balance : Account → Result LedgerError Uint128
balance a =
    or_else (sub a.posted_credits a.posted_debits)
      (invariant_violation a.id a.posted_debits a.posted_credits)

unfoldable pub available_balance : Account → Result LedgerError Uint128
available_balance a = do
  posted ← balance a
  avail ← or_else (sub posted a.pending_debits) (invariant_violation a.id a.posted_debits zero128)
  or_else (add avail a.pending_credits) (balance_overflow a.id)

unfoldable pub is_frozen : Account → Bool
is_frozen a = has_flag a.flags account_flag_frozen

unfoldable pub is_closed : Account → Bool
is_closed a = has_flag a.flags account_flag_closed
