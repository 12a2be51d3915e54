-- ===== src/Engine/Accounts/Rewrites.antt =====
-- What the writes of internal/engine/accounts.go make of one account, or the error that stops them.
use aequitas_ledger.Prelude.{Result, ok, ◌>>=◌, or_else}
use aequitas_ledger.Core.Uint128.{Uint128, add, sub}
use aequitas_ledger.Core.Errors.{LedgerError, invariant_violation, balance_overflow}
use aequitas_ledger.Core.Account.{Account, zero128}

-- The error of an invariant that does not hold; the source gives the account's id alone.
abbrev pub broken : Account → LedgerError
broken acc = invariant_violation acc.id zero128 zero128

abbrev pub Rewrite : Type 0
Rewrite = Account → Result LedgerError Account

-- Each adds to or takes from one or two of the four amounts.
module _ (x : Uint128) (acc : Account) where
  unfoldable pub post_debit : Result LedgerError Account
  post_debit = do
    next ← or_else (add acc.posted_debits x) (balance_overflow acc.id)
    ok (record acc { posted_debits = next })

  unfoldable pub post_credit : Result LedgerError Account
  post_credit = do
    next ← or_else (add acc.posted_credits x) (balance_overflow acc.id)
    ok (record acc { posted_credits = next })

  unfoldable pub hold_debit : Result LedgerError Account
  hold_debit = do
    next ← or_else (add acc.pending_debits x) (balance_overflow acc.id)
    ok (record acc { pending_debits = next })

  unfoldable pub hold_credit : Result LedgerError Account
  hold_credit = do
    next ← or_else (add acc.pending_credits x) (balance_overflow acc.id)
    ok (record acc { pending_credits = next })

  unfoldable pub release_debit : Result LedgerError Account
  release_debit = do
    next ← or_else (sub acc.pending_debits x) (broken acc)
    ok (record acc { pending_debits = next })

  unfoldable pub release_credit : Result LedgerError Account
  release_credit = do
    next ← or_else (sub acc.pending_credits x) (broken acc)
    ok (record acc { pending_credits = next })

  unfoldable pub settle_debit : Result LedgerError Account
  settle_debit = do
    next ← or_else (sub acc.pending_debits x) (broken acc)
    posted ← or_else (add acc.posted_debits x) (balance_overflow acc.id)
    ok (record acc { pending_debits = next; posted_debits = posted })

  unfoldable pub settle_credit : Result LedgerError Account
  settle_credit = do
    next ← or_else (sub acc.pending_credits x) (broken acc)
    posted ← or_else (add acc.posted_credits x) (balance_overflow acc.id)
    ok (record acc { pending_credits = next; posted_credits = posted })
