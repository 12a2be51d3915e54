-- ===== src/Engine/Accounts/Checked.antt =====
-- What the checks of a plain or pending transfer (internal/engine/accounts.go) have found out.
use aequitas_ledger.Prelude.{◌+◌, ◌-◌, ◌≤◌, ◌≡◌, ◌≢◌, arith, ok, Result-cases, inl, inr, false}
use aequitas_ledger.Core.Uint128.{Uint128, IsWide, val, is_zero, of_val}
use aequitas_ledger.Core.Uint128.Arith.{cmp-val}
use aequitas_ledger.Core.Account.{Account}
use aequitas_ledger.Core.Account.Balances.{IsWideAccount, balance-val}
use aequitas_ledger.Core.Transfer.{Transfer, is_pending}
use aequitas_ledger.Engine.Accounts.State.{AccountManager, get}
use aequitas_ledger.Engine.Accounts.Check.{check_new, check_funds, check_accounts}
use aequitas_ledger.Engine.Accounts.Totals.{debits, credits}

pub record Passed (m : AccountManager) (t : Transfer) : Type 0 where
  pub debit : Account
  pub credit : Account
  pub debit_found : get m t.debit_account_id ≡ ok debit
  pub credit_found : get m t.credit_account_id ≡ ok credit
  pub apart : t.debit_account_id ≢ t.credit_account_id
  pub positive : is_zero t.amount ≡ false
  pub terms : check_accounts debit credit t ≡ ok tt
  pub funds : check_funds debit t ≡ ok tt

pub check_new-Passed :
    (m : AccountManager) (t : Transfer) {r : Uint128} → check_new m t ≡ ok r → Passed m t
unfolding check_new
check_new-Passed m t h = elim (Result-cases (get m t.debit_account_id)) [
  | inr (x, e) ↦ absurd (ground arith)
  | inl (a, e) ↦ elim (Result-cases (get m t.credit_account_id)) [
    | inr (x, e') ↦ absurd (ground arith)
    | inl (b, e') ↦ record {
      debit = a;
      credit = b;
      debit_found = e;
      credit_found = e';
      apart = ground arith;
      positive = ground arith;
      terms = ground arith;
      funds = ground arith;
    }
  ]
]

-- A plain transfer needs its amount as posted balance.
pub check_funds-covers :
    (a : Account) (t : Transfer)
    → IsWideAccount a
    → IsWide t.amount
    → is_pending t ≡ false
    → check_funds a t ≡ ok tt
    → debits a + val t.amount ≤ credits a
unfolding check_funds
check_funds-covers a t w wt np h =
    ground (arith, balance-val a w, cmp-val (of_val (credits a - debits a)) t.amount)

-- Both accounts have the currency of each other and the ledger of the transfer, and are open.
pub check_accounts-ledger :
    (a b : Account) (t : Transfer)
    → check_accounts a b t ≡ ok tt
    → (a.currency ≡ b.currency) × (a.ledger ≡ t.ledger) × (b.ledger ≡ t.ledger)
unfolding check_accounts
check_accounts-ledger a b t h = ground arith
