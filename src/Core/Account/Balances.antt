-- ===== src/Core/Account/Balances.antt =====
-- What `Balance` and `AvailableBalance` of internal/core/account.go report, in numbers.
use aequitas_ledger.Prelude.{ℕ, ◌+◌, ◌-◌, ◌≡◌, ok, err, ltb, if◌then◌else◌, arith}
use aequitas_ledger.Core.Uint128.{val, IsWide, of_val}
use aequitas_ledger.Core.Uint128.Arith.{sub-val}
use aequitas_ledger.Core.Errors.{invariant_violation}
use aequitas_ledger.Core.Account.{Account, balance}

pub record IsWideAccount (a : Account) : Type 0 where
  pub posted_debits : IsWide a.posted_debits
  pub posted_credits : IsWide a.posted_credits
  pub pending_debits : IsWide a.pending_debits
  pub pending_credits : IsWide a.pending_credits

-- What is posted and not reserved, with the incoming holds counted in.
abbrev pub available : Account → ℕ
available a =
    val a.posted_credits - val a.posted_debits - val a.pending_debits + val a.pending_credits

-- The posted balance is the difference of the posted amounts, or an error if it is below zero.
pub balance-val :
    (a : Account)
    → IsWideAccount a
    → balance a ≡ (
        if ltb (val a.posted_credits) (val a.posted_debits)
        then err (invariant_violation a.id a.posted_debits a.posted_credits)
        else ok (of_val (val a.posted_credits - val a.posted_debits)))
unfolding balance
balance-val a w =
    ground (arith, sub-val a.posted_credits a.posted_debits w.posted_credits w.posted_debits)
