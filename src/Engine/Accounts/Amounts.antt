-- ===== src/Engine/Accounts/Amounts.antt =====
-- What each rewriting of internal/engine/accounts.go does to the amounts of the account.
use aequitas_ledger.Prelude.{ℕ, ◌+◌, ◌≡◌, arith, ok}
use aequitas_ledger.Core.Uint128.{Uint128, val}
use aequitas_ledger.Core.Uint128.Arith.{add_ok}
use aequitas_ledger.Core.Account.{Account}
use aequitas_ledger.Engine.Accounts.Totals.{debits, credits, held_debits, held_credits}
use aequitas_ledger.Engine.Accounts.Rewrites.{
  post_debit, post_credit, hold_debit, hold_credit, release_debit, release_credit, settle_debit,
  settle_credit,
}

-- Everything but the four amounts is the same.
pub record SameTerms (old new : Account) : Type 0 where
  pub id : new.id ≡ old.id
  pub currency : new.currency ≡ old.currency
  pub ledger : new.ledger ≡ old.ledger
  pub flags : new.flags ≡ old.flags

-- The posted amounts grow by `d` and `c`.
pub record Posts (d c : ℕ) (old new : Account) : Type 0 where
  pub same : SameTerms old new
  pub debits : debits new ≡ debits old + d
  pub credits : credits new ≡ credits old + c

-- The held amounts grow by `d` and `c` and shrink by `d'` and `c'`.
pub record Holds (d c d' c' : ℕ) (old new : Account) : Type 0 where
  pub debits : held_debits new + d' ≡ held_debits old + d
  pub credits : held_credits new + c' ≡ held_credits old + c

module _ (x : Uint128) (old : Account) {new : Account} where
  pub post_debit-Posts : post_debit x old ≡ ok new → Posts (val x) 0 old new
  unfolding post_debit
  post_debit-Posts h = grind (arith, add_ok)

  pub post_credit-Posts : post_credit x old ≡ ok new → Posts 0 (val x) old new
  unfolding post_credit
  post_credit-Posts h = grind (arith, add_ok)

  pub hold_debit-Posts : hold_debit x old ≡ ok new → Posts 0 0 old new
  unfolding hold_debit
  hold_debit-Posts h = ground arith

  pub hold_credit-Posts : hold_credit x old ≡ ok new → Posts 0 0 old new
  unfolding hold_credit
  hold_credit-Posts h = ground arith

  pub release_debit-Posts : release_debit x old ≡ ok new → Posts 0 0 old new
  unfolding release_debit
  release_debit-Posts h = ground arith

  pub release_credit-Posts : release_credit x old ≡ ok new → Posts 0 0 old new
  unfolding release_credit
  release_credit-Posts h = ground arith

  pub settle_debit-Posts : settle_debit x old ≡ ok new → Posts (val x) 0 old new
  unfolding settle_debit
  settle_debit-Posts h = grind (arith, add_ok)

  pub settle_credit-Posts : settle_credit x old ≡ ok new → Posts 0 (val x) old new
  unfolding settle_credit
  settle_credit-Posts h = grind (arith, add_ok)
