-- ===== src/Engine/Accounts/Totals.antt =====
-- Sums over all accounts (internal/engine/accounts.go), and what a write of one account does to them.
use aequitas_ledger.Prelude.{
  ℕ, ◌+◌, ◌≡◌, arith, Option-cases, inl, inr, sum_by, sum_by-set, ok, get_elem?, ◌≤◌, le-sum_by,
}
use aequitas_ledger.Prelude.Maps.{lookup}
use aequitas_ledger.Core.Uint128.{val}
use aequitas_ledger.Core.Account.{Account}
use aequitas_ledger.Engine.Accounts.State.{AccountManager, get, put}

-- The sum of a measure over all accounts.
unfoldable pub total : (Account → ℕ) → AccountManager → ℕ
total f m = sum_by f m.accounts

abbrev pub debits : Account → ℕ
debits a = val a.posted_debits

abbrev pub credits : Account → ℕ
credits a = val a.posted_credits

abbrev pub held_debits : Account → ℕ
held_debits a = val a.pending_debits

abbrev pub held_credits : Account → ℕ
held_credits a = val a.pending_credits

module _ (f : Account → ℕ) (id : ℕ) (m : AccountManager) where
  pub total-put :
      (new : Account) {old : Account}
      → get m id ≡ ok old
      → total f (put id new m) + f old ≡ total f m + f new
  unfolding total get put
  total-put new {old = old} h = elim (Option-cases (lookup id m.index)) [
    | inl e ↦ ground arith
    | inr (i, e) ↦ elim (Option-cases (get_elem? m.accounts i)) [
      | inl e' ↦ ground arith
      | inr (a, e') ↦ ground (arith, sum_by-set f m.accounts i a new e')
    ]
  ]

  pub le-total : {a : Account} → get m id ≡ ok a → f a ≤ total f m
  unfolding total get
  le-total {a = a} h = elim (Option-cases (lookup id m.index)) [
    | inl e ↦ ground arith
    | inr (i, e) ↦ elim (Option-cases (get_elem? m.accounts i)) [
      | inl e' ↦ ground arith
      | inr (b, e') ↦ ground (arith, le-sum_by f m.accounts i b e')
    ]
  ]
