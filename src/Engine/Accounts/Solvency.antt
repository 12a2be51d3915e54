-- ===== src/Engine/Accounts/Solvency.antt =====
-- Whether posted debits stay within posted credits (internal/engine/accounts.go).
use aequitas_ledger.Prelude.{ℕ, ◌+◌, ◌≤◌, ◌≡◌, arith, ok, ◌==◌, Bool-cases, inl, inr, false}
use aequitas_ledger.Core.Uint128.{IsWide}
use aequitas_ledger.Core.Account.{Account}
use aequitas_ledger.Core.Account.Balances.{IsWideAccount}
use aequitas_ledger.Core.Transfer.{Transfer, is_post}
use aequitas_ledger.Engine.Accounts.State.{AccountManager, get}
use aequitas_ledger.Engine.Accounts.Checked.{check_new-Passed, check_funds-covers}
use aequitas_ledger.Engine.Accounts.Apply.{apply_transfer_state}
use aequitas_ledger.Engine.Accounts.Index.{IsIndexed}
use aequitas_ledger.Engine.Accounts.Totals.{debits, credits}
use aequitas_ledger.Engine.Accounts.Effects.{
  Applied, plain, pending, post, void, apply_transfer_state-Applied,
}
use aequitas_ledger.Engine.Accounts.Entries.{Entry, posted_amount, debited}
use aequitas_ledger.Engine.Accounts.Postings.{Entry-Grown, Entry-back, entry}

pub record IsWideBook (m : AccountManager) : Type 0 where
  pub wide : (id : ℕ) (a : Account) → get m id ≡ ok a → IsWideAccount a

pub record IsSolvent (m : AccountManager) : Type 0 where
  pub covered : (id : ℕ) (a : Account) → get m id ≡ ok a → debits a ≤ credits a

-- The accounts of a solvent book whose posted balance covers what is posted stay solvent.
Entry-IsSolvent :
    {x d c : ℕ} {m m' : AccountManager} (v : IsIndexed m) (e : Entry x d c m m')
    → IsSolvent m
    → ((a : Account) → get m d ≡ ok a → debits a + x ≤ credits a)
    → IsSolvent m'
Entry-IsSolvent {x} {d} {c} {m} {m'} v e s room = record {
  covered = λ id b h.
      let (a, found) = Entry-back v e id h in
      let g = Entry-Grown v e id found in
      let same : g.account ≡ b = ground (arith, g.found) in
      elim (Bool-cases (d == id)) [
        | inl eq ↦
            let here : d ≡ id = ground arith in ground (arith, g.posts, room a (rw here found))
        | inr ne ↦ ground (arith, g.posts, s.covered id a found)
      ];
}

-- In a book whose index agrees with its accounts and whose amounts are 128-bit: if no account has
-- more posted debits than posted credits, then so after every transfer with a 128-bit amount that is
-- applied and is not a post.
pub apply-IsSolvent :
    (t : Transfer) (m : AccountManager) {m' : AccountManager}
    → IsIndexed m
    → IsWideBook m
    → IsWide t.amount
    → IsSolvent m
    → is_post t ≡ false
    → apply_transfer_state t m ≡ (ok tt, m')
    → IsSolvent m'
apply-IsSolvent t m v w wt s np h =
    Entry-IsSolvent v (entry v t h) s (covered_if_posted (apply_transfer_state-Applied t m h))
  where
    covered_if_posted :
        {m' : AccountManager}
        → Applied t m m'
        → (a : Account) → get m (debited m t) ≡ ok a
        → debits a + posted_amount m t ≤ credits a
    covered_if_posted (plain np nv nh r checked z y e) a found =
        let p = check_new-Passed m t checked in
        ground (
          arith,
          p.debit_found,
          check_funds-covers p.debit t (w.wide t.debit_account_id p.debit p.debit_found) wt nh
              p.funds,
        )
    covered_if_posted (pending np nv nh r checked z y e) a found =
        ground (arith, s.covered _ a found)
    covered_if_posted (post is p q amount checked z y e) a found = absurd (cc)
    covered_if_posted (void np is p q z y e) a found = ground (arith, s.covered _ a found)
