-- ===== src/Engine/Accounts/Conservation.antt =====
-- Double entry: what `ApplyTransferState` (internal/engine/accounts.go) does to the sums over all
-- accounts.
use aequitas_ledger.Prelude.{ℕ, ◌+◌, ◌≡◌, arith, ok}
use aequitas_ledger.Core.Account.{Account}
use aequitas_ledger.Core.Transfer.{Transfer}
use aequitas_ledger.Engine.Accounts.State.{AccountManager}
use aequitas_ledger.Engine.Accounts.Rewrites.{Rewrite}
use aequitas_ledger.Engine.Accounts.Apply.{apply_transfer_state}
use aequitas_ledger.Engine.Accounts.Writes.{Wrote}
use aequitas_ledger.Engine.Accounts.Effects.{apply_transfer_state-Applied}
use aequitas_ledger.Engine.Accounts.Entries.{posted_amount, Applied-Entry}
use aequitas_ledger.Engine.Accounts.Totals.{total, total-put, debits, credits}
use aequitas_ledger.Engine.Accounts.Frame.{total-SameAccounts}

pub total-Wrote :
    (g : Account → ℕ) {f : Rewrite} {id : ℕ} {m m' : AccountManager} (w : Wrote f id m m')
    → total g m' + g w.old ≡ total g m + g w.new
total-Wrote g {id = id} {m = m} w = rw w.stored (total-put g id m w.new w.found)

-- Double entry: a transfer that is applied adds one amount to the posted debits and to the posted
-- credits of all accounts together. It is the transfer's own amount if it is plain, what it settles
-- if it is a post, and nothing if it opens or voids a hold.
pub double_entry :
    (t : Transfer) (m : AccountManager) {m' : AccountManager}
    → apply_transfer_state t m ≡ (ok tt, m')
    → (total debits m' ≡ total debits m + posted_amount m t)
      × (total credits m' ≡ total credits m + posted_amount m t)
double_entry t m h =
    let e = Applied-Entry t m (apply_transfer_state-Applied t m h) in
    omega (
      arith,
      e.debit_side.debits,
      e.debit_side.credits,
      e.credit_side.debits,
      e.credit_side.credits,
      total-Wrote debits e.writes.debit,
      total-Wrote debits e.writes.credit,
      total-Wrote credits e.writes.debit,
      total-Wrote credits e.writes.credit,
      total-SameAccounts debits e.same,
      total-SameAccounts credits e.same,
    )
