-- ===== src/Engine/Accounts/Frame.antt =====
-- What bookkeeping of holds and history (internal/engine/accounts.go) leaves alone: every account.
use aequitas_ledger.Prelude.{ℕ, ◌≡◌, refl, ◌∙◌, arith, Option-cases, inl, inr}
use aequitas_ledger.Prelude.Maps.{lookup}
use aequitas_ledger.Core.Uint128.{Uint128}
use aequitas_ledger.Core.Account.{Account}
use aequitas_ledger.Core.Transfer.{Transfer}
use aequitas_ledger.Engine.Accounts.State.{AccountManager, get}
use aequitas_ledger.Engine.Accounts.Apply.{
  open_hold, leave_queue, remove_pending, replace_hold, subtract_pending_amount, record_transfer,
}
use aequitas_ledger.Engine.Accounts.Effects.{settled}
use aequitas_ledger.Engine.Accounts.Totals.{total}

-- The accounts, and where they are found, are the same.
pub record SameAccounts (m m' : AccountManager) : Type 0 where
  pub accounts : m'.accounts ≡ m.accounts
  pub index : m'.index ≡ m.index

pub SameAccounts-trans :
    {m m' m'' : AccountManager} → SameAccounts m m' → SameAccounts m' m'' → SameAccounts m m''
SameAccounts-trans h k = record { accounts = k.accounts ∙ h.accounts; index = k.index ∙ h.index }

pub record_transfer-SameAccounts :
    (t : Transfer) (m : AccountManager) → SameAccounts m (record_transfer t m)
unfolding record_transfer
record_transfer-SameAccounts t m = record { accounts = refl; index = refl }

pub open_hold-SameAccounts : (t : Transfer) (m : AccountManager) → SameAccounts m (open_hold t m)
unfolding open_hold
open_hold-SameAccounts t m = ground arith

leave_queue-SameAccounts : (h : ℕ) (m : AccountManager) → SameAccounts m (leave_queue h m)
unfolding leave_queue
leave_queue-SameAccounts h m = ground arith

pub remove_pending-SameAccounts :
    (id : ℕ) (m : AccountManager) → SameAccounts m (remove_pending id m)
unfolding remove_pending
remove_pending-SameAccounts id m = elim (Option-cases (lookup id m.pending)) [
  | inl e ↦ ground arith
  | inr (h, e) ↦ ground (arith, leave_queue-SameAccounts h m)
]

pub replace_hold-SameAccounts :
    (id : ℕ) (t : Transfer) (m : AccountManager) → SameAccounts m (replace_hold id t m)
unfolding replace_hold
replace_hold-SameAccounts id t m = ground arith

pub settled-SameAccounts :
    (id : ℕ) (t : Transfer) (x : Uint128) (m : AccountManager) → SameAccounts m (settled id t x m)
settled-SameAccounts id t x m = ground (
  arith,
  remove_pending-SameAccounts id m,
  replace_hold-SameAccounts id (subtract_pending_amount t x) m,
)

-- So no sum over the accounts and no look-up of one changes.
pub total-SameAccounts :
    (f : Account → ℕ) {m m' : AccountManager} → SameAccounts m m' → total f m' ≡ total f m
unfolding total
total-SameAccounts f h = rw h.accounts

pub get-SameAccounts : (id : ℕ) {m m' : AccountManager} → SameAccounts m m' → get m' id ≡ get m id
unfolding get
get-SameAccounts id {m = m} {m' = m'} h = ground arith
