-- ===== src/Engine/Validator/Staging.antt =====
-- `batchValidator` of internal/engine/transfers.go: copies of accounts and holds, and the snapshots
-- from which a failed chain is undone.
use aequitas_ledger.Prelude.{ℕ, Option, none, some, List, [], ◌∷◌, ◌++◌, ok, err, if◌then◌else◌}
use aequitas_ledger.Prelude.Exec
use aequitas_ledger.Prelude.Maps.{Map, lookup, insert, remove, contains}
use aequitas_ledger.Core.Errors.{LedgerError}
use aequitas_ledger.Core.Account.{Account}
use aequitas_ledger.Core.Transfer.{Transfer}
use aequitas_ledger.Engine.Accounts.{AccountManager, get}

-- `none` is a hold that the batch has settled in full or voided.
pub record PendingState : Type 0 where
  pub transfer : Option Transfer

-- `none` is a snapshot of what had not been loaded.
pub record AccountSnapshot : Type 0 where
  pub id : ℕ
  pub account : Option Account

pub record PendingSnapshot : Type 0 where
  pub id : ℕ
  pub state : Option PendingState

-- The staged accounts are only reached through the map, so its pointers are values here.
pub record BatchValidator : Type 0 where
  pub accounts : AccountManager
  pub staged : Map Account
  pub pending : Map PendingState
  pub seen_ids : Map ℕ
  pub acc_snaps : List AccountSnapshot
  pub pend_snaps : List PendingSnapshot
  pub acc_seen : Map (Unit {0})
  pub pend_seen : Map (Unit {0})

abbrev pub new_batch_validator : AccountManager → BatchValidator
new_batch_validator m = record {
  accounts = m;
  staged = [];
  pending = [];
  seen_ids = [];
  acc_snaps = [];
  pend_snaps = [];
  acc_seen = [];
  pend_seen = [];
}

unfoldable pub begin_chain : BatchValidator → BatchValidator
begin_chain v = record v { acc_snaps = []; pend_snaps = []; acc_seen = []; pend_seen = [] }

-- The snapshots are restored from the last to the first.
restore_accounts : List AccountSnapshot → Map Account → Map Account
restore_accounts [] m = m
restore_accounts (s ∷ ss) m =
    let later = restore_accounts ss m in
    elim s.account [ none ↦ remove s.id later | some a ↦ insert s.id a later ]

restore_holds : List PendingSnapshot → Map PendingState → Map PendingState
restore_holds [] m = m
restore_holds (s ∷ ss) m =
    let later = restore_holds ss m in
    elim s.state [ none ↦ remove s.id later | some p ↦ insert s.id p later ]

unfoldable pub rollback_chain : BatchValidator → BatchValidator
unfolding restore_accounts restore_holds
rollback_chain v = record v {
  staged = restore_accounts v.acc_snaps v.staged;
  pending = restore_holds v.pend_snaps v.pending;
}

abbrev pub Check : Type 0 → Type 0
Check A = Exec.Exec LedgerError BatchValidator A

-- An account of the manager is copied when it is first asked for.
unfoldable pub get_account : ℕ → Check Account
get_account id v = elim (lookup id v.staged) [
  | some a ↦ (ok a, v)
  | none ↦ elim (get v.accounts id) [
    | err e ↦ (err e, v)
    | ok a ↦ (ok a, record v { staged = insert id a v.staged })
  ]
]

unfoldable pub snapshot_account : ℕ → BatchValidator → BatchValidator
snapshot_account id v = if contains id v.acc_seen then v else record v {
  acc_seen = insert id tt v.acc_seen;
  acc_snaps = v.acc_snaps ++ record { id = id; account = lookup id v.staged } ∷ [];
}

unfoldable pub snapshot_pending : ℕ → BatchValidator → BatchValidator
snapshot_pending id v = if contains id v.pend_seen then v else record v {
  pend_seen = insert id tt v.pend_seen;
  pend_snaps = v.pend_snaps ++ record { id = id; state = lookup id v.pending } ∷ [];
}

-- The write through a staged pointer. The source stores the pointer once more under the account's
-- own id, which is the id that it was asked for by.
unfoldable pub stage : ℕ → Account → BatchValidator → BatchValidator
stage id a v = record v { staged = insert id a v.staged }

unfoldable pub stage_pending : ℕ → Option Transfer → BatchValidator → BatchValidator
stage_pending id t v = record v { pending = insert id (record { transfer = t }) v.pending }
