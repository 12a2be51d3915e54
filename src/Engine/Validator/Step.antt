-- ===== src/Engine/Validator/Step.antt =====
-- `validateAndApply` of internal/engine/transfers.go: one transfer against the staged copies.
use aequitas_ledger.Prelude.{ℕ, ◌||◌, ◌==◌, none, some, ok, err, fail_if, if◌then◌else◌}
use aequitas_ledger.Prelude.Exec.{◌>>=◌, ◌>>◌, lift, modify}
use aequitas_ledger.Prelude.Maps.{lookup, insert, contains}
use aequitas_ledger.Core.Uint128.{cmp, is_same, is_zero}
use aequitas_ledger.Core.Errors.{
  duplicate_transfer_id, pending_not_found, zero_amount, self_transfer,
}
use aequitas_ledger.Core.Account.{Account}
use aequitas_ledger.Core.Transfer.{Transfer, is_pending, is_post, is_void}
use aequitas_ledger.Engine.Accounts.{
  get_transfer, pending_entry, check_flags, check_settlement, check_accounts, check_funds,
  subtract_pending_amount, Rewrite, post_debit, post_credit, hold_debit, hold_credit, settle_debit,
  settle_credit, release_debit, release_credit,
}
use aequitas_ledger.Engine.Validator.Staging.{
  Check, get_account, snapshot_account, snapshot_pending, stage, stage_pending,
}

-- The ids of plain and pending transfers are used once, in the batch and in the history.
unfoldable pub claim_id : Transfer → ℕ → Check (Unit {0})
claim_id t index v =
    if contains t.id v.seen_ids
    then (err (duplicate_transfer_id t.id), v)
    else elim (get_transfer v.accounts t.id) [
      | some u ↦ (err (duplicate_transfer_id t.id), v)
      | none ↦ (ok tt, record v { seen_ids = insert t.id index v.seen_ids })
    ]

-- The open hold with an id: the batch's own view of it, or else the manager's.
unfoldable pub find_hold : ℕ → Check Transfer
find_hold id v = elim (lookup id v.pending) [
  | some st ↦ elim st.transfer [ none ↦ (err (pending_not_found id), v) | some p ↦ (ok p, v) ]
  | none ↦ elim (pending_entry v.accounts id) [
    | none ↦ (err (pending_not_found id), v)
    | some e ↦ (ok e.transfer, v)
  ]
]

-- The two sides of a settlement are rewritten one after the other, through pointers that are one if
-- the accounts are.
unfoldable pub settle_sides : ℕ → ℕ → Rewrite → Rewrite → Check (Unit {0})
settle_sides d c f g = do
  _ ← get_account d
  _ ← get_account c
  debit ← get_account d
  debit' ← lift (f debit)
  modify (stage d debit')
  credit ← get_account c
  credit' ← lift (g credit)
  modify (stage c credit')

-- A partial post leaves the rest: it cannot be more than the hold, so `subtract_pending_amount` always
-- subtracts.
unfoldable pub settle : Transfer → Check (Unit {0})
settle t = do
  hold ← find_hold t.id
  amount ← lift (check_settlement hold t)
  modify (snapshot_pending t.id)
  modify (snapshot_account hold.debit_account_id)
  modify (snapshot_account hold.credit_account_id)
  if is_post t
      then (do
        settle_sides hold.debit_account_id hold.credit_account_id (settle_debit amount)
            (settle_credit amount)
        modify (
            stage_pending t.id (
              if is_same (cmp hold.amount amount)
              then none
              else some (subtract_pending_amount hold amount))))
      else (do
        settle_sides hold.debit_account_id hold.credit_account_id (release_debit hold.amount)
            (release_credit hold.amount)
        modify (stage_pending t.id none))

-- The two sides of a new transfer are both computed before either is written.
unfoldable pub write_sides : Transfer → Account → Account → Rewrite → Rewrite → Check (Unit {0})
write_sides t debit credit f g = do
  debit' ← lift (f debit)
  credit' ← lift (g credit)
  modify (stage t.debit_account_id debit')
  modify (stage t.credit_account_id credit')

unfoldable pub enter : Transfer → Check (Unit {0})
enter t = do
  lift (fail_if (is_zero t.amount) zero_amount)
  lift (fail_if (t.debit_account_id == t.credit_account_id) (self_transfer t.debit_account_id))
  modify (snapshot_account t.debit_account_id)
  modify (snapshot_account t.credit_account_id)
  debit ← get_account t.debit_account_id
  credit ← get_account t.credit_account_id
  lift (check_accounts debit credit t)
  lift (check_funds debit t)
  if is_pending t
      then (do
        write_sides t debit credit (hold_debit t.amount) (hold_credit t.amount)
        modify (snapshot_pending t.id)
        modify (stage_pending t.id (some t)))
      else write_sides t debit credit (post_debit t.amount) (post_credit t.amount)

unfoldable pub validate_and_apply : Transfer → ℕ → Check (Unit {0})
validate_and_apply t index = do
  lift (check_flags t)
  if is_post t || is_void t then settle t else (do claim_id t index; enter t)
