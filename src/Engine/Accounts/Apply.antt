-- ===== src/Engine/Accounts/Apply.antt =====
-- `ApplyTransferState` of internal/engine/accounts.go and the writes that it makes.
use aequitas_ledger.Prelude.{
  ℕ, ◌+◌, ◌%◌, ltb, ◌==◌, none, some, List, [], ◌∷◌, ◌++◌, length, get_elem?, set, ok, err,
  or_missing, if◌then◌else◌,
}
use aequitas_ledger.Prelude.Words.{word}
use aequitas_ledger.Prelude.Maps.{Map, lookup, insert, remove}
use aequitas_ledger.Core.Uint128.{Uint128, sub, cmp, is_same}
use aequitas_ledger.Core.Errors.{pending_not_found}
use aequitas_ledger.Core.Account.{balance}
use aequitas_ledger.Core.Transfer.{Transfer, is_pending, is_post, is_void}
use aequitas_ledger.Engine.Accounts.State.{AccountManager, PendingEntry, pending_entry}
use aequitas_ledger.Engine.Accounts.Heap.{Queue, heap_push, heap_remove}
use aequitas_ledger.Prelude.Exec.{◌>>=◌, ◌>>◌, lift, modify}
use aequitas_ledger.Engine.Accounts.Exec.{Action, find, update}
use aequitas_ledger.Engine.Accounts.Rewrites.{
  post_debit, post_credit, hold_debit, hold_credit, release_debit, release_credit, settle_debit,
  settle_credit,
}
use aequitas_ledger.Engine.Accounts.Check.{check_transfer}

unfoldable pub release_pending : Transfer → Action (Unit {0})
release_pending t = do
  update t.debit_account_id (release_debit t.amount)
  update t.credit_account_id (release_credit t.amount)

unfoldable pub move_pending : Transfer → Uint128 → Action (Unit {0})
move_pending pending amount = do
  update pending.debit_account_id (settle_debit amount)
  update pending.credit_account_id (settle_credit amount)

unfoldable pub apply_pending_debit : ℕ → Uint128 → Action (Unit {0})
apply_pending_debit id amount = update id (hold_debit amount)

unfoldable pub apply_pending_credit : ℕ → Uint128 → Action (Unit {0})
apply_pending_credit id amount = update id (hold_credit amount)

-- The account's balance is read again after the write.
unfoldable pub assert_balance : ℕ → Action (Unit {0})
assert_balance id = do acc ← find id; _ ← lift (balance acc); lift (ok tt)

unfoldable pub apply_debit : ℕ → Uint128 → Action (Unit {0})
apply_debit id amount = do update id (post_debit amount); assert_balance id

unfoldable pub apply_credit : ℕ → Uint128 → Action (Unit {0})
apply_credit id amount = update id (post_credit amount)

unfoldable pub post_immediate : Transfer → Action (Unit {0})
post_immediate t = do
  apply_debit t.debit_account_id t.amount
  apply_credit t.credit_account_id t.amount

abbrev pub queue_of : AccountManager → Queue
queue_of m = record { entries = m.entries; expiry = m.expiry }

abbrev pub with_queue : AccountManager → Queue → AccountManager
with_queue m q = record m { entries = q.entries; expiry = q.expiry }

-- `e := &pendingEntry{transfer: t}; …; m.pending[t.ID] = e`
unfoldable pub open_hold : Transfer → AccountManager → AccountManager
open_hold t m =
    let h = length m.entries in
    let expires = if ltb 0 t.timeout then (t.timestamp + t.timeout) % word else 0 in
    let allocated = record m {
      entries = m.entries ++ record { transfer = t; expires = expires; heap_idx = 0 } ∷ [];
    } in
    let queued =
      if ltb 0 t.timeout
      then with_queue allocated (heap_push h (queue_of allocated))
      else allocated in
    record queued { pending = insert t.id h queued.pending }

unfoldable pub reserve_pending : Transfer → Action (Unit {0})
reserve_pending t = do
  apply_pending_debit t.debit_account_id t.amount
  apply_pending_credit t.credit_account_id t.amount
  modify (open_hold t)

-- `heapIdx` may be stale or never set: the entry there must be this one.
unfoldable pub leave_queue : ℕ → AccountManager → AccountManager
leave_queue h m = elim (get_elem? m.entries h) [
  | none ↦ m
  | some e ↦ elim (get_elem? m.expiry e.heap_idx) [
    | none ↦ m
    | some h' ↦ if h' == h then with_queue m (heap_remove e.heap_idx (queue_of m)) else m
  ]
]

unfoldable pub remove_pending : ℕ → AccountManager → AccountManager
unfolding leave_queue
remove_pending id m = elim (lookup id m.pending) [
  | none ↦ m
  | some h ↦ let m' = leave_queue h m in record m' { pending = remove id m'.pending }
]

unfoldable pub subtract_pending_amount : Transfer → Uint128 → Transfer
subtract_pending_amount t amount = elim (sub t.amount amount) [
  | ok rest ↦ record t { amount = rest }
  | err e ↦ t
]

-- `p.transfer = …` through the pointer in `m.pending`
unfoldable pub replace_hold : ℕ → Transfer → AccountManager → AccountManager
replace_hold id t m = elim (lookup id m.pending) [
  | none ↦ m
  | some h ↦ elim (get_elem? m.entries h) [
    | none ↦ m
    | some e ↦ record m { entries = set m.entries h (record e { transfer = t }) }
  ]
]

abbrev add_history : ℕ → ℕ → Map (List ℕ) → Map (List ℕ)
add_history account id h = elim (lookup account h) [
  | none ↦ insert account (id ∷ []) h
  | some ids ↦ insert account (ids ++ id ∷ []) h
]

unfoldable pub record_transfer : Transfer → AccountManager → AccountManager
record_transfer t m =
    let debited =
      if t.debit_account_id == t.credit_account_id
      then m.history
      else add_history t.debit_account_id t.id m.history in
    record m {
      transfers = insert t.id t m.transfers;
      history = add_history t.credit_account_id t.id debited;
    }

-- A settlement takes from the hold what it leaves at zero.
unfoldable pub complete_from : Transfer → Transfer → Transfer
complete_from pending t = record t {
  ledger = if t.ledger == 0 then pending.ledger else t.ledger;
  debit_account_id =
      if t.debit_account_id == 0 then pending.debit_account_id else t.debit_account_id;
  credit_account_id =
      if t.credit_account_id == 0 then pending.credit_account_id else t.credit_account_id;
}

-- `m.pending[t.ID]`, which the check has found.
abbrev pub held : ℕ → Action PendingEntry
held id m = (or_missing (pending_entry m id) (pending_not_found id), m)

-- The part of a settlement that follows the look-up of the open hold.
unfoldable pub settle_hold : Transfer → Uint128 → PendingEntry → Action (Unit {0})
settle_hold t amount p = do
  move_pending p.transfer amount
  modify (
      if is_same (cmp p.transfer.amount amount)
      then remove_pending t.id
      else replace_hold t.id (subtract_pending_amount p.transfer amount))
  modify (record_transfer (complete_from p.transfer t))

unfoldable pub apply_post : Transfer → Uint128 → Action (Unit {0})
apply_post t amount = do p ← held t.id; settle_hold t amount p

unfoldable pub void_hold : Transfer → PendingEntry → Action (Unit {0})
void_hold t p = do
  release_pending p.transfer
  modify (remove_pending t.id)
  modify (record_transfer (complete_from p.transfer t))

unfoldable pub apply_void : Transfer → Action (Unit {0})
apply_void t = do p ← held t.id; void_hold t p

unfoldable pub apply_pending : Transfer → Action (Unit {0})
apply_pending t = do reserve_pending t; modify (record_transfer t)

unfoldable pub apply_plain : Transfer → Action (Unit {0})
apply_plain t = do post_immediate t; modify (record_transfer t)

unfoldable pub apply_transfer_state : Transfer → Action (Unit {0})
apply_transfer_state t m =
    (do
      remaining ← lift (check_transfer m t)
      if is_post t
          then apply_post t remaining
          else if is_void t
          then apply_void t
          else if is_pending t
          then apply_pending t
          else apply_plain t)
      m
