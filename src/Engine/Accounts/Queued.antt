-- ===== src/Engine/Accounts/Queued.antt =====
-- Properties of the clock and the queue of deadlines (internal/engine/accounts.go), which only the
-- writes to holds can change.
use aequitas_ledger.Prelude.{
  ℕ, ◌+◌, ◌%◌, ◌<◌, ◌≡◌, true, ltb, ◌==◌, Bool-cases, inl, inr, some, [], ◌∷◌, ◌++◌, length,
  get_elem?, set, lt-length, option_ind, if_ind, if◌then◌else◌,
}
use aequitas_ledger.Prelude.Words.{word}
use aequitas_ledger.Prelude.Maps.{lookup}
use aequitas_ledger.Core.Account.{Account}
use aequitas_ledger.Core.Transfer.{Transfer}
use aequitas_ledger.Engine.Accounts.State.{AccountManager, PendingEntry, put}
use aequitas_ledger.Engine.Accounts.Heap.{Queue, heap_push, heap_remove}
use aequitas_ledger.Engine.Accounts.Apply.{
  queue_of, open_hold, leave_queue, remove_pending, replace_hold, record_transfer,
}
use aequitas_ledger.Engine.Accounts.Keeps.{IsKept}

-- The new entry of a hold.
abbrev pub hold_of : Transfer → PendingEntry
hold_of t = record {
  transfer = t;
  expires = if ltb 0 t.timeout then (t.timestamp + t.timeout) % word else 0;
  heap_idx = 0;
}

abbrev pub allocated : Transfer → Queue → Queue
allocated t q = record q { entries = q.entries ++ hold_of t ∷ [] }

-- What the removal, the rewriting and the opening of holds keep.
pub record IsStable (t : Transfer) (P : ℕ → Queue → Type 0) : Type 0 where
  pub removes : (now i : ℕ) (q : Queue) → i < length q.expiry → P now q → P now (heap_remove i q)
  pub rewrites :
      (now h : ℕ) (p : Transfer) (q : Queue) {e : PendingEntry}
      → get_elem? q.entries h ≡ some e
      → P now q
      → P now (record q { entries = set q.entries h (record e { transfer = p }) })
  pub allocates : (now : ℕ) (q : Queue) → P now q → P now (allocated t q)
  pub pushes :
      (now : ℕ) (q : Queue)
      → ltb 0 t.timeout ≡ true
      → P now q
      → P now (heap_push (length q.entries) (allocated t q))

module _ {t : Transfer} {P : ℕ → Queue → Type 0} (s : IsStable t P) where
  abbrev Here : AccountManager → Type 0
  Here m = P m.clock (queue_of m)

  put-Here : (id : ℕ) (a : Account) (m : AccountManager) → Here m → Here (put id a m)
  unfolding put
  put-Here id a m v = option_ind Here (lookup id m.index) v λ i e. v

  leave_queue-Here : (h : ℕ) (m : AccountManager) → Here m → Here (leave_queue h m)
  unfolding leave_queue
  leave_queue-Here h m v = option_ind Here (get_elem? m.entries h) v λ e found.
      option_ind Here (get_elem? m.expiry e.heap_idx) v λ h' there.
        if_ind Here (h' == h)
          (s.removes m.clock e.heap_idx (queue_of m) (lt-length m.expiry e.heap_idx there) v) v

  remove_pending-Here : (id : ℕ) (m : AccountManager) → Here m → Here (remove_pending id m)
  unfolding remove_pending
  remove_pending-Here id m v = option_ind Here (lookup id m.pending) v λ h e. leave_queue-Here h m v

  replace_hold-Here :
      (id : ℕ) (p : Transfer) (m : AccountManager) → Here m → Here (replace_hold id p m)
  unfolding replace_hold
  replace_hold-Here id p m v = option_ind Here (lookup id m.pending) v λ h e.
      option_ind Here (get_elem? m.entries h) v
        λ x found. s.rewrites m.clock h p (queue_of m) found v

  pub open_hold-Here : (m : AccountManager) → Here m → Here (open_hold t m)
  unfolding open_hold
  open_hold-Here m v = elim (Bool-cases (ltb 0 t.timeout)) [
    | inl e ↦ rw (open_hold, e) (rw e at (s.pushes m.clock (queue_of m) e v))
    | inr e ↦ rw (open_hold, e) (rw e at (s.allocates m.clock (queue_of m) v))
  ]

  pub IsStable-kept : IsKept t (λ m. P m.clock (queue_of m))
  unfolding record_transfer
  IsStable-kept = record {
    puts = put-Here;
    opens = open_hold-Here;
    removes = remove_pending-Here;
    replaces = replace_hold-Here;
    records = λ u m v. v;
  }
