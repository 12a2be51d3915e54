-- ===== src/Engine/Accounts/Expiry.antt =====
-- `CloseExpired`, `RestorePending` and `PendingTransfers` of internal/engine/accounts.go.
use aequitas_ledger.Prelude.{
  ℕ, zero, suc, Option, none, some, List, [], ◌∷◌, length, get_elem?, Result, ok, err,
  if◌then◌else◌,
}
use aequitas_ledger.Prelude.Words.{signed_less}
use aequitas_ledger.Prelude.Maps.{Map, contains, remove}
use aequitas_ledger.Core.Errors.{LedgerError, restored_twice}
use aequitas_ledger.Core.Transfer.{Transfer}
use aequitas_ledger.Engine.Accounts.State.{AccountManager, PendingEntry}
use aequitas_ledger.Engine.Accounts.Heap.{heap_pop}
use aequitas_ledger.Engine.Accounts.Apply.{queue_of, with_queue, open_hold, release_pending}

-- The entry at the top of the heap.
abbrev earliest : AccountManager → Option PendingEntry
earliest m = elim (get_elem? m.expiry 0) [ none ↦ none | some h ↦ get_elem? m.entries h ]

-- One hold is taken from the heap and from the open holds, and released; a failure of the release
-- is only counted by a metric.
unfoldable pub close_hold : Transfer → AccountManager → AccountManager
close_hold t m =
    let popped = with_queue m (heap_pop (queue_of m)) in
    (release_pending t (record popped { pending = remove t.id popped.pending })).1

unfoldable pub close_loop : ℕ → AccountManager → AccountManager
unfolding close_hold
close_loop zero m = m
close_loop (suc fuel) m = elim (earliest m) [
  | none ↦ m
  | some top ↦
      if signed_less m.clock top.expires then m else close_loop fuel (close_hold top.transfer m)
]

-- Each round takes one element from the heap.
unfoldable pub close_expired : AccountManager → AccountManager
unfolding close_loop
close_expired m = close_loop (length m.expiry) m

unfoldable pub restore_pending :
    Transfer → AccountManager → Result LedgerError (Unit {0}) × AccountManager
restore_pending t m =
    if contains t.id m.pending then (err (restored_twice t.id), m) else (ok tt, open_hold t m)

abbrev hold_at : List PendingEntry → ℕ → List Transfer → List Transfer
hold_at entries h out = elim (get_elem? entries h) [ none ↦ out | some e ↦ e.transfer ∷ out ]

holds_of : List PendingEntry → Map ℕ → List Transfer
holds_of entries [] = []
holds_of entries ((id, h) ∷ m) = hold_at entries h (holds_of entries m)

unfoldable pub pending_transfers : AccountManager → List Transfer
unfolding holds_of
pending_transfers m = holds_of m.entries m.pending
