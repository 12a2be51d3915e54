-- ===== src/Engine/Idempotency.antt =====
-- internal/engine/idempotency.go: the store of idempotency keys, with expiry and LRU eviction. The
-- doubly linked list from `head` to `tail` is the list `entries`, and the map from keys is the
-- search in it: `insertHeadLocked` and `removeLocked` always change both together, and `size`
-- counts them. One call is one step: the lock is held from the second look on, and the clock is
-- read once.
pub mod Bounds
pub mod Between
pub mod Unique
pub mod Replies
mod Tests
use aequitas_ledger.Prelude.{
  ℕ, zero, suc, ◌+◌, Bool, Option, none, some, List, [], ◌∷◌, length, ltb, ◌==◌, if◌then◌else◌,
}
use aequitas_ledger.Core.Errors.{LedgerError, idempotency_conflict}
use aequitas_ledger.Core.Transfer.{Transfer}

-- `result` is the transfer that was committed; a pending entry has none.
pub record IdEntry : Type 0 where
  pub key : ℕ
  pub result : Option Transfer
  pub expires_at : ℕ

-- Times are numbers of nanoseconds.
pub record IdempotencyStore : Type 0 where
  pub max_size : ℕ
  pub ttl : ℕ
  pub entries : List IdEntry

abbrev pub default_max_size : ℕ
default_max_size = 100_000

abbrev pub default_ttl : ℕ
default_ttl = 900_000_000_000

-- A size or a lifetime that is not positive is 0 here.
unfoldable pub new_idempotency_store : ℕ → ℕ → IdempotencyStore
new_idempotency_store max_size ttl = record {
  max_size = if max_size == 0 then default_max_size else max_size;
  ttl = if ttl == 0 then default_ttl else ttl;
  entries = [];
}

abbrev pub pending : IdEntry → Bool
pending e = elim e.result [ none ↦ Bool.true | some t ↦ Bool.false ]

-- `e, ok := s.entries[key]`
unfoldable pub find : ℕ → List IdEntry → Option IdEntry
find k [] = none
find k (e ∷ es) = if e.key == k then some e else find k es

-- `removeLocked` of the entry with a key
unfoldable pub drop_key : ℕ → List IdEntry → List IdEntry
drop_key k [] = []
drop_key k (e ∷ es) = let rest = drop_key k es in if e.key == k then es else e ∷ rest

-- `evictExpiredLocked`: from the tail on, entries go until one is still alive. Whether an entry is
-- pending does not matter.
unfoldable pub evict_expired : ℕ → List IdEntry → List IdEntry
evict_expired now [] = []
evict_expired now (e ∷ es) = elim (evict_expired now es) [
  | [] ↦ if ltb now e.expires_at then e ∷ [] else []
  | x ∷ xs ↦ e ∷ x ∷ xs
]

-- `evictLRULocked`: the last entry that is not pending goes, if there is one.
unfoldable pub evict_lru : List IdEntry → Option (List IdEntry)
evict_lru [] = none
evict_lru (e ∷ es) = elim (evict_lru es) [
  | some rest ↦ some (e ∷ rest)
  | none ↦ if pending e then none else some es
]

-- `for s.size > s.maxSize { s.evictLRULocked() }`. Where nothing can be evicted the loop goes on with
-- the same entries; `none` is a loop that has not ended within its fuel.
unfoldable pub shrink : ℕ → ℕ → List IdEntry → Option (List IdEntry)
shrink zero max es = none
shrink (suc fuel) max es =
    let rest = shrink fuel max (elim (evict_lru es) [ none ↦ es | some left ↦ left ]) in
    if ltb max (length es) then rest else some es

-- What `CheckAndReserve` returns: an error, the committed transfer, or a reservation.
pub data Reply : Type 0 where
  conflict : LedgerError → Reply
  hit : Transfer → Reply
  reserved : Reply

-- The look under the read lock; `none` goes on to the write lock.
unfoldable pub peek : ℕ → ℕ → IdempotencyStore → Option Reply
peek now key s = elim (find key s.entries) [
  | none ↦ none
  | some e ↦ elim e.result [
    | none ↦ some (conflict (idempotency_conflict key))
    | some t ↦ if ltb now e.expires_at then some (hit t) else none
  ]
]

-- The new entry of a reservation.
abbrev pub reservation : ℕ → ℕ → IdempotencyStore → IdEntry
reservation now key s = record { key = key; result = none; expires_at = now + s.ttl }

-- The part of `CheckAndReserve` under the write lock. Another call may come between the two parts.
unfoldable pub reserve : ℕ → ℕ → IdempotencyStore → Reply × IdempotencyStore
reserve now key s =
    let es = evict_expired now s.entries in
    elim (find key es) [
      | none ↦ (reserved, record s { entries = reservation now key s ∷ es })
      | some e ↦ elim e.result [
        | none ↦ (conflict (idempotency_conflict key), record s { entries = es })
        | some t ↦
            if ltb now e.expires_at
            then (hit t, record s { entries = e ∷ drop_key key es })
            else (reserved, record s { entries = reservation now key s ∷ drop_key key es })
      ]
    ]

unfoldable pub check_and_reserve : ℕ → ℕ → IdempotencyStore → Reply × IdempotencyStore
unfolding peek reserve
check_and_reserve now key s = elim (peek now key s) [ some r ↦ (r, s) | none ↦ reserve now key s ]

-- The entries before the size is enforced: the key's entry is at the head and has the result.
unfoldable pub committed : ℕ → ℕ → Transfer → IdempotencyStore → List IdEntry
committed now key t s =
    record { key = key; result = some t; expires_at = now + s.ttl }
    ∷ drop_key key (evict_expired now s.entries)

-- Each round of the loop that makes progress takes one entry.
unfoldable pub commit : ℕ → ℕ → Transfer → IdempotencyStore → Option IdempotencyStore
commit now key t s =
    let es = committed now key t s in
    elim (shrink (length es + 1) s.max_size es) [
      | none ↦ none
      | some left ↦ some (record s { entries = left })
    ]

unfoldable pub rollback : ℕ → IdempotencyStore → IdempotencyStore
rollback key s = elim (find key s.entries) [
  | none ↦ s
  | some e ↦ if pending e then record s { entries = drop_key key s.entries } else s
]
