-- ===== src/Engine/Idempotency/Tests.antt =====
-- Runs of internal/engine/idempotency.go on a small store, and the theorems at concrete inputs.
use aequitas_ledger.Prelude.{◌≡◌, ◌≤◌, refl, arith, none, some, length, [], ◌∷◌}
use aequitas_ledger.Core.Errors.{idempotency_conflict}
use aequitas_ledger.Core.Account.{zero128}
use aequitas_ledger.Core.Transfer.{Transfer}
use aequitas_ledger.Engine.Idempotency.{
  IdempotencyStore, conflict, hit, reserved, new_idempotency_store, find, drop_key, evict_expired,
  evict_lru, shrink, reserve, check_and_reserve, committed, commit, rollback,
}
use aequitas_ledger.Engine.Idempotency.Between.{untouched, reserving}
use aequitas_ledger.Engine.Idempotency.Bounds.{open_count, commit_ends, commit_hangs}
use aequitas_ledger.Engine.Idempotency.Replies.{reserved_once, committed_hit, rollback_frees}
use aequitas_ledger.Engine.Idempotency.Unique.{
  IsUnique, start, reserves, rolls_back, Reachable-IsUnique,
}

abbrev result : Transfer
result = record {
  id = 7;
  debit_account_id = 1;
  credit_account_id = 2;
  amount = zero128;
  idempotency_key = 1;
  user_data128 = 0;
  timestamp = 6;
  timeout = 0;
  ledger = 1;
  code = 0;
  flags = 0;
}

abbrev empty : IdempotencyStore
empty = new_idempotency_store 1 10

-- The store after keys were reserved at a time, the last one first.
with_one : IdempotencyStore
unfolding reserve find evict_expired new_idempotency_store drop_key
with_one = (reserve 5 1 empty).1

with_three : IdempotencyStore
unfolding with_one
with_three = (reserve 5 3 (reserve 5 2 with_one).1).1

with_result : IdempotencyStore
unfolding with_one
with_result = record with_one {
  entries = record { key = 1; result = some result; expires_at = 16 } ∷ [];
}

-- Key 2 is reserved after key 1, and key 1 is tried again.
with_two : IdempotencyStore
unfolding with_one
with_two = (reserve 6 1 (reserve 5 2 with_one).1).1

reserved_once_example :
    check_and_reserve 8 1 with_two ≡ (conflict (idempotency_conflict 1), with_two)
unfolding with_one with_two check_and_reserve
reserved_once_example = reserved_once 5 8 1 empty with_two {s₁ = with_one} refl (
    reserving with_one (reserve 5 2 with_one).1 6 1
      (reserving with_one with_one 5 2 (untouched with_one) (omega arith)) (omega arith))

-- Key 2 is reserved after the result of key 1 is there.
result_and_two : IdempotencyStore
unfolding with_result
result_and_two = (reserve 7 2 with_result).1

committed_hit_example : check_and_reserve 9 1 result_and_two ≡ (hit result, result_and_two)
unfolding with_result result_and_two commit committed shrink evict_lru
committed_hit_example =
    committed_hit 6 9 1 result with_one result_and_two {s₁ = with_result} (omega arith) refl
      (reserving with_result with_result 7 2 (untouched with_result) (omega arith)) (omega arith)

rollback_frees_example : (check_and_reserve 6 1 (rollback 1 with_one)).0 ≡ reserved
unfolding with_one check_and_reserve
rollback_frees_example = rollback_frees 5 6 1 empty {s' = with_one} tt refl

commit_ends_example :
    (s' : IdempotencyStore) × (commit 6 1 result with_one ≡ some s')
    × (length s'.entries ≤ 1)
    × (open_count s'.entries ≡ open_count (committed 6 1 result with_one))
unfolding with_one committed
commit_ends_example = commit_ends 6 1 result with_one (omega arith)

-- Two keys are still pending when the third is committed, and the store has room for one.
commit_hangs_example : shrink 1000 1 (committed 6 3 result with_three) ≡ none
unfolding with_three committed
commit_hangs_example = commit_hangs 6 3 result with_three (omega arith) 1000

Reachable-IsUnique_example : IsUnique (rollback 1 (reserve 5 1 empty).1).entries
Reachable-IsUnique_example =
    Reachable-IsUnique 1 10 (rollback 1 (reserve 5 1 empty).1)
      (rolls_back (reserve 5 1 empty).1 1 (reserves empty 5 1 start))
