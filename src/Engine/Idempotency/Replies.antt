-- ===== src/Engine/Idempotency/Replies.antt =====
-- What callers of internal/engine/idempotency.go are told, call after call.
use aequitas_ledger.Prelude.{
  ℕ, zero, suc, ◌+◌, ◌<◌, ◌≡◌, refl, arith, true, false, ltb, Option, none, some, Option-cases,
  List, [], ◌∷◌, length, inl, inr,
}
use aequitas_ledger.Core.Errors.{idempotency_conflict}
use aequitas_ledger.Core.Transfer.{Transfer}
use aequitas_ledger.Engine.Idempotency.{
  IdEntry, IdempotencyStore, Reply, conflict, hit, reserved, find, drop_key, evict_expired,
  reservation, evict_lru, shrink, check_and_reserve, committed, commit, rollback,
}
use aequitas_ledger.Engine.Idempotency.Unique.{
  IsUnique, find-drop_key, evict_expired-Absent, evict_expired-IsUnique,
}
use aequitas_ledger.Engine.Idempotency.Between.{Between, Between-find}
use aequitas_ledger.Engine.Idempotency.Bounds.{open_count, evict_lru-Evicts}

reserved-find :
    (now key : ℕ) (s : IdempotencyStore) {s' : IdempotencyStore}
    → check_and_reserve now key s ≡ (reserved, s')
    → find key s'.entries ≡ some (reservation now key s)
unfolding check_and_reserve find
reserved-find now key s h = ground arith

pending-conflict :
    (later key expires_at : ℕ) (s : IdempotencyStore)
    → find key s.entries ≡ some (record { key = key; result = none; expires_at = expires_at })
    → check_and_reserve later key s ≡ (conflict (idempotency_conflict key), s)
unfolding check_and_reserve
pending-conflict later key expires_at s h = rw (check_and_reserve, h) refl

-- A call has reserved a key. Before the lifetime of the reservation ends, callers reserve keys, and
-- commit and roll back others than this one, in any order. Then a call for the key, at whatever
-- time, is refused as a conflict and changes nothing.
pub reserved_once :
    (now later key : ℕ) (s s₂ : IdempotencyStore) {s₁ : IdempotencyStore}
    → check_and_reserve now key s ≡ (reserved, s₁)
    → Between key (now + s.ttl) true s₁ s₂
    → check_and_reserve later key s₂ ≡ (conflict (idempotency_conflict key), s₂)
reserved_once now later key s s₂ {s₁ = s₁} h b = pending-conflict later key (now + s.ttl) s₂ (
    Between-find key (now + s.ttl) true s₁ s₂ (reservation now key s) refl (λ may. refl)
      (reserved-find now key s h) b)

-- The head stays as long as some other entry can be evicted.
abbrev Keeps : IdEntry → Option (List IdEntry) → Type 0
Keeps e none = Unit
Keeps e (some []) = ⊥
Keeps e (some (x ∷ xs)) = x ≡ e

shrink-Keeps :
    (fuel max : ℕ) (e : IdEntry) (es : List IdEntry)
    → open_count es < max
    → Keeps e (shrink fuel max (e ∷ es))
unfolding shrink evict_lru
shrink-Keeps zero max e es h = tt
shrink-Keeps (suc fuel) max e es h = elim (Option-cases (evict_lru es)) [
  | inl q ↦ ground (arith, shrink-Keeps fuel max e es h, evict_lru-Evicts es)
  | inr (rest, q) ↦ ground (arith, shrink-Keeps fuel max e rest, evict_lru-Evicts es)
]

committed-find :
    (now key : ℕ) (t : Transfer) (s : IdempotencyStore) {s' : IdempotencyStore}
    → open_count (drop_key key (evict_expired now s.entries)) < s.max_size
    → commit now key t s ≡ some s'
    → find key s'.entries ≡ some (record { key = key; result = some t; expires_at = now + s.ttl })
unfolding commit committed find
committed-find now key t s h k =
    let others = drop_key key (evict_expired now s.entries) in
    let e : IdEntry = record { key = key; result = some t; expires_at = now + s.ttl } in
    ground (arith, shrink-Keeps (suc (length others) + 1) s.max_size e others h)

found-hit :
    (later key expires_at : ℕ) (t : Transfer) (s : IdempotencyStore)
    → find key s.entries ≡ some (record { key = key; result = some t; expires_at = expires_at })
    → later < expires_at
    → check_and_reserve later key s ≡ (hit t, s)
unfolding check_and_reserve
found-hit later key expires_at t s h alive =
    let early : ltb later expires_at ≡ true = ground arith in rw (check_and_reserve, h, early) refl

-- A result is committed for a key, where the other entries that are pending are fewer than the size.
-- Before its lifetime ends, callers reserve keys, and roll back others than this one, in any order,
-- but commit none. Then a call for the key within the lifetime returns the transfer and changes
-- nothing.
pub committed_hit :
    (now later key : ℕ) (t : Transfer) (s s₂ : IdempotencyStore) {s₁ : IdempotencyStore}
    → open_count (drop_key key (evict_expired now s.entries)) < s.max_size
    → commit now key t s ≡ some s₁
    → Between key (now + s.ttl) false s₁ s₂
    → later < now + s.ttl
    → check_and_reserve later key s₂ ≡ (hit t, s₂)
committed_hit now later key t s s₂ {s₁ = s₁} h k b alive =
    found-hit later key (now + s.ttl) t s₂
      (Between-find key (now + s.ttl) false s₁ s₂
        (record { key = key; result = some t; expires_at = now + s.ttl }) refl (λ may. ground arith)
        (committed-find now key t s h k) b)
      alive

abbrev behind : List IdEntry → List IdEntry
behind [] = []
behind (e ∷ es) = es

-- What stands behind a new reservation has not its key.
Reserved : ℕ → Reply × IdempotencyStore → Type 0
Reserved key (reserved, s) = elim s.entries [
  | [] ↦ ⊥
  | e ∷ es ↦ (e.key ≡ key) × (e.result ≡ none) × (find key es ≡ none)
]
Reserved key _ = Unit

check_and_reserve-Reserved :
    (now key : ℕ) (s : IdempotencyStore)
    → IsUnique s.entries
    → Reserved key (check_and_reserve now key s)
unfolding check_and_reserve Reserved
check_and_reserve-Reserved now key s u = ground (
  arith,
  find-drop_key key (evict_expired now s.entries) (evict_expired-IsUnique now s.entries u),
)

-- Where no key has two entries, a key that was reserved and rolled back can be reserved again at any
-- time.
pub rollback_frees :
    (now later key : ℕ) (s : IdempotencyStore) {s' : IdempotencyStore}
    → IsUnique s.entries
    → check_and_reserve now key s ≡ (reserved, s')
    → (check_and_reserve later key (rollback key s')).0 ≡ reserved
unfolding check_and_reserve rollback find drop_key Reserved
rollback_frees now later key s {s' = s'} u h = ground (
  arith,
  check_and_reserve-Reserved now key s u,
  evict_expired-Absent later (behind s'.entries) key,
)
