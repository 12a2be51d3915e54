-- ===== src/Engine/Idempotency/Unique.antt =====
-- The map from keys of internal/engine/idempotency.go has one entry for a key, through all calls.
use aequitas_ledger.Prelude.{
  ℕ, zero, suc, ◌+◌, ◌≡◌, refl, arith, Option, none, some, Option-cases, Bool-cases, List, [], ◌∷◌,
  length, inl, inr,
}
use aequitas_ledger.Core.Transfer.{Transfer}
use aequitas_ledger.Engine.Idempotency.{
  IdEntry, IdempotencyStore, new_idempotency_store, pending, find, drop_key, evict_expired,
  evict_lru, shrink, reserve, committed, commit, rollback,
}

-- No key has two entries.
abbrev pub IsUnique : List IdEntry → Type 0
IsUnique [] = Unit
IsUnique (e ∷ es) = (find e.key es ≡ none) × IsUnique es

pub find-drop_key : (key : ℕ) (es : List IdEntry) → IsUnique es → find key (drop_key key es) ≡ none
unfolding find drop_key
find-drop_key key [] u = refl
find-drop_key key (e ∷ es) u = ground (arith, find-drop_key key es u.1)

-- Eviction finds no key that was not there.
abbrev Absent : List IdEntry → List IdEntry → Type 0
Absent es es' = (key : ℕ) → find key es ≡ none → find key es' ≡ none

pub evict_expired-Absent : (now : ℕ) (es : List IdEntry) → Absent es (evict_expired now es)
unfolding evict_expired find
evict_expired-Absent now [] key h = refl
evict_expired-Absent now (e ∷ es) key h = ground (arith, evict_expired-Absent now es key)

pub evict_expired-IsUnique :
    (now : ℕ) (es : List IdEntry) → IsUnique es → IsUnique (evict_expired now es)
unfolding evict_expired
evict_expired-IsUnique now [] u = tt
evict_expired-IsUnique now (e ∷ es) u =
    ground (arith, evict_expired-IsUnique now es u.1, evict_expired-Absent now es e.key u.0)

drop_key-Absent : (k : ℕ) (es : List IdEntry) → Absent es (drop_key k es)
unfolding drop_key find
drop_key-Absent k [] key h = refl
drop_key-Absent k (e ∷ es) key h = ground (arith, drop_key-Absent k es key)

drop_key-IsUnique : (k : ℕ) (es : List IdEntry) → IsUnique es → IsUnique (drop_key k es)
unfolding drop_key
drop_key-IsUnique k [] u = tt
drop_key-IsUnique k (e ∷ es) u =
    ground (arith, drop_key-IsUnique k es u.1, drop_key-Absent k es e.key u.0)

-- Eviction, where it takes place.
abbrev Evicted : List IdEntry → Option (List IdEntry) → Type 0
Evicted es none = Unit
Evicted es (some rest) = IsUnique rest × Absent es rest

evict_lru-Evicted : (es : List IdEntry) → IsUnique es → Evicted es (evict_lru es)
unfolding evict_lru find
evict_lru-Evicted [] u = tt
evict_lru-Evicted (e ∷ es) u = elim (Option-cases (evict_lru es)) [
  | inl q ↦ rw q (elim (Bool-cases (pending e)) [
    | inl keep ↦ rw keep tt
    | inr drop ↦ rw drop (u.1, λ key h. ground arith)
  ])
  | inr (rest, q) ↦
      let (unique, absent) : IsUnique rest × Absent es rest = rw q at (evict_lru-Evicted es u.1) in
      rw q ((absent e.key u.0, unique), λ key h. ground (arith, absent key))
]

abbrev Left : Option (List IdEntry) → Type 0
Left none = Unit
Left (some es) = IsUnique es

shrink-Left : (fuel max : ℕ) (es : List IdEntry) → IsUnique es → Left (shrink fuel max es)
unfolding shrink
shrink-Left zero max es u = tt
shrink-Left (suc fuel) max es u = elim (Option-cases (evict_lru es)) [
  | inl q ↦ ground (arith, shrink-Left fuel max es u)
  | inr (rest, q) ↦ ground (arith, shrink-Left fuel max rest, evict_lru-Evicted es u)
]

-- The calls that may change the store, in any order and at any times. The first part of
-- `CheckAndReserve` changes nothing, so a call of it is at most its second part.
pub data Reachable (max_size ttl : ℕ) : IdempotencyStore → Type 0 where
  start : Reachable max_size ttl (new_idempotency_store max_size ttl)
  reserves :
      (s : IdempotencyStore) (now key : ℕ)
      → Reachable max_size ttl s
      → Reachable max_size ttl (reserve now key s).1
  commits :
      (s s' : IdempotencyStore) (now key : ℕ) (t : Transfer)
      → Reachable max_size ttl s
      → commit now key t s ≡ some s'
      → Reachable max_size ttl s'
  rolls_back :
      (s : IdempotencyStore) (key : ℕ)
      → Reachable max_size ttl s
      → Reachable max_size ttl (rollback key s)

pub find-key : (key : ℕ) (es : List IdEntry) (e : IdEntry) → find key es ≡ some e → e.key ≡ key
unfolding find
find-key key [] e h = cc
find-key key (x ∷ es) e h = ground (arith, find-key key es e)

reserve-IsUnique :
    (now key : ℕ) (s : IdempotencyStore)
    → IsUnique s.entries
    → IsUnique (reserve now key s).1.entries
unfolding reserve
reserve-IsUnique now key s u =
    let es = evict_expired now s.entries in
    let alive : IsUnique es = evict_expired-IsUnique now s.entries u in
    elim (Option-cases (find key es)) [
      | inl q ↦ ground arith
      | inr (e, q) ↦
          let named : e.key ≡ key = find-key key es e q in
          ground (arith, find-drop_key key es alive, drop_key-IsUnique key es alive)
    ]

commit-IsUnique :
    (now key : ℕ) (t : Transfer) (s : IdempotencyStore) {s' : IdempotencyStore}
    → IsUnique s.entries
    → commit now key t s ≡ some s'
    → IsUnique s'.entries
unfolding commit committed
commit-IsUnique now key t s u h =
    let es = evict_expired now s.entries in
    let alive : IsUnique es = evict_expired-IsUnique now s.entries u in
    ground (
      arith,
      shrink-Left (length (committed now key t s) + 1) s.max_size (committed now key t s),
      find-drop_key key es alive,
      drop_key-IsUnique key es alive,
    )

rollback-IsUnique :
    (key : ℕ) (s : IdempotencyStore) → IsUnique s.entries → IsUnique (rollback key s).entries
unfolding rollback
rollback-IsUnique key s u = ground (arith, drop_key-IsUnique key s.entries u)

-- However calls reserve, commit and roll back keys, no key ever has two entries.
pub Reachable-IsUnique :
    (max_size ttl : ℕ) (s : IdempotencyStore) → Reachable max_size ttl s → IsUnique s.entries
unfolding new_idempotency_store
Reachable-IsUnique max_size ttl _ start = tt
Reachable-IsUnique max_size ttl _ (reserves s₀ now key r) =
    reserve-IsUnique now key s₀ (Reachable-IsUnique max_size ttl s₀ r)
Reachable-IsUnique max_size ttl _ (commits s₀ s' now key t r h) =
    commit-IsUnique now key t s₀ (Reachable-IsUnique max_size ttl s₀ r) h
Reachable-IsUnique max_size ttl _ (rolls_back s₀ key r) =
    rollback-IsUnique key s₀ (Reachable-IsUnique max_size ttl s₀ r)
