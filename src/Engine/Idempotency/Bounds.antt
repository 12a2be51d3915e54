-- ===== src/Engine/Idempotency/Bounds.antt =====
-- When the loop in `Commit` (internal/engine/idempotency.go) ends, and the size that it leaves.
use aequitas_ledger.Prelude.{
  ℕ, zero, suc, ◌+◌, ◌≤◌, ◌<◌, ◌≡◌, refl, arith, Option, none, some, Option-cases, List, [], ◌∷◌,
  length, inl, inr, if◌then◌else◌, sum_by,
}
use aequitas_ledger.Core.Transfer.{Transfer}
use aequitas_ledger.Engine.Idempotency.{
  IdEntry, IdempotencyStore, pending, evict_lru, shrink, commit, committed,
}

-- How many entries are pending.
abbrev pub open_count : List IdEntry → ℕ
open_count = sum_by (λ e. if pending e then 1 else 0)

-- Nothing can be evicted exactly if every entry is pending; else one entry goes, and no pending one.
abbrev pub Evicts : List IdEntry → Option (List IdEntry) → Type 0
Evicts es none = open_count es ≡ length es
Evicts es (some rest) = (length es ≡ suc (length rest)) × (open_count rest ≡ open_count es)

pub evict_lru-Evicts : (es : List IdEntry) → Evicts es (evict_lru es)
unfolding evict_lru
evict_lru-Evicts [] = refl
evict_lru-Evicts (e ∷ es) = elim (Option-cases (evict_lru es)) [
  | inl q ↦ ground (arith, evict_lru-Evicts es)
  | inr (rest, q) ↦ ground (arith, evict_lru-Evicts es)
]

open_count-le : (es : List IdEntry) → open_count es ≤ length es
open_count-le [] = omega arith
open_count-le (e ∷ es) = ground (arith, open_count-le es)

-- With more pending entries than the size allows, no number of rounds ends the loop.
shrink_never : (fuel max : ℕ) (es : List IdEntry) → max < open_count es → shrink fuel max es ≡ none
unfolding shrink
shrink_never zero max es h = refl
shrink_never (suc fuel) max es h = elim (Option-cases (evict_lru es)) [
  | inl q ↦ ground (arith, shrink_never fuel max es h, open_count-le es)
  | inr (rest, q) ↦
      ground (arith, shrink_never fuel max rest, evict_lru-Evicts es, open_count-le es)
]

abbrev Shrunk : ℕ → List IdEntry → Option (List IdEntry) → Type 0
Shrunk max es none = ⊥
Shrunk max es (some left) = (length left ≤ max) × (open_count left ≡ open_count es)

shrink-Shrunk :
    (fuel max : ℕ) (es : List IdEntry)
    → length es < fuel
    → open_count es ≤ max
    → Shrunk max es (shrink fuel max es)
unfolding shrink
shrink-Shrunk zero max es h k = absurd (omega arith)
shrink-Shrunk (suc fuel) max es h k = elim (Option-cases (evict_lru es)) [
  | inl q ↦ ground (arith, evict_lru-Evicts es)
  | inr (rest, q) ↦ ground (arith, shrink-Shrunk fuel max rest, evict_lru-Evicts es)
]

-- If the pending entries at the loop of `Commit` are no more than the size, `Commit` ends with no
-- more entries than the size, and its loop has evicted no pending one.
pub commit_ends :
    (now key : ℕ) (t : Transfer) (s : IdempotencyStore)
    → open_count (committed now key t s) ≤ s.max_size
    → (s' : IdempotencyStore) × (commit now key t s ≡ some s')
      × (length s'.entries ≤ s.max_size)
      × (open_count s'.entries ≡ open_count (committed now key t s))
unfolding commit
commit_ends now key t s h =
    let es = committed now key t s in
    let ends = shrink-Shrunk (length es + 1) s.max_size es (omega arith) h in
    elim (Option-cases (shrink (length es + 1) s.max_size es)) [
      | inl q ↦ absurd (ground arith)
      | inr (left, q) ↦ (record s { entries = left }, ground arith, ground arith, ground arith)
    ]

-- If the pending entries at the loop of `Commit` are more than the size, no number of rounds ends it.
pub commit_hangs :
    (now key : ℕ) (t : Transfer) (s : IdempotencyStore)
    → s.max_size < open_count (committed now key t s)
    → (rounds : ℕ) → shrink rounds s.max_size (committed now key t s) ≡ none
commit_hangs now key t s h rounds = shrink_never rounds s.max_size (committed now key t s) h
