-- ===== src/Engine/Accounts/Heap.antt =====
-- `expiryHeap` of internal/engine/accounts.go, with the sifting of Go's `container/heap` that it
-- is used through. A loop takes one unit of fuel for each level it may pass.
use aequitas_ledger.Prelude.{
  ℕ, zero, suc, ◌+◌, ◌-◌, ◌*◌, ◌/◌, Bool, true, false, not, ◌&&◌, ◌||◌, ltb, leb, ◌==◌, none, some,
  List, [], ◌∷◌, ◌++◌, length, get_elem?, set, take, if◌then◌else◌,
}
use aequitas_ledger.Prelude.Words.{signed_less}
use aequitas_ledger.Engine.Accounts.State.{PendingEntry}

-- The entries and the heap of pointers to them.
pub record Queue : Type 0 where
  pub entries : List PendingEntry
  pub expiry : List ℕ

unfoldable pub deadline : Queue → ℕ → ℕ
deadline q i = elim (get_elem? q.expiry i) [
  | none ↦ 0
  | some h ↦ elim (get_elem? q.entries h) [ none ↦ 0 | some e ↦ e.expires ]
]

-- `Less`
unfoldable pub heap_less : Queue → ℕ → ℕ → Bool
unfolding deadline
heap_less q i j = signed_less (deadline q i) (deadline q j)

-- `h[i] = e; e.heapIdx = i`
unfoldable pub place : ℕ → ℕ → Queue → Queue
place i h q = elim (get_elem? q.entries h) [
  | none ↦ q
  | some e ↦ record {
    entries = set q.entries h (record e { heap_idx = i });
    expiry = set q.expiry i h;
  }
]

-- `Swap`
unfoldable pub heap_swap : ℕ → ℕ → Queue → Queue
unfolding place
heap_swap i j q = elim (get_elem? q.expiry i) [
  | none ↦ q
  | some a ↦ elim (get_elem? q.expiry j) [ none ↦ q | some b ↦ place j a (place i b q) ]
]

-- `up(h, j)`
unfoldable pub sift_up : ℕ → ℕ → Queue → Queue
unfolding heap_less heap_swap
sift_up zero j q = q
sift_up (suc fuel) j q =
    let i = (j - 1) / 2 in
    let rest = sift_up fuel i (heap_swap i j q) in
    if i == j || not (heap_less q j i) then q else rest

-- The child that `down` compares with its parent.
unfoldable pub lesser_child : ℕ → ℕ → Queue → ℕ
unfolding heap_less
lesser_child i n q =
    let j = 2 * i + 1 in if ltb (j + 1) n && heap_less q (j + 1) j then j + 1 else j

-- `down(h, i, n)`: the queue, and whether anything moved.
unfoldable pub sift_down : ℕ → ℕ → ℕ → Queue → Queue × Bool
unfolding heap_less heap_swap lesser_child
sift_down zero i n q = (q, false)
sift_down (suc fuel) i n q =
    let j = lesser_child i n q in
    let rest = (sift_down fuel j n (heap_swap i j q)).0 in
    if leb n (2 * i + 1) || not (heap_less q j i) then (q, false) else (rest, true)

-- `heap.Push(&m.expiry, e)` for the entry at `h`.
unfoldable pub heap_push : ℕ → Queue → Queue
unfolding sift_up
heap_push h q = elim (get_elem? q.entries h) [
  | none ↦ q
  | some e ↦
      let n = length q.expiry in
      sift_up (n + 1) n (record {
        entries = set q.entries h (record e { heap_idx = n });
        expiry = q.expiry ++ h ∷ [];
      })
]

unfoldable pub drop_last : Queue → Queue
drop_last q = record q { expiry = take (length q.expiry - 1) q.expiry }

-- `heap.Pop(&m.expiry)`; the callers have read the top before.
unfoldable pub heap_pop : Queue → Queue
unfolding sift_down drop_last
heap_pop q = let n = length q.expiry - 1 in drop_last (sift_down (n + 1) 0 n (heap_swap 0 n q)).0

-- `heap.Remove(&m.expiry, i)`
unfoldable pub heap_remove : ℕ → Queue → Queue
unfolding sift_up sift_down drop_last
heap_remove i q =
    let n = length q.expiry - 1 in
    let (q', moved) = sift_down (n + 1) i n (heap_swap i n q) in
    if n == i then drop_last q else if moved then drop_last q' else drop_last (sift_up (n + 1) i q')
