-- ===== src/Engine/Accounts/Sifting.antt =====
-- Go's `container/heap`, as internal/engine/accounts.go uses it, sifts the queue of deadlines back
-- into a heap.
use mathlib.Core.Path.{subst}
use aequitas_ledger.Prelude.{
  ℕ, zero, suc, ◌+◌, ◌-◌, ◌*◌, ◌/◌, ◌≤◌, ◌<◌, ◌≡◌, ◌≢◌, refl, ◌∙◌, arith, ◌==◌, ltb, leb, Bool, not,
  ◌||◌, ◌&&◌, true, false, Bool-cases, inl, inr, length,
}
use aequitas_ledger.Engine.Accounts.Heap.{
  Queue, heap_less, heap_swap, sift_up, sift_down, lesser_child,
}
use aequitas_ledger.Engine.Accounts.Ranks.{IsLinked, rank, Swapped, heap_swap-Swapped}

abbrev pub parent : ℕ → ℕ
parent k = (k - 1) / 2

-- The first `n` elements are a heap.
abbrev pub IsHeap : ℕ → Queue → Type 0
IsHeap n q = (k : ℕ) → 0 < k → k < n → rank q (parent k) ≤ rank q k

-- They are one but for the element at `j`, which may be too small for its place.
pub record IsHeapUpTo (j n : ℕ) (q : Queue) : Type 0 where
  pub others : (k : ℕ) → 0 < k → k < n → k ≢ j → rank q (parent k) ≤ rank q k
  pub over : (k : ℕ) → 0 < k → k < n → parent k ≡ j → 0 < j → rank q (parent j) ≤ rank q k

-- They are one but for the element at `i`, which may be too large or too small for its place.
pub record IsHeapAround (i n : ℕ) (q : Queue) : Type 0 where
  pub others : (k : ℕ) → 0 < k → k < n → parent k ≢ i → k ≢ i → rank q (parent k) ≤ rank q k
  pub over : (k : ℕ) → 0 < k → k < n → parent k ≡ i → 0 < i → rank q (parent i) ≤ rank q k

-- The queue keeps its size and its links.
pub record Resized (q q' : Queue) : Type 0 where
  pub linked : IsLinked q'
  pub size : length q'.expiry ≡ length q.expiry

heap_less-rank : (i j : ℕ) (q : Queue) → heap_less q i j ≡ ltb (rank q i) (rank q j)
unfolding heap_less rank
heap_less-rank i j q = refl

module _ (n : ℕ) where
  Swapped-up :
      (j : ℕ) (q q' : Queue)
      → 0 < j
      → j < n
      → IsHeapUpTo j n q
      → rank q j < rank q (parent j)
      → Swapped (parent j) j q q'
      → IsHeapUpTo (parent j) n q'
  Swapped-up j q q' pos below u less s = record {
    others = λ k pos_k below_k ne. elim (Bool-cases (k == j)) [
      | inl e ↦ ground (arith, s.ranks k, s.ranks (parent k))
      | inr e ↦ elim (Bool-cases (parent k == j)) [
        | inl e' ↦ ground (arith, s.ranks k, s.ranks (parent k), u.over k pos_k below_k)
        | inr e' ↦ ground (arith, s.ranks k, s.ranks (parent k), u.others k pos_k below_k)
      ]
    ];
    over = λ k pos_k below_k here pos_i. ground (
      arith,
      s.ranks k,
      s.ranks (parent (parent j)),
      u.others k pos_k below_k,
      u.others (parent j) pos_i (omega arith),
    );
  }

  -- A heap, of the old size and links.
  pub record IsSifted (q q' : Queue) : Type 0 where
    pub heap : IsHeap n q'
    pub shape : Resized q q'

  after_swap : (i j : ℕ) (q q' q'' : Queue) → Swapped i j q q' → IsSifted q' q'' → IsSifted q q''
  after_swap i j q q' q'' s r = record {
    heap = r.heap;
    shape = record { linked = r.shape.linked; size = r.shape.size ∙ s.size };
  }

  pub sift_up-IsSifted :
      (fuel j : ℕ) (q : Queue)
      → j < fuel
      → j < n
      → n ≤ length q.expiry
      → IsLinked q
      → IsHeapUpTo j n q
      → IsSifted q (sift_up fuel j q)
  unfolding sift_up
  sift_up-IsSifted zero j q enough below within v u = absurd (omega arith)
  sift_up-IsSifted (suc fuel) j q enough below within v u =
      elim (Bool-cases (parent j == j || not (heap_less q j (parent j)))) [
        | inl e ↦
            rw (sift_up, e)
              (record {
                heap = λ k pos_k below_k. elim (Bool-cases (k == j)) [
                  | inl here ↦ ground (arith, heap_less-rank j (parent j) q)
                  | inr away ↦ u.others k pos_k below_k (ground arith)
                ];
                shape = record { linked = v; size = refl };
              })
        | inr e ↦
            let s = heap_swap-Swapped (parent j) j q v (omega arith) (omega arith) in
            let less : rank q j < rank q (parent j) =
              ground (arith, heap_less-rank j (parent j) q) in
            let pos : 0 < j = ground arith in
            rw (sift_up, e)
              (after_swap (parent j) j q (heap_swap (parent j) j q) _ s (
                sift_up-IsSifted fuel (parent j) (heap_swap (parent j) j q) (omega arith)
                  (omega arith) (omega (arith, s.size)) s.linked
                  (Swapped-up j q (heap_swap (parent j) j q) pos below u less s)))
      ]

  -- The child with the earlier deadline.
  record IsLesser (i c : ℕ) (q : Queue) : Type 0 where
    below : c < n
    child : parent c ≡ i
    pos : 0 < c
    least : (k : ℕ) → 0 < k → k < n → parent k ≡ i → rank q c ≤ rank q k

  lesser_child-IsLesser : (i : ℕ) (q : Queue) → 2 * i + 1 < n → IsLesser i (lesser_child i n q) q
  unfolding lesser_child
  lesser_child-IsLesser i q h =
      let j = 2 * i + 1 in
      elim (Bool-cases (ltb (j + 1) n && heap_less q (j + 1) j)) [
        | inl e ↦
            rw (lesser_child, e)
              (record {
                below = ground arith;
                child = omega arith;
                pos = omega arith;
                least = λ k pos below here. elim (Bool-cases (k == j)) [
                  | inl eq ↦ ground (arith, heap_less-rank (j + 1) j q)
                  | inr ne ↦ let eq : k ≡ j + 1 = ground arith in rw eq (omega arith)
                ];
              })
        | inr e ↦
            rw (lesser_child, e)
              (record {
                below = h;
                child = omega arith;
                pos = omega arith;
                least = λ k pos below here. elim (Bool-cases (k == j)) [
                  | inl eq ↦ ground arith
                  | inr ne ↦
                      let eq : k ≡ j + 1 = ground arith in
                      ground (arith, heap_less-rank (j + 1) j q)
                ];
              })
      ]

  Swapped-down :
      (i c : ℕ) (q q' : Queue)
      → IsHeapAround i n q
      → IsLesser i c q
      → rank q c < rank q i
      → Swapped i c q q'
      → IsHeapAround c n q'
  Swapped-down i c q q' u l less s = record {
    others = λ k pos_k below_k ne. elim (Bool-cases (k == c)) [
      | inl e ↦ ground (arith, s.ranks k, s.ranks (parent k), l.child)
      | inr e ↦ elim (Bool-cases (parent k == i)) [
        | inl e' ↦
            ground (arith, s.ranks k, s.ranks (parent k), l.least k pos_k below_k (ground arith))
        | inr e' ↦ ground (
          arith,
          s.ranks k,
          s.ranks (parent k),
          u.others k pos_k below_k,
          u.over c l.pos l.below l.child,
        )
      ]
    ];
    over = λ k pos_k below_k here pos_c.
        ground (arith, l.child, s.ranks k, s.ranks (parent c), u.others k pos_k below_k);
  }

  -- The element that was at `i` has not moved, and is no larger than its children; or it has sunk to
  -- where it belongs.
  pub data IsSunk (i : ℕ) (q : Queue) (p : Queue × Bool) : Type 0 where
    stays :
        p ≡ (q, false)
        → ((k : ℕ) → 0 < k → k < n → parent k ≡ i → rank q i ≤ rank q k)
        → IsSunk i q p
    moves : p.1 ≡ true → IsSifted q p.0 → IsSunk i q p

  stays-IsHeap :
      (i : ℕ) (q : Queue)
      → IsHeapAround i n q
      → (0 < i → rank q (parent i) ≤ rank q i)
      → ((k : ℕ) → 0 < k → k < n → parent k ≡ i → rank q i ≤ rank q k)
      → IsHeap n q
  stays-IsHeap i q u edge least k pos below = elim (Bool-cases (parent k == i)) [
    | inl e ↦ let here : parent k ≡ i = ground arith in rw here (least k pos below here)
    | inr e ↦ elim (Bool-cases (k == i)) [
      | inl e' ↦
          let here : k ≡ i = ground arith in rw here (edge (subst (λ (x : ℕ). 0 < x) here pos))
      | inr e' ↦ u.others k pos below (ground arith) (ground arith)
    ]
  ]

  pub sunk_heap :
      (i : ℕ) (q : Queue) (p : Queue × Bool)
      → IsLinked q
      → IsHeapAround i n q
      → (0 < i → rank q (parent i) ≤ rank q i)
      → IsSunk i q p
      → IsSifted q p.0
  sunk_heap i q p v u edge (stays e least) =
      rw e (record {
        heap = stays-IsHeap i q u edge least;
        shape = record { linked = v; size = refl };
      })
  sunk_heap i q p v u edge (moves e r) = r

  pub sift_down-IsSunk :
      (fuel i : ℕ) (q : Queue)
      → n < i + fuel
      → n ≤ length q.expiry
      → IsLinked q
      → IsHeapAround i n q
      → IsSunk i q (sift_down fuel i n q)
  unfolding sift_down
  sift_down-IsSunk zero i q enough within v u = stays refl λ k pos below here. absurd (omega arith)
  sift_down-IsSunk (suc fuel) i q enough within v u =
      let c = lesser_child i n q in
      elim (Bool-cases (leb n (2 * i + 1))) [
        | inl e ↦ stays (rw (sift_down, e) refl) λ k pos below here. absurd (ground arith)
        | inr e ↦
            let l = lesser_child-IsLesser i q (ground arith) in
            elim (Bool-cases (heap_less q c i)) [
              | inr e' ↦
                  stays (rw (sift_down, e, e') refl) λ k pos below here.
                    ground (arith, l.least k pos below here, heap_less-rank c i q)
              | inl e' ↦
                  let i_below : i < c = omega (arith, l.child, l.pos) in
                  let s =
                    heap_swap-Swapped i c q v (omega (arith, l.below)) (omega (arith, l.below)) in
                  let q' = heap_swap i c q in
                  let less : rank q c < rank q i = ground (arith, heap_less-rank c i q) in
                  let u' = Swapped-down i c q q' u l less s in
                  let rest =
                    sift_down-IsSunk fuel c q' (omega arith) (omega (arith, s.size)) s.linked u' in
                  rw (sift_down, e, e')
                    (moves refl (
                      after_swap i c q q' _ s (
                        sunk_heap c q' _ s.linked u'
                          (λ pos. ground (arith, s.ranks c, s.ranks i, l.child)) rest)))
            ]
      ]
