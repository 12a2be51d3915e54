-- ===== src/Engine/Accounts/Order.antt =====
-- The queue of deadlines of internal/engine/accounts.go stays a heap.
use aequitas_ledger.Prelude.{
  ℕ, zero, suc, ◌+◌, ◌-◌, ◌%◌, ◌^◌, ◌≤◌, ◌<◌, ◌≡◌, refl, sym, ap, ◌∙◌, arith, ◌==◌, some, Bool,
  Bool-cases, inl, inr, List, [], ◌∷◌, ◌++◌, length, get_elem?, set, take, length-append,
  get_elem?-append_cases, get_elem?-append_left, get_elem?-take, if◌then◌else◌,
}
use aequitas_ledger.Prelude.Words.{word}
use aequitas_ledger.Engine.Accounts.State.{PendingEntry}
use aequitas_ledger.Engine.Accounts.Heap.{
  Queue, deadline, heap_swap, sift_up, sift_down, drop_last, heap_push, heap_pop, heap_remove,
}
use aequitas_ledger.Engine.Accounts.Ranks.{
  IsLinked, rank, Swapped, heap_swap-Swapped, deadline_of-indexed, entry-indexed, some_handle,
  deadline-at,
}
use aequitas_ledger.Engine.Accounts.Sifting.{
  parent, IsHeap, IsHeapUpTo, IsHeapAround, IsSunk, stays, moves, sift_up-IsSifted,
  sift_down-IsSunk, sunk_heap,
}

pub record IsOrdered (q : Queue) : Type 0 where
  pub linked : IsLinked q
  pub heap : IsHeap (length q.expiry) q

length-take : (k : ℕ) (xs : List ℕ) → k ≤ length xs → length (take k xs) ≡ k
length-take zero [] h = refl
length-take zero (x ∷ xs) h = refl
length-take (suc k) [] h = absurd (omega arith)
length-take (suc k) (x ∷ xs) h = ap suc (length-take k xs (omega arith))

get_elem?-take_below : (k i : ℕ) (xs : List ℕ) → i < k → get_elem? (take k xs) i ≡ get_elem? xs i
get_elem?-take_below zero i xs h = absurd (omega arith)
get_elem?-take_below (suc k) i [] h = refl
get_elem?-take_below (suc k) zero (x ∷ xs) h = refl
get_elem?-take_below (suc k) (suc i) (x ∷ xs) h = get_elem?-take_below k i xs (omega arith)

drop_last-rank : (q : Queue) (k : ℕ) → k < length q.expiry - 1 → rank (drop_last q) k ≡ rank q k
unfolding rank drop_last deadline
drop_last-rank q k h =
    rw (rank, deadline, get_elem?-take_below (length q.expiry - 1) k q.expiry h) refl

-- What is left without the last element.
drop_last-IsOrdered :
    (n : ℕ) (q : Queue)
    → length q.expiry ≡ suc n
    → IsLinked q
    → IsHeap n q
    → IsOrdered (drop_last q)
unfolding drop_last
drop_last-IsOrdered n q size v heap =
    let left : length (drop_last q).expiry ≡ n =
      length-take (length q.expiry - 1) q.expiry (omega arith) ∙ omega (arith, size) in
    record {
      linked = λ i h at. v i h (get_elem?-take (length q.expiry - 1) i q.expiry at);
      heap = λ k pos below.
          rw (drop_last-rank q k (omega arith), drop_last-rank q (parent k) (omega arith))
            (heap k pos (omega arith));
    }

-- The last element takes the place of another one.
Swapped-around :
    (i n : ℕ) (q q' : Queue)
    → length q.expiry ≡ suc n
    → i < n
    → IsHeap (length q.expiry) q
    → Swapped i n q q'
    → IsHeapAround i n q'
Swapped-around i n q q' size below heap s = record {
  others = λ k pos below_k ne ne'.
      ground (arith, s.ranks k, s.ranks (parent k), heap k pos (omega arith));
  over = λ k pos below_k here pos_i.
      ground (
        arith,
        s.ranks k,
        s.ranks (parent i),
        heap k pos (omega arith),
        heap i pos_i (omega arith),
      );
}

-- What has not sunk may have to rise.
unsunk_up :
    (i n : ℕ) (q : Queue)
    → IsHeapAround i n q
    → ((k : ℕ) → 0 < k → k < n → parent k ≡ i → rank q i ≤ rank q k)
    → IsHeapUpTo i n q
unsunk_up i n q u least = record {
  others = λ k pos below ne. elim (Bool-cases (parent k == i)) [
    | inl e ↦ let here : parent k ≡ i = ground arith in rw here (least k pos below here)
    | inr e ↦ u.others k pos below (ground arith) ne
  ];
  over = u.over;
}

sunk-IsLinked :
    (i n : ℕ) (q : Queue) (p : Queue × Bool)
    → IsLinked q
    → IsSunk n i q p
    → IsLinked p.0 × (length p.0.expiry ≡ length q.expiry)
sunk-IsLinked i n q p v (stays e least) = rw e (v, refl)
sunk-IsLinked i n q p v (moves e r) = (r.shape.linked, r.shape.size)

-- The heap without the element at `i`, before the last place is dropped.
removed :
    (i n : ℕ) (q : Queue) (p : Queue × Bool)
    → length q.expiry ≡ suc n
    → i < n
    → IsLinked q
    → IsHeapAround i n q
    → IsSunk n i q p
    → IsOrdered (if p.1 then drop_last p.0 else drop_last (sift_up (n + 1) i p.0))
removed i n q p size below v u (moves e r) =
    rw e (drop_last-IsOrdered n p.0 (r.shape.size ∙ size) r.shape.linked r.heap)
removed i n q p size below v u (stays e least) =
    let r =
      sift_up-IsSifted n (n + 1) i q (omega arith) below (omega arith) v
        (unsunk_up i n q u least) in
    rw e (drop_last-IsOrdered n (sift_up (n + 1) i q) (r.shape.size ∙ size) r.shape.linked r.heap)

pub heap_remove-IsOrdered :
    (i : ℕ) (q : Queue) → i < length q.expiry → IsOrdered q → IsOrdered (heap_remove i q)
unfolding heap_remove
heap_remove-IsOrdered i q below o =
    let n = length q.expiry - 1 in
    let size : length q.expiry ≡ suc n = omega arith in
    elim (Bool-cases (n == i)) [
      | inl e ↦
          rw (heap_remove, e)
            (drop_last-IsOrdered n q size o.linked λ k pos below_k. o.heap k pos (omega arith))
      | inr e ↦
          let s = heap_swap-Swapped i n q o.linked below (omega arith) in
          let q' = heap_swap i n q in
          let inside : i < n = ground arith in
          let u = Swapped-around i n q q' size inside o.heap s in
          let sunk =
            sift_down-IsSunk n (n + 1) i q' (omega arith) (omega (arith, s.size)) s.linked u in
          rw (heap_remove, e) (removed i n q' _ (s.size ∙ size) inside s.linked u sunk)
    ]

drop_last-size : (q : Queue) → length (drop_last q).expiry ≡ length q.expiry - 1
unfolding drop_last
drop_last-size q = length-take (length q.expiry - 1) q.expiry (omega arith)

-- Without the top it is one element shorter.
pub heap_pop-IsOrdered :
    (q : Queue)
    → 0 < length q.expiry
    → IsOrdered q
    → IsOrdered (heap_pop q) × (length (heap_pop q).expiry ≡ length q.expiry - 1)
unfolding heap_pop
heap_pop-IsOrdered q some_left o =
    let n = length q.expiry - 1 in
    let size : length q.expiry ≡ suc n = omega arith in
    let s = heap_swap-Swapped 0 n q o.linked some_left (omega arith) in
    let q' = heap_swap 0 n q in
    let u : IsHeapAround 0 n q' = record {
      others = λ k pos below ne ne'.
          ground (arith, s.ranks k, s.ranks (parent k), o.heap k pos (omega arith));
      over = λ k pos below here pos_i. absurd (omega arith);
    } in
    let sunk = sift_down-IsSunk n (n + 1) 0 q' (omega arith) (omega (arith, s.size)) s.linked u in
    let sifted = sift_down (n + 1) 0 n q' in
    let r = sunk_heap n 0 q' sifted s.linked u (λ pos. absurd (omega arith)) sunk in
    (
      drop_last-IsOrdered n sifted.0 (r.shape.size ∙ s.size ∙ size) r.shape.linked r.heap,
      drop_last-size sifted.0 ∙ ap (λ (k : ℕ). k - 1) (r.shape.size ∙ s.size),
    )

pub heap_push-IsOrdered :
    (h : ℕ) (q : Queue) {e : PendingEntry}
    → get_elem? q.entries h ≡ some e
    → IsOrdered q
    → IsOrdered (heap_push h q)
unfolding heap_push rank
heap_push-IsOrdered h q {e} found o =
    let n = length q.expiry in
    let q' : Queue = record {
      entries = set q.entries h (record e { heap_idx = n });
      expiry = q.expiry ++ h ∷ [];
    } in
    let size : length q'.expiry ≡ n + 1 = length-append q.expiry (h ∷ []) in
    let linked : IsLinked q' = λ i k at.
      entry-indexed q.entries h k n e found (elim (get_elem?-append_cases q.expiry h i at) [
        | inl old ↦ o.linked i k old
        | inr (here, same) ↦ (e, ground arith)
      ]) in
    let same : (k : ℕ) → k < n → rank q' k ≡ rank q k = λ k below.
      let (x, at) = some_handle q k below in
      ap (λ (d : ℕ). (d + 2 ^ 63) % word)
        (deadline-at q' k x (get_elem?-append_left q.expiry (h ∷ []) k at)
          ∙ deadline_of-indexed q.entries h x n e found
          ∙ sym (deadline-at q k x at)) in
    let r =
      sift_up-IsSifted (n + 1) (n + 1) n q' (omega arith) (omega arith) (omega (arith, size)) linked
        (record {
          others = λ k pos below ne.
              rw (same k (omega arith), same (parent k) (omega arith)) (o.heap k pos (omega arith));
          over = λ k pos below here pos_n. absurd (omega arith);
        }) in
    rw (heap_push, found)
      (record {
        linked = r.shape.linked;
        heap = λ k pos below. r.heap k pos (omega (arith, r.shape.size, size));
      })
