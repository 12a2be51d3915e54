-- ===== src/Engine/Accounts/Undue.antt =====
-- The queue of deadlines (`expiryHeap` of internal/engine/accounts.go) with none of them due.
use mathlib.Core.Path.{subst}
use aequitas_ledger.Prelude.{
  if_ind, option_ind, get_elem?-set_cases, get_elem?-take, Bool, ◌||◌, not, leb, ◌*◌, ◌/◌, ℕ, zero,
  suc, ◌+◌, ◌-◌, ◌≡◌, ◌∙◌, arith, ◌==◌, true, some, Bool-cases, inl, inr, List, [], ◌∷◌, ◌++◌,
  length, get_elem?, set, get_elem?-set_self, get_elem?-set_ne, get_elem?-append_cases,
}
use aequitas_ledger.Prelude.Words.{signed_less}
use aequitas_ledger.Engine.Accounts.State.{PendingEntry}
use aequitas_ledger.Engine.Accounts.Heap.{
  Queue, place, heap_swap, sift_up, sift_down, heap_push, heap_remove, drop_last, heap_less,
  lesser_child,
}

module _ (now : ℕ) where
  -- The entry with a handle has a deadline after `now`.
  pub record IsLater (entries : List PendingEntry) (h : ℕ) : Type 0 where
    pub entry : PendingEntry
    pub there : get_elem? entries h ≡ some entry
    pub later : signed_less now entry.expires ≡ true

  abbrev pub IsUndue : Queue → Type 0
  IsUndue q = (i h : ℕ) → get_elem? q.expiry i ≡ some h → IsLater q.entries h

  IsLater-indexed :
      (entries : List PendingEntry) (h k i : ℕ) (e : PendingEntry)
      → get_elem? entries h ≡ some e
      → IsLater entries k
      → IsLater (set entries h (record e { heap_idx = i })) k
  IsLater-indexed entries h k i e found l = elim (Bool-cases (h == k)) [
    | inl eq ↦ record {
      entry = record e { heap_idx = i };
      there = ground (arith, get_elem?-set_self entries h (record e { heap_idx = i }) found);
      later = ground (arith, l.there, l.later);
    }
    | inr ne ↦ record {
      entry = l.entry;
      there = get_elem?-set_ne entries h k _ (ground arith) ∙ l.there;
      later = l.later;
    }
  ]

  place-IsUndue : (i h : ℕ) (q : Queue) → IsLater q.entries h → IsUndue q → IsUndue (place i h q)
  unfolding place
  place-IsUndue i h q l v = option_ind IsUndue (get_elem? q.entries h) v λ x e j k found.
      IsLater-indexed q.entries h k i x e (elim (get_elem?-set_cases q.expiry i j h found) [
        | inl same ↦ subst (λ (n : ℕ). IsLater q.entries n) same l
        | inr old ↦ v j k old
      ])

  place-IsLater : (i h k : ℕ) (q : Queue) → IsLater q.entries k → IsLater (place i h q).entries k
  unfolding place
  place-IsLater i h k q l =
      option_ind (λ (p : Queue). IsLater p.entries k) (get_elem? q.entries h) l
        λ x e. IsLater-indexed q.entries h k i x e l

  heap_swap-IsUndue : (i j : ℕ) (q : Queue) → IsUndue q → IsUndue (heap_swap i j q)
  unfolding heap_swap
  heap_swap-IsUndue i j q v = option_ind IsUndue (get_elem? q.expiry i) v λ a e.
      option_ind IsUndue (get_elem? q.expiry j) v λ b e'.
        (place-IsUndue j a (place i b q) (place-IsLater i b a q (v i a e))
          (place-IsUndue i b q (v j b e') v))

  sift_up-IsUndue : (fuel j : ℕ) (q : Queue) → IsUndue q → IsUndue (sift_up fuel j q)
  unfolding sift_up
  sift_up-IsUndue zero j q v = v
  sift_up-IsUndue (suc fuel) j q v =
      let i = (j - 1) / 2 in
      if_ind IsUndue (i == j || not (heap_less q j i)) v
        (sift_up-IsUndue fuel i (heap_swap i j q) (heap_swap-IsUndue i j q v))

  sift_down-IsUndue : (fuel i n : ℕ) (q : Queue) → IsUndue q → IsUndue (sift_down fuel i n q).0
  unfolding sift_down
  sift_down-IsUndue zero i n q v = v
  sift_down-IsUndue (suc fuel) i n q v =
      let j = lesser_child i n q in
      if_ind (λ (p : Queue × Bool). IsUndue p.0) (leb n (2 * i + 1) || not (heap_less q j i)) v
        (sift_down-IsUndue fuel j n (heap_swap i j q) (heap_swap-IsUndue i j q v))

  drop_last-IsUndue : (q : Queue) → IsUndue q → IsUndue (drop_last q)
  unfolding drop_last
  drop_last-IsUndue q v i h found = v i h (get_elem?-take (length q.expiry - 1) i q.expiry found)

  pub heap_remove-IsUndue : (i : ℕ) (q : Queue) → IsUndue q → IsUndue (heap_remove i q)
  unfolding heap_remove
  heap_remove-IsUndue i q v =
      let n = length q.expiry - 1 in
      let sunk = sift_down (n + 1) i n (heap_swap i n q) in
      let u = sift_down-IsUndue (n + 1) i n (heap_swap i n q) (heap_swap-IsUndue i n q v) in
      if_ind IsUndue (n == i) (drop_last-IsUndue q v) (
        if_ind IsUndue sunk.1 (drop_last-IsUndue sunk.0 u)
          (drop_last-IsUndue _ (sift_up-IsUndue (n + 1) i sunk.0 u)))

  pub heap_push-IsUndue :
      (h : ℕ) (q : Queue) → IsLater q.entries h → IsUndue q → IsUndue (heap_push h q)
  unfolding heap_push
  heap_push-IsUndue h q l v = option_ind IsUndue (get_elem? q.entries h) v λ x e.
      let n = length q.expiry in
      (sift_up-IsUndue (n + 1) n
        (record {
          entries = set q.entries h (record x { heap_idx = n });
          expiry = q.expiry ++ h ∷ [];
        })
        λ i k found.
          IsLater-indexed q.entries h k n x e (elim (get_elem?-append_cases q.expiry h i found) [
            | inl old ↦ v i k old
            | inr (here, same) ↦ subst (λ (n : ℕ). IsLater q.entries n) same l
          ]))
