-- ===== src/Engine/Accounts/Ranks.antt =====
-- The deadlines in the queue of internal/engine/accounts.go by position, and what the moves of the
-- heap make of them.
use aequitas_ledger.Prelude.{
  ℕ, ◌+◌, ◌%◌, ◌^◌, ◌<◌, ◌≡◌, refl, ◌∙◌, arith, ◌==◌, some, none, Option-cases, Bool-cases, inl,
  inr, List, length, get_elem?, set, length-set, get_elem?-set_self, get_elem?-set_ne,
  get_elem?-none, get_elem?-set_cases, if◌then◌else◌,
}
use aequitas_ledger.Prelude.Words.{word}
use aequitas_ledger.Engine.Accounts.State.{PendingEntry}
use aequitas_ledger.Engine.Accounts.Heap.{Queue, deadline, place, heap_swap}

abbrev pub deadline_of : List PendingEntry → ℕ → ℕ
deadline_of entries h = elim (get_elem? entries h) [ none ↦ 0 | some e ↦ e.expires ]

-- Every queued handle has an entry.
abbrev pub IsLinked : Queue → Type 0
IsLinked q =
    (i h : ℕ)
    → get_elem? q.expiry i ≡ some h
    → (e : PendingEntry) × (get_elem? q.entries h ≡ some e)

pub deadline_of-indexed :
    (entries : List PendingEntry) (h k i : ℕ) (e : PendingEntry)
    → get_elem? entries h ≡ some e
    → deadline_of (set entries h (record e { heap_idx = i })) k ≡ deadline_of entries k
deadline_of-indexed entries h k i e found = elim (Bool-cases (h == k)) [
  | inl eq ↦ ground (arith, get_elem?-set_self entries h (record e { heap_idx = i }) found)
  | inr ne ↦ ground (arith, get_elem?-set_ne entries h k (record e { heap_idx = i }) (ground arith))
]

pub entry-indexed :
    (entries : List PendingEntry) (h k i : ℕ) (e : PendingEntry)
    → get_elem? entries h ≡ some e
    → (x : PendingEntry) × (get_elem? entries k ≡ some x)
    → (x : PendingEntry) × (get_elem? (set entries h (record e { heap_idx = i })) k ≡ some x)
entry-indexed entries h k i e found (x, there) = elim (Bool-cases (h == k)) [
  | inl eq ↦ (
    record e { heap_idx = i },
    ground (arith, get_elem?-set_self entries h (record e { heap_idx = i }) found),
  )
  | inr ne ↦ (x, get_elem?-set_ne entries h k _ (ground arith) ∙ there)
]

-- One element of the heap is written: the handle of an entry, over an older one.
record Placed (i h : ℕ) (q q' : Queue) : Type 0 where
  linked : IsLinked q'
  size : length q'.expiry ≡ length q.expiry
  ends : (k : ℕ) → deadline_of q'.entries k ≡ deadline_of q.entries k
  kept :
      (k : ℕ)
      → (e : PendingEntry) × (get_elem? q.entries k ≡ some e)
      → (e : PendingEntry) × (get_elem? q'.entries k ≡ some e)
  moved : (k : ℕ) → get_elem? q'.expiry k ≡ (if k == i then some h else get_elem? q.expiry k)

place-Placed :
    (i h : ℕ) (q : Queue) {old : ℕ} {e : PendingEntry}
    → IsLinked q
    → get_elem? q.entries h ≡ some e
    → get_elem? q.expiry i ≡ some old
    → Placed i h q (place i h q)
unfolding place
place-Placed i h q {old} {e} v found there =
    rw (place, found)
      (record {
        linked = λ k x at.
            entry-indexed q.entries h x i e found (elim (get_elem?-set_cases q.expiry i k h at) [
              | inl same ↦ (e, ground arith)
              | inr before ↦ v k x before
            ]);
        size = length-set q.expiry i h;
        ends = λ k. deadline_of-indexed q.entries h k i e found;
        kept = λ k there. entry-indexed q.entries h k i e found there;
        moved = λ k. elim (Bool-cases (k == i)) [
          | inl eq ↦ ground (arith, get_elem?-set_self q.expiry i h there)
          | inr ne ↦ ground (arith, get_elem?-set_ne q.expiry i k h (ground arith))
        ];
      })

-- The order of int64 values as that of natural numbers.
unfoldable pub rank : Queue → ℕ → ℕ
rank q i = (deadline q i + 2 ^ 63) % word

pub record Swapped (i j : ℕ) (q q' : Queue) : Type 0 where
  pub linked : IsLinked q'
  pub size : length q'.expiry ≡ length q.expiry
  pub ranks :
      (k : ℕ) → rank q' k ≡ (if k == i then rank q j else if k == j then rank q i else rank q k)

pub some_handle :
    (q : Queue) (i : ℕ) → i < length q.expiry → (h : ℕ) × (get_elem? q.expiry i ≡ some h)
some_handle q i h = elim (Option-cases (get_elem? q.expiry i)) [
  | inl e ↦ absurd (omega (arith, get_elem?-none q.expiry i e))
  | inr found ↦ found
]

pub deadline-at :
    (q : Queue) (i h : ℕ) → get_elem? q.expiry i ≡ some h → deadline q i ≡ deadline_of q.entries h
unfolding deadline
deadline-at q i h e = ground arith

module _ (i j : ℕ) (q : Queue) {a b : ℕ} (at_i : get_elem? q.expiry i ≡ some a)
    (at_j : get_elem? q.expiry j ≡ some b) where
  swap-opened : heap_swap i j q ≡ place j a (place i b q)
  unfolding heap_swap
  swap-opened = rw (heap_swap, at_i, at_j) refl

  deadline-swap :
      (q₁ q₂ : Queue)
      → Placed i b q q₁
      → Placed j a q₁ q₂
      → (k : ℕ)
      → deadline q₂ k
        ≡ (if k == i then deadline q j else if k == j then deadline q i else deadline q k)
  unfolding deadline
  deadline-swap q₁ q₂ p₁ p₂ k =
      let final_end : (h : ℕ) → deadline_of q₂.entries h ≡ deadline_of q.entries h =
        λ h. p₂.ends h ∙ p₁.ends h in
      elim (Bool-cases (k == j)) [
        | inl e ↦ ground (arith, p₂.moved k, final_end a)
        | inr e ↦ elim (Bool-cases (k == i)) [
          | inl e' ↦ ground (arith, p₂.moved k, p₁.moved k, final_end b)
          | inr e' ↦ elim (Option-cases (get_elem? q.expiry k)) [
            | inl x ↦ ground (arith, p₂.moved k, p₁.moved k)
            | inr (h, x) ↦ ground (arith, p₂.moved k, p₁.moved k, final_end h)
          ]
        ]
      ]

-- Two elements of the heap are swapped, with their deadlines.
pub heap_swap-Swapped :
    (i j : ℕ) (q : Queue)
    → IsLinked q
    → i < length q.expiry
    → j < length q.expiry
    → Swapped i j q (heap_swap i j q)
unfolding rank
heap_swap-Swapped i j q v below_i below_j =
    let (a, at_i) = some_handle q i below_i in
    let (b, at_j) = some_handle q j below_j in
    let (e, found_b) = v j b at_j in
    let p₁ = place-Placed i b q v found_b at_i in
    let q₁ = place i b q in
    let (f, found_a) = p₁.kept a (v i a at_i) in
    let (o, still) = some_handle q₁ j (omega (arith, p₁.size)) in
    let p₂ = place-Placed j a q₁ p₁.linked found_a still in
    rw (swap-opened i j q at_i at_j) (record {
      linked = p₂.linked;
      size = p₂.size ∙ p₁.size;
      ranks = λ k. ground (arith, deadline-swap i j q at_i at_j q₁ (place j a q₁) p₁ p₂ k);
    })
