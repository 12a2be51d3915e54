-- ===== src/Engine/Ring/Drains.antt =====
-- What one call of `DrainBatch` (internal/engine/ring_buffer.go) returns.
use aequitas_ledger.Prelude.{
  ℕ, zero, suc, ◌+◌, ◌-◌, ◌%◌, ◌≤◌, ◌<◌, ◌≡◌, refl, sym, ap, ◌∙◌, arith, true, ltb, ◌==◌, ◌||◌,
  Bool-cases, inl, inr, List, [], ◌∷◌, length, ok, take, drop, length-drop, take_ge,
}
use aequitas_ledger.Prelude.Words.{word}
use aequitas_ledger.Engine.Ring.{
  RingBuffer, new_ring_buffer, is_ready, take_next, drain_loop, drain_batch,
}
use aequitas_ledger.Engine.Ring.Slots.{take-drop}
use aequitas_ledger.Engine.Ring.Interleavings.{published, Run, take_run, Reachable, idle}
use aequitas_ledger.Engine.Ring.Order.{IsSound, take-IsSound, Reachable-IsSound, idle-IsSound}

module _ {A : Type 0} where
  -- No submission is in progress.
  pub record IsSettled (s : Run A) : Type 0 where
    pub published_all : (h : ℕ) → h < s.ring.head → s.phase h ≡ published

  ready_at_tail :
      (s : Run A) → IsSound s → IsSettled s → s.ring.tail < s.ring.head → is_ready s.ring ≡ true
  unfolding is_ready
  ready_at_tail s v all b =
      let t = s.ring.tail in
      let one : (t + 1) % word ≡ t + 1 = omega (arith, v.no_wrap) in
      rw one (ground (arith, v.stamped t (omega arith) b (all.published_all t b)))

  drain_loop-take :
      (k : ℕ) (s : Run A)
      → IsSound s
      → IsSettled s
      → s.ring.tail + k ≤ s.ring.head
      → (drain_loop k s.ring.head s.ring).0 ≡ take k (drop s.ring.tail s.submitted)
  unfolding drain_loop take_next
  drain_loop-take zero s v all room = refl
  drain_loop-take (suc k) s v all room =
      let t = s.ring.tail in
      let below : t < s.ring.head = omega arith in
      let ready = ready_at_tail s v all below in
      let one : (t + 1) % word ≡ suc t = omega (arith, v.no_wrap) in
      let event = v.held t (omega arith) below (λ q. cc (all.published_all t below)) in
      let v' = take-IsSound s v s.ring.head (omega arith) below ready in
      let b : ltb t s.ring.head ≡ true = ground arith in
      let rest : (drain_loop k s.ring.head (take_next s.ring)).0
          ≡ take k (drop (suc t) s.submitted) =
        drain_loop-take k (take_run s) v' (record { published_all = all.published_all })
          (rw one (omega arith))
        ∙ ap (λ (i : ℕ). take k (drop i s.submitted)) one in
      rw (drain_loop, ready, b, rest, take-drop k t s.submitted event) refl

  take_none : (k : ℕ) (xs : List A) → (k == 0 || length xs == 0) ≡ true → take k xs ≡ []
  take_none zero xs h = refl
  take_none (suc k) [] h = refl
  take_none (suc k) (x ∷ xs) h = absurd (ground arith)

  drain_batch-take :
      (max : ℕ) (s : Run A)
      → IsSound s
      → IsSettled s
      → (drain_batch max s.ring).0 ≡ take max (drop s.ring.tail s.submitted)
  unfolding drain_batch
  drain_batch-take max s v all =
      let n = s.ring.head - s.ring.tail in
      let waiting = drop s.ring.tail s.submitted in
      let count : length waiting ≡ n =
        omega (arith, length-drop s.ring.tail s.submitted, v.counted) in
      let pending : (s.ring.head + word - s.ring.tail) % word ≡ n =
        omega (arith, v.no_wrap, v.tail_behind) in
      rw pending (elim (Bool-cases (max == 0 || s.ring.head == s.ring.tail)) [
        | inl stop ↦ rw stop (sym (take_none max waiting (ground arith)))
        | inr go ↦ rw go (elim (Bool-cases (ltb n max)) [
          | inl few ↦ rw few (
              drain_loop-take n s v all (omega (arith, v.tail_behind))
              ∙ take_ge n waiting (omega arith)
              ∙ sym (take_ge max waiting (ground arith)))
          | inr many ↦ rw many (drain_loop-take max s v all (ground (arith, v.tail_behind)))
        ])
      ])

  -- However the threads of a new ring interleave, and however late they see each other's counters, as
  -- long as the counters do not wrap: once every submission that was claimed has been published, one
  -- call of `DrainBatch` returns all that were not drained yet, or the first `max` of them if there
  -- are more.
  pub drain_batch_complete :
      (max : ℕ) (nothing : A) (size : ℕ) {r : RingBuffer A} {s : Run A}
      → new_ring_buffer nothing size ≡ ok r
      → Reachable (idle r) s
      → IsSettled s
      → (drain_batch max s.ring).0 ≡ take max (drop s.ring.tail s.submitted)
  drain_batch_complete max nothing size {s = s} e r all =
      drain_batch-take max s (Reachable-IsSound (idle-IsSound nothing size e) r) all
