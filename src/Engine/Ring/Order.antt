-- ===== src/Engine/Ring/Order.antt =====
-- No event of internal/engine/ring_buffer.go is lost, drained twice or out of order.
use aequitas_ledger.Prelude.{
  ℕ, suc, ◌+◌, ◌-◌, ◌%◌, ◌≤◌, ◌<◌, ◌≡◌, ◌≢◌, refl, sym, ◌∙◌, arith, true, false, ◌==◌, ◌!=◌, ◌||◌,
  Bool-cases, inl, inr, ok, some, [], ◌∷◌, length, length-append, get_elem?, get_elem?-append_left,
  take,
}
use aequitas_ledger.Prelude.Words.{word}
use aequitas_ledger.Engine.Ring.{
  RingBuffer, new_ring_buffer, is_full, claim, fill, publish, is_ready, take_next, share,
}
use Prim.Native.Nat.{bit_and}
use native.Mathlib.Decide.{dec_lt}
use aequitas_ledger.Engine.Ring.Slots.{slot_inj, take-append_le, take-suc}
use aequitas_ledger.Engine.Ring.Interleavings.{
  claimed, filled, published, Run, claim_run, fill_run, publish_run, take_run, share_run, Step,
  claims, fills, publishes, takes, shares, Reachable, here, next, idle,
}

module _ {A : Type 0} where
  pub record IsSound (s : Run A) : Type 0 where
    pub shared_behind : s.ring.tail_shared ≤ s.ring.tail
    pub tail_behind : s.ring.tail ≤ s.ring.head
    pub room : s.ring.head ≤ s.ring.tail_shared + s.ring.size
    pub no_wrap : s.ring.head < word
    pub counted : length s.submitted ≡ s.ring.head
    pub in_order : s.drained ≡ take s.ring.tail s.submitted
    pub marks_low : (j : ℕ) → s.ring.ready j ≤ s.ring.head
    pub marked :
        (h : ℕ) → h < s.ring.head → s.ring.ready (h % s.ring.size) ≡ h + 1 → s.phase h ≡ published
    pub stamped :
        (h : ℕ)
        → s.ring.tail ≤ h
        → h < s.ring.head
        → s.phase h ≡ published
        → s.ring.ready (h % s.ring.size) ≡ h + 1
    pub taken : (h : ℕ) → h < s.ring.tail → s.phase h ≡ published
    pub held :
        (h : ℕ)
        → s.ring.tail ≤ h
        → h < s.ring.head
        → s.phase h ≢ claimed
        → get_elem? s.submitted h ≡ some (s.ring.buf (h % s.ring.size))

  module _ (s : Run A) (v : IsSound s) where
    claim_room :
        (t : ℕ)
        → t ≤ s.ring.tail_shared
        → is_full s.ring s.ring.head t ≡ false
        → s.ring.head + 1 ≤ s.ring.tail_shared + s.ring.size
    unfolding is_full
    claim_room t h e = ground (arith, v.shared_behind, v.tail_behind, v.no_wrap)

    claim-IsSound :
        (ev : A) (t : ℕ)
        → t ≤ s.ring.tail_shared
        → is_full s.ring s.ring.head t ≡ false
        → s.ring.head + 1 < word
        → IsSound (claim_run ev s)
    unfolding claim
    claim-IsSound ev t h e small =
        let n = s.ring.head in
        let one : (n + 1) % word ≡ n + 1 = omega arith in
        rw one (record {
          shared_behind = v.shared_behind;
          tail_behind = omega (arith, v.tail_behind);
          room = claim_room t h e;
          no_wrap = small;
          counted = omega (arith, length-append s.submitted (ev ∷ []), v.counted);
          in_order =
              v.in_order
              ∙ sym (
                  take-append_le s.ring.tail s.submitted (ev ∷ [])
                    (omega (arith, v.counted, v.tail_behind)));
          marks_low = λ j. omega (arith, v.marks_low j);
          marked = λ j b m. ground (arith, v.marked j, v.marks_low (j % s.ring.size));
          stamped = λ j a b p. ground (arith, v.stamped j a);
          taken = λ j b. ground (arith, v.taken j b, v.tail_behind);
          held = λ j a b ne. elim (Bool-cases (j == n)) [
            | inl last ↦ absurd (ne (rw last refl))
            | inr other ↦
                get_elem?-append_left s.submitted (ev ∷ []) j
                  (v.held j a (ground arith) (rw other at ne))
          ];
        })

    -- A submission in progress is not behind the tail.
    in_window : (h : ℕ) → s.phase h ≢ published → s.ring.tail ≤ h
    in_window h ne = elim (dec_lt h s.ring.tail) [
      | yes p ↦ absurd (ne (v.taken h p))
      | no p ↦ omega arith
    ]

    same_slot :
        (h j : ℕ)
        → s.ring.tail ≤ h
        → h < s.ring.head
        → s.ring.tail ≤ j
        → j < s.ring.head
        → h % s.ring.size ≡ j % s.ring.size
        → h ≡ j
    same_slot h j a b c d =
        slot_inj s.ring.size s.ring.tail h j a (omega (arith, v.shared_behind, v.room)) c
          (omega (arith, v.shared_behind, v.room))

    fill-IsSound :
        (h : ℕ) (ev : A)
        → h < s.ring.head
        → s.phase h ≡ claimed
        → get_elem? s.submitted h ≡ some ev
        → IsSound (fill_run h ev s)
    unfolding fill
    fill-IsSound h ev b p e =
        let ahead : s.ring.tail ≤ h = in_window h (λ q. cc) in
        record {
          shared_behind = v.shared_behind;
          tail_behind = v.tail_behind;
          room = v.room;
          no_wrap = v.no_wrap;
          counted = v.counted;
          in_order = v.in_order;
          marks_low = v.marks_low;
          marked = λ j c m. ground (arith, v.marked j);
          stamped = λ j c d q. ground (arith, v.stamped j c d);
          taken = λ j c. ground (arith, v.taken j);
          held = λ j c d ne. elim (Bool-cases (j == h)) [
            | inl same ↦ let one : j ≡ h = ground arith in ground arith
            | inr other ↦ ground (arith, v.held j c d, same_slot h j ahead b c d)
          ];
        }

    publish-IsSound : (h : ℕ) → h < s.ring.head → s.phase h ≡ filled → IsSound (publish_run h s)
    unfolding publish
    publish-IsSound h b p =
        let ahead : s.ring.tail ≤ h = in_window h (λ q. cc) in
        let one : (h + 1) % word ≡ h + 1 = omega (arith, v.no_wrap) in
        rw one (record {
          shared_behind = v.shared_behind;
          tail_behind = v.tail_behind;
          room = v.room;
          no_wrap = v.no_wrap;
          counted = v.counted;
          in_order = v.in_order;
          marks_low = λ j. ground (arith, v.marks_low j);
          marked = λ j c m. ground (arith, v.marked j);
          stamped = λ j c d q. ground (arith, v.stamped j c d, same_slot h j ahead b c d);
          taken = λ j c. ground (arith, v.taken j);
          held = λ j c d ne. ground (arith, v.held j c d);
        })

    pub take-IsSound :
        (head : ℕ)
        → head ≤ s.ring.head
        → s.ring.tail < head
        → is_ready s.ring ≡ true
        → IsSound (take_run s)
    unfolding take_next is_ready
    take-IsSound head b c ready =
        let t = s.ring.tail in
        let one : (t + 1) % word ≡ suc t = omega (arith, v.no_wrap, v.tail_behind) in
        let mark : s.phase t ≡ published = v.marked t (omega arith) (ground arith) in
        let event = v.held t (omega arith) (omega arith) (λ q. cc) in
        rw one (record {
          shared_behind = omega (arith, v.shared_behind);
          tail_behind = omega arith;
          room = v.room;
          no_wrap = v.no_wrap;
          counted = v.counted;
          in_order = rw (v.in_order, take-suc t s.submitted event) refl;
          marks_low = v.marks_low;
          marked = v.marked;
          stamped = λ j d e q. v.stamped j (omega arith) e q;
          taken = λ j d. ground (arith, v.taken j);
          held = λ j d e ne. v.held j (omega arith) e ne;
        })

    share-IsSound : IsSound (share_run s)
    unfolding share
    share-IsSound = record {
      shared_behind = omega arith;
      tail_behind = v.tail_behind;
      room = omega (arith, v.room, v.shared_behind);
      no_wrap = v.no_wrap;
      counted = v.counted;
      in_order = v.in_order;
      marks_low = v.marks_low;
      marked = v.marked;
      stamped = v.stamped;
      taken = v.taken;
      held = v.held;
    }

  Step-IsSound : {s s' : Run A} → IsSound s → Step s s' → IsSound s'
  Step-IsSound {s} v (claims ev t h e b) = claim-IsSound s v ev t h e b
  Step-IsSound {s} v (fills h ev b p e) = fill-IsSound s v h ev b p e
  Step-IsSound {s} v (publishes h b p) = publish-IsSound s v h b p
  Step-IsSound {s} v (takes head b c r) = take-IsSound s v head b c r
  Step-IsSound {s} v shares = share-IsSound s v

  pub Reachable-IsSound : {s s' : Run A} → IsSound s → Reachable s s' → IsSound s'
  Reachable-IsSound v here = v
  Reachable-IsSound v (next r st) = Step-IsSound (Reachable-IsSound v r) st

  fresh-IsSound :
      (nothing : A) (size : ℕ)
      → IsSound (
          idle (record {
            buf = λ i. nothing;
            ready = λ i. 0;
            size = size;
            head = 0;
            tail = 0;
            tail_shared = 0;
          }))
  fresh-IsSound nothing size = record {
    shared_behind = omega arith;
    tail_behind = omega arith;
    room = omega arith;
    no_wrap = omega arith;
    counted = refl;
    in_order = refl;
    marks_low = λ j. omega arith;
    marked = λ h b m. absurd (omega arith);
    stamped = λ h a b p. cc;
    taken = λ h b. absurd (omega arith);
    held = λ h a b ne. absurd (ne refl);
  }

  pub idle-IsSound :
      (nothing : A) (size : ℕ) {r : RingBuffer A}
      → new_ring_buffer nothing size ≡ ok r
      → IsSound (idle r)
  unfolding new_ring_buffer
  idle-IsSound nothing size {r} e = elim (Bool-cases (size == 0 || bit_and size (size - 1) != 0)) [
    | inl bad ↦ absurd (ground arith)
    | inr good ↦
        let fresh : RingBuffer A = record {
          buf = λ i. nothing;
          ready = λ i. 0;
          size = size;
          head = 0;
          tail = 0;
          tail_shared = 0;
        } in
        let same : fresh ≡ r = ground arith in rw (← same) (fresh-IsSound nothing size)
  ]

  -- However the threads of a new ring interleave, and however late they see each other's counters, as
  -- long as the counters do not wrap: the events that were drained are the first ones that were
  -- submitted, each once, in the order of their claims; no more are submitted than were drained and
  -- shared, and as many as the ring's size.
  pub drained_in_order :
      (nothing : A) (size : ℕ) {r : RingBuffer A} {s : Run A}
      → new_ring_buffer nothing size ≡ ok r
      → Reachable (idle r) s
      → (s.drained ≡ take s.ring.tail s.submitted)
        × (s.ring.tail ≤ length s.submitted)
        × (length s.submitted ≤ s.ring.tail_shared + s.ring.size)
  drained_in_order nothing size e r =
      let v = Reachable-IsSound (idle-IsSound nothing size e) r in
      (v.in_order, omega (arith, v.counted, v.tail_behind), omega (arith, v.counted, v.room))
