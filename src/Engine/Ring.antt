-- ===== src/Engine/Ring.antt =====
-- internal/engine/ring_buffer.go: the ring through which many submitters hand events to one event
-- loop. `Interleavings` has the steps of its threads, `Slots` and `Order` prove.
-- The signalling of arrivals (`arriveChan`, `signalArrived`) wakes a waiting loop and is left out.
pub mod Interleavings
pub mod Slots
pub mod Order
pub mod Drains
mod Tests
use aequitas_ledger.Prelude.{
  ℕ, zero, suc, ◌+◌, ◌-◌, ◌%◌, Bool, ◌&&◌, ◌||◌, ltb, leb, ◌==◌, ◌!=◌, List, [], ◌∷◌, Result, ok,
  err, if◌then◌else◌,
}
use aequitas_ledger.Prelude.Words.{word}
use Prim.Native.Nat.{bit_and}
use aequitas_ledger.Core.Errors.{LedgerError, invalid_ring_buffer_size, buffer_full}

-- An array, by its index; all indices in use are below the size.
abbrev pub Slots : Type 0 → Type 0
Slots A = ℕ → A

abbrev pub store : {A : Type 0} → ℕ → A → Slots A → Slots A
store i v s = λ j. if j == i then v else s j

-- `cap` is the size. `tail` is the consumer's own, `tail_shared` what submitters see of it.
pub record RingBuffer (A : Type 0) : Type 0 where
  pub buf : Slots A
  pub ready : Slots ℕ
  pub size : ℕ
  pub head : ℕ
  pub tail : ℕ
  pub tail_shared : ℕ

module _ {A : Type 0} where
  -- `nothing` is the zero value of an event.
  unfoldable pub new_ring_buffer : A → ℕ → Result LedgerError (RingBuffer A)
  new_ring_buffer nothing size =
      if size == 0 || bit_and size (size - 1) != 0
      then err (invalid_ring_buffer_size size)
      else ok (record {
        buf = λ i. nothing;
        ready = λ i. 0;
        size = size;
        head = 0;
        tail = 0;
        tail_shared = 0;
      })

  -- `h & rb.mask`: the size is a power of two, and the mask one less.
  abbrev pub slot : RingBuffer A → ℕ → ℕ
  slot r h = h % r.size

  -- `h - t >= rb.cap`, for values that were loaded.
  unfoldable pub is_full : RingBuffer A → ℕ → ℕ → Bool
  is_full r h t = leb r.size ((h + word - t) % word)

  -- The parts of `Submit`: the swap of the head, the write to the slot, and its publication.
  unfoldable pub claim : RingBuffer A → RingBuffer A
  claim r = record r { head = (r.head + 1) % word }

  unfoldable pub fill : ℕ → A → RingBuffer A → RingBuffer A
  fill h ev r = record r { buf = store (slot r h) ev r.buf }

  unfoldable pub publish : ℕ → RingBuffer A → RingBuffer A
  publish h r = record r { ready = store (slot r h) ((h + 1) % word) r.ready }

  -- `Submit` that no other thread interrupts.
  unfoldable pub submit : A → RingBuffer A → Result LedgerError (RingBuffer A)
  submit ev r =
      if is_full r r.head r.tail_shared
      then err buffer_full
      else ok (publish r.head (fill r.head ev (claim r)))

  -- One round of the loop in `DrainBatch`, if the slot at the tail is ready.
  unfoldable pub is_ready : RingBuffer A → Bool
  is_ready r = r.ready (slot r r.tail) == (r.tail + 1) % word

  unfoldable pub take_next : RingBuffer A → RingBuffer A
  take_next r = record r { tail = (r.tail + 1) % word }

  -- The loop: at most `max` events, up to the head that was loaded.
  unfoldable pub drain_loop : ℕ → ℕ → RingBuffer A → List A × RingBuffer A
  drain_loop zero head r = ([], r)
  drain_loop (suc max) head r =
      let rest = drain_loop max head (take_next r) in
      if ltb r.tail head && is_ready r then (r.buf (slot r r.tail) ∷ rest.0, rest.1) else ([], r)

  unfoldable pub share : RingBuffer A → RingBuffer A
  share r = record r { tail_shared = r.tail }

  -- `DrainBatch` that no submitter interrupts; `max` is not negative.
  unfoldable pub drain_batch : ℕ → RingBuffer A → List A × RingBuffer A
  drain_batch max r =
      let pending = (r.head + word - r.tail) % word in
      let (out, r') = drain_loop (if ltb pending max then pending else max) r.head r in
      if max == 0 || r.head == r.tail then ([], r) else (out, share r')

  -- `Len`
  unfoldable pub len : RingBuffer A → ℕ
  len r = if ltb r.head r.tail_shared then 0 else r.head - r.tail_shared
