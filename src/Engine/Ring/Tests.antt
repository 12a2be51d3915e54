-- ===== src/Engine/Ring/Tests.antt =====
-- Runs of internal/engine/ring_buffer.go on a ring of two slots, and the theorems at them.
use aequitas_ledger.Prelude.{ℕ, ◌+◌, ◌≤◌, ◌<◌, ◌≡◌, refl, arith, ok, [], ◌∷◌, length, take}
use aequitas_ledger.Engine.Ring.{
  RingBuffer, new_ring_buffer, is_full, claim, fill, publish, is_ready, take_next, share,
  drain_batch,
}
use aequitas_ledger.Engine.Ring.Interleavings.{
  published, Run, claim_run, fill_run, publish_run, take_run, share_run, Reachable, here, next,
  claims, fills, publishes, takes, shares, idle,
}
use aequitas_ledger.Engine.Ring.Order.{drained_in_order}
use aequitas_ledger.Engine.Ring.Drains.{IsSettled, drain_batch_complete}

abbrev ring : RingBuffer ℕ
ring = record { buf = λ i. 0; ready = λ i. 0; size = 2; head = 0; tail = 0; tail_shared = 0 }

-- Two claims; the second submission is published first.
abbrev two : Run ℕ
two = claim_run 8 (claim_run 7 (idle ring))

abbrev late : Run ℕ
late = publish_run 0 (fill_run 0 7 (publish_run 1 (fill_run 1 8 two)))

abbrev taken : Run ℕ
taken = share_run (take_run late)

late-Reachable : Reachable (idle ring) late
unfolding claim fill publish is_full
late-Reachable =
    next
      (next
        (next
          (next
            (next (next here (claims 7 0 (omega arith) refl (omega arith)))
              (claims 8 0 (omega arith) refl (omega arith)))
            (fills 1 8 (omega arith) refl refl))
          (publishes 1 (omega arith) refl))
        (fills 0 7 (omega arith) refl refl))
      (publishes 0 (omega arith) refl)

taken-Reachable : Reachable (idle ring) taken
unfolding claim fill publish is_ready take_next share
taken-Reachable = next (next late-Reachable (takes 2 (omega arith) (omega arith) refl)) shares

ring-new : new_ring_buffer 0 2 ≡ ok ring
unfolding new_ring_buffer
ring-new = refl

drained_in_order_example :
    (taken.drained ≡ take 1 taken.submitted)
    × (1 ≤ length taken.submitted)
    × (length taken.submitted ≤ 1 + 2)
unfolding claim fill publish take_next share
drained_in_order_example = drained_in_order 0 2 ring-new taken-Reachable

late-IsSettled : IsSettled late
unfolding claim fill publish
late-IsSettled = record { published_all = λ h b. settled h b }
  where
    settled : (h : ℕ) → h < 2 → late.phase h ≡ published
    settled h b = ground arith

drain_batch_complete_example : (drain_batch 5 late.ring).0 ≡ 7 ∷ 8 ∷ []
unfolding claim fill publish
drain_batch_complete_example =
    drain_batch_complete 5 0 2 {s = late} ring-new late-Reachable late-IsSettled
