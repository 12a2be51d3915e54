-- ===== src/Engine/Accounts/Deadlines.antt =====
-- `CloseExpired` of internal/engine/accounts.go on a queue that is a heap.
mod Tests
use mathlib.Core.Path.{subst}
use aequitas_ledger.Prelude.{
  ℕ, zero, suc, ◌+◌, ◌-◌, ◌%◌, ◌^◌, ◌≤◌, ◌<◌, ◌≡◌, refl, sym, ap, ◌∙◌, arith, ltb, true, false,
  some, none, Option-cases, Bool-cases, inl, inr, List, [], ◌∷◌, ◌++◌, length, get_elem?, lt-length,
  set, get_elem?-none, get_elem?-append_left, get_elem?-append_end, get_elem?-set_self,
  get_elem?-set_ne, ◌==◌, option_ind, if◌then◌else◌,
}
use aequitas_ledger.Prelude.Words.{word, signed_less}
use aequitas_ledger.Prelude.Maps.{remove, lookup}
use aequitas_ledger.Core.Transfer.{Transfer}
use aequitas_ledger.Engine.Accounts.State.{AccountManager, PendingEntry, set_clock, put}
use aequitas_ledger.Engine.Accounts.Heap.{Queue, deadline, heap_push, heap_remove, heap_pop}
use aequitas_ledger.Engine.Accounts.Apply.{
  queue_of, with_queue, release_pending, apply_transfer_state, open_hold,
}
use aequitas_ledger.Engine.Accounts.Expiry.{close_hold, close_loop, close_expired}
use aequitas_ledger.Engine.Accounts.Keeps.{apply-Keeps, release_pending-Keeps, IsKept}
use aequitas_ledger.Engine.Accounts.Queued.{
  hold_of, allocated, IsStable, IsStable-kept, open_hold-Here,
}
use aequitas_ledger.Engine.Accounts.Undue.{IsLater, IsUndue}
use aequitas_ledger.Engine.Accounts.Quiet.{IsQuiet}
use aequitas_ledger.Engine.Accounts.Ranks.{rank, deadline_of, deadline-at, some_handle}
use aequitas_ledger.Engine.Accounts.Sifting.{parent, IsHeap}
use aequitas_ledger.Engine.Accounts.Order.{
  IsOrdered, heap_remove-IsOrdered, heap_pop-IsOrdered, heap_push-IsOrdered,
}

-- No element of a heap comes before its top.
top_least : (fuel n : ℕ) (q : Queue) → IsHeap n q → (k : ℕ) → k < fuel → k < n → rank q 0 ≤ rank q k
top_least zero n q heap k enough below = absurd (omega arith)
top_least (suc fuel) n q heap zero enough below = omega arith
top_least (suc fuel) n q heap (suc k) enough below = omega (
  arith,
  top_least fuel n q heap (parent (suc k)) (omega arith) (omega arith),
  heap (suc k) (omega arith) below,
)

-- An entry that is still there, with its deadline.
record IsSame (old new : List PendingEntry) (h : ℕ) : Type 0 where
  entry : PendingEntry
  there : get_elem? new h ≡ some entry
  ends : entry.expires ≡ deadline_of old h

rank-entries :
    (q : Queue) (entries : List PendingEntry) (k h : ℕ)
    → get_elem? q.expiry k ≡ some h
    → IsSame q.entries entries h
    → rank (record q { entries = entries }) k ≡ rank q k
unfolding rank
rank-entries q entries k h at s =
    ap (λ (d : ℕ). (d + 2 ^ 63) % word)
      (deadline-at (record q { entries = entries }) k h at
        ∙ (ground (arith, s.there, s.ends))
        ∙ sym (deadline-at q k h at))

IsOrdered-entries :
    (q : Queue) (entries : List PendingEntry)
    → ((i h : ℕ) → get_elem? q.expiry i ≡ some h → IsSame q.entries entries h)
    → IsOrdered q
    → IsOrdered (record q { entries = entries })
IsOrdered-entries q entries same o = record {
  linked = λ i h at. let s = same i h at in (s.entry, s.there);
  heap = λ k pos below.
      let (h, at) = some_handle q k below in
      let (h', at') = some_handle q (parent k) (omega arith) in
      rw
        (
          rank-entries q entries k h at (same k h at),
          rank-entries q entries (parent k) h' at' (same (parent k) h' at'),
        )
        (o.heap k pos below);
}

rewritten-IsSame :
    (entries : List PendingEntry) (h k : ℕ) (e : PendingEntry) (p : Transfer)
    → get_elem? entries h ≡ some e
    → (x : PendingEntry) × (get_elem? entries k ≡ some x)
    → IsSame entries (set entries h (record e { transfer = p })) k
rewritten-IsSame entries h k e p found (x, there) = elim (Bool-cases (h == k)) [
  | inl eq ↦ record {
    entry = record e { transfer = p };
    there = ground (arith, get_elem?-set_self entries h (record e { transfer = p }) found);
    ends = ground arith;
  }
  | inr ne ↦ record {
    entry = x;
    there = get_elem?-set_ne entries h k _ (ground arith) ∙ there;
    ends = ground arith;
  }
]

allocated-IsOrdered : (t : Transfer) (q : Queue) → IsOrdered q → IsOrdered (allocated t q)
allocated-IsOrdered t q o =
    IsOrdered-entries q (q.entries ++ hold_of t ∷ [])
      (λ i h at.
        let (e, there) = o.linked i h at in
        record {
          entry = e;
          there = get_elem?-append_left q.entries (hold_of t ∷ []) h there;
          ends = ground arith;
        })
      o

Ordered-IsStable : (t : Transfer) → IsStable t (λ (clock : ℕ) (q : Queue). IsOrdered q)
Ordered-IsStable t = record {
  removes = λ clock i q below o. heap_remove-IsOrdered i q below o;
  rewrites = λ clock h p q found o.
      IsOrdered-entries q _ (λ i k at. rewritten-IsSame q.entries h k _ p found (o.linked i k at))
        o;
  allocates = λ clock q o. allocated-IsOrdered t q o;
  pushes = λ clock q e o.
      heap_push-IsOrdered (length q.entries) (allocated t q)
        (get_elem?-append_end q.entries (hold_of t)) (allocated-IsOrdered t q o);
}

-- A transfer leaves the queue a heap, whether it is applied, refused, or fails on the way.
pub apply-IsOrdered :
    (t : Transfer) (m : AccountManager)
    → IsOrdered (queue_of m)
    → IsOrdered (queue_of (apply_transfer_state t m).1)
apply-IsOrdered t m o = apply-Keeps _ (IsStable-kept (Ordered-IsStable t)) m o

pub open_hold-IsOrdered :
    (t : Transfer) (m : AccountManager)
    → IsOrdered (queue_of m)
    → IsOrdered (queue_of (open_hold t m))
open_hold-IsOrdered t m o = open_hold-Here (Ordered-IsStable t) m o

-- The release of a hold is a matter of the accounts.
record SameQueue (m m' : AccountManager) : Type 0 where
  clock : m'.clock ≡ m.clock
  queue : queue_of m' ≡ queue_of m

release-SameQueue : (p : Transfer) (m : AccountManager) → SameQueue m (release_pending p m).1
unfolding put
release-SameQueue p m =
    release_pending-Keeps (SameQueue m)
      (λ id a m' v.
        option_ind (SameQueue m) (lookup id m'.index) v
          λ i e. record { clock = v.clock; queue = v.queue })
      p m (record { clock = refl; queue = refl })

-- One hold is closed: the queue is a heap, and one element shorter.
record Closed (m m' : AccountManager) : Type 0 where
  clock : m'.clock ≡ m.clock
  ordered : IsOrdered (queue_of m')
  size : length m'.expiry ≡ length m.expiry - 1

close_hold-Closed :
    (t : Transfer) (m : AccountManager)
    → 0 < length m.expiry
    → IsOrdered (queue_of m)
    → Closed m (close_hold t m)
unfolding close_hold
close_hold-Closed t m some_left o =
    let (ordered, size) = heap_pop-IsOrdered (queue_of m) some_left o in
    let popped = with_queue m (heap_pop (queue_of m)) in
    let s = release-SameQueue t (record popped { pending = remove t.id popped.pending }) in
    record {
      clock = s.clock;
      ordered = subst IsOrdered (sym s.queue) ordered;
      size = ap (λ (q : Queue). length q.expiry) s.queue ∙ size;
    }

-- The queue is a heap, and nothing in it is due.
pub record IsCurrent (now : ℕ) (m : AccountManager) : Type 0 where
  pub quiet : IsQuiet now m
  pub ordered : IsOrdered (queue_of m)

empty-IsCurrent :
    (m : AccountManager) → length m.expiry ≡ 0 → IsOrdered (queue_of m) → IsCurrent m.clock m
empty-IsCurrent m none_left o = record {
  quiet = record { time = refl; undue = λ i h at. absurd (omega (arith, lt-length m.expiry i at)) };
  ordered = o;
}

-- Where the top is not due, nothing is.
top-IsCurrent :
    (m : AccountManager) (h : ℕ) (e : PendingEntry)
    → get_elem? m.expiry 0 ≡ some h
    → get_elem? m.entries h ≡ some e
    → signed_less m.clock e.expires ≡ true
    → IsOrdered (queue_of m)
    → IsCurrent m.clock m
unfolding rank
top-IsCurrent m h e at there later o = record {
  quiet = record {
    time = refl;
    undue = λ i k at_i.
        let (x, found) = o.linked i k at_i in
        record {
          entry = x;
          there = found;
          later = ground (
            arith,
            top_least (i + 1) (length m.expiry) (queue_of m) o.heap i (omega arith)
                (lt-length m.expiry i at_i),
            deadline-at (queue_of m) 0 h at,
            deadline-at (queue_of m) i k at_i,
          );
        };
  };
  ordered = o;
}

close_loop-IsCurrent :
    (fuel : ℕ) (m : AccountManager)
    → length m.expiry ≤ fuel
    → IsOrdered (queue_of m)
    → IsCurrent m.clock (close_loop fuel m)
unfolding close_loop
close_loop-IsCurrent zero m enough o = empty-IsCurrent m (omega arith) o
close_loop-IsCurrent (suc fuel) m enough o = elim (Option-cases (get_elem? m.expiry 0)) [
  | inl none_left ↦
      rw (close_loop, none_left)
        (empty-IsCurrent m (omega (arith, get_elem?-none m.expiry 0 none_left)) o)
  | inr (h, at) ↦
      let (e, there) = o.linked 0 h at in
      elim (Bool-cases (signed_less m.clock e.expires)) [
        | inl later ↦ rw (close_loop, at, there, later) (top-IsCurrent m h e at there later o)
        | inr due ↦
            let c = close_hold-Closed e.transfer m (omega (arith, lt-length m.expiry 0 at)) o in
            rw (close_loop, at, there, due)
              (subst (λ (n : ℕ). IsCurrent n (close_loop fuel (close_hold e.transfer m))) c.clock
                (close_loop-IsCurrent fuel (close_hold e.transfer m) (omega (arith, c.size))
                  c.ordered))
      ]
]

-- If the queue of deadlines is a heap, it is one after `CloseExpired` at a new clock, and every hold
-- that is still queued has a deadline after the clock.
pub close_expired-IsCurrent :
    (now : ℕ) (m : AccountManager)
    → IsOrdered (queue_of m)
    → IsCurrent now (close_expired (set_clock now m))
unfolding close_expired set_clock
close_expired-IsCurrent now m o =
    close_loop-IsCurrent (length m.expiry) (set_clock now m) (omega arith) o
