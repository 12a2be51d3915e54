-- ===== src/Engine/Ring/Interleavings.antt =====
-- The threads of internal/engine/ring_buffer.go, one atomic access at a time. A submission is known
-- by the sequence number that it claimed.
use aequitas_ledger.Prelude.{
  ℕ, ◌+◌, ◌≤◌, ◌<◌, ◌≡◌, true, false, some, List, [], ◌∷◌, ◌++◌, get_elem?,
}
use aequitas_ledger.Prelude.Words.{word}
use aequitas_ledger.Engine.Ring.{
  RingBuffer, Slots, store, slot, is_full, claim, fill, publish, is_ready, take_next, share,
}

-- How far a submission has come after its claim.
pub data Phase : Type 0 where
  claimed filled published : Phase

-- `submitted` has the events in the order of their claims, and `drained` what the consumer took.
pub record Run (A : Type 0) : Type 0 where
  pub ring : RingBuffer A
  pub phase : Slots Phase
  pub submitted : List A
  pub drained : List A

module _ {A : Type 0} where
  abbrev pub claim_run : A → Run A → Run A
  claim_run ev s = record s {
    ring = claim s.ring;
    phase = store s.ring.head claimed s.phase;
    submitted = s.submitted ++ ev ∷ [];
  }

  abbrev pub fill_run : ℕ → A → Run A → Run A
  fill_run h ev s = record s { ring = fill h ev s.ring; phase = store h filled s.phase }

  abbrev pub publish_run : ℕ → Run A → Run A
  publish_run h s = record s { ring = publish h s.ring; phase = store h published s.phase }

  abbrev pub take_run : Run A → Run A
  take_run s = record s {
    ring = take_next s.ring;
    drained = s.drained ++ s.ring.buf (slot s.ring s.ring.tail) ∷ [];
  }

  abbrev pub share_run : Run A → Run A
  share_run s = record s { ring = share s.ring }

  -- A claim compares the head with a shared tail that may be out of date. No counter comes to 2 ^ 64.
  -- The consumer goes on to a head that it has loaded before.
  pub data Step (s : Run A) : Run A → Type 0 where
    claims :
        (ev : A) (t : ℕ)
        → t ≤ s.ring.tail_shared
        → is_full s.ring s.ring.head t ≡ false
        → s.ring.head + 1 < word
        → Step s (claim_run ev s)
    fills :
        (h : ℕ) (ev : A)
        → h < s.ring.head
        → s.phase h ≡ claimed
        → get_elem? s.submitted h ≡ some ev
        → Step s (fill_run h ev s)
    publishes : (h : ℕ) → h < s.ring.head → s.phase h ≡ filled → Step s (publish_run h s)
    takes :
        (head : ℕ)
        → head ≤ s.ring.head
        → s.ring.tail < head
        → is_ready s.ring ≡ true
        → Step s (take_run s)
    shares : Step s (share_run s)

  pub data Reachable (start : Run A) : Run A → Type 0 where
    here : Reachable start start
    next : {s s' : Run A} → Reachable start s → Step s s' → Reachable start s'

  -- A ring that nothing was submitted to.
  abbrev pub idle : RingBuffer A → Run A
  idle r = record { ring = r; phase = λ h. claimed; submitted = []; drained = [] }
