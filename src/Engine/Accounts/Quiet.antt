-- ===== src/Engine/Accounts/Quiet.antt =====
-- Applied transfers (internal/engine/accounts.go) leave nothing due that was not due before, so
-- `CloseExpired` finds nothing to close at the same time.
use aequitas_ledger.Prelude.{
  Bool, ℕ, zero, suc, ◌+◌, ◌%◌, ◌≡◌, refl, ◌∙◌, arith, ◌==◌, ltb, true, some, Option-cases,
  Bool-cases, inl, inr, List, [], ◌∷◌, ◌++◌, length, get_elem?, set, get_elem?-set_self,
  get_elem?-set_ne, get_elem?-append_end, get_elem?-append_left, if◌then◌else◌,
}
use aequitas_ledger.Prelude.Words.{word, signed_less}
use aequitas_ledger.Core.Transfer.{Transfer}
use aequitas_ledger.Engine.Accounts.State.{AccountManager, PendingEntry, set_clock}
use aequitas_ledger.Engine.Accounts.Heap.{Queue, heap_push}
use aequitas_ledger.Engine.Accounts.Apply.{queue_of, apply_transfer_state}
use aequitas_ledger.Engine.Accounts.Expiry.{close_loop, close_expired}
use aequitas_ledger.Engine.Accounts.Keeps.{apply-Keeps}
use aequitas_ledger.Engine.Accounts.Queued.{hold_of, allocated, IsStable, IsStable-kept}
use aequitas_ledger.Engine.Accounts.Undue.{IsLater, IsUndue, heap_push-IsUndue, heap_remove-IsUndue}

-- The deadline of a transfer's hold, if it has a timeout, is after `now`; the sum is an int64.
unfoldable pub outlives : ℕ → Transfer → Bool
outlives now t =
    if ltb 0 t.timeout then signed_less now ((t.timestamp + t.timeout) % word) else true

module _ (now : ℕ) where
  -- The clock is at `now`, and no queued hold is due.
  pub record IsQuiet (m : AccountManager) : Type 0 where
    pub time : m.clock ≡ now
    pub undue : IsUndue now (queue_of m)

  IsLater-rewritten :
      (entries : List PendingEntry) (h k : ℕ) (e : PendingEntry) (t : Transfer)
      → get_elem? entries h ≡ some e
      → IsLater now entries k
      → IsLater now (set entries h (record e { transfer = t })) k
  IsLater-rewritten entries h k e t found l = elim (Bool-cases (h == k)) [
    | inl eq ↦ record {
      entry = record e { transfer = t };
      there = ground (arith, get_elem?-set_self entries h (record e { transfer = t }) found);
      later = ground (arith, l.there, l.later);
    }
    | inr ne ↦ record {
      entry = l.entry;
      there = get_elem?-set_ne entries h k _ (ground arith) ∙ l.there;
      later = l.later;
    }
  ]

  IsLater-append :
      (entries : List PendingEntry) (e : PendingEntry) (k : ℕ)
      → IsLater now entries k
      → IsLater now (entries ++ e ∷ []) k
  IsLater-append entries e k l = record {
    entry = l.entry;
    there = get_elem?-append_left entries (e ∷ []) k l.there;
    later = l.later;
  }

  allocated-IsUndue : (t : Transfer) (q : Queue) → IsUndue now q → IsUndue now (allocated t q)
  allocated-IsUndue t q v i k found = IsLater-append q.entries (hold_of t) k (v i k found)

  push-IsUndue :
      (t : Transfer) (q : Queue)
      → outlives now t ≡ true
      → ltb 0 t.timeout ≡ true
      → IsUndue now q
      → IsUndue now (heap_push (length q.entries) (allocated t q))
  unfolding outlives
  push-IsUndue t q h e v =
      heap_push-IsUndue now (length q.entries) (allocated t q)
        (record {
          entry = hold_of t;
          there = get_elem?-append_end q.entries (hold_of t);
          later = ground arith;
        })
        (allocated-IsUndue t q v)

  Undue-IsStable :
      (t : Transfer)
      → outlives now t ≡ true
      → IsStable t (λ (clock : ℕ) (q : Queue). (clock ≡ now) × IsUndue now q)
  Undue-IsStable t h = record {
    removes = λ clock i q below v. (v.0, heap_remove-IsUndue now i q v.1);
    rewrites = λ clock h p q found v.
        (v.0, λ i k there. IsLater-rewritten q.entries h k _ p found (v.1 i k there));
    allocates = λ clock q v. (v.0, allocated-IsUndue t q v.1);
    pushes = λ clock q e v. (v.0, push-IsUndue t q h e v.1);
  }

  -- At a quiet moment a transfer leaves a quiet moment, if its hold, if it has one, lasts.
  pub apply-IsQuiet :
      (t : Transfer) (m : AccountManager)
      → outlives now t ≡ true
      → IsQuiet m
      → IsQuiet (apply_transfer_state t m).1
  apply-IsQuiet t m h v =
      let (time, undue) = apply-Keeps _ (IsStable-kept (Undue-IsStable t h)) m (v.time, v.undue) in
      record { time = time; undue = undue }

  close_loop-IsQuiet : (fuel : ℕ) (m : AccountManager) → IsQuiet m → close_loop fuel m ≡ m
  unfolding close_loop
  close_loop-IsQuiet zero m v = refl
  close_loop-IsQuiet (suc fuel) m v = elim (Option-cases (get_elem? m.expiry 0)) [
    | inl e ↦ rw (close_loop, e) refl
    | inr (h, e) ↦
        let l = v.undue 0 h e in
        let later : signed_less m.clock l.entry.expires ≡ true = rw v.time l.later in
        rw (close_loop, e, l.there, later) refl
  ]

  -- At a quiet moment nothing is closed.
  pub close_expired-IsQuiet : (m : AccountManager) → IsQuiet m → close_expired (set_clock now m) ≡ m
  unfolding close_expired set_clock
  close_expired-IsQuiet m v =
      let same : set_clock now m ≡ m = rw (← v.time) refl in
      rw same (close_loop-IsQuiet (length m.expiry) m v)
