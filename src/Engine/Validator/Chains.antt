-- ===== src/Engine/Validator/Chains.antt =====
-- Linked chains in `ValidateBatch` (internal/engine/transfers.go): they pass or fail as a whole.
use aequitas_ledger.Prelude.{
  ℕ, zero, suc, ◌+◌, ◌≤◌, ◌<◌, ◌≡◌, refl, arith, true, false, ◌==◌, none, some, Option-cases,
  Result-cases, List, length, get_elem?, get_elem?-none, lt-length, length-replicate, replicate,
  if◌then◌else◌, Bool-cases, inl, inr,
}
use aequitas_ledger.Core.Errors.{LedgerError, linked_chain_open}
use aequitas_ledger.Core.Transfer.{Transfer, is_linked}
use aequitas_ledger.Engine.Accounts.{AccountManager}
use aequitas_ledger.Engine.Validator.Staging.{
  BatchValidator, new_batch_validator, begin_chain, rollback_chain,
}
use aequitas_ledger.Engine.Validator.Step.{validate_and_apply}
use aequitas_ledger.Engine.Validator.Batch.{
  Outcome, linked_at, chain_end, set_range, fail_chain, validate_from, validate_batch,
}
use aequitas_ledger.Engine.Validator.Outcomes.{
  failed_at, length-set_range, failed_at-set_range, length-fail_chain, failed_at-fail_chain,
  ChainEnd, chain_end-ChainEnd,
}

-- A linked transfer has failed if and only if the next one has; a linked transfer at the end of the
-- batch has failed.
pub record IsAtomic (events : List Transfer) (outcomes : List Outcome) : Type 0 where
  pub complete : length outcomes ≡ length events
  pub together :
      (k : ℕ)
      → suc k < length events
      → linked_at events k ≡ true
      → failed_at outcomes k ≡ failed_at outcomes (suc k)
  pub closed :
      (k : ℕ) → suc k ≡ length events → linked_at events k ≡ true → failed_at outcomes k ≡ true

-- The loop at transfer `i` of the chain that starts at `start`.
record Scan (events : List Transfer) (i start : ℕ) (outcomes : List Outcome) : Type 0 where
  complete : length outcomes ≡ length events
  started : start ≤ i
  inside : i ≤ length events
  whole : i ≡ length events → start ≡ length events
  untouched : (k : ℕ) → start ≤ k → failed_at outcomes k ≡ false
  together :
      (k : ℕ)
      → suc k < start
      → linked_at events k ≡ true
      → failed_at outcomes k ≡ failed_at outcomes (suc k)
  boundary :
      (k : ℕ)
      → suc k ≡ start
      → linked_at events k ≡ true
      → (start ≡ length events) × (failed_at outcomes k ≡ true)

module _ (events : List Transfer) (i start : ℕ) (os : List Outcome)
    (s : Scan events i start os) where
  finished : length events ≤ i → IsAtomic events os
  finished h =
      let end : i ≡ length events = omega (arith, s.inside) in
      let all : start ≡ length events = s.whole end in
      record {
        complete = s.complete;
        together = λ k b l. s.together k (omega arith) l;
        closed = λ k b l. (s.boundary k (omega arith) l).1;
      }

  -- The chain through `i` has failed, and ends at `last`.
  failed :
      (last : ℕ) (t : Transfer) (e : LedgerError)
      → i < length events
      → ChainEnd events i last
      → Scan events (last + 1) (last + 1) (fail_chain start last i t e os)
  failed last t e h c =
      let same = length-fail_chain start last i t e os in
      let now = λ (k : ℕ).
        failed_at-fail_chain start last i t e os k s.started c.from
          (omega (arith, s.complete, c.below)) in
      record {
        complete = omega (arith, same, s.complete);
        started = omega arith;
        inside = omega (arith, c.below);
        whole = λ end. end;
        untouched = λ k a. ground (arith, now k, s.untouched k, s.started, c.from);
        together = λ k a l.
            ground
              (arith, now k, now (suc k), s.together k, s.boundary k, s.started, c.from, c.below);
        boundary = λ k a l.
            let last_one : last ≡ k = omega arith in
            let linked : linked_at events last ≡ true = rw last_one l in
            (omega (arith, c.ends linked), ground (arith, now k, s.started, c.from));
      }

  -- The chain has passed and ends at `i`.
  passed :
      i < length events
      → linked_at events i ≡ false
      → Scan events (i + 1) (i + 1) (set_range start i none os)
  passed h last =
      let same = length-set_range start i none os in
      let now = λ (k : ℕ). failed_at-set_range start i none os k (omega (arith, s.complete)) in
      record {
        complete = omega (arith, same, s.complete);
        started = omega arith;
        inside = omega arith;
        whole = λ end. end;
        untouched = λ k a. ground (arith, now k, s.untouched k, s.started);
        together = λ k a l. ground (
          arith,
          now k,
          now (suc k),
          s.together k,
          s.boundary k,
          s.started,
          s.untouched k,
          s.untouched (suc k),
        );
        boundary = λ k a l.
            let last_one : i ≡ k = omega arith in
            let linked : linked_at events i ≡ true = rw last_one l in absurd (ground arith);
      }

  -- The chain goes on after `i`.
  continued : suc i < length events → linked_at events i ≡ true → Scan events (i + 1) start os
  continued h linked = record {
    complete = s.complete;
    started = omega (arith, s.started);
    inside = omega arith;
    whole = λ end. absurd (omega arith);
    untouched = s.untouched;
    together = s.together;
    boundary = s.boundary;
  }

  -- The chain has passed, but the batch ends where it should go on.
  cut_off :
      (t : Transfer) (e : LedgerError)
      → suc i ≡ length events
      → IsAtomic events (fail_chain start i i t e os)
  cut_off t e end =
      let same = length-fail_chain start i i t e os in
      let now = λ (k : ℕ).
        failed_at-fail_chain start i i t e os k s.started (omega arith)
          (omega (arith, s.complete)) in
      record {
        complete = omega (arith, same, s.complete);
        together =
            λ k a l. ground (arith, now k, now (suc k), s.together k, s.boundary k, s.started);
        closed = λ k a l. ground (arith, now k, s.started);
      }

failed_at-replicate : (n k : ℕ) → failed_at (replicate n none) k ≡ false
unfolding failed_at
failed_at-replicate zero k = refl
failed_at-replicate (suc n) zero = refl
failed_at-replicate (suc n) (suc k) = failed_at-replicate n k

linked_at-found :
    (events : List Transfer) (i : ℕ) (t : Transfer)
    → get_elem? events i ≡ some t
    → linked_at events i ≡ is_linked t
unfolding linked_at
linked_at-found events i t found = rw (linked_at, found) refl

-- With no chain begun, the loop gives whole chains, whatever was staged before.
validate_from-IsAtomic :
    (fuel : ℕ) (events : List Transfer) (i start : ℕ) (v : BatchValidator) (os : List Outcome)
    → Scan events i start os
    → length events ≤ fuel + i
    → IsAtomic events (validate_from fuel events i start v os)
unfolding validate_from
validate_from-IsAtomic zero events i start v os s enough =
    finished events i start os s (omega (arith, enough))
validate_from-IsAtomic (suc fuel) events i start v os s enough =
    elim (Option-cases (get_elem? events i)) [
      | inl none_left ↦
          rw (validate_from, none_left)
            (finished events i start os s (get_elem?-none events i none_left))
      | inr (t, found) ↦
          let below : i < length events = lt-length events i found in
          let step = validate_and_apply t i (if i == start then begin_chain v else v) in
          let last = chain_end (length events) events i in
          let ends : ChainEnd events i last =
            chain_end-ChainEnd (length events) events i below (omega arith) in
          let here : linked_at events i ≡ is_linked t = linked_at-found events i t found in
          rw (validate_from, found)
            (elim (Result-cases step.0) [
              | inl (u, passes) ↦ rw passes (elim (Bool-cases (is_linked t)) [
                | inl chained ↦ rw chained (elim (Bool-cases (i + 1 == length events)) [
                  | inl at_end ↦
                      rw at_end
                        (cut_off events i start os s t (linked_chain_open t.id i) (ground arith))
                  | inr more ↦ rw more (
                      validate_from-IsAtomic fuel events (i + 1) start step.1 os
                        (continued events i start os s (ground arith) (cc)) (omega (arith, enough)))
                ])
                | inr single ↦ rw single (
                    validate_from-IsAtomic fuel events (i + 1) (i + 1) step.1
                      (set_range start i none os) (passed events i start os s below (cc))
                      (omega (arith, enough)))
              ])
              | inr (e, fails) ↦ rw fails (
                  validate_from-IsAtomic fuel events (last + 1) (last + 1) (rollback_chain step.1)
                    (fail_chain start last i t e os)
                    (failed events i start os s last t e below ends) (omega (arith, ends.from)))
            ])
    ]

-- `ValidateBatch` gives one outcome for each transfer of the batch. A linked transfer has an error
-- if and only if the next one has, and a linked transfer at the end of the batch has an error.
pub validate_batch-IsAtomic :
    (events : List Transfer) (m : AccountManager) → IsAtomic events (validate_batch events m)
unfolding validate_batch
validate_batch-IsAtomic events m =
    validate_from-IsAtomic (length events) events 0 0 (new_batch_validator m)
      (replicate (length events) none)
      (record {
        complete = length-replicate (length events) none;
        started = omega arith;
        inside = omega arith;
        whole = λ end. end;
        untouched = λ k a. failed_at-replicate (length events) k;
        together = λ k a l. absurd (omega arith);
        boundary = λ k a l. absurd (omega arith);
      })
      (omega arith)
