-- ===== src/Engine/Validator/Outcomes.antt =====
-- Outcomes by position, for the loop of `ValidateBatch` (internal/engine/transfers.go).
use aequitas_ledger.Prelude.{
  ℕ, zero, suc, ◌+◌, ◌≤◌, ◌<◌, ◌≡◌, refl, ap, arith, Bool, true, false, ◌&&◌, leb, ltb, ◌==◌, none,
  some, List, [], ◌∷◌, length, length-set, set, if◌then◌else◌, Bool-cases, inl, inr,
}
use aequitas_ledger.Core.Errors.{LedgerError, linked_chain_failed}
use aequitas_ledger.Core.Transfer.{Transfer}
use aequitas_ledger.Engine.Validator.Batch.{Outcome, linked_at, chain_end, set_range, fail_chain}

abbrev pub is_failure : Outcome → Bool
is_failure none = false
is_failure (some e) = true

-- Whether the outcome at a position is an error; beyond the list there is none.
unfoldable pub failed_at : List Outcome → ℕ → Bool
failed_at [] k = false
failed_at (o ∷ os) zero = is_failure o
failed_at (o ∷ os) (suc k) = failed_at os k

pub length-set_range :
    (first last : ℕ) (o : Outcome) (os : List Outcome)
    → length (set_range first last o os) ≡ length os
unfolding set_range
length-set_range first last o [] = refl
length-set_range zero zero o (x ∷ os) = refl
length-set_range zero (suc last) o (x ∷ os) = ap suc (length-set_range zero last o os)
length-set_range (suc first) zero o (x ∷ os) = refl
length-set_range (suc first) (suc last) o (x ∷ os) = ap suc (length-set_range first last o os)

pub failed_at-set_range :
    (first last : ℕ) (o : Outcome) (os : List Outcome) (k : ℕ)
    → last < length os
    → failed_at (set_range first last o os) k
      ≡ (if leb first k && leb k last then is_failure o else failed_at os k)
unfolding set_range failed_at
failed_at-set_range first last o [] k h = absurd (omega arith)
failed_at-set_range zero zero o (x ∷ os) zero h = refl
failed_at-set_range zero zero o (x ∷ os) (suc k) h = ground arith
failed_at-set_range zero (suc last) o (x ∷ os) zero h = ground arith
failed_at-set_range zero (suc last) o (x ∷ os) (suc k) h =
    ground (arith, failed_at-set_range zero last o os k)
failed_at-set_range (suc first) zero o (x ∷ os) zero h = ground arith
failed_at-set_range (suc first) zero o (x ∷ os) (suc k) h = ground arith
failed_at-set_range (suc first) (suc last) o (x ∷ os) zero h = ground arith
failed_at-set_range (suc first) (suc last) o (x ∷ os) (suc k) h =
    ground (arith, failed_at-set_range first last o os k)

failed_at-set :
    (os : List Outcome) (i : ℕ) (e : LedgerError) (k : ℕ)
    → i < length os
    → failed_at (set os i (some e)) k ≡ (if i == k then true else failed_at os k)
unfolding failed_at
failed_at-set [] i e k h = absurd (omega arith)
failed_at-set (o ∷ os) zero e zero h = refl
failed_at-set (o ∷ os) zero e (suc k) h = ground arith
failed_at-set (o ∷ os) (suc i) e zero h = ground arith
failed_at-set (o ∷ os) (suc i) e (suc k) h = ground (arith, failed_at-set os i e k)

module _ (first last i : ℕ) (t : Transfer) (e : LedgerError) (os : List Outcome) where
  pub length-fail_chain : length (fail_chain first last i t e os) ≡ length os
  unfolding fail_chain
  length-fail_chain = rw length-set (length-set_range first last _ os)

  -- All outcomes of the chain are errors, and the others are what they were.
  pub failed_at-fail_chain :
      (k : ℕ)
      → first ≤ i
      → i ≤ last
      → last < length os
      → failed_at (fail_chain first last i t e os) k
        ≡ (if leb first k && leb k last then true else failed_at os k)
  unfolding fail_chain
  failed_at-fail_chain k h h' h'' =
      let chain = set_range first last (some (linked_chain_failed t.id i)) os in
      ground (
        arith,
        length-set_range first last (some (linked_chain_failed t.id i)) os,
        failed_at-set_range first last (some (linked_chain_failed t.id i)) os k,
        failed_at-set chain i e k,
      )

-- Where a chain ends: what is before it is linked, and it is not, unless it is the batch's last.
pub record ChainEnd (events : List Transfer) (i last : ℕ) : Type 0 where
  pub from : i ≤ last
  pub below : last < length events
  pub linked : (k : ℕ) → i ≤ k → k < last → linked_at events k ≡ true
  pub ends : linked_at events last ≡ true → suc last ≡ length events

pub chain_end-ChainEnd :
    (fuel : ℕ) (events : List Transfer) (i : ℕ)
    → i < length events
    → length events ≤ fuel + i
    → ChainEnd events i (chain_end fuel events i)
unfolding chain_end
chain_end-ChainEnd zero events i h enough = absurd (omega arith)
chain_end-ChainEnd (suc fuel) events i h enough =
    elim (Bool-cases (linked_at events i && ltb (i + 1) (length events))) [
      | inl more ↦
          let c = chain_end-ChainEnd fuel events (i + 1) (ground arith) (omega arith) in
          rw more (record {
            from = omega (arith, c.from);
            below = c.below;
            linked = λ k a b. elim (Bool-cases (i == k)) [
              | inl same ↦ let here : i ≡ k = ground arith in rw (← here) (ground arith)
              | inr other ↦ c.linked k (ground arith) b
            ];
            ends = c.ends;
          })
      | inr last ↦ rw last (record {
        from = omega arith;
        below = h;
        linked = λ k a b. absurd (omega arith);
        ends = λ l. ground arith;
      })
    ]
