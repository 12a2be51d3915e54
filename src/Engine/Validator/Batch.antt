-- ===== src/Engine/Validator/Batch.antt =====
-- `ValidateBatch` and `ApplyBatch` of internal/engine/transfers.go. An outcome is an error or none.
use aequitas_ledger.Prelude.{
  ℕ, zero, suc, ◌+◌, Bool, true, false, ◌&&◌, ltb, ◌==◌, Option, none, some, List, [], ◌∷◌, length,
  get_elem?, set, replicate, ok, err, if◌then◌else◌,
}
use aequitas_ledger.Core.Errors.{LedgerError, linked_chain_failed, linked_chain_open}
use aequitas_ledger.Core.Transfer.{Transfer, is_linked}
use aequitas_ledger.Engine.Accounts.{AccountManager, apply_transfer_state}
use aequitas_ledger.Engine.Validator.Staging.{
  BatchValidator, new_batch_validator, begin_chain, rollback_chain,
}
use aequitas_ledger.Engine.Validator.Step.{validate_and_apply}

abbrev pub Outcome : Type 0
Outcome = Option LedgerError

-- `events[i].Transfer.Flags & TransferFlagLinked != 0`; beyond the batch nothing is linked.
unfoldable pub linked_at : List Transfer → ℕ → Bool
linked_at events i = elim (get_elem? events i) [ none ↦ Bool.false | some t ↦ is_linked t ]

-- The last transfer of the chain that passes through `i`, or the last of the batch.
unfoldable pub chain_end : ℕ → List Transfer → ℕ → ℕ
chain_end zero events i = i
chain_end (suc fuel) events i =
    let next = chain_end fuel events (i + 1) in
    if linked_at events i && ltb (i + 1) (length events) then next else i

-- The outcomes from `first` to `last` are replaced.
unfoldable pub set_range : ℕ → ℕ → Outcome → List Outcome → List Outcome
set_range first last o [] = []
set_range zero zero o (x ∷ xs) = o ∷ xs
set_range zero (suc last) o (x ∷ xs) = o ∷ set_range zero last o xs
set_range (suc first) zero o (x ∷ xs) = x ∷ xs
set_range (suc first) (suc last) o (x ∷ xs) = x ∷ set_range first last o xs

-- The chain from `first` to `last` has failed at `i`.
unfoldable pub fail_chain : ℕ → ℕ → ℕ → Transfer → LedgerError → List Outcome → List Outcome
fail_chain first last i t e outcomes =
    set (set_range first last (some (linked_chain_failed t.id i)) outcomes) i (some e)

-- One round of the loop for each chain or transfer.
unfoldable pub validate_from :
    ℕ → List Transfer → ℕ → ℕ → BatchValidator → List Outcome → List Outcome
validate_from zero events i chain_start v outcomes = outcomes
validate_from (suc fuel) events i chain_start v outcomes = elim (get_elem? events i) [
  | none ↦ outcomes
  | some t ↦
      let (r, v') = validate_and_apply t i (if i == chain_start then begin_chain v else v) in
      elim r [
        | err e ↦
            let last = chain_end (length events) events i in
            validate_from fuel events (last + 1) (last + 1) (rollback_chain v')
              (fail_chain chain_start last i t e outcomes)
        | ok u ↦ elim (is_linked t) [
          | false ↦
              validate_from fuel events (i + 1) (i + 1) v' (set_range chain_start i none outcomes)
          | true ↦ elim (i + 1 == length events) [
            | true ↦ fail_chain chain_start i i t (linked_chain_open t.id i) outcomes
            | false ↦ validate_from fuel events (i + 1) chain_start v' outcomes
          ]
        ]
      ]
]

unfoldable pub validate_batch : List Transfer → AccountManager → List Outcome
validate_batch events m =
    validate_from (length events) events 0 0 (new_batch_validator m)
      (replicate (length events) none)

-- The transfers with no error are applied in order; a rejection becomes the outcome.
unfoldable pub apply_batch :
    List Transfer → List Outcome → AccountManager → List Outcome × AccountManager
apply_batch [] outcomes m = (outcomes, m)
apply_batch (t ∷ ts) [] m = ([], m)
apply_batch (t ∷ ts) (some e ∷ os) m = let (os', m') = apply_batch ts os m in (some e ∷ os', m')
apply_batch (t ∷ ts) (none ∷ os) m =
    let (r, m₁) = apply_transfer_state t m in
    let (os', m') = apply_batch ts os m₁ in ((elim r [ ok u ↦ none | err e ↦ some e ]) ∷ os', m')
