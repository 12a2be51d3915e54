-- ===== src/Engine/Validator/Tests.antt =====
-- Runs of internal/engine/transfers.go on small batches, and the theorem at a concrete one.
use aequitas_ledger.Prelude.{ℕ, ◌≡◌, refl, List, [], ◌∷◌, Bool, true, false}
use aequitas_ledger.Prelude.Maps.{lookup, insert, remove}
use aequitas_ledger.Core.Uint128.{add, sub, cmp, is_zero}
use aequitas_ledger.Core.Account.{
  Account, zero128, balance, available_balance, is_frozen, is_closed,
}
use aequitas_ledger.Core.Transfer.{
  Transfer, has_flag, has_unknown_flags, is_pending, is_post, is_void, is_linked,
}
use aequitas_ledger.Engine.Accounts.{
  AccountManager, new_account_manager, create, get, get_transfer, pending_entry, check_flags,
  check_settlement, check_accounts, check_funds, post_debit, post_credit, hold_debit, hold_credit,
  settle_debit, settle_credit, release_debit, release_credit, assert_balance,
  subtract_pending_amount,
}
use aequitas_ledger.Engine.Validator.{
  begin_chain, rollback_chain, get_account, snapshot_account, snapshot_pending, stage,
  stage_pending, claim_id, find_hold, settle_sides, settle, write_sides, enter, validate_and_apply,
  linked_at, chain_end, set_range, fail_chain, validate_from, validate_batch,
}
use aequitas_ledger.Engine.Validator.Outcomes.{failed_at}
use aequitas_ledger.Engine.Validator.Chains.{IsAtomic, validate_batch-IsAtomic}

abbrev account : ℕ → ℕ → Account
account id funds = record {
  id = id;
  currency = 840;
  ledger = 1;
  code = 0;
  flags = 0;
  user_data128 = 0;
  posted_debits = zero128;
  posted_credits = record { lo = funds; hi = 0 };
  pending_debits = zero128;
  pending_credits = zero128;
}

abbrev transfer : ℕ → ℕ → ℕ → Transfer
transfer id amount flags = record {
  id = id;
  debit_account_id = 1;
  credit_account_id = 2;
  amount = record { lo = amount; hi = 0 };
  idempotency_key = 0;
  user_data128 = 0;
  timestamp = 10;
  timeout = 0;
  ledger = 1;
  code = 0;
  flags = flags;
}

abbrev book : AccountManager
book = (create (account 2 0) (create (account 1 100) new_account_manager).1).1

-- A chain of two whose second transfer lacks funds, and a single one that needs what the chain would
-- have taken.
abbrev batch : List Transfer
batch = transfer 7 60 8 ∷ transfer 8 60 0 ∷ transfer 9 100 0 ∷ []

verdicts : ℕ → Bool
unfolding validate_batch validate_from fail_chain set_range chain_end linked_at validate_and_apply
    enter write_sides settle settle_sides find_hold claim_id stage_pending stage snapshot_pending
    snapshot_account get_account rollback_chain begin_chain check_flags check_settlement
    check_accounts check_funds post_debit post_credit hold_debit hold_credit settle_debit
    settle_credit release_debit release_credit assert_balance subtract_pending_amount pending_entry
    get_transfer get create lookup insert remove has_flag has_unknown_flags is_pending is_post
    is_void is_linked is_frozen is_closed balance available_balance add sub cmp is_zero failed_at
verdicts = failed_at (validate_batch batch book)

verdicts_test : ((verdicts 0 ≡ true) × (verdicts 1 ≡ true)) × (verdicts 2 ≡ false)
unfolding verdicts
verdicts_test = ((refl, refl), refl)

validate_batch-IsAtomic_example : IsAtomic batch (validate_batch batch book)
validate_batch-IsAtomic_example = validate_batch-IsAtomic batch book
