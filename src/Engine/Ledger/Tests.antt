-- ===== src/Engine/Ledger/Tests.antt =====
-- A call of internal/engine/ledger.go over a log that fails.
use aequitas_ledger.Prelude.{ℕ, ◌≡◌, refl, arith, false, some, none, [], ◌∷◌, ok, err}
use aequitas_ledger.Prelude.Maps.{lookup, insert, remove}
use aequitas_ledger.Core.Uint128.{add, sub, cmp, is_zero}
use aequitas_ledger.Core.Account.{
  Account, zero128, balance, available_balance, is_frozen, is_closed,
}
use aequitas_ledger.Core.Transfer.{
  Transfer, has_flag, has_unknown_flags, is_pending, is_post, is_void, is_linked,
}
use aequitas_ledger.Core.Errors.{idempotency_conflict}
use aequitas_ledger.Wal.Log.{Log}
use aequitas_ledger.Engine.Accounts.{
  AccountManager, new_account_manager, create, get, get_transfer, set_clock, close_expired,
  close_loop, pending_entry, check_flags, check_settlement, check_accounts, check_funds, post_debit,
  post_credit, assert_balance,
}
use aequitas_ledger.Engine.Validator.{
  begin_chain, rollback_chain, get_account, snapshot_account, snapshot_pending, stage,
  stage_pending, claim_id, find_hold, settle_sides, settle, write_sides, enter, validate_and_apply,
  linked_at, chain_end, set_range, fail_chain, validate_from, validate_batch,
}
use aequitas_ledger.Engine.Idempotency.Between.{untouched, reserving}
use aequitas_ledger.Engine.Idempotency.{
  IdempotencyStore, conflict, check_and_reserve, peek, reserve, find, evict_expired,
}
use aequitas_ledger.Engine.Loop.{
  EventLoop, unlogged, append_synced, log_records, tick, next_clock, make_wal_records,
  process_batch,
}
use aequitas_ledger.Engine.Loop.Runs.{logged}
use aequitas_ledger.Engine.Ledger.{failure, create_transfers}
use aequitas_ledger.Engine.Ledger.Keys.{unlogged_key_stuck}

abbrev account : ℕ → ℕ → Account
account id funds = record {
  id = id;
  currency = 840;
  ledger = 1;
  code = 0;
  flags = 0;
  user_data128 = 0;
  posted_debits = zero128;
  posted_credits = record { lo = funds; hi = 0 };
  pending_debits = zero128;
  pending_credits = zero128;
}

abbrev transfer : Transfer
transfer = record {
  id = 7;
  debit_account_id = 1;
  credit_account_id = 2;
  amount = record { lo = 60; hi = 0 };
  idempotency_key = 5;
  user_data128 = 0;
  timestamp = 0;
  timeout = 0;
  ledger = 1;
  code = 0;
  flags = 0;
}

-- A disk that is full.
abbrev full_log : Log
full_log = record {
  State = Unit {0};
  Fault = Unit {0};
  append = λ rs s. (err tt, s);
  sync = λ s. (ok tt, s);
  last = λ s. 0;
}

abbrev book : AccountManager
book = (create (account 2 0) (create (account 1 100) new_account_manager).1).1

abbrev serving : EventLoop full_log
serving = record { accounts = book; log = tt; current_lsn = 0; clock = 0 }

abbrev no_keys : IdempotencyStore
no_keys = record { max_size = 10; ttl = 100; entries = [] }

abbrev reserved_key : IdempotencyStore
reserved_key = record no_keys { entries = record { key = 5; result = none; expires_at = 103 } ∷ [] }

-- Another caller reserves key 6.
abbrev other_key : IdempotencyStore
other_key = (reserve 50 6 reserved_key).1

unlogged_key_stuck_example :
    (create_transfers false
        (3 ∷ [])
        4
        (λ ts. (process_batch full_log 10 ts serving).0)
        (transfer ∷ [])
        no_keys
      ≡ some (ok (failure (unlogged tt) ∷ []), reserved_key))
    × (check_and_reserve 1_000_000 5 other_key ≡ (conflict (idempotency_conflict 5), other_key))
unfolding check_and_reserve peek reserve find evict_expired log_records append_synced logged tick
    close_expired close_loop set_clock next_clock make_wal_records create lookup insert remove get
    validate_batch validate_from fail_chain set_range chain_end linked_at validate_and_apply enter
    write_sides settle settle_sides find_hold claim_id stage_pending stage snapshot_pending
    snapshot_account get_account rollback_chain begin_chain check_flags check_settlement
    check_accounts check_funds post_debit post_credit assert_balance pending_entry get_transfer
    has_flag has_unknown_flags is_pending is_post is_void is_linked is_frozen is_closed balance
    available_balance add sub cmp is_zero
unlogged_key_stuck_example =
    unlogged_key_stuck full_log 3 10 4 1_000_000 [] transfer serving no_keys other_key tt refl refl
      refl (reserving reserved_key reserved_key 50 6 (untouched reserved_key) (omega arith))
