-- ===== src/Engine/Loop/Tests.antt =====
-- Runs of internal/engine/loop.go on the log of internal/wal, and the theorems at concrete inputs. The
-- checksum is 0.
use aequitas_ledger.Prelude.{
  ℕ, ◌+◌, ◌^◌, ◌<◌, ◌≡◌, refl, arith, some, List, [], ◌∷◌, length, ok, err,
}
use aequitas_ledger.Prelude.Maps.{lookup, insert, remove}
use aequitas_ledger.Prelude.Bytes.{put_be, skip, zeros}
use aequitas_ledger.Core.Uint128.{add, sub, cmp, is_zero}
use aequitas_ledger.Core.Account.{
  Account, zero128, balance, available_balance, is_frozen, is_closed,
}
use aequitas_ledger.Core.Transfer.{
  Transfer, has_flag, has_unknown_flags, is_pending, is_post, is_void, is_linked,
}
use aequitas_ledger.Core.Codec.{append_transfer_payload, append_account_payload}
use aequitas_ledger.Core.Codec.RoundTrip.{IsSized, IsSizedAccount}
use aequitas_ledger.Wal.Log.{Log, wal_log}
use aequitas_ledger.Wal.Records.{frame_body, frame, append_frame, append_commit_frame}
use aequitas_ledger.Wal.Segments.{is_full, write, sync, open_segment}
use aequitas_ledger.Wal.Writer.{
  Wal, rotate, with_room, write_buffered, joined, frame_ends, last_fitting, slice, encode_from,
  append_batch, sync_log, segments, reset,
}
use aequitas_ledger.Engine.Accounts.{
  AccountManager, new_account_manager, create, get, put, set_clock, close_expired, close_loop,
  get_transfer, pending_entry, update, check_flags, check_settlement, check_new, check_accounts,
  check_funds, check_transfer, post_debit, post_credit, assert_balance, apply_debit, apply_credit,
  post_immediate, record_transfer, apply_plain, apply_transfer_state, validate_account, queue_of,
  apply_pending, reserve_pending, apply_pending_debit, apply_pending_credit, hold_debit,
  hold_credit, open_hold, heap_push, sift_up, apply_post, settle_hold, move_pending, settle_debit,
  settle_credit, remove_pending, leave_queue, heap_remove, replace_hold, subtract_pending_amount,
  complete_from, drop_last,
}
use aequitas_ledger.Engine.Validator.{
  begin_chain, rollback_chain, get_account, snapshot_account, snapshot_pending, stage,
  stage_pending, claim_id, find_hold, settle_sides, settle, write_sides, enter, validate_and_apply,
  linked_at, chain_end, set_range, fail_chain, validate_from, validate_batch, apply_batch,
}
use aequitas_ledger.Engine.Loop.{
  EventLoop, append_synced, log_records, tick, next_clock, check_create, account_records,
  transfer_record, make_wal_records, process_account_create, process_batch, create_all,
}
use aequitas_ledger.Engine.Accounts.Order.{IsOrdered}
use aequitas_ledger.Engine.Accounts.Quiet.{outlives}
use aequitas_ledger.Engine.Idempotency.{IdempotencyStore, new_idempotency_store}
use aequitas_ledger.Core.Errors.{pending_not_found}
use aequitas_ledger.Engine.Recover.{recover_record, replay_clock, unapplied}
use aequitas_ledger.Engine.Loop.Replay.{IsStamped, replay}
use aequitas_ledger.Engine.Loop.Overflows.{overflow_unreplayable}
use aequitas_ledger.Wal.Recovery.Appended.{numbered, batch_bytes}
use aequitas_ledger.Engine.Loop.Runs.{
  Request, transfers, accounts, logged, handle, run, batches, AreServed, AreCounted,
}
use aequitas_ledger.Engine.Loop.Restart.{run_recovered}
use aequitas_ledger.Wal.Recovery.{recover_segments}
use aequitas_ledger.Wal.Recovery.Restart.{append_all}

abbrev account : ℕ → ℕ → Account
account id funds = record {
  id = id;
  currency = 840;
  ledger = 1;
  code = 0;
  flags = 0;
  user_data128 = 0;
  posted_debits = zero128;
  posted_credits = record { lo = funds; hi = 0 };
  pending_debits = zero128;
  pending_credits = zero128;
}

abbrev transfer : Transfer
transfer = record {
  id = 7;
  debit_account_id = 1;
  credit_account_id = 2;
  amount = record { lo = 60; hi = 0 };
  idempotency_key = 5;
  user_data128 = 0;
  timestamp = 0;
  timeout = 0;
  ledger = 1;
  code = 0;
  flags = 0;
}

abbrev checksum : List ℕ → ℕ
checksum bytes = 0

abbrev new_log : Wal
new_log = record {
  segment_size = 1000;
  closed = [];
  current = record { id = 1; max_size = 1000; bytes = []; synced_offset = 0 };
  current_lsn = 0;
}

-- A log in memory, which counts its records.
abbrev kept_log : Log
kept_log = record {
  State = ℕ;
  Fault = Unit {0};
  append = λ rs n. (ok n, n + length rs);
  sync = λ n. (ok tt, n);
  last = λ n. n;
}

abbrev started : EventLoop kept_log
started = record { accounts = new_account_manager; log = 0; current_lsn = 0; clock = 0 }

-- The same batch of accounts, written to a log of segments.
abbrev started_wal : EventLoop (wal_log checksum)
started_wal = record { accounts = new_account_manager; log = new_log; current_lsn = 0; clock = 0 }

abbrev new_accounts : List Account
new_accounts = account 1 100 ∷ account 2 0 ∷ account 1 7 ∷ []

accounts_written :
    (log_records
      (wal_log checksum)
      (logged (wal_log checksum) (accounts new_accounts) started_wal)
      started_wal).0
    ≡ ok tt
unfolding log_records append_synced logged account_records check_create validate_account balance sub
    get lookup append_batch encode_from append_frame frame frame_body put_be append_account_payload
    append_commit_frame write_buffered skip joined frame_ends last_fitting slice batch_bytes
    with_room is_full write rotate sync open_segment zeros
accounts_written = refl

abbrev batch : List Transfer
batch = transfer ∷ []

empty-IsOrdered : IsOrdered (queue_of new_account_manager)
empty-IsOrdered = record {
  linked = λ i h at. absurd (cc);
  heap = λ k pos below. absurd (omega arith);
}

abbrev requests : List Request
requests = accounts new_accounts ∷ transfers 10 batch ∷ []

account-IsSized : (id funds : ℕ) → id < 10 → funds < 1000 → IsSizedAccount (account id funds)
account-IsSized id funds h k = record {
  id = omega arith;
  currency = omega arith;
  ledger = omega arith;
  code = omega arith;
  flags = omega arith;
  user_data128 = omega arith;
  amounts = record {
    posted_debits = (omega arith, omega arith);
    posted_credits = (omega arith, omega arith);
    pending_debits = (omega arith, omega arith);
    pending_credits = (omega arith, omega arith);
  };
}

post_three-IsStamped :
    (id : ℕ) → id < 10 → IsStamped 10 (record transfer { id = id; timestamp = 10 })
unfolding outlives
post_three-IsStamped id h = record {
  time = refl;
  sized = record {
    id = omega arith;
    debit_account_id = omega arith;
    credit_account_id = omega arith;
    amount = (omega arith, omega arith);
    idempotency_key = omega arith;
    user_data128 = omega arith;
    timestamp = omega arith;
    timeout = omega arith;
    ledger = omega arith;
    code = omega arith;
    flags = omega arith;
  };
  lasts = refl;
}

requests-AreServed :
    AreServed kept_log requests started × AreCounted kept_log 0 (batches kept_log requests started)
unfolding log_records append_synced logged account_records check_create validate_account balance sub
    get lookup append_batch encode_from append_frame frame frame_body put_be append_account_payload
    append_commit_frame write_buffered skip joined frame_ends last_fitting slice batch_bytes
    with_room is_full write rotate sync open_segment zeros handle process_account_create create_all
    create insert remove tick close_expired close_loop set_clock next_clock make_wal_records
    append_transfer_payload validate_batch validate_from fail_chain set_range chain_end linked_at
    validate_and_apply enter write_sides settle settle_sides find_hold claim_id stage_pending stage
    snapshot_pending snapshot_account get_account rollback_chain begin_chain check_flags
    check_settlement check_accounts check_funds post_debit post_credit assert_balance pending_entry
    get_transfer has_flag has_unknown_flags is_pending is_post is_void is_linked is_frozen is_closed
    available_balance add cmp is_zero sync_log run batches post_immediate apply_debit apply_credit
    record_transfer apply_plain update put check_transfer check_new apply_transfer_state apply_batch
    outlives process_batch
requests-AreServed = (
  (
    (
      (
        account-IsSized 1 100 (omega arith) (omega arith),
        (
          account-IsSized 2 0 (omega arith) (omega arith),
          (account-IsSized 1 7 (omega arith) (omega arith), tt),
        ),
      ),
      refl,
    ),
    omega arith,
    (
      record {
        later = refl;
        stamps = (post_three-IsStamped 7 (omega arith), tt);
        written = refl;
        applied = refl;
      },
      omega arith,
      tt,
    ),
  ),
  (omega arith, omega arith, omega arith, (omega arith, omega arith, omega arith, tt)),
)

run_recovered_example :
    (w' : Wal) × (keys' : IdempotencyStore) × (append_all checksum
        (batches kept_log requests started)
        (reset new_log)
      ≡ some (ok tt, w'))
    × (recover_segments checksum
          (recover_record (λ r. 0))
          0
          (segments w')
          (record { accounts = new_account_manager; keys = new_idempotency_store 0 0 })
        ≡ (
          ok (segments w', w'.current_lsn, w'.current.id),
          record { accounts = (run kept_log requests started).accounts; keys = keys' },
        ))
unfolding new_idempotency_store
run_recovered_example =
    run_recovered kept_log checksum (λ r. 0) (λ bytes. omega arith) requests started new_log
      (new_idempotency_store 0 0) (omega arith) requests-AreServed.1 refl empty-IsOrdered
      requests-AreServed.0

-- A hold whose deadline wraps around to before its timestamp, and its post.
abbrev endless_hold : Transfer
endless_hold = record transfer { id = 9; flags = 1; timeout = 2 ^ 63; timestamp = 10 }

abbrev its_post : Transfer
its_post = record transfer { id = 9; flags = 2; timestamp = 10 }

abbrev book : AccountManager
book = record ((create (account 2 0) (create (account 1 100) new_account_manager).1).1) {
  clock = 10;
}

hold-IsSized : IsSized endless_hold
hold-IsSized = record {
  id = omega arith;
  debit_account_id = omega arith;
  credit_account_id = omega arith;
  amount = (omega arith, omega arith);
  idempotency_key = omega arith;
  user_data128 = omega arith;
  timestamp = omega arith;
  timeout = omega arith;
  ledger = omega arith;
  code = omega arith;
  flags = omega arith;
}

post-IsSized : IsSized its_post
post-IsSized = record {
  id = omega arith;
  debit_account_id = omega arith;
  credit_account_id = omega arith;
  amount = (omega arith, omega arith);
  idempotency_key = omega arith;
  user_data128 = omega arith;
  timestamp = omega arith;
  timeout = omega arith;
  ledger = omega arith;
  code = omega arith;
  flags = omega arith;
}

overflow_unreplayable_example :
    (replay checksum
      (λ r. 0)
      (numbered 0 (transfer_record endless_hold ∷ transfer_record its_post ∷ []))
      (record { accounts = book; keys = new_idempotency_store 0 0 })).0
    ≡ err (unapplied (pending_not_found 9))
unfolding outlives has_flag is_pending is_post is_void replay_clock close_expired close_loop
    set_clock create lookup insert apply_transfer_state check_transfer check_new check_flags
    check_settlement has_unknown_flags get check_accounts check_funds is_zero is_frozen is_closed
    balance available_balance add sub cmp apply_pending reserve_pending apply_pending_debit
    apply_pending_credit update put hold_debit hold_credit open_hold heap_push sift_up
    record_transfer remove pending_entry apply_post settle_hold move_pending settle_debit
    settle_credit remove_pending leave_queue heap_remove replace_hold subtract_pending_amount
    complete_from new_idempotency_store drop_last
overflow_unreplayable_example =
    overflow_unreplayable checksum (λ r. 0) 0 endless_hold its_post
      (record { accounts = book; keys = new_idempotency_store 0 0 }) book
      (apply_transfer_state endless_hold book).1
      (apply_transfer_state its_post (apply_transfer_state endless_hold book).1).1 hold-IsSized
      post-IsSized refl refl refl refl refl refl refl refl refl refl refl refl
