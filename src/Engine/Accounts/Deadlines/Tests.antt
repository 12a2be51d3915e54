-- ===== src/Engine/Accounts/Deadlines/Tests.antt =====
-- The theorems on the queue of deadlines (internal/engine/accounts.go) at a book with two holds.
use aequitas_ledger.Prelude.{ℕ, ◌≡◌, refl, arith, length}
use aequitas_ledger.Prelude.Maps.{lookup, insert, remove}
use aequitas_ledger.Core.Uint128.{add, sub, cmp, is_zero}
use aequitas_ledger.Core.Account.{
  Account, zero128, balance, available_balance, is_frozen, is_closed,
}
use aequitas_ledger.Core.Transfer.{
  Transfer, has_flag, has_unknown_flags, is_pending, is_post, is_void,
}
use aequitas_ledger.Engine.Accounts.State.{
  AccountManager, new_account_manager, create, get, put, set_clock, pending_entry,
}
use aequitas_ledger.Engine.Accounts.Heap.{
  heap_push, heap_pop, sift_up, sift_down, heap_swap, place, heap_less, lesser_child, deadline,
  drop_last,
}
use aequitas_ledger.Engine.Accounts.Rewrites.{
  hold_debit, hold_credit, release_debit, release_credit,
}
use aequitas_ledger.Engine.Accounts.Exec.{update}
use aequitas_ledger.Engine.Accounts.Check.{
  check_flags, check_new, check_accounts, check_funds, check_transfer,
}
use aequitas_ledger.Engine.Accounts.Apply.{
  queue_of, open_hold, apply_pending_debit, apply_pending_credit, reserve_pending, record_transfer,
  apply_pending, apply_transfer_state, release_pending,
}
use aequitas_ledger.Engine.Accounts.Expiry.{close_hold, close_loop, close_expired}
use aequitas_ledger.Engine.Accounts.Order.{IsOrdered}
use aequitas_ledger.Engine.Accounts.Deadlines.{IsCurrent, apply-IsOrdered, close_expired-IsCurrent}

abbrev account : ℕ → ℕ → Account
account id funds = record {
  id = id;
  currency = 840;
  ledger = 1;
  code = 0;
  flags = 0;
  user_data128 = 0;
  posted_debits = zero128;
  posted_credits = record { lo = funds; hi = 0 };
  pending_debits = zero128;
  pending_credits = zero128;
}

abbrev hold : ℕ → ℕ → Transfer
hold id timeout = record {
  id = id;
  debit_account_id = 1;
  credit_account_id = 2;
  amount = record { lo = 20; hi = 0 };
  idempotency_key = 0;
  user_data128 = 0;
  timestamp = 10;
  timeout = timeout;
  ledger = 1;
  code = 0;
  flags = 1;
}

abbrev book : AccountManager
book = (create (account 2 0) (create (account 1 100) new_account_manager).1).1

abbrev late : AccountManager
late = (apply_transfer_state (hold 7 90) book).1

abbrev both : AccountManager
both = (apply_transfer_state (hold 8 5) late).1

book-IsOrdered : IsOrdered (queue_of book)
unfolding create lookup insert
book-IsOrdered = record {
  linked = λ i h at. absurd (cc);
  heap = λ k pos below. absurd (omega arith);
}

apply-IsOrdered_example : IsOrdered (queue_of both)
apply-IsOrdered_example =
    apply-IsOrdered (hold 8 5) late (apply-IsOrdered (hold 7 90) book book-IsOrdered)

both-IsOrdered : IsOrdered (queue_of both)
both-IsOrdered = apply-IsOrdered (hold 8 5) late (apply-IsOrdered (hold 7 90) book book-IsOrdered)

close_expired-IsCurrent_example : IsCurrent 20 (close_expired (set_clock 20 both))
close_expired-IsCurrent_example = close_expired-IsCurrent 20 both both-IsOrdered

-- At 20 the later hold is left.
queued : ℕ → ℕ
unfolding create lookup insert remove get put set_clock pending_entry update has_flag
    has_unknown_flags is_pending is_post is_void is_frozen is_closed balance available_balance add
    sub cmp is_zero check_flags check_new check_accounts check_funds check_transfer hold_debit
    hold_credit release_debit release_credit open_hold apply_pending_debit apply_pending_credit
    reserve_pending record_transfer apply_pending apply_transfer_state release_pending heap_push
    heap_pop sift_up sift_down heap_swap place heap_less lesser_child deadline drop_last close_hold
    close_loop close_expired
queued now = length (close_expired (set_clock now both)).expiry

queued_test : (queued 14 ≡ 2) × (queued 20 ≡ 1) × (queued 100 ≡ 0)
unfolding queued
queued_test = (refl, refl, refl)
