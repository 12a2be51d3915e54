-- ===== src/Engine/Accounts/Tests.antt =====
-- Runs of internal/engine/accounts.go on small books, and the theorems at concrete inputs.
use aequitas_ledger.Prelude.{
  arith, ◌<◌, ◌≤◌, ◌^◌, ok, some, get_elem?, zero, suc, Option, ℕ, ◌+◌, ◌≡◌, refl,
}
use aequitas_ledger.Prelude.Maps.{lookup, insert, remove}
use aequitas_ledger.Core.Uint128.{add, sub, cmp, is_zero}
use aequitas_ledger.Core.Account.{
  Account, zero128, balance, available_balance, is_frozen, is_closed,
}
use aequitas_ledger.Core.Transfer.{
  Transfer, has_flag, has_unknown_flags, is_pending, is_post, is_void,
}
use aequitas_ledger.Engine.Accounts.{
  AccountManager, PendingEntry, new_account_manager, create, get, put, pending_entry, update,
  check_flags, check_settlement, check_new, check_accounts, check_funds, check_transfer, heap_push,
  heap_pop, heap_remove, post_debit, post_credit, hold_debit, hold_credit, settle_debit,
  settle_credit, release_debit, release_credit, assert_balance, apply_debit, apply_credit,
  apply_pending_debit, apply_pending_credit, post_immediate, reserve_pending, move_pending,
  release_pending, open_hold, leave_queue, remove_pending, replace_hold, subtract_pending_amount,
  record_transfer, complete_from, settle_hold, void_hold, apply_post, apply_void, apply_pending,
  apply_plain, apply_transfer_state,
}
use aequitas_ledger.Engine.Accounts.Totals.{total, debits, credits}
use aequitas_ledger.Core.Account.Balances.{IsWideAccount}
use aequitas_ledger.Engine.Accounts.Conservation.{double_entry}
use aequitas_ledger.Engine.Accounts.Index.{get_found, IsIndexed, new-IsIndexed, create-IsIndexed}
use aequitas_ledger.Engine.Accounts.Postings.{
  Grown, account_postings, other_accounts, apply-IsIndexed,
}
use aequitas_ledger.Engine.Accounts.Solvency.{IsWideBook, IsSolvent, apply-IsSolvent}
use aequitas_ledger.Engine.Accounts.Overdraft.{IsPostable, overdraws}

abbrev account : ℕ → ℕ → Account
account id funds = record {
  id = id;
  currency = 840;
  ledger = 1;
  code = 0;
  flags = 0;
  user_data128 = 0;
  posted_debits = zero128;
  posted_credits = record { lo = funds; hi = 0 };
  pending_debits = zero128;
  pending_credits = zero128;
}

abbrev transfer : ℕ → ℕ → ℕ → ℕ → ℕ → Transfer
transfer id debit credit amount flags = record {
  id = id;
  debit_account_id = debit;
  credit_account_id = credit;
  amount = record { lo = amount; hi = 0 };
  idempotency_key = 0;
  user_data128 = 0;
  timestamp = 10;
  timeout = 0;
  ledger = 1;
  code = 0;
  flags = flags;
}

-- Two funded accounts and an empty one.
abbrev book : AccountManager
book =
    (create (account 3 0)
      (create (account 2 50) (create (account 1 100) new_account_manager).1).1).1

abbrev pay : Transfer
pay = transfer 7 1 3 30 0

-- The state after a transfer. What a run computes with is named here once.
after : Transfer → AccountManager → AccountManager
unfolding apply_transfer_state check_transfer check_flags check_settlement check_new check_accounts
    check_funds has_unknown_flags is_post is_void is_pending has_flag is_frozen is_closed is_zero
    balance available_balance add sub cmp get put create lookup insert remove pending_entry update
    assert_balance apply_debit apply_credit apply_pending_debit apply_pending_credit post_debit
    post_credit hold_debit hold_credit settle_debit settle_credit release_debit release_credit
    post_immediate reserve_pending move_pending release_pending open_hold leave_queue remove_pending
    replace_hold subtract_pending_amount record_transfer complete_from settle_hold void_hold
    apply_post apply_void apply_pending apply_plain heap_push heap_pop heap_remove
after t m = (apply_transfer_state t m).1

double_entry_example :
    (total debits (after pay book) ≡ total debits book + 30)
    × (total credits (after pay book) ≡ total credits book + 30)
unfolding after
double_entry_example = double_entry pay book {m' = after pay book} refl

book-IsIndexed : IsIndexed book
book-IsIndexed =
    create-IsIndexed (account 3 0)
      (create-IsIndexed (account 2 50) (create-IsIndexed (account 1 100) new-IsIndexed))

create-IsIndexed_example : IsIndexed (create (account 4 0) book).1
create-IsIndexed_example = create-IsIndexed (account 4 0) book-IsIndexed

apply-IsIndexed_example : IsIndexed (after pay book)
unfolding after
apply-IsIndexed_example = apply-IsIndexed {m' = after pay book} book-IsIndexed pay refl

-- Account 1 pays 30.
account_postings_example : Grown 30 0 (after pay book) 1 (account 1 100)
unfolding after
account_postings_example =
    account_postings {m' = after pay book} book-IsIndexed pay refl 1 {a = account 1 100} refl

other_accounts_example : get (after pay book) 2 ≡ get book 2
unfolding after
other_accounts_example =
    other_accounts {m' = after pay book} book-IsIndexed pay refl 2 (omega arith) (omega arith)

account-IsWide : (id funds : ℕ) → funds < 2 ^ 64 → IsWideAccount (account id funds)
account-IsWide id funds h = record {
  posted_debits = (omega arith, omega arith);
  posted_credits = (h, omega arith);
  pending_debits = (omega arith, omega arith);
  pending_credits = (omega arith, omega arith);
}

account_sound :
    (id funds : ℕ) (a : Account)
    → funds < 2 ^ 64
    → Option.some (account id funds) ≡ some a
    → IsWideAccount a × (debits a ≤ credits a)
account_sound id funds a b h =
    let e : account id funds ≡ a = cc in rw (← e) (account-IsWide id funds b, omega arith)

listed_sound :
    (i : ℕ) (a : Account)
    → get_elem? book.accounts i ≡ some a
    → IsWideAccount a × (debits a ≤ credits a)
unfolding create lookup insert
listed_sound zero a h = account_sound 1 100 a (omega arith) h
listed_sound (suc zero) a h = account_sound 2 50 a (omega arith) h
listed_sound (suc (suc zero)) a h = account_sound 3 0 a (omega arith) h
listed_sound (suc (suc (suc i))) a h = cc

book-IsWideBook : IsWideBook book
book-IsWideBook = record {
  wide = λ id a h. let (i, e, there) = get_found book id h in (listed_sound i a there).0;
}

book-IsSolvent : IsSolvent book
book-IsSolvent = record {
  covered = λ id a h. let (i, e, there) = get_found book id h in (listed_sound i a there).1;
}

apply-IsSolvent_example : IsSolvent (after pay book)
unfolding after
apply-IsSolvent_example =
    apply-IsSolvent pay book {m' = after pay book} book-IsIndexed book-IsWideBook
      (omega arith, omega arith) book-IsSolvent refl refl

-- 80 of 100 are held, then 50 are paid, and then the hold is posted.
abbrev hold : Transfer
hold = transfer 8 1 3 80 1

abbrev spend : Transfer
spend = transfer 9 1 2 50 0

abbrev settlement : Transfer
settlement = transfer 8 1 3 80 2

abbrev spent : AccountManager
spent = after spend (after hold book)

abbrev spender : Account
spender = record (account 1 100) {
  posted_debits = record { lo = 50; hi = 0 };
  pending_debits = record { lo = 80; hi = 0 };
}

hold-IsIndexed : IsIndexed (after hold book)
unfolding after
hold-IsIndexed = apply-IsIndexed {m' = after hold book} book-IsIndexed hold refl

spent-IsIndexed : IsIndexed spent
unfolding after
spent-IsIndexed = apply-IsIndexed {m' = spent} hold-IsIndexed spend refl

abbrev receiver : Account
receiver = record (account 3 0) { pending_credits = record { lo = 80; hi = 0 } }

abbrev hold_entry : PendingEntry
hold_entry = record { transfer = hold; expires = 0; heap_idx = 0 }

spent-IsPostable : IsPostable settlement spent hold_entry hold.amount spender receiver
unfolding after
spent-IsPostable = record {
  flags = refl;
  is_a_post = refl;
  held = refl;
  settles = refl;
  apart = omega arith;
  debit = refl;
  credit = refl;
  wide = (
    record {
      posted_debits = (omega arith, omega arith);
      posted_credits = (omega arith, omega arith);
      pending_debits = (omega arith, omega arith);
      pending_credits = (omega arith, omega arith);
    },
    record {
      posted_debits = (omega arith, omega arith);
      posted_credits = (omega arith, omega arith);
      pending_debits = (omega arith, omega arith);
      pending_credits = (omega arith, omega arith);
    },
    (omega arith, omega arith),
  );
  within = (omega arith, omega arith);
  room = (omega arith, omega arith);
}

overdraws_example :
    (m' : AccountManager) × (a : Account) × (apply_transfer_state settlement spent ≡ (ok tt, m'))
    × (get m' 1 ≡ ok a)
    × (credits a < debits a)
unfolding after
overdraws_example =
    overdraws settlement spent {p = hold_entry} {x = hold.amount} {a = spender} {b = receiver}
      spent-IsIndexed spent-IsPostable (omega arith)
