-- ===== src/Engine/Accounts/Entries.antt =====
-- The double entry that a transfer makes (internal/engine/accounts.go): its two accounts, and the
-- amount that is posted.
use aequitas_ledger.Prelude.{ℕ, ◌≡◌, ◌||◌, arith, true, ok, none, some, if◌then◌else◌}
use aequitas_ledger.Core.Uint128.{Uint128, val, is_zero}
use aequitas_ledger.Core.Transfer.{Transfer, is_pending, is_post, is_void}
use aequitas_ledger.Engine.Accounts.State.{AccountManager, PendingEntry, pending_entry}
use aequitas_ledger.Engine.Accounts.Rewrites.{
  Rewrite, post_debit, post_credit, hold_debit, hold_credit, release_debit, release_credit,
  settle_debit, settle_credit,
}
use aequitas_ledger.Engine.Accounts.Check.{check_settlement}
use aequitas_ledger.Engine.Accounts.Apply.{open_hold}
use aequitas_ledger.Engine.Accounts.Writes.{TwoSided}
use aequitas_ledger.Engine.Accounts.Effects.{Applied, plain, pending, post, void}
use aequitas_ledger.Engine.Accounts.Frame.{
  SameAccounts, SameAccounts-trans, record_transfer-SameAccounts, open_hold-SameAccounts,
  remove_pending-SameAccounts, settled-SameAccounts,
}
use aequitas_ledger.Engine.Accounts.Amounts.{
  Posts, post_debit-Posts, post_credit-Posts, hold_debit-Posts, hold_credit-Posts,
  release_debit-Posts, release_credit-Posts, settle_debit-Posts, settle_credit-Posts,
}

-- The amount that a transfer adds to the posted debits, and to the posted credits.
abbrev pub posted_amount : AccountManager → Transfer → ℕ
posted_amount m t =
    if is_post t
    then elim (pending_entry m t.id) [
      | none ↦ 0
      | some p ↦ if is_zero t.amount then val p.transfer.amount else val t.amount
    ]
    else if is_void t
    then 0
    else if is_pending t
    then 0
    else val t.amount

-- The accounts that a transfer writes: a settlement goes by the open hold.
abbrev pub debited : AccountManager → Transfer → ℕ
debited m t =
    if is_post t || is_void t
    then elim (pending_entry m t.id) [ none ↦ 0 | some p ↦ p.transfer.debit_account_id ]
    else t.debit_account_id

abbrev pub credited : AccountManager → Transfer → ℕ
credited m t =
    if is_post t || is_void t
    then elim (pending_entry m t.id) [ none ↦ 0 | some p ↦ p.transfer.credit_account_id ]
    else t.credit_account_id

-- `x` is posted from `d` to `c`: the common part of all kinds of transfer.
pub record Entry (x d c : ℕ) (m m' : AccountManager) : Type 0 where
  pub f : Rewrite
  pub g : Rewrite
  pub written : AccountManager
  pub writes : TwoSided f g d c m written
  pub debit_side : Posts x 0 writes.debit.old writes.debit.new
  pub credit_side : Posts 0 x writes.credit.old writes.credit.new
  pub same : SameAccounts written m'

-- The amount that the check of a post hands on.
pub check_settlement-amount :
    (p t : Transfer) {r : Uint128}
    → is_post t ≡ true
    → check_settlement p t ≡ ok r
    → r ≡ (if is_zero t.amount then p.amount else t.amount)
unfolding check_settlement
check_settlement-amount p t is h = ground arith

pub posted_amount-post :
    (m : AccountManager) (t : Transfer) (p : PendingEntry) {r : Uint128}
    → is_post t ≡ true
    → pending_entry m t.id ≡ some p
    → check_settlement p.transfer t ≡ ok r
    → posted_amount m t ≡ val r
posted_amount-post m t p is found h = ground (arith, check_settlement-amount p.transfer t is h)

-- Every transfer that is applied is an entry between its two accounts.
pub Applied-Entry :
    (t : Transfer) (m : AccountManager) {m' : AccountManager}
    → Applied t m m'
    → Entry (posted_amount m t) (debited m t) (credited m t) m m'
Applied-Entry t m (plain np nv nh r checked s w e) =
    rw (np, nv, nh)
      (record {
        f = post_debit t.amount;
        g = post_credit t.amount;
        written = s;
        writes = w;
        debit_side = post_debit-Posts t.amount w.debit.old w.debit.rewritten;
        credit_side = post_credit-Posts t.amount w.credit.old w.credit.rewritten;
        same = rw e (record_transfer-SameAccounts t s);
      })
Applied-Entry t m (pending np nv nh r checked s w e) =
    rw (np, nv, nh)
      (record {
        f = hold_debit t.amount;
        g = hold_credit t.amount;
        written = s;
        writes = w;
        debit_side = hold_debit-Posts t.amount w.debit.old w.debit.rewritten;
        credit_side = hold_credit-Posts t.amount w.credit.old w.credit.rewritten;
        same = rw e (
            SameAccounts-trans (open_hold-SameAccounts t s)
              (record_transfer-SameAccounts t (open_hold t s)));
      })
Applied-Entry t m (post is p found amount checked s w e) =
    rw (posted_amount-post m t p is found checked, is, found)
      (record {
        f = settle_debit amount;
        g = settle_credit amount;
        written = s;
        writes = w;
        debit_side = settle_debit-Posts amount w.debit.old w.debit.rewritten;
        credit_side = settle_credit-Posts amount w.credit.old w.credit.rewritten;
        same = rw e (
            SameAccounts-trans (settled-SameAccounts t.id p.transfer amount s)
              (record_transfer-SameAccounts _ _));
      })
Applied-Entry t m (void np is p found s w e) =
    rw (np, is, found)
      (record {
        f = release_debit p.transfer.amount;
        g = release_credit p.transfer.amount;
        written = s;
        writes = w;
        debit_side = release_debit-Posts p.transfer.amount w.debit.old w.debit.rewritten;
        credit_side = release_credit-Posts p.transfer.amount w.credit.old w.credit.rewritten;
        same = rw e (
            SameAccounts-trans (remove_pending-SameAccounts t.id s)
              (record_transfer-SameAccounts _ _));
      })
