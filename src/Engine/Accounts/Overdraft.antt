-- ===== src/Engine/Accounts/Overdraft.antt =====
-- A post of a hold (internal/engine/accounts.go) does not look at the posted balance.
use aequitas_ledger.Prelude.{ℕ, ◌+◌, ◌-◌, ◌≤◌, ◌<◌, ◌≡◌, ◌≢◌, refl, ◌∙◌, arith, true, some, ok}
use aequitas_ledger.Core.Uint128.{Uint128, sub, add, val, IsWide, limit, of_val}
use aequitas_ledger.Core.Uint128.Arith.{add-val, sub-val}
use aequitas_ledger.Core.Account.{Account}
use aequitas_ledger.Core.Account.Balances.{IsWideAccount}
use aequitas_ledger.Core.Transfer.{Transfer, is_post}
use aequitas_ledger.Prelude.Exec.{◌>>◌, modify, bind_runs}
use aequitas_ledger.Engine.Accounts.State.{AccountManager, PendingEntry, get, put, pending_entry}
use aequitas_ledger.Engine.Accounts.Exec.{update}
use aequitas_ledger.Engine.Accounts.Rewrites.{Rewrite, settle_debit, settle_credit}
use aequitas_ledger.Engine.Accounts.Check.{check_flags, check_settlement, check_transfer}
use aequitas_ledger.Engine.Accounts.Apply.{
  apply_transfer_state, apply_post, held, settle_hold, move_pending, record_transfer, complete_from,
}
use aequitas_ledger.Engine.Accounts.Effects.{settled}
use aequitas_ledger.Engine.Accounts.Index.{IsIndexed, get-put_ne}
use aequitas_ledger.Engine.Accounts.Totals.{debits, credits, held_debits, held_credits}
use aequitas_ledger.Engine.Accounts.Entries.{posted_amount-post, debited, credited}
use aequitas_ledger.Engine.Accounts.Postings.{account_postings}

module _ (x : Uint128) (a : Account) (w : IsWideAccount a) (wx : IsWide x) where
  settle_debit_runs :
      val x ≤ held_debits a
      → debits a + val x < limit
      → (new : Account) × (settle_debit x a ≡ ok new)
  unfolding settle_debit
  settle_debit_runs held room =
      let left : sub a.pending_debits x ≡ ok (of_val (held_debits a - val x)) =
        ground (arith, sub-val a.pending_debits x w.pending_debits wx) in
      let sum : add a.posted_debits x ≡ ok (of_val (debits a + val x)) =
        ground (arith, add-val a.posted_debits x w.posted_debits wx) in
      (
        record a {
          pending_debits = of_val (held_debits a - val x);
          posted_debits = of_val (debits a + val x);
        },
        rw (settle_debit, left, sum) refl,
      )

  settle_credit_runs :
      val x ≤ held_credits a
      → credits a + val x < limit
      → (new : Account) × (settle_credit x a ≡ ok new)
  unfolding settle_credit
  settle_credit_runs held room =
      let left : sub a.pending_credits x ≡ ok (of_val (held_credits a - val x)) =
        ground (arith, sub-val a.pending_credits x w.pending_credits wx) in
      let sum : add a.posted_credits x ≡ ok (of_val (credits a + val x)) =
        ground (arith, add-val a.posted_credits x w.posted_credits wx) in
      (
        record a {
          pending_credits = of_val (held_credits a - val x);
          posted_credits = of_val (credits a + val x);
        },
        rw (settle_credit, left, sum) refl,
      )

update_runs :
    (f : Rewrite) (id : ℕ) (m : AccountManager) {a a' : Account}
    → get m id ≡ ok a
    → f a ≡ ok a'
    → update id f m ≡ (ok tt, put id a' m)
unfolding update
update_runs f id m found first = rw (update, found, first) refl

updates_run :
    (f g : Rewrite) (d c : ℕ) (m : AccountManager) {a a' b b' : Account}
    → IsIndexed m
    → d ≢ c
    → get m d ≡ ok a
    → f a ≡ ok a'
    → get m c ≡ ok b
    → g b ≡ ok b'
    → (update d f >> update c g) m ≡ (ok tt, put c b' (put d a' m))
updates_run f g d c m {a' = a'} v apart found first found' second =
    let there = get-put_ne v d a' c found apart ∙ found' in
    bind_runs (update d f) (λ _. update c g) m (update_runs f d m found first)
    ∙ update_runs g c (put d a' m) there second

-- A hold, its two accounts, and a post of it that passes the checks on its flags and its amount.
-- The hold is within the pending amounts, and the sums fit into 128 bits.
pub record IsPostable (t : Transfer) (m : AccountManager) (p : PendingEntry) (x : Uint128)
    (a b : Account) : Type 0 where
  pub flags : check_flags t ≡ ok tt
  pub is_a_post : is_post t ≡ true
  pub held : pending_entry m t.id ≡ some p
  pub settles : check_settlement p.transfer t ≡ ok x
  pub apart : p.transfer.debit_account_id ≢ p.transfer.credit_account_id
  pub debit : get m p.transfer.debit_account_id ≡ ok a
  pub credit : get m p.transfer.credit_account_id ≡ ok b
  pub wide : IsWideAccount a × IsWideAccount b × IsWide x
  pub within : (val x ≤ held_debits a) × (val x ≤ held_credits b)
  pub room : (debits a + val x < limit) × (credits b + val x < limit)

settle_hold_runs :
    (t : Transfer) (m : AccountManager) (p : PendingEntry) (x : Uint128) (s : AccountManager)
    → move_pending p.transfer x m ≡ (ok tt, s)
    → settle_hold t x p m
      ≡ (ok tt, record_transfer (complete_from p.transfer t) (settled t.id p.transfer x s))
unfolding settle_hold
settle_hold_runs t m p x s h =
    bind_runs (move_pending p.transfer x)
      (λ _.
        modify (settled t.id p.transfer x) >> modify (record_transfer (complete_from p.transfer t)))
      m h

checked :
    (t : Transfer) (m : AccountManager) {p : PendingEntry} {x : Uint128} {a b : Account}
    → IsPostable t m p x a b
    → check_transfer m t ≡ ok x
unfolding check_transfer
checked t m v = rw (check_transfer, v.flags, v.is_a_post, v.held, v.settles) refl

apply_post_runs :
    (t : Transfer) (x : Uint128) (m : AccountManager) {p : PendingEntry}
    → pending_entry m t.id ≡ some p
    → apply_post t x m ≡ settle_hold t x p m
unfolding apply_post
apply_post_runs t x m {p} h =
    let found : held t.id m ≡ (ok p, m) = rw h refl in
    bind_runs (held t.id) (settle_hold t x) m found

post_runs :
    (t : Transfer) (m : AccountManager) {p : PendingEntry} {x : Uint128} {a b : Account}
    → IsPostable t m p x a b
    → apply_transfer_state t m ≡ settle_hold t x p m
unfolding apply_transfer_state
post_runs t m {x = x} v =
    rw (apply_transfer_state, checked t m v, v.is_a_post) (apply_post_runs t x m v.held)

post_applied :
    (t : Transfer) (m : AccountManager) {p : PendingEntry} {x : Uint128} {a b : Account}
    → IsIndexed m
    → IsPostable t m p x a b
    → (m' : AccountManager) × (apply_transfer_state t m ≡ (ok tt, m'))
unfolding move_pending
post_applied t m {p} {x} {a} {b} indexed v =
    let (wa, wb, wx) = v.wide in
    let d = p.transfer.debit_account_id in
    let c = p.transfer.credit_account_id in
    let (a', e) = settle_debit_runs x a wa wx v.within.0 v.room.0 in
    let (b', e') = settle_credit_runs x b wb wx v.within.1 v.room.1 in
    let s = put c b' (put d a' m) in
    let moved =
      updates_run (settle_debit x) (settle_credit x) d c m indexed v.apart v.debit e v.credit e' in
    (
      record_transfer (complete_from p.transfer t) (settled t.id p.transfer x s),
      post_runs t m v ∙ settle_hold_runs t m p x s moved,
    )

-- In a book whose index agrees with its accounts and has an open hold between two of them: a post of
-- the hold that passes the checks on its flags, its ledger and its amount is applied, if the amount
-- is within what is pending on both accounts and the posted sums fit into 128 bits, and where the
-- posted credits of the debit account are less than its posted debits and the amount together, it
-- leaves that account with more posted debits than posted credits.
pub overdraws :
    (t : Transfer) (m : AccountManager) {p : PendingEntry} {x : Uint128} {a b : Account}
    → IsIndexed m
    → IsPostable t m p x a b
    → credits a < debits a + val x
    → (m' : AccountManager) × (a' : Account) × (apply_transfer_state t m ≡ (ok tt, m'))
      × (get m' p.transfer.debit_account_id ≡ ok a')
      × (credits a' < debits a')
overdraws t m {p} {x} {a} {b} indexed v short =
    let (m', applied) = post_applied t m indexed v in
    let to : debited m t ≡ p.transfer.debit_account_id = ground (arith, v.is_a_post, v.held) in
    let from : credited m t ≡ p.transfer.credit_account_id = ground (arith, v.is_a_post, v.held) in
    let amount = posted_amount-post m t p v.is_a_post v.held v.settles in
    let g = account_postings indexed t applied p.transfer.debit_account_id v.debit in
    (m', g.account, applied, g.found, ground (arith, g.posts, v.apart))
