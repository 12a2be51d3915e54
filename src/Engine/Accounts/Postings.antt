-- ===== src/Engine/Accounts/Postings.antt =====
-- What an applied transfer (internal/engine/accounts.go) does to each account.
use aequitas_ledger.Prelude.{
  ℕ, ◌≡◌, ◌≢◌, sym, ◌∙◌, arith, ok, ◌==◌, Bool-cases, inl, inr, if◌then◌else◌,
}
use aequitas_ledger.Core.Account.{Account}
use aequitas_ledger.Core.Transfer.{Transfer}
use aequitas_ledger.Engine.Accounts.State.{AccountManager, get}
use aequitas_ledger.Engine.Accounts.Rewrites.{Rewrite}
use aequitas_ledger.Engine.Accounts.Apply.{apply_transfer_state}
use aequitas_ledger.Engine.Accounts.Writes.{Wrote}
use aequitas_ledger.Engine.Accounts.Index.{
  IsIndexed, get-id, get-put_self, get-put_ne, put-IsIndexed,
}
use aequitas_ledger.Engine.Accounts.Amounts.{Posts}
use aequitas_ledger.Engine.Accounts.Effects.{apply_transfer_state-Applied}
use aequitas_ledger.Engine.Accounts.Frame.{get-SameAccounts}
use aequitas_ledger.Engine.Accounts.Entries.{Entry, Applied-Entry, posted_amount, debited, credited}

-- An account of `m` is still there in `m'`, with `x` and `y` more posted.
pub record Grown (x y : ℕ) (m' : AccountManager) (j : ℕ) (a : Account) : Type 0 where
  pub account : Account
  pub found : get m' j ≡ ok account
  pub posts : Posts x y a account

module _ {f : Rewrite} {id : ℕ} {m m' : AccountManager} (v : IsIndexed m)
    (w : Wrote f id m m') where
  module _ {x y : ℕ} (p : Posts x y w.old w.new) where
    Wrote-IsIndexed : IsIndexed m'
    Wrote-IsIndexed =
        rw w.stored (put-IsIndexed v id w.new w.found (p.same.id ∙ get-id v id w.found))

  Wrote_self : get m' id ≡ ok w.new
  Wrote_self = rw w.stored (get-put_self v id w.new w.found)

  Wrote_ne : (j : ℕ) → id ≢ j → get m' j ≡ get m j
  Wrote_ne j ne = rw w.stored (get-put_ne v id w.new j w.found ne)

  Wrote-Grown :
      {x y : ℕ} (p : Posts x y w.old w.new) (j : ℕ) {a : Account}
      → get m j ≡ ok a
      → Grown (if id == j then x else 0) (if id == j then y else 0) m' j a
  Wrote-Grown {x} {y} p j {a} h = elim (Bool-cases (id == j)) [
    | inl eq ↦
        let here : id ≡ j = ground arith in
        let old : w.old ≡ a = ground (arith, w.found) in
        record { account = w.new; found = rw (← here) Wrote_self; posts = rw (eq, ← old) p }
    | inr ne ↦ record { account = a; found = Wrote_ne j (ground arith) ∙ h; posts = ground arith }
  ]

module _ {x d c : ℕ} {m m' : AccountManager} (v : IsIndexed m) (e : Entry x d c m m') where
  middle-IsIndexed : IsIndexed e.writes.middle
  middle-IsIndexed = Wrote-IsIndexed v e.writes.debit e.debit_side

  written-IsIndexed : IsIndexed e.written
  written-IsIndexed = Wrote-IsIndexed middle-IsIndexed e.writes.credit e.credit_side

  pub Entry-IsIndexed : IsIndexed m'
  Entry-IsIndexed = record {
    located = λ id i q.
        let l = written-IsIndexed.located id i (rw e.same.index at q) in
        record { account = l.account; there = rw e.same.accounts l.there; named = l.named };
    listed = λ i a q. rw e.same.index (written-IsIndexed.listed i a (rw e.same.accounts at q));
  }

  -- The debit account gains `x` in debits and the credit account `x` in credits, also where they
  -- are one; all other posted amounts are the same.
  pub Entry-Grown :
      (j : ℕ) {a : Account}
      → get m j ≡ ok a
      → Grown (if d == j then x else 0) (if c == j then x else 0) m' j a
  Entry-Grown j h =
      let g = Wrote-Grown v e.writes.debit e.debit_side j h in
      let g' = Wrote-Grown middle-IsIndexed e.writes.credit e.credit_side j g.found in
      record {
        account = g'.account;
        found = get-SameAccounts j e.same ∙ g'.found;
        posts = ground (arith, g.posts, g'.posts);
      }

  pub Entry_others : (j : ℕ) → d ≢ j → c ≢ j → get m' j ≡ get m j
  Entry_others j nd nc =
      get-SameAccounts j e.same
      ∙ Wrote_ne middle-IsIndexed e.writes.credit j nc
      ∙ Wrote_ne v e.writes.debit j nd

  -- No account is new.
  pub Entry-back : (j : ℕ) {a : Account} → get m' j ≡ ok a → (b : Account) × (get m j ≡ ok b)
  Entry-back j h = elim (Bool-cases (d == j)) [
    | inl eq ↦
        let here : d ≡ j = ground arith in (e.writes.debit.old, rw (← here) e.writes.debit.found)
    | inr nd ↦ elim (Bool-cases (c == j)) [
      | inl eq ↦
          let here : c ≡ j = ground arith in
          (
            e.writes.credit.old,
            sym (Wrote_ne v e.writes.debit j (ground arith)) ∙ rw (← here) e.writes.credit.found,
          )
      | inr nc ↦ (_, sym (Entry_others j (ground arith) (ground arith)) ∙ h)
    ]
  ]

module _ {m m' : AccountManager} (v : IsIndexed m) (t : Transfer)
    (h : apply_transfer_state t m ≡ (ok tt, m')) where
  pub entry : Entry (posted_amount m t) (debited m t) (credited m t) m m'
  entry = Applied-Entry t m (apply_transfer_state-Applied t m h)

  -- In a book whose index agrees with its accounts: after a transfer that is applied every account is still there with its currency, ledger and flags; its posted
  -- debits have grown by the posted amount if it is the one that is debited, and its posted credits
  -- likewise.
  pub account_postings :
      (j : ℕ) {a : Account}
      → get m j ≡ ok a
      → Grown
          (if debited m t == j then posted_amount m t else 0)
          (if credited m t == j then posted_amount m t else 0)
          m'
          j
          a
  account_postings = Entry-Grown v entry

  -- In a book whose index agrees with its accounts: a transfer that is applied changes no account but
  -- the two that it, or its hold, names.
  pub other_accounts : (j : ℕ) → debited m t ≢ j → credited m t ≢ j → get m' j ≡ get m j
  other_accounts = Entry_others v entry

  -- A transfer that is applied keeps the index and the slice of accounts in agreement.
  pub apply-IsIndexed : IsIndexed m'
  apply-IsIndexed = Entry-IsIndexed v entry
