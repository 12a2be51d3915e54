-- ===== src/Engine/Accounts/Writes.antt =====
-- Writes of one and of two accounts (internal/engine/accounts.go), taken apart.
use aequitas_ledger.Prelude.{ℕ, ◌≡◌, arith, ok, inl, inr, Result-cases}
use aequitas_ledger.Core.Uint128.{Uint128}
use aequitas_ledger.Core.Account.{Account}
use aequitas_ledger.Engine.Accounts.State.{AccountManager, get, put}
use aequitas_ledger.Prelude.Exec.{◌>>◌, bind_ok}
use aequitas_ledger.Engine.Accounts.Exec.{update}
use aequitas_ledger.Engine.Accounts.Rewrites.{Rewrite, post_debit, post_credit}
use aequitas_ledger.Engine.Accounts.Apply.{apply_debit, assert_balance}

-- One account was read, rewritten by `f`, and stored.
pub record Wrote (f : Rewrite) (id : ℕ) (m m' : AccountManager) : Type 0 where
  pub old : Account
  pub new : Account
  pub found : get m id ≡ ok old
  pub rewritten : f old ≡ ok new
  pub stored : m' ≡ put id new m

-- First the debit side, then the credit side, which may be the same account.
pub record TwoSided (f g : Rewrite) (d c : ℕ) (m m' : AccountManager) : Type 0 where
  pub middle : AccountManager
  pub debit : Wrote f d m middle
  pub credit : Wrote g c middle m'

module _ (f : Rewrite) (id : ℕ) (m : AccountManager) {m' : AccountManager} where
  pub update_writes : update id f m ≡ (ok tt, m') → Wrote f id m m'
  unfolding update
  update_writes h = elim (Result-cases (get m id)) [
    | inr (e, q) ↦ absurd (ground arith)
    | inl (old, q) ↦ elim (Result-cases (f old)) [
      | inr (e, s) ↦ absurd (ground arith)
      | inl (new, s) ↦ record {
        old = old;
        new = new;
        found = q;
        rewritten = s;
        stored = ground arith;
      }
    ]
  ]

module _ (f g : Rewrite) (d c : ℕ) (m : AccountManager) {m' : AccountManager} where
  pub two_updates_write : (update d f >> update c g) m ≡ (ok tt, m') → TwoSided f g d c m m'
  two_updates_write h =
      let (u, m₁, e₁, e₂) = bind_ok (update d f) (λ _. update c g) m h in
      record { middle = m₁; debit = update_writes f d m e₁; credit = update_writes g c m₁ e₂ }

pub assert_balance_keeps :
    (id : ℕ) (m : AccountManager) {m' : AccountManager} → assert_balance id m ≡ (ok tt, m') → m' ≡ m
unfolding assert_balance
assert_balance_keeps id m h = ground arith

module _ (id : ℕ) (x : Uint128) (m : AccountManager) {m' : AccountManager} where
  pub apply_debit_writes : apply_debit id x m ≡ (ok tt, m') → Wrote (post_debit x) id m m'
  unfolding apply_debit
  apply_debit_writes h =
      let (u, m₁, e₁, e₂) = bind_ok (update id (post_debit x)) (λ _. assert_balance id) m h in
      rw (assert_balance_keeps id m₁ e₂) (update_writes (post_debit x) id m e₁)

module _ (id id' : ℕ) (x : Uint128) (m : AccountManager) {m' : AccountManager} where
  pub debit_then_credit_write :
      (apply_debit id x >> update id' (post_credit x)) m ≡ (ok tt, m')
      → TwoSided (post_debit x) (post_credit x) id id' m m'
  debit_then_credit_write h =
      let (u, m₁, e₁, e₂) = bind_ok (apply_debit id x) (λ _. update id' (post_credit x)) m h in
      record {
        middle = m₁;
        debit = apply_debit_writes id x m e₁;
        credit = update_writes (post_credit x) id' m₁ e₂;
      }
