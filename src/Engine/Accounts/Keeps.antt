-- ===== src/Engine/Accounts/Keeps.antt =====
-- What every write of internal/engine/accounts.go keeps, every method keeps, however it ends.
use aequitas_ledger.Prelude.{
  ℕ, Result, ok, err, Result-cases, Bool-cases, inl, inr, if_ind, if◌then◌else◌,
}
use aequitas_ledger.Prelude.Exec.{◌>>=◌, ◌>>◌, lift, modify}
use aequitas_ledger.Core.Uint128.{Uint128, cmp, is_same}
use aequitas_ledger.Core.Account.{Account, balance}
use aequitas_ledger.Core.Transfer.{Transfer, is_post, is_void, is_pending}
use aequitas_ledger.Core.Errors.{LedgerError}
use aequitas_ledger.Engine.Accounts.State.{AccountManager, put, get}
use aequitas_ledger.Engine.Accounts.Rewrites.{Rewrite}
use aequitas_ledger.Engine.Accounts.Exec.{Action, find, update}
use aequitas_ledger.Engine.Accounts.Check.{check_transfer}
use aequitas_ledger.Engine.Accounts.Effects.{dispatch}
use aequitas_ledger.Engine.Accounts.Apply.{
  release_pending, move_pending, apply_pending_debit, apply_pending_credit, assert_balance,
  apply_debit, apply_credit, post_immediate, open_hold, reserve_pending, remove_pending,
  replace_hold, subtract_pending_amount, record_transfer, complete_from, held, settle_hold,
  apply_post, void_hold, apply_void, apply_pending, apply_plain, apply_transfer_state,
}

-- A property of the book that each write keeps, the opening of `t`'s hold included.
pub record IsKept (t : Transfer) (P : AccountManager → Type 0) : Type 0 where
  pub puts : (id : ℕ) (a : Account) (m : AccountManager) → P m → P (put id a m)
  pub opens : (m : AccountManager) → P m → P (open_hold t m)
  pub removes : (id : ℕ) (m : AccountManager) → P m → P (remove_pending id m)
  pub replaces : (id : ℕ) (p : Transfer) (m : AccountManager) → P m → P (replace_hold id p m)
  pub records : (u : Transfer) (m : AccountManager) → P m → P (record_transfer u m)

module _ (P : AccountManager → Type 0) where
  abbrev pub Keeps : {A : Type 0} → Action A → Type 0
  Keeps act = (m : AccountManager) → P m → P (act m).1

  bind-Keeps :
      {A B : Type 0} (act : Action A) (f : A → Action B)
      → Keeps act
      → ((a : A) → Keeps (f a))
      → Keeps (act >>= f)
  bind-Keeps {A} {B} act f k k' m p = go (act m) (k m p)
    where
      go :
          (x : Result LedgerError A × AccountManager)
          → P x.1
          → P
              (elim x.0 as (λ y. Result LedgerError B × AccountManager) [
                | ok a ↦ f a x.1
                | err e ↦ (err e, x.1)
              ]).1
      go (ok a, m') p' = k' a m' p'
      go (err e, m') p' = p'

  update-Keeps :
      ((id : ℕ) (a : Account) (m : AccountManager) → P m → P (put id a m))
      → (id : ℕ) (f : Rewrite) → Keeps (update id f)
  unfolding update
  update-Keeps puts id f m p = elim (Result-cases (get m id)) [
    | inr (e, q) ↦ rw (update, q) p
    | inl (old, q) ↦ elim (Result-cases (f old)) [
      | inr (e, s) ↦ rw (update, q, s) p
      | inl (new, s) ↦ rw (update, q, s) (puts id new m p)
    ]
  ]

  module _ (puts : (id : ℕ) (a : Account) (m : AccountManager) → P m → P (put id a m)) where
    two_updates-Keeps : (d c : ℕ) (f g : Rewrite) → Keeps (update d f >> update c g)
    two_updates-Keeps d c f g =
        bind-Keeps (update d f) (λ _. update c g) (update-Keeps puts d f)
          (λ _. update-Keeps puts c g)

    pub release_pending-Keeps : (p : Transfer) → Keeps (release_pending p)
    unfolding release_pending
    release_pending-Keeps p = two_updates-Keeps p.debit_account_id p.credit_account_id _ _

  module _ {t : Transfer} (k : IsKept t P) where
    move_pending-Keeps : (p : Transfer) (x : Uint128) → Keeps (move_pending p x)
    unfolding move_pending
    move_pending-Keeps p x = two_updates-Keeps k.puts p.debit_account_id p.credit_account_id _ _

    apply_plain-Keeps : Keeps (apply_plain t)
    unfolding apply_plain post_immediate apply_debit apply_credit assert_balance
    apply_plain-Keeps =
        bind-Keeps (post_immediate t) (λ _. modify (record_transfer t))
          (bind-Keeps (apply_debit t.debit_account_id t.amount)
            (λ _. apply_credit t.credit_account_id t.amount)
            (bind-Keeps (update t.debit_account_id _) (λ _. assert_balance t.debit_account_id)
              (update-Keeps k.puts t.debit_account_id _)
              (λ _.
                bind-Keeps (find t.debit_account_id)
                  (λ acc. lift (balance acc) >>= λ _. lift (ok tt)) (λ m p. p)
                  (λ acc.
                    bind-Keeps (lift (balance acc)) (λ _. lift (ok tt)) (λ m p. p) (λ _ m p. p))))
            (λ _. update-Keeps k.puts t.credit_account_id _))
          (λ _. k.records t)

    apply_pending-Keeps : Keeps (apply_pending t)
    unfolding apply_pending reserve_pending apply_pending_debit apply_pending_credit
    apply_pending-Keeps =
        bind-Keeps (reserve_pending t) (λ _. modify (record_transfer t))
          (bind-Keeps (apply_pending_debit t.debit_account_id t.amount)
            (λ _. apply_pending_credit t.credit_account_id t.amount >> modify (open_hold t))
            (update-Keeps k.puts t.debit_account_id _)
            (λ _.
              bind-Keeps (apply_pending_credit t.credit_account_id t.amount)
                (λ _. modify (open_hold t)) (update-Keeps k.puts t.credit_account_id _)
                (λ _. k.opens)))
          (λ _. k.records t)

    settled-Keeps :
        (p : Transfer) (x : Uint128) (m : AccountManager)
        → P m
        → P (
            (if is_same (cmp p.amount x)
                then remove_pending t.id
                else replace_hold t.id (subtract_pending_amount p x))
              m)
    settled-Keeps p x m v = elim (Bool-cases (is_same (cmp p.amount x))) [
      | inl e ↦ rw e (k.removes t.id m v)
      | inr e ↦ rw e (k.replaces t.id (subtract_pending_amount p x) m v)
    ]

    apply_post-Keeps : (x : Uint128) → Keeps (apply_post t x)
    unfolding apply_post settle_hold
    apply_post-Keeps x =
        bind-Keeps (held t.id) (settle_hold t x) (λ m p. p)
          (λ p.
            bind-Keeps (move_pending p.transfer x)
              (λ _.
                modify (
                  if is_same (cmp p.transfer.amount x)
                  then remove_pending t.id
                  else replace_hold t.id (subtract_pending_amount p.transfer x))
                >> modify (record_transfer (complete_from p.transfer t)))
              (move_pending-Keeps p.transfer x)
              (λ _ m v. k.records (complete_from p.transfer t) _ (settled-Keeps p.transfer x m v)))

    apply_void-Keeps : Keeps (apply_void t)
    unfolding apply_void void_hold
    apply_void-Keeps =
        bind-Keeps (held t.id) (void_hold t) (λ m p. p)
          (λ p.
            bind-Keeps (release_pending p.transfer)
              (λ _.
                modify (remove_pending t.id)
                >> modify (record_transfer (complete_from p.transfer t)))
              (release_pending-Keeps k.puts p.transfer)
              (λ _ m v. k.records (complete_from p.transfer t) _ (k.removes t.id m v)))

    -- A transfer keeps it, whether it is applied, refused, or fails on the way.
    pub apply-Keeps : Keeps (apply_transfer_state t)
    unfolding apply_transfer_state
    apply-Keeps m v =
        bind-Keeps (lift (check_transfer m t)) (dispatch t) (λ m p. p)
          (λ x. if_ind Keeps (is_post t) (apply_post-Keeps x) (
            if_ind Keeps (is_void t) apply_void-Keeps
              (if_ind Keeps (is_pending t) apply_pending-Keeps apply_plain-Keeps)))
          m v
