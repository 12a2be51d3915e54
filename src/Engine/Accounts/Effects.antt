-- ===== src/Engine/Accounts/Effects.antt =====
-- What a successful `ApplyTransferState` (internal/engine/accounts.go) has done, as a relation: the
-- two accounts that it wrote, and the rest of the state.
use aequitas_ledger.Prelude.{
  ℕ, ◌≡◌, sym, ap, ◌∙◌, arith, true, false, ◌||◌, some, Option-cases, Bool-cases, ok, inl, inr,
  if◌then◌else◌,
}
use aequitas_ledger.Core.Uint128.{Uint128, cmp, is_same}
use aequitas_ledger.Core.Transfer.{Transfer, is_pending, is_post, is_void}
use aequitas_ledger.Engine.Accounts.State.{AccountManager, PendingEntry, pending_entry}
use aequitas_ledger.Prelude.Exec.{◌>>◌, modify, modify_ok, bind_ok, lift}
use aequitas_ledger.Engine.Accounts.Exec.{Action}
use aequitas_ledger.Engine.Accounts.Rewrites.{
  post_debit, post_credit, hold_debit, hold_credit, release_debit, release_credit, settle_debit,
  settle_credit,
}
use aequitas_ledger.Engine.Accounts.Check.{check_new, check_settlement, check_transfer}
use aequitas_ledger.Engine.Accounts.Apply.{
  open_hold, remove_pending, replace_hold, subtract_pending_amount, record_transfer, complete_from,
  move_pending, release_pending, settle_hold, void_hold, apply_post, apply_void, apply_pending,
  apply_plain, apply_transfer_state, post_immediate, reserve_pending, apply_credit,
  apply_pending_debit, apply_pending_credit,
}
use aequitas_ledger.Engine.Accounts.Writes.{
  TwoSided, update_writes, debit_then_credit_write, two_updates_write,
}

-- The state of the holds after a settlement of `amount`.
abbrev pub settled : ℕ → Transfer → Uint128 → AccountManager → AccountManager
settled id pending amount =
    if is_same (cmp pending.amount amount)
    then remove_pending id
    else replace_hold id (subtract_pending_amount pending amount)

-- `m'` is the state after the transfer `t` was applied at `m`.
pub data Applied (t : Transfer) (m m' : AccountManager) : Type 0 where
  plain :
      (is_post t ≡ false)
      → (is_void t ≡ false)
      → (is_pending t ≡ false)
      → (r : Uint128) → check_new m t ≡ ok r
      → (s : AccountManager)
      → TwoSided
          (post_debit t.amount)
          (post_credit t.amount)
          t.debit_account_id
          t.credit_account_id
          m
          s
      → m' ≡ record_transfer t s
      → Applied t m m'
  pending :
      (is_post t ≡ false)
      → (is_void t ≡ false)
      → (is_pending t ≡ true)
      → (r : Uint128) → check_new m t ≡ ok r
      → (s : AccountManager)
      → TwoSided
          (hold_debit t.amount)
          (hold_credit t.amount)
          t.debit_account_id
          t.credit_account_id
          m
          s
      → m' ≡ record_transfer t (open_hold t s)
      → Applied t m m'
  post :
      (is_post t ≡ true)
      → (p : PendingEntry) → pending_entry m t.id ≡ some p
      → (amount : Uint128) → check_settlement p.transfer t ≡ ok amount
      → (s : AccountManager)
      → TwoSided
          (settle_debit amount)
          (settle_credit amount)
          p.transfer.debit_account_id
          p.transfer.credit_account_id
          m
          s
      → m' ≡ record_transfer (complete_from p.transfer t) (settled t.id p.transfer amount s)
      → Applied t m m'
  void :
      (is_post t ≡ false)
      → (is_void t ≡ true)
      → (p : PendingEntry) → pending_entry m t.id ≡ some p
      → (s : AccountManager)
      → TwoSided
          (release_debit p.transfer.amount)
          (release_credit p.transfer.amount)
          p.transfer.debit_account_id
          p.transfer.credit_account_id
          m
          s
      → m' ≡ record_transfer (complete_from p.transfer t) (remove_pending t.id s)
      → Applied t m m'

module _ (t : Transfer) (m : AccountManager) {m' : AccountManager} where
  plain-Applied :
      (r : Uint128)
      → is_post t ≡ false
      → is_void t ≡ false
      → is_pending t ≡ false
      → check_new m t ≡ ok r
      → apply_plain t m ≡ (ok tt, m')
      → Applied t m m'
  unfolding apply_plain post_immediate apply_credit
  plain-Applied r np nv nh checked h =
      let (s, e₁, e₂) = modify_ok (post_immediate t) (record_transfer t) m h in
      plain np nv nh r checked s
        (debit_then_credit_write t.debit_account_id t.credit_account_id t.amount m e₁) e₂

  pending-Applied :
      (r : Uint128)
      → is_post t ≡ false
      → is_void t ≡ false
      → is_pending t ≡ true
      → check_new m t ≡ ok r
      → apply_pending t m ≡ (ok tt, m')
      → Applied t m m'
  unfolding apply_pending reserve_pending apply_pending_debit apply_pending_credit
  pending-Applied r np nv nh checked h =
      let (s₁, e₁, e₂) = modify_ok (reserve_pending t) (record_transfer t) m h in
      let (u, s₂, e₃, e₄) =
        bind_ok (apply_pending_debit t.debit_account_id t.amount)
          (λ _. apply_pending_credit t.credit_account_id t.amount >> modify (open_hold t)) m e₁ in
      let (s₃, e₅, e₆) =
        modify_ok (apply_pending_credit t.credit_account_id t.amount) (open_hold t) s₂ e₄ in
      pending np nv nh r checked s₃
        (record {
          middle = s₂;
          debit = update_writes (hold_debit t.amount) t.debit_account_id m e₃;
          credit = update_writes (hold_credit t.amount) t.credit_account_id s₂ e₅;
        })
        (e₂ ∙ ap (record_transfer t) e₆)

  settle_hold_writes :
      (amount : Uint128) (p : PendingEntry)
      → settle_hold t amount p m ≡ (ok tt, m')
      → (s : AccountManager) × TwoSided
          (settle_debit amount)
          (settle_credit amount)
          p.transfer.debit_account_id
          p.transfer.credit_account_id
          m
          s
        × (m' ≡ record_transfer (complete_from p.transfer t) (settled t.id p.transfer amount s))
  unfolding settle_hold move_pending
  settle_hold_writes amount p h =
      let d = p.transfer.debit_account_id in
      let c = p.transfer.credit_account_id in
      let (u, s, e₁, e₂) =
        bind_ok (move_pending p.transfer amount)
          (λ _.
            modify (settled t.id p.transfer amount)
            >> modify (record_transfer (complete_from p.transfer t)))
          m h in
      (
        s,
        two_updates_write (settle_debit amount) (settle_credit amount) d c m e₁,
        ap (λ r. r.1) (sym e₂),
      )

  void_hold_writes :
      (p : PendingEntry)
      → void_hold t p m ≡ (ok tt, m')
      → (s : AccountManager) × TwoSided
          (release_debit p.transfer.amount)
          (release_credit p.transfer.amount)
          p.transfer.debit_account_id
          p.transfer.credit_account_id
          m
          s
        × (m' ≡ record_transfer (complete_from p.transfer t) (remove_pending t.id s))
  unfolding void_hold release_pending
  void_hold_writes p h =
      let x = p.transfer.amount in
      let d = p.transfer.debit_account_id in
      let c = p.transfer.credit_account_id in
      let (u, s, e₁, e₂) =
        bind_ok (release_pending p.transfer)
          (λ _.
            modify (remove_pending t.id) >> modify (record_transfer (complete_from p.transfer t)))
          m h in
      (s, two_updates_write (release_debit x) (release_credit x) d c m e₁, ap (λ r. r.1) (sym e₂))

  post-Applied :
      (amount : Uint128) (p : PendingEntry)
      → is_post t ≡ true
      → pending_entry m t.id ≡ some p
      → check_settlement p.transfer t ≡ ok amount
      → apply_post t amount m ≡ (ok tt, m')
      → Applied t m m'
  unfolding apply_post
  post-Applied amount p is found checked h =
      let h₁ : settle_hold t amount p m ≡ (ok tt, m') = ground arith in
      let (s, writes, e) = settle_hold_writes amount p h₁ in
      post is p found amount checked s writes e

  void-Applied :
      (p : PendingEntry)
      → is_post t ≡ false
      → is_void t ≡ true
      → pending_entry m t.id ≡ some p
      → apply_void t m ≡ (ok tt, m')
      → Applied t m m'
  unfolding apply_void
  void-Applied p np is found h =
      let h₁ : void_hold t p m ≡ (ok tt, m') = ground arith in
      let (s, writes, e) = void_hold_writes p h₁ in void np is p found s writes e

module _ (t : Transfer) (m : AccountManager) {r : Uint128} where
  pub check_transfer-new :
      is_post t ≡ false → is_void t ≡ false → check_transfer m t ≡ ok r → check_new m t ≡ ok r
  unfolding check_transfer
  check_transfer-new np nv h = ground arith

  -- The kinds of settlement are told apart by the two flags.
  pub check_transfer-settlement :
      (is_post t || is_void t) ≡ true
      → check_transfer m t ≡ ok r
      → (p : PendingEntry) × (pending_entry m t.id ≡ some p)
        × (check_settlement p.transfer t ≡ ok r)
  unfolding check_transfer
  check_transfer-settlement is h = elim (Option-cases (pending_entry m t.id)) [
    | inl e ↦ absurd (ground arith)
    | inr (p, e) ↦ (p, e, ground arith)
  ]

-- What follows the check.
abbrev pub dispatch : Transfer → Uint128 → Action (Unit {0})
dispatch t remaining =
    if is_post t
    then apply_post t remaining
    else if is_void t
    then apply_void t
    else if is_pending t
    then apply_pending t
    else apply_plain t

dispatch-Applied :
    (t : Transfer) (m : AccountManager) {m' : AccountManager} (r : Uint128)
    → check_transfer m t ≡ ok r
    → dispatch t r m ≡ (ok tt, m')
    → Applied t m m'
dispatch-Applied t m r checked h = elim (Bool-cases (is_post t)) [
  | inl is ↦
      let (p, found, settles) = check_transfer-settlement t m (rw is) checked in
      post-Applied t m r p is found settles (rw is at h)
  | inr np ↦ elim (Bool-cases (is_void t)) [
    | inl is ↦
        let (p, found, settles) = check_transfer-settlement t m (rw (np, is)) checked in
        void-Applied t m p np is found (rw (np, is) at h)
    | inr nv ↦
        let checked' = check_transfer-new t m np nv checked in
        elim (Bool-cases (is_pending t)) [
          | inl is ↦ pending-Applied t m r np nv is checked' (rw (np, nv, is) at h)
          | inr nh ↦ plain-Applied t m r np nv nh checked' (rw (np, nv, nh) at h)
        ]
  ]
]

-- A transfer that is applied has passed the checks of its kind (plain, pending, post or void) and
-- has made the two writes, the change of the holds and the entry in the history of that kind.
pub apply_transfer_state-Applied :
    (t : Transfer) (m : AccountManager) {m' : AccountManager}
    → apply_transfer_state t m ≡ (ok tt, m')
    → Applied t m m'
unfolding apply_transfer_state
apply_transfer_state-Applied t m h =
    let (r, s, e₁, e₂) = bind_ok (lift (check_transfer m t)) (dispatch t) m h in
    dispatch-Applied t m r (ap (λ p. p.0) e₁) (rw (sym (ap (λ p. p.1) e₁)) at e₂)
