-- ===== src/Engine/Ledger/Keys.antt =====
-- What becomes of the key of a transfer that internal/engine/loop.go cannot log, in `CreateTransfers` of
-- internal/engine/ledger.go.
use aequitas_ledger.Prelude.{
  ℕ, ◌≡◌, refl, ap, ◌+◌, true, false, ◌==◌, some, List, [], ◌∷◌, ok, err, Result,
}
use aequitas_ledger.Core.Errors.{idempotency_conflict}
use aequitas_ledger.Core.Transfer.{Transfer}
use aequitas_ledger.Wal.Log.{Log}
use aequitas_ledger.Engine.Idempotency.{
  IdempotencyStore, Reply, conflict, hit, reserved, check_and_reserve,
}
use aequitas_ledger.Engine.Idempotency.Between.{Between}
use aequitas_ledger.Engine.Idempotency.Replies.{reserved_once}
use aequitas_ledger.Engine.Loop.{
  EventLoop, unlogged, tick, log_records, process_batch, acks_unlogged,
}
use aequitas_ledger.Engine.Loop.Runs.{transfers, logged}
use aequitas_ledger.Engine.Ledger.{
  CallError, Claim, existing, claimed, failure, reserve_key, reserve_slots, contains, events,
  settle_key, materialize, create_transfers,
}

module _ (L : Log) where
  process-unlogged :
      (time : ℕ) (t : Transfer) (l : EventLoop L) {e : L.Fault}
      → (log_records L (logged L (transfers time (t ∷ [])) l) (tick L time l)).0 ≡ err e
      → (process_batch L time (t ∷ []) l).0 ≡ failure (unlogged e) ∷ []
  unfolding process_batch logged tick acks_unlogged
  process-unlogged time t l h = rw (process_batch, h) refl

  reserve-claimed :
      (looked : ℕ) (looks : List ℕ) (key : ℕ) (keys : IdempotencyStore) {keys' : IdempotencyStore}
      → check_and_reserve looked key keys ≡ (reserved, keys')
      → reserve_key (looked ∷ looks) key keys ≡ (ok claimed, keys')
  unfolding reserve_key
  reserve-claimed looked looks key keys h =
      ap
        (λ (x : Reply × IdempotencyStore).
          elim x.0 as (λ y. Result CallError Claim × IdempotencyStore) [
            | conflict e ↦ reserve_key looks key x.1
            | hit t ↦ (ok (existing t), x.1)
            | reserved ↦ (ok claimed, x.1)
          ])
        h

  -- A client sends a batch of one transfer with a key, reserves the key, and the write of the log or its
  -- sync fails. Then the call returns that error, and leaves the key reserved: as long as callers,
  -- before the reservation's lifetime ends, reserve keys, and commit and roll back others than this
  -- one, a call for the key, at whatever time, is refused as a conflict and changes nothing.
  pub unlogged_key_stuck :
      (looked time now later : ℕ) (looks : List ℕ) (t : Transfer) (l : EventLoop L)
      (keys keys₂ : IdempotencyStore) {keys' : IdempotencyStore} (e : L.Fault)
      → (t.idempotency_key == 0) ≡ false
      → check_and_reserve looked t.idempotency_key keys ≡ (reserved, keys')
      → (log_records L (logged L (transfers time (t ∷ [])) l) (tick L time l)).0 ≡ err e
      → Between t.idempotency_key (looked + keys.ttl) true keys' keys₂
      → (create_transfers false
            (looked ∷ looks)
            now
            (λ ts. (process_batch L time ts l).0)
            (t ∷ [])
            keys
          ≡ some (ok (failure (unlogged e) ∷ []), keys'))
        × (check_and_reserve later t.idempotency_key keys₂
            ≡ (conflict (idempotency_conflict t.idempotency_key), keys₂))
  unfolding create_transfers reserve_slots contains events settle_key materialize
  unlogged_key_stuck looked time now later looks t l keys keys₂ e keyed free h b =
      let claim = reserve-claimed looked looks t.idempotency_key keys free in
      (
        rw (create_transfers, reserve_slots, keyed, claim, process-unlogged time t l h)
            (ap
              (λ (x : Result CallError Claim × IdempotencyStore).
                some (ok (failure (unlogged e) ∷ []), x.1))
              claim),
        reserved_once looked later t.idempotency_key keys keys₂ free b,
      )
