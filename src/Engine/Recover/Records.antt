-- ===== src/Engine/Recover/Records.antt =====
-- What the replay of internal/engine/ledger.go does with one record that the event loop has logged.
use aequitas_ledger.Prelude.{ℕ, ◌≡◌, refl, ap, ◌∙◌, ok, err, Result, arith}
use aequitas_ledger.Core.Errors.{LedgerError}
use aequitas_ledger.Core.Account.{Account}
use aequitas_ledger.Core.Transfer.{Transfer}
use aequitas_ledger.Core.Codec.{encode_transfer_payload, encode_account_payload}
use aequitas_ledger.Core.Codec.RoundTrip.{
  IsSized, IsSizedAccount, decode-encode_transfer, decode-encode_account,
}
use aequitas_ledger.Wal.Records.{LogRecord}
use aequitas_ledger.Engine.Accounts.{AccountManager, create, apply_transfer_state}
use aequitas_ledger.Engine.Idempotency.{IdempotencyStore}
use aequitas_ledger.Engine.Loop.{transfer_record, account_record}
use aequitas_ledger.Engine.Recover.{
  Recovered, RecoveryError, unapplied, recover_account, recover_key, recover_transfer,
  recover_record, replay_clock,
}
use aequitas_ledger.Engine.Recover.Keys.{IsSettled, recover_key-IsSettled}

module _ (now : LogRecord → ℕ) (lsn : ℕ) where
  recover-account_record :
      (a : Account) (s : Recovered)
      → IsSizedAccount a
      → recover_record now (record (account_record a) { lsn = lsn }) s ≡ recover_account a s
  unfolding recover_record encode_account_payload
  recover-account_record a s v = rw (recover_record, decode-encode_account a v) refl

  -- A logged account is created in the replay, or was there already.
  pub recover_created :
      (a : Account) (s : Recovered)
      → IsSizedAccount a
      → recover_record now (record (account_record a) { lsn = lsn }) s
        ≡ (ok tt, record s { accounts = (create a s.accounts).1 })
  unfolding recover_account create
  recover_created a s v = recover-account_record a s v ∙ ground arith

  pub recover-transfer_record :
      (t : Transfer) (s : Recovered)
      → IsSized t
      → recover_record now (record (transfer_record t) { lsn = lsn }) s
        ≡ recover_transfer (now (record (transfer_record t) { lsn = lsn })) t s
  unfolding recover_record encode_transfer_payload
  recover-transfer_record t s v = rw (recover_record, decode-encode_transfer t v) refl

  -- A logged transfer is applied in the replay, if it can be at the moment of its timestamp.
  pub recover_applied :
      (t : Transfer) (s : Recovered) (m m' : AccountManager)
      → IsSized t
      → IsSettled s.keys
      → replay_clock t.timestamp s.accounts ≡ m
      → apply_transfer_state t m ≡ (ok tt, m')
      → (keys : IdempotencyStore) × (recover_record now (record (transfer_record t) { lsn = lsn }) s
          ≡ (ok tt, record { accounts = m'; keys = keys }))
        × IsSettled keys
  unfolding recover_transfer
  recover_applied t s m m' v settled ticked applied =
      let time = now (record (transfer_record t) { lsn = lsn }) in
      let (keys, e, settled') = recover_key-IsSettled time t (record s { accounts = m' }) settled in
      (
        keys,
        recover-transfer_record t s v
            ∙ ap
                (λ (x : Result LedgerError (Unit {0}) × AccountManager).
                  elim x.0 as (λ y. Result RecoveryError (Unit {0}) × Recovered) [
                    | err e ↦ (err (unapplied e), record s { accounts = x.1 })
                    | ok u ↦ recover_key time t (record s { accounts = x.1 })
                  ])
                (ap (λ m. apply_transfer_state t m) ticked ∙ applied)
            ∙ e,
        settled',
      )
