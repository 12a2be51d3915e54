-- ===== src/Engine/Recover.antt =====
-- `RecoverFromSnapshot` of internal/engine/ledger.go: what the replay does with each record of the
-- log, and the loading of a snapshot in `NewLedger`.
pub mod Keys
pub mod Records
use aequitas_ledger.Prelude.{
  ℕ, true, false, ltb, ◌==◌, Option, none, some, List, [], ◌∷◌, Result, ok, err, if◌then◌else◌,
}
use aequitas_ledger.Prelude.Words.{signed_less}
use aequitas_ledger.Prelude.Exec
use aequitas_ledger.Core.Errors.{LedgerError, duplicate_account_id}
use aequitas_ledger.Core.Account.{Account}
use aequitas_ledger.Core.Transfer.{Transfer}
use aequitas_ledger.Core.Codec.{PayloadError, decode_transfer_payload, decode_account_payload}
use aequitas_ledger.Wal.Records.{LogRecord, record_type_transfer, record_type_account}
use aequitas_ledger.Engine.Accounts.{
  AccountManager, create, set_clock, close_expired, apply_transfer_state, restore_pending,
}
use aequitas_ledger.Engine.Idempotency.{IdempotencyStore, commit}

-- `endless` is a `Commit` whose loop does not end.
pub data RecoveryError : Type 0 where
  undecoded : PayloadError → RecoveryError
  unapplied : LedgerError → RecoveryError
  endless : RecoveryError

-- The fields of `Ledger` that the replay changes.
pub record Recovered : Type 0 where
  pub accounts : AccountManager
  pub keys : IdempotencyStore

abbrev pub Recovery : Type 0 → Type 0
Recovery A = Exec.Exec RecoveryError Recovered A

-- `errors.As(err, &dup)`
abbrev unless_duplicate : Result LedgerError (Unit {0}) → Result RecoveryError (Unit {0})
unless_duplicate (ok u) = ok u
unless_duplicate (err (duplicate_account_id id)) = ok tt
unless_duplicate (err e) = err (unapplied e)

unfoldable pub recover_account : Account → Recovery (Unit {0})
recover_account a s =
    let (r, m) = create a s.accounts in (unless_duplicate r, record s { accounts = m })

-- The logical clock is moved on, and what has expired is closed, before the transfer is applied.
unfoldable pub replay_clock : ℕ → AccountManager → AccountManager
replay_clock timestamp m =
    close_expired (set_clock (if signed_less m.clock timestamp then timestamp else m.clock) m)

-- A key of 0 is none.
unfoldable pub recover_key : ℕ → Transfer → Recovery (Unit {0})
recover_key now t s = elim (t.idempotency_key == 0) [
  | true ↦ (ok tt, s)
  | false ↦ elim (commit now t.idempotency_key t s.keys) [
    | none ↦ (err endless, s)
    | some keys ↦ (ok tt, record s { keys = keys })
  ]
]

unfoldable pub recover_transfer : ℕ → Transfer → Recovery (Unit {0})
recover_transfer now t s =
    let (r, m) = apply_transfer_state t (replay_clock t.timestamp s.accounts) in
    let s' = record s { accounts = m } in
    elim r [ err e ↦ (err (unapplied e), s') | ok u ↦ recover_key now t s' ]

-- The handler that `RecoverFromLSN` calls; the time at which a record is handled is `now r`.
unfoldable pub recover_record : (LogRecord → ℕ) → LogRecord → Recovery (Unit {0})
recover_record now r s =
    if r.kind == record_type_account
    then elim (decode_account_payload r.payload) [
      | err e ↦ (err (undecoded e), s)
      | ok a ↦ recover_account a s
    ]
    else if r.kind == record_type_transfer
    then elim (decode_transfer_payload r.payload) [
      | err e ↦ (err (undecoded e), s)
      | ok t ↦ recover_transfer (now r) t s
    ]
    else (ok tt, s)

-- The accounts of the snapshot are created; a duplicate is ignored.
unfoldable pub load_accounts : List Account → AccountManager → AccountManager
load_accounts [] m = m
load_accounts (a ∷ rest) m = load_accounts rest (create a m).1

-- The open holds of the snapshot, and the clock that is at least their timestamps.
unfoldable pub load_pendings :
    List Transfer → AccountManager → Result LedgerError (Unit {0}) × AccountManager
load_pendings [] m = (ok tt, m)
load_pendings (t ∷ ts) m =
    let (r, m') = restore_pending t m in
    elim r [
      | err e ↦ (err e, m')
      | ok u ↦
          load_pendings ts
            (if signed_less m'.clock t.timestamp then set_clock t.timestamp m' else m')
    ]

unfoldable pub load_snapshot :
    List Account → List Transfer → AccountManager → Result LedgerError (Unit {0}) × AccountManager
load_snapshot accounts pendings m = load_pendings pendings (load_accounts accounts m)
