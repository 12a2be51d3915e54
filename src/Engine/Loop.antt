-- ===== src/Engine/Loop.antt =====
-- internal/engine/loop.go: what the event loop does with one batch of transfers, one of accounts and
-- one read. The log is any with the operations of `Wal.Log`. The buffers that are used again for
-- every batch are fresh lists here; metrics and the waiting for work are left out.
pub mod Replay
pub mod Runs
pub mod Restart
pub mod Overflows
mod Tests
use aequitas_ledger.Prelude.{
  ℕ, ◌+◌, ◌%◌, Option, none, some, List, [], ◌∷◌, map, Result, ok, err, if◌then◌else◌,
}
use aequitas_ledger.Prelude.Words.{word, signed_less}
use aequitas_ledger.Core.Errors.{LedgerError, duplicate_account_id, ledger_closed}
use aequitas_ledger.Core.Account.{Account, zero128}
use aequitas_ledger.Core.Transfer.{Transfer}
use aequitas_ledger.Core.Codec.{append_transfer_payload, append_account_payload}
use aequitas_ledger.Wal.Records.{LogRecord, record_type_transfer, record_type_account}
use aequitas_ledger.Wal.Log.{Log}
use aequitas_ledger.Engine.Accounts.{
  AccountManager, create, get, get_transfer, account_transfers, set_clock, close_expired, snapshot,
  pending_transfers, validate_account,
}
use aequitas_ledger.Engine.Validator.{Outcome, validate_batch, apply_batch}

-- The error of an acknowledgement: one of the ledger, or one of the log.
pub data AckError (F : Type 0) : Type 0 where
  refused : LedgerError → AckError F
  unlogged : F → AckError F

-- Go's zero value
abbrev pub zero_transfer : Transfer
zero_transfer = record {
  id = 0;
  debit_account_id = 0;
  credit_account_id = 0;
  amount = zero128;
  idempotency_key = 0;
  user_data128 = 0;
  timestamp = 0;
  timeout = 0;
  ledger = 0;
  code = 0;
  flags = 0;
}

pub record TransferAck (F : Type 0) : Type 0 where
  pub transfer : Transfer
  pub error : Option (AckError F)

-- The LSN before the record is written is 0.
abbrev pub transfer_record : Transfer → LogRecord
transfer_record t = record {
  lsn = 0;
  kind = record_type_transfer;
  payload = append_transfer_payload [] t;
}

abbrev pub account_record : Account → LogRecord
account_record a = record {
  lsn = 0;
  kind = record_type_account;
  payload = append_account_payload [] a;
}

-- `makeWALRecords`
unfoldable pub make_wal_records : List Transfer → List Outcome → List LogRecord
make_wal_records (t ∷ ts) (none ∷ os) = transfer_record t ∷ make_wal_records ts os
make_wal_records (t ∷ ts) (some e ∷ os) = make_wal_records ts os
make_wal_records _ _ = []

-- The batch clock moves on, whatever the time is.
unfoldable pub next_clock : ℕ → ℕ → ℕ
next_clock now clock = if signed_less clock now then now else (clock + 1) % word

abbrev pub stamp : ℕ → Transfer → Transfer
stamp clock t = record t { timestamp = clock }

-- The transfer with its outcome.
abbrev ack : {F : Type 0} → Transfer → Outcome → TransferAck F
ack t none = record { transfer = t; error = none }
ack t (some e) = record { transfer = t; error = some (refused e) }

unfoldable pub acks : {F : Type 0} → List Transfer → List Outcome → List (TransferAck F)
acks (t ∷ ts) (o ∷ os) = ack t o ∷ acks ts os
acks _ _ = []

-- Every event of the batch gets the error of the log, and no transfer.
unfoldable pub acks_unlogged : {F : Type 0} → F → List Transfer → List (TransferAck F)
acks_unlogged e = map λ t. record { transfer = zero_transfer; error = some (unlogged e) }

-- `abandonPending`, for the events of one drained batch
unfoldable pub acks_closed : {F : Type 0} → List Transfer → List (TransferAck F)
acks_closed = map λ t. record { transfer = zero_transfer; error = some (refused ledger_closed) }

module _ (L : Log) where
  -- The fields of `EventLoop` that its batches change.
  pub record EventLoop : Type 0 where
    pub accounts : AccountManager
    pub log : L.State
    pub current_lsn : ℕ
    pub clock : ℕ

  -- The records are appended and synced, and the watermark follows.
  unfoldable pub append_synced : List LogRecord → EventLoop → Result L.Fault (Unit {0}) × EventLoop
  append_synced records l =
      let (appended, log) = L.append records l.log in
      elim appended [
        | err e ↦ (err e, record l { log = log })
        | ok lsn ↦
            let (synced, log') = L.sync log in
            elim synced [
              | err e ↦ (err e, record l { log = log' })
              | ok u ↦ (ok tt, record l { log = log'; current_lsn = L.last log' })
            ]
      ]

  -- `if len(records) > 0 { … }`
  unfoldable pub log_records : List LogRecord → EventLoop → Result L.Fault (Unit {0}) × EventLoop
  log_records [] l = (ok tt, l)
  log_records (r ∷ rs) l = append_synced (r ∷ rs) l

  -- The clock is set, and what has expired is closed.
  unfoldable pub tick : ℕ → EventLoop → EventLoop
  tick now l =
      let clock = next_clock now l.clock in
      record l { clock = clock; accounts = close_expired (set_clock clock l.accounts) }

  -- `processBatch`, at the time `now`
  unfoldable pub process_batch :
      ℕ → List Transfer → EventLoop → List (TransferAck L.Fault) × EventLoop
  process_batch now events l =
      let l₁ = tick now l in
      let stamped = map (stamp l₁.clock) events in
      let outcomes = validate_batch stamped l₁.accounts in
      let (logged, l₂) = log_records (make_wal_records stamped outcomes) l₁ in
      elim logged [
        | err e ↦ (acks_unlogged e events, l₂)
        | ok u ↦
            let (outcomes', accounts) = apply_batch stamped outcomes l₂.accounts in
            (acks stamped outcomes', record l₂ { accounts = accounts })
      ]

  -- What the first loop of `processAccountCreate` finds wrong with an account.
  unfoldable pub check_create : AccountManager → Account → Option LedgerError
  check_create m a = elim (validate_account a) [
    | err e ↦ some e
    | ok u ↦ elim (get m a.id) [ ok old ↦ some (duplicate_account_id a.id) | err e ↦ none ]
  ]

  -- The accounts that enter the log; their positions are those without an error.
  unfoldable pub account_records : List Account → List (Option LedgerError) → List LogRecord
  account_records (a ∷ rest) (none ∷ os) = account_record a ∷ account_records rest os
  account_records (a ∷ rest) (some e ∷ os) = account_records rest os
  account_records _ _ = []

  -- The results where the log has failed.
  unfoldable pub results_unlogged :
      L.Fault → List (Option LedgerError) → List (Option (AckError L.Fault))
  results_unlogged e =
      map λ o. elim o [ none ↦ some (unlogged e) | some refusal ↦ some (refused refusal) ]

  -- The accounts are created one after the other: one that comes twice in a batch is refused here.
  unfoldable pub create_all :
      List Account
      → List (Option LedgerError)
      → AccountManager
      → List (Option (AckError L.Fault)) × AccountManager
  create_all (a ∷ rest) (none ∷ os) m =
      let (r, m₁) = create a m in
      let (results, m') = create_all rest os m₁ in
      ((elim r [ ok u ↦ none | err e ↦ some (refused e) ]) ∷ results, m')
  create_all (a ∷ rest) (some e ∷ os) m =
      let (results, m') = create_all rest os m in (some (refused e) ∷ results, m')
  create_all _ _ m = ([], m)

  -- `processAccountCreate`
  unfoldable pub process_account_create :
      List Account → EventLoop → List (Option (AckError L.Fault)) × EventLoop
  process_account_create accounts l =
      let checked = map (check_create l.accounts) accounts in
      let (logged, l₁) = log_records (account_records accounts checked) l in
      elim logged [
        | err e ↦ (results_unlogged e checked, l₁)
        | ok u ↦
            let (results, m) = create_all accounts checked l₁.accounts in
            (results, record l₁ { accounts = m })
      ]

  -- `handleRead`, `handleReadTransfer` and `handleReadAccountTransfers`
  unfoldable pub handle_read : EventLoop → ℕ → Result LedgerError Account
  handle_read l id = get l.accounts id

  unfoldable pub handle_read_transfer : EventLoop → ℕ → Option Transfer
  handle_read_transfer l id = get_transfer l.accounts id

  unfoldable pub handle_read_account_transfers : EventLoop → ℕ → ℕ → ℕ → List Transfer
  handle_read_account_transfers l account_id after_id limit =
      account_transfers l.accounts account_id after_id limit

  pub record SnapshotView : Type 0 where
    pub accounts : List Account
    pub pendings : List Transfer
    pub lsn : ℕ

  -- The answer to a snapshot request.
  unfoldable pub snapshot_view : EventLoop → SnapshotView
  snapshot_view l = record {
    accounts = snapshot l.accounts;
    pendings = pending_transfers l.accounts;
    lsn = l.current_lsn;
  }
