-- ===== src/Wal/Log.antt =====
-- The operations of the log (internal/wal/wal.go) that the engine calls, with any errors, and the
-- log of `Writer` as such operations.
use aequitas_ledger.Prelude.{ℕ, Option, none, some, List, Result, ok, err}
use aequitas_ledger.Wal.Records.{LogRecord}
use aequitas_ledger.Wal.Segments.{WalError}
use aequitas_ledger.Wal.Writer.{Wal, append_batch, sync_log}

-- A write and a sync may fail, with what has been written so far left in the state.
pub record Log : Type 1 where
  pub State : Type 0
  pub Fault : Type 0
  pub append : List LogRecord → State → Result Fault ℕ × State
  pub sync : State → Result Fault (Unit {0}) × State
  pub last : State → ℕ

-- `none` is an append that has not ended within its fuel.
abbrev outcome : Wal → Option (Result WalError ℕ × Wal) → Result (Option WalError) ℕ × Wal
outcome w none = (err none, w)
outcome w (some (err e, w')) = (err (some e), w')
outcome w (some (ok lsn, w')) = (ok lsn, w')

abbrev pub wal_log : (List ℕ → ℕ) → Log
wal_log crc = record {
  State = Wal;
  Fault = Option WalError;
  append = λ rs w. outcome w (append_batch crc rs w);
  sync = λ w. (ok tt, sync_log w);
  last = λ w. w.current_lsn;
}
