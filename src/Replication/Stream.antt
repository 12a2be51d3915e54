-- ===== src/Replication/Stream.antt =====
-- internal/replication/follower.go: what a follower does with the stream of a primary. The log is any
-- with the operations of `Wal.Log`; a connection is the bytes that it yields before it breaks.
-- Metrics, locks, the waiting between connections and the end by `Stop` are left out.

use aequitas_ledger.Prelude.{
  ℕ, zero, suc, ◌+◌, ◌%◌, ◌^◌, true, false, not, ltb, leb, ◌==◌, List, [], ◌∷◌, ◌++◌, length, take,
  Result, ok, err, if◌then◌else◌,
}
use aequitas_ledger.Prelude.Words.{word, signed_less}
use aequitas_ledger.Prelude.Bytes.{field, skip}
use aequitas_ledger.Core.Errors.{LedgerError}
use aequitas_ledger.Core.Codec.{PayloadError, decode_transfer_payload, decode_account_payload}
use aequitas_ledger.Core.Account.{Account}
use aequitas_ledger.Wal.Log.{Log}
use aequitas_ledger.Wal.Records.{
  LogRecord, record_type_transfer, record_type_account, record_type_batch_commit, record_type_head,
}
use aequitas_ledger.Engine.Accounts.{
  AccountManager, new_account_manager, create, get, set_clock, close_expired, apply_transfer_state,
}
use aequitas_ledger.Replication.{Follower, handshake, accepts_frame}

abbrev pub follower_flush_threshold : ℕ
follower_flush_threshold = 4096

abbrev pub frame_header_size : ℕ
frame_header_size = 21

-- How a connection ends. `disconnected` is a read that fails, and `panicked` a length of a payload
-- that overflows together with its checksum's.
pub data SyncError (F : Type 0) : Type 0 where
  disconnected crc_mismatch stale panicked : SyncError F
  undecoded : PayloadError → SyncError F
  unapplied : LedgerError → SyncError F
  unlogged : F → SyncError F

-- The term and the record of a frame, and what follows it.
pub record StreamFrame : Type 0 where
  pub term : ℕ
  pub entry : LogRecord
  pub rest : List ℕ

-- `[term:8|LSN:8|type:1|len:4|payload|crc:4]`
unfoldable pub read_frame : {F : Type 0} → (List ℕ → ℕ) → List ℕ → Result (SyncError F) StreamFrame
read_frame crc bytes =
    let size = field 4 (skip 17 bytes) in
    let body = skip frame_header_size bytes in
    if ltb (length bytes) frame_header_size
    then err disconnected
    else if ltb (length body) ((size + 4) % 2 ^ 32)
    then err disconnected
    else if leb (2 ^ 32) (size + 4)
    then err panicked
    else if not (crc (take (frame_header_size + size) bytes) == field 4 (skip size body))
    then err crc_mismatch
    else ok (record {
      term = field 8 bytes;
      entry = record {
        lsn = field 8 (skip 8 bytes);
        kind = field 1 (skip 16 bytes);
        payload = take size body;
      };
      rest = skip (size + 4) body;
    })

-- `applyRecord`
abbrev apply_account :
    {F : Type 0} → Account → AccountManager → Result (SyncError F) (Unit {0}) × AccountManager
apply_account a m = elim (get m a.id) [
  | ok present ↦ (ok tt, m)
  | err missing ↦
      let (r, m') = create a m in (elim r [ ok u ↦ ok tt | err e ↦ err (unapplied e) ], m')
]

unfoldable pub apply_record :
    {F : Type 0} → LogRecord → AccountManager → Result (SyncError F) (Unit {0}) × AccountManager
apply_record r m =
    if r.kind == record_type_account
    then elim (decode_account_payload r.payload) [
      | err e ↦ (err (undecoded e), m)
      | ok a ↦ apply_account a m
    ]
    else if r.kind == record_type_transfer
    then elim (decode_transfer_payload r.payload) [
      | err e ↦ (err (undecoded e), m)
      | ok t ↦
          let m₁ = if signed_less m.clock t.timestamp then set_clock t.timestamp m else m in
          let (r', m') = apply_transfer_state t (close_expired (set_clock m₁.clock m₁)) in
          (elim r' [ ok u ↦ ok tt | err e ↦ err (unapplied e) ], m')
    ]
    else (ok tt, m)

unfoldable pub apply_records :
    {F : Type 0}
    → List LogRecord
    → AccountManager
    → Result (SyncError F) (Unit {0}) × AccountManager
apply_records [] m = (ok tt, m)
apply_records (r ∷ rs) m =
    let (applied, m') = apply_record r m in
    elim applied [ err e ↦ (err e, m') | ok u ↦ apply_records rs m' ]

module _ (L : Log) where
  -- The fields of `Follower` that the stream changes, but for the flag of the connection and the count
  -- of failures; those of its terms are `terms`.
  pub record StreamFollower : Type 0 where
    pub accounts : AccountManager
    pub local_wal : L.State
    pub last_lsn : ℕ
    pub terms : Follower
    pub primary_head : ℕ
    pub pending : List LogRecord

  -- The records are applied only once they are in the follower's own log.
  unfoldable pub persist :
      List LogRecord → StreamFollower → Result (SyncError L.Fault) (Unit {0}) × StreamFollower
  persist batch f =
      let (appended, log) = L.append batch f.local_wal in
      elim appended [
        | err e ↦ (err (unlogged e), record f { local_wal = log })
        | ok lsn ↦
            let (synced, log') = L.sync log in
            elim synced [
              | err e ↦ (err (unlogged e), record f { local_wal = log' })
              | ok u ↦
                  let (applied, accounts) = apply_records batch f.accounts in
                  (applied, record f { local_wal = log'; accounts = accounts })
            ]
      ]

  unfoldable pub flush : StreamFollower → Result (SyncError L.Fault) (Unit {0}) × StreamFollower
  flush f = elim f.pending [
    | [] ↦ (ok tt, f)
    | r ∷ rs ↦ persist (r ∷ rs) (record f { pending = [] })
  ]

  -- The length of `pending` reaches the threshold.
  unfoldable pub buffer :
      LogRecord → StreamFollower → Result (SyncError L.Fault) (Unit {0}) × StreamFollower
  buffer r f =
      let f' = record f { pending = f.pending ++ r ∷ [] } in
      if leb follower_flush_threshold (length f'.pending) then flush f' else (ok tt, f')

  unfoldable pub commit_stream :
      ℕ → StreamFollower → Result (SyncError L.Fault) (Unit {0}) × StreamFollower
  commit_stream lsn f =
      let (flushed, f') = flush f in
      elim flushed [
        | err e ↦ (err e, f')
        | ok u ↦ (
          ok tt,
          record f' { last_lsn = if signed_less f'.last_lsn lsn then lsn else f'.last_lsn },
        )
      ]

  -- The `switch` of `syncLoop`
  unfoldable pub receive :
      LogRecord → StreamFollower → Result (SyncError L.Fault) (Unit {0}) × StreamFollower
  receive r f =
      if r.kind == record_type_head
      then (
        ok tt,
        if leb 8 (length r.payload) then record f { primary_head = field 8 r.payload } else f,
      )
      else if r.kind == record_type_batch_commit
      then commit_stream r.lsn f
      else if signed_less f.last_lsn r.lsn
      then buffer r f
      else (ok tt, f)

  -- The loop of `syncLoop`: how it ends, and what is left. A round takes a frame.
  unfoldable pub read_stream :
      (List ℕ → ℕ) → ℕ → List ℕ → StreamFollower → SyncError L.Fault × StreamFollower
  read_stream crc zero bytes f = (disconnected, f)
  read_stream crc (suc fuel) bytes f = elim (read_frame crc bytes) [
    | err e ↦ (e, f)
    | ok s ↦ elim (accepts_frame s.term f.terms) [
      | false ↦ (stale, f)
      | true ↦
          let (received, f') = receive s.entry f in
          elim received [ err e ↦ (e, f') | ok u ↦ read_stream crc fuel s.rest f' ]
    ]
  ]

  -- `syncLoop` once it is connected, with the LSN that it asks for. What is pending is dropped before
  -- and after.
  unfoldable pub sync_loop :
      (List ℕ → ℕ) → List ℕ → StreamFollower → ℕ × SyncError L.Fault × StreamFollower
  sync_loop crc bytes f =
      let f₀ = record f { pending = [] } in
      let resume = (f.last_lsn + 1) % word in
      if ltb (length bytes) 8
      then (resume, disconnected, f₀)
      else elim (handshake (field 8 bytes) f.terms) [
        | err e ↦ (resume, stale, f₀)
        | ok terms ↦
            let (e, f') =
              read_stream crc (length bytes) (skip 8 bytes) (record f₀ { terms = terms }) in
            (resume, e, record f' { pending = [] })
      ]

  -- `fullResync`, with the log that the reset leaves
  unfoldable pub full_resync : L.State → StreamFollower → StreamFollower
  full_resync log f = record f {
    accounts = new_account_manager;
    last_lsn = 0;
    pending = [];
    local_wal = log;
  }

-- The handler of `recoverLocalState`: the greatest number of a data record so far, and the accounts.
unfoldable pub recover_local :
    {F : Type 0}
    → LogRecord
    → ℕ × AccountManager
    → Result (SyncError F) (Unit {0}) × (ℕ × AccountManager)
recover_local r (greatest, m) =
    if r.kind == record_type_batch_commit
    then (ok tt, (greatest, m))
    else if r.kind == record_type_head
    then (ok tt, (greatest, m))
    else let (applied, m') = apply_record r m in
      (applied, (if signed_less greatest r.lsn then r.lsn else greatest, m'))

-- The position after `recoverLocalState`: that of the commit behind the last data record.
unfoldable pub recovered_lsn : ℕ → ℕ
recovered_lsn greatest = if signed_less 0 greatest then (greatest + 1) % word else greatest
