-- ===== src/Wal/Replay.antt =====
-- `replaySegment` of internal/wal/recovery.go: the records of a segment reach the handler batch by
-- batch, each once its commit record has been read. The handler is a method that may fail.
pub mod Steps
pub mod Batches
use aequitas_ledger.Prelude.{
  ℕ, zero, suc, ◌+◌, Option, none, some, List, [], ◌∷◌, ◌++◌, length, take, Bool, true, false, ltb,
  ◌==◌, Result, ok, err, if◌then◌else◌,
}
use aequitas_ledger.Prelude.Bytes.{field, skip}
use aequitas_ledger.Prelude.Exec
use aequitas_ledger.Wal.Records.{
  LogRecord, decode_record, record_header_size, record_crc_size, record_type_batch_commit,
}

-- What survives from one segment to the next.
pub record ReplayState : Type 0 where
  pub pending : List LogRecord
  pub highest_lsn : ℕ

abbrev pub new_replay_state : ReplayState
new_replay_state = record { pending = []; highest_lsn = 0 }

-- The count in the payload of a commit record; 0 if it is too short.
abbrev pub expected_count : LogRecord → ℕ
expected_count r = if ltb (length r.payload) 12 then 0 else field 4 (skip 8 r.payload)

module _ {E S : Type 0} (crc : List ℕ → ℕ) (handler : LogRecord → Exec.Exec E S (Unit {0})) where
  unfoldable pub handle_all : List LogRecord → Exec.Exec E S (Unit {0})
  handle_all [] s = (ok tt, s)
  handle_all (r ∷ rs) s =
      let (result, s') = handler r s in
      elim result [ err e ↦ (err e, s') | ok u ↦ handle_all rs s' ]

  -- The record at the front of the bytes, and the size of its frame; none if the frame is cut off or
  -- corrupted. `DecodeRecord` has no other error.
  unfoldable pub next_record : List ℕ → Option (LogRecord × ℕ)
  next_record bytes =
      let size = record_header_size + field 4 (skip 1 (skip 8 bytes)) + record_crc_size in
      if ltb (length bytes) (record_header_size + record_crc_size)
      then none
      else if ltb (length bytes) size
      then none
      else elim (decode_record crc (take size bytes)) [ err e ↦ none | ok r ↦ some (r, size) ]

  -- The loop, at `offset`, with the bytes from there on. It returns `stop` and `committedOffset`.
  unfoldable pub replay_from :
      ℕ → List ℕ → ℕ → ℕ → ReplayState → S → Result E (Bool × ℕ) × ReplayState × S
  replay_from zero bytes offset committed st s = (ok (false, committed), st, s)
  replay_from (suc fuel) bytes offset committed st s =
      if length bytes == 0 then (ok (false, committed), st, s) else elim (next_record bytes) [
        | none ↦ (ok (true, committed), st, s)
        | some (r, size) ↦
            let later = skip size bytes in
            elim (r.kind == record_type_batch_commit) [
              | false ↦
                  replay_from fuel later (offset + size) committed
                    (record st { pending = st.pending ++ r ∷ [] }) s
              | true ↦ elim (length st.pending == expected_count r) [
                | false ↦
                    replay_from fuel later (offset + size) committed (record st { pending = [] }) s
                | true ↦
                    let (result, s') = handle_all st.pending s in
                    elim result [
                      | err e ↦ (err e, st, s')
                      | ok u ↦
                          replay_from fuel later (offset + size) (offset + size)
                            (record { pending = []; highest_lsn = r.lsn }) s'
                    ]
              ]
            ]
      ]

  -- A round takes at least one byte.
  unfoldable pub replay_segment : List ℕ → ReplayState → S → Result E (Bool × ℕ) × ReplayState × S
  replay_segment bytes st s = replay_from (length bytes + 1) bytes 0 0 st s
