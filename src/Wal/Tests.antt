-- ===== src/Wal/Tests.antt =====
-- The theorems on internal/wal at concrete inputs. The checksum is the sum of the bytes, in 32 bits.
use aequitas_ledger.Prelude.{
  ◌<◌, ◌++◌, false, length, refl, ℕ, ◌%◌, ◌^◌, ◌≡◌, arith, List, [], ◌∷◌, sum_by, ok, ◌>>=◌,
}
use aequitas_ledger.Prelude.Exec
use aequitas_ledger.Wal.Records.{LogRecord, encode_record, decode_record}
use aequitas_ledger.Wal.Records.RoundTrip.{IsSizedRecord, decode-encode_record}
use aequitas_ledger.Wal.Replay.{handle_all, replay_segment, new_replay_state}
use aequitas_ledger.Wal.Replay.Steps.{frames}
use aequitas_ledger.Wal.Replay.Batches.{Batch, log, replay_segment-log}
use aequitas_ledger.Wal.Writer.{Wal, write_buffered, frame_ends, joined}
use aequitas_ledger.Wal.Writer.Frames.{write_frames, write_buffered-frames}

abbrev checksum : List ℕ → ℕ
checksum bytes = sum_by (λ b. b) bytes % 2 ^ 32

abbrev sample : LogRecord
sample = record { lsn = 12; kind = 1; payload = 7 ∷ 0 ∷ 255 ∷ [] }

decode-encode_record_example :
    (encode_record checksum sample >>= decode_record checksum) ≡ ok sample
decode-encode_record_example =
    decode-encode_record checksum (λ bytes. omega arith) sample
      (record { lsn = omega arith; kind = omega arith; known = omega arith; payload = omega arith })

checksum_narrow : (bytes : List ℕ) → checksum bytes < 256 ^ 4
checksum_narrow bytes = omega arith

-- A handler that keeps what it is given.
abbrev keep : LogRecord → Exec.Exec ℕ (List LogRecord) (Unit {0})
keep r kept = (ok tt, kept ++ r ∷ [])

abbrev first : LogRecord
first = record { lsn = 12; kind = 1; payload = 7 ∷ [] }

abbrev second : LogRecord
second = record { lsn = 13; kind = 2; payload = [] }

abbrev lost : LogRecord
lost = record { lsn = 15; kind = 1; payload = 9 ∷ [] }

abbrev batch : Batch checksum checksum_narrow keep
batch = record { records = first ∷ second ∷ []; commit_lsn = 14 }

first-IsSized : IsSizedRecord first
first-IsSized = record {
  lsn = omega arith;
  kind = omega arith;
  known = omega arith;
  payload = omega arith;
}

second-IsSized : IsSizedRecord second
second-IsSized = record {
  lsn = omega arith;
  kind = omega arith;
  known = omega arith;
  payload = omega arith;
}

lost-IsSized : IsSizedRecord lost
lost-IsSized = record {
  lsn = omega arith;
  kind = omega arith;
  known = omega arith;
  payload = omega arith;
}

replay_segment-log_example :
    replay_segment checksum keep
      (log checksum checksum_narrow keep (batch ∷ [])
        ++ frames checksum checksum_narrow keep (lost ∷ []))
      new_replay_state
      []
    ≡ (
      ok (false, length (log checksum checksum_narrow keep (batch ∷ []))),
      record { pending = lost ∷ []; highest_lsn = 14 },
      first ∷ second ∷ [],
    )
unfolding handle_all
replay_segment-log_example =
    replay_segment-log checksum checksum_narrow keep (batch ∷ []) (lost ∷ []) []
      (first ∷ second ∷ [])
      (((first-IsSized, refl, (second-IsSized, refl, tt)), omega arith, omega arith, tt))
      (lost-IsSized, refl, tt) refl

-- Frames of two, three and one bytes, for segments of four.
abbrev pieces : List (List ℕ)
pieces = (1 ∷ 2 ∷ []) ∷ (3 ∷ 4 ∷ 5 ∷ []) ∷ (6 ∷ []) ∷ []

abbrev narrow_log : Wal
narrow_log = record {
  segment_size = 4;
  closed = [];
  current = record { id = 1; max_size = 4; bytes = []; synced_offset = 0 };
  current_lsn = 0;
}

write_buffered-frames_example :
    write_buffered 8 (joined pieces) 0 (frame_ends 0 pieces) narrow_log
    ≡ write_frames 8 pieces narrow_log
unfolding joined
write_buffered-frames_example =
    write_buffered-frames 8 [] pieces narrow_log (omega arith, (omega arith, (omega arith, tt)))
      (omega arith)
