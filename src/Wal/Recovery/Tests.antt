-- ===== src/Wal/Recovery/Tests.antt =====
-- The theorems on the log and its recovery (internal/wal) at concrete inputs. The checksum is the sum
-- of the bytes, in 32 bits.
use aequitas_ledger.Prelude.{
  ◌<◌, ◌++◌, ℕ, ◌%◌, ◌^◌, ◌≡◌, refl, arith, List, [], ◌∷◌, sum_by, ok, err, some, replicate,
}
use aequitas_ledger.Prelude.Exec
use aequitas_ledger.Wal.Records.{LogRecord}
use aequitas_ledger.Wal.Writer.{Wal, segments, reset, append_batch}
use aequitas_ledger.Wal.Replay.{handle_all}
use aequitas_ledger.Wal.Recovery.{recover_segments}
use aequitas_ledger.Wal.Recovery.Appended.{IsAccepted, batch_bytes}
use aequitas_ledger.Wal.Records.RoundTrip.{IsSizedRecord}
use aequitas_ledger.Wal.Replay.Steps.{frames}
use aequitas_ledger.Wal.Segments.{Segment, record_larger_than_segment}
use aequitas_ledger.Wal.Writer.Refusals.{append_batch-refused}
use aequitas_ledger.Wal.Recovery.Straddles.{committed_part, left, straddling_lost}
use aequitas_ledger.Wal.Recovery.Restart.{append_all, appended, appended_recovered}

abbrev checksum : List ℕ → ℕ
checksum bytes = sum_by (λ b. b) bytes % 2 ^ 32

checksum_narrow : (bytes : List ℕ) → checksum bytes < 256 ^ 4
checksum_narrow bytes = omega arith

-- A handler that keeps what it is given.
abbrev keep : LogRecord → Exec.Exec ℕ (List LogRecord) (Unit {0})
keep r kept = (ok tt, kept ++ r ∷ [])

abbrev small : LogRecord
small = record { lsn = 0; kind = 1; payload = 7 ∷ [] }

abbrev empty : LogRecord
empty = record { lsn = 0; kind = 2; payload = [] }

small-IsAccepted : IsAccepted 40 small
small-IsAccepted = record {
  kind = omega arith;
  known = omega arith;
  no_commit = refl;
  payload = omega arith;
  room = omega arith;
}

empty-IsAccepted : IsAccepted 40 empty
empty-IsAccepted = record {
  kind = omega arith;
  known = omega arith;
  no_commit = refl;
  payload = omega arith;
  room = omega arith;
}

-- Its segments take two small frames, or a commit record: every batch here is cut.
abbrev short_log : Wal
short_log = record {
  segment_size = 40;
  closed = [];
  current = record { id = 1; max_size = 40; bytes = []; synced_offset = 0 };
  current_lsn = 0;
}

abbrev batches : List (List LogRecord)
batches = (small ∷ empty ∷ []) ∷ (small ∷ []) ∷ []

appended_recovered_example :
    (w' : Wal) × (append_all checksum batches (reset short_log) ≡ some (ok tt, w'))
    × (recover_segments checksum keep 0 (segments w') []
        ≡ (ok (segments w', w'.current_lsn, w'.current.id), appended 0 batches))
unfolding handle_all batch_bytes
appended_recovered_example =
    appended_recovered checksum checksum_narrow keep batches short_log [] (appended 0 batches)
      (omega arith)
      (
        omega arith,
        omega arith,
        (small-IsAccepted, (empty-IsAccepted, tt)),
        omega arith,
        omega arith,
        (omega arith, omega arith, (small-IsAccepted, tt), omega arith, omega arith, tt),
      )
      refl

-- A batch of two records, the second one in the next file, before a record that waits.
abbrev one : LogRecord
one = record small { lsn = 1 }

abbrev two : LogRecord
two = record empty { lsn = 2 }

abbrev open_record : LogRecord
open_record = record small { lsn = 4 }

abbrev cut_part : List ℕ
cut_part = frames checksum checksum_narrow keep (one ∷ [])

abbrev open_part : List ℕ
open_part = frames checksum checksum_narrow keep (open_record ∷ [])

abbrev first_file : Segment
first_file = record { id = 1; max_size = 40; bytes = cut_part; synced_offset = 18 }

abbrev start : List LogRecord
start = []

abbrev rest_part : List ℕ
rest_part =
    committed_part checksum checksum_narrow keep (one ∷ []) (two ∷ []) (open_record ∷ []) 3
      first_file first_file start (one ∷ two ∷ [])

abbrev next_file : Segment
next_file = record { id = 2; max_size = 80; bytes = rest_part ++ open_part; synced_offset = 46 }

abbrev files_left : List Segment
files_left =
    left checksum checksum_narrow keep (one ∷ []) (two ∷ []) (open_record ∷ []) 3 first_file
      next_file start (one ∷ two ∷ [])

small-IsSized : (lsn : ℕ) → lsn < 256 ^ 8 → IsSizedRecord (record small { lsn = lsn })
small-IsSized lsn h = record {
  lsn = h;
  kind = omega arith;
  known = omega arith;
  payload = omega arith;
}

two-IsSized : IsSizedRecord two
two-IsSized = record {
  lsn = omega arith;
  kind = omega arith;
  known = omega arith;
  payload = omega arith;
}

straddling_lost_example :
    (recover_segments checksum keep 0 (first_file ∷ next_file ∷ []) start
      ≡ (ok (files_left, 3, 2), one ∷ two ∷ []))
    × (recover_segments checksum keep 0 files_left start ≡ (ok (files_left, 0, 2), start))
unfolding handle_all
straddling_lost_example =
    straddling_lost checksum checksum_narrow keep (one ∷ []) (two ∷ []) (open_record ∷ []) 3
      first_file next_file start (one ∷ two ∷ [])
      (record {
        first_sized = (small-IsSized 1 (omega arith), refl, tt);
        others_sized = (two-IsSized, refl, tt);
        waiting_sized = (small-IsSized 4 (omega arith), refl, tt);
        lsn_sized = omega arith;
        few = omega arith;
        some_first = omega arith;
        some_waiting = omega arith;
        first_bytes = refl;
        next_bytes = refl;
        accepted = refl;
      })

abbrev large : LogRecord
large = record small { payload = replicate 24 0 }

append_batch-refused_example :
    append_batch checksum (small ∷ large ∷ empty ∷ []) short_log
    ≡ some (err record_larger_than_segment, record short_log { current_lsn = 2 })
append_batch-refused_example =
    append_batch-refused checksum checksum_narrow (small ∷ []) (empty ∷ []) large short_log
      (small-IsAccepted, tt)
      (record {
        kind = omega arith;
        known = omega arith;
        payload = omega arith;
        large = omega arith;
      })
      (omega arith)
