-- ===== src/Wal/Stream/Tests.antt =====
-- The reader of internal/wal/stream.go on a log of two segments. The checksum is 0.
use aequitas_ledger.Prelude.{
  ℕ, zero, suc, ◌+◌, ◌≡◌, refl, arith, some, none, true, List, [], ◌∷◌, ◌++◌, length, ok, err,
}
use aequitas_ledger.Prelude.Bytes.{put_be, field, skip}
use aequitas_ledger.Wal.Records.{frame_body, frame, append_commit_frame, decode_record}
use aequitas_ledger.Wal.Segments.{Segment}
use aequitas_ledger.Wal.Writer.{Wal, segments, head}
use aequitas_ledger.Wal.Recovery.{peek_segment_max_lsn, resync, walk_frame_chain, walk_frames}
use aequitas_ledger.Wal.Stream.{
  StreamReader, new_stream_reader, eligible, created_since, last_id, segment_with, open_first,
  open_listed, ensure_open, drop_first, advance, durable_limit, position, release, read_frame,
  take_frame, read_at, round_in, round_at, round, next,
}
use aequitas_ledger.Wal.Stream.Stale.{here, stale_size_skips}

abbrev checksum : List ℕ → ℕ
checksum bytes = 0

-- A batch of one record, with its commit record.
abbrev batch : ℕ → List ℕ
batch lsn =
    frame checksum (record { lsn = lsn; kind = 1; payload = 7 ∷ [] })
    ++ append_commit_frame checksum [] (lsn + 1) 1

abbrev segment : ℕ → List ℕ → Segment
segment id bytes = record { id = id; max_size = 100; bytes = bytes; synced_offset = length bytes }

-- The log as a reader finds it, and the log after two more batches, the second one in a new segment.
abbrev young : Wal
young = record { segment_size = 100; closed = []; current = segment 1 (batch 1); current_lsn = 2 }

abbrev grown : Wal
grown = record {
  segment_size = 100;
  closed = segment 1 (batch 1 ++ batch 3) ∷ [];
  current = segment 2 (batch 5);
  current_lsn = 6;
}

-- The numbers of the records that calls of `Next` return, until one returns none.
numbers : ℕ → Wal → StreamReader → List ℕ × StreamReader
unfolding new_stream_reader eligible created_since last_id segment_with open_first open_listed
    ensure_open drop_first advance durable_limit position release read_frame take_frame read_at
    round_in round_at round next head peek_segment_max_lsn resync walk_frame_chain walk_frames
    decode_record frame frame_body append_commit_frame put_be field skip
numbers zero w sr = ([], sr)
numbers (suc calls) w sr =
    let (r, sr') = next checksum 20 w sr in
    let (later, sr'') = numbers calls w sr' in
    elim r [
      | none ↦ ([], sr')
      | some (err e) ↦ ([], sr')
      | some (ok none) ↦ ([], sr')
      | some (ok (some rec)) ↦ (rec.lsn ∷ later, sr'')
    ]

-- A reader that starts late sees all records; one that has been there misses the second batch.
all_seen : (numbers 9 grown (new_stream_reader 0)).0 ≡ 1 ∷ 2 ∷ 3 ∷ 4 ∷ 5 ∷ 6 ∷ []
unfolding numbers new_stream_reader
all_seen = refl

second_missed :
    ((numbers 9 young (new_stream_reader 0)).0 ≡ 1 ∷ 2 ∷ [])
    × ((numbers 9 grown (numbers 9 young (new_stream_reader 0)).1).0 ≡ 5 ∷ 6 ∷ [])
unfolding numbers new_stream_reader
second_missed = (refl, refl)

abbrev waiting : StreamReader
waiting = record {
  from_lsn = 0;
  listed = true;
  left = 1 ∷ [];
  max_id = 1;
  file = some (record { id = 1; size = 47; offset = 47 });
  pending = [];
  emit = [];
}

stale_size_skips_example :
    (next checksum 20 grown waiting ≡ next checksum 19 grown (advance waiting (segments grown)))
    × (next checksum 20 (record grown { closed = segment 1 (batch 1) ∷ [] }) waiting
        ≡ next checksum 19
            (record grown { closed = segment 1 (batch 1) ∷ [] })
            (advance waiting (segments grown)))
unfolding drop_first
stale_size_skips_example =
    stale_size_skips checksum 19 grown (segment 1 (batch 1) ∷ []) waiting
      (record { id = 1; size = 47; offset = 47 }) refl refl refl (omega arith) refl tt (omega arith)
      (here (segment 1 (batch 1 ++ batch 3)) (segment 1 (batch 1)) [] refl refl)
