-- ===== src/Wal/Segments.antt =====
-- internal/wal/segment.go: a segment of the log. A file is its bytes; every write and every sync of
-- the system is taken to succeed. Direct input and output, which buffers blocks, is left out.
use aequitas_ledger.Prelude.{
  ℕ, ◌+◌, Bool, ltb, ◌==◌, List, ◌++◌, length, take, Result, ok, err, if◌then◌else◌,
}
use aequitas_ledger.Wal.Records.{RecordError}

-- `panicked` is a slice or an index out of bounds, where the source panics.
pub data WalError : Type 0 where
  encoding : RecordError → WalError
  segment_full record_larger_than_segment panicked : WalError

-- `writeOffset` is the number of bytes.
pub record Segment : Type 0 where
  pub id : ℕ
  pub max_size : ℕ
  pub bytes : List ℕ
  pub synced_offset : ℕ

abbrev pub default_segment_size : ℕ
default_segment_size = 67_108_864

-- The opening of a file with some content. A size that is not positive is 0 here.
unfoldable pub open_segment : ℕ → ℕ → List ℕ → Segment
open_segment id max_size content = record {
  id = id;
  max_size = if max_size == 0 then default_segment_size else max_size;
  bytes = content;
  synced_offset = length content;
}

abbrev pub size : Segment → ℕ
size s = length s.bytes

-- The number of bytes to be written is not negative.
unfoldable pub is_full : ℕ → Segment → Bool
is_full n s = ltb s.max_size (size s + n)

unfoldable pub write : List ℕ → Segment → Result WalError ℕ × Segment
unfolding is_full
write p s =
    if is_full (length p) s
    then (err segment_full, s)
    else (ok (size s), record s { bytes = s.bytes ++ p })

unfoldable pub sync : Segment → Segment
sync s = record s { synced_offset = size s }

unfoldable pub truncate : ℕ → Segment → Segment
truncate n s = record s { bytes = take n s.bytes }
