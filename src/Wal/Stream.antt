-- ===== src/Wal/Stream.antt =====
-- internal/wal/stream.go: the reader that streams the committed records of the log to a replica. A call
-- of `Next` sees one state of the log, which its caller may have changed since the call before.
pub mod Stale
mod Tests
use aequitas_ledger.Prelude.{
  ℕ, zero, suc, ◌+◌, true, false, ltb, leb, ◌==◌, Bool, Option, none, some, List, [], ◌∷◌, ◌++◌,
  length, take, drop, Result, ok, err, if◌then◌else◌,
}
use aequitas_ledger.Prelude.Bytes.{field, skip}
use aequitas_ledger.Wal.Records.{
  LogRecord, RecordError, decode_record, record_header_size, record_crc_size,
  record_type_batch_commit,
}
use aequitas_ledger.Wal.Segments.{Segment, size}
use aequitas_ledger.Wal.Writer.{Wal, segments, head}
use aequitas_ledger.Wal.Replay.{expected_count}
use aequitas_ledger.Wal.Recovery.{peek_segment_max_lsn}

-- The open file: its id, its size when it was opened, and the offset of the next frame.
pub record OpenFile : Type 0 where
  pub id : ℕ
  pub size : ℕ
  pub offset : ℕ

-- `left` is `ids[idx:]`, and `listed` tells whether `ids` is not nil.
pub record StreamReader : Type 0 where
  pub from_lsn : ℕ
  pub listed : Bool
  pub left : List ℕ
  pub max_id : ℕ
  pub file : Option OpenFile
  pub pending : List LogRecord
  pub emit : List LogRecord

pub data StreamFault : Type 0 where
  undecodable : RecordError → StreamFault
  corrupted unreadable : StreamFault

unfoldable pub new_stream_reader : ℕ → StreamReader
new_stream_reader from_lsn = record {
  from_lsn = from_lsn;
  listed = false;
  left = [];
  max_id = 0;
  file = none;
  pending = [];
  emit = [];
}

-- The segments that are not entirely at or below the start.
unfoldable pub eligible : ℕ → List Segment → List ℕ
eligible from [] = []
eligible from (g ∷ gs) =
    let rest = eligible from gs in
    if leb (peek_segment_max_lsn g.bytes) from then rest else g.id ∷ rest

-- Those that are new since the last listing.
unfoldable pub created_since : ℕ → List Segment → List ℕ
created_since max_id [] = []
created_since max_id (g ∷ gs) =
    let rest = created_since max_id gs in if ltb max_id g.id then g.id ∷ rest else rest

unfoldable pub last_id : ℕ → List Segment → ℕ
last_id id [] = id
last_id id (g ∷ gs) = last_id g.id gs

unfoldable pub segment_with : ℕ → List Segment → Option Segment
segment_with id [] = none
segment_with id (g ∷ gs) = let rest = segment_with id gs in if g.id == id then some g else rest

-- The loop that opens the first file that is still there: the file, and the ids from it on.
unfoldable pub open_first : List ℕ → List Segment → Option (OpenFile × List ℕ)
open_first [] gs = none
open_first (id ∷ ids) gs =
    let rest = open_first ids gs in
    elim (segment_with id gs) [
      | none ↦ rest
      | some g ↦ some (record { id = id; size = size g; offset = 0 }, id ∷ ids)
    ]

abbrev opened_at : StreamReader → OpenFile × List ℕ → StreamReader
opened_at sr p = record sr { file = some p.0; left = p.1 }

-- The ids that were listed are followed by those that have come since.
unfoldable pub open_listed : StreamReader → List Segment → Bool × StreamReader
open_listed sr gs = elim (open_first sr.left gs) [
  | some p ↦ (true, opened_at sr p)
  | none ↦
      let sr' = record sr { left = created_since sr.max_id gs; max_id = last_id sr.max_id gs } in
      elim (open_first sr'.left gs) [
        | none ↦ (false, record sr { left = [] })
        | some p ↦ (true, opened_at sr' p)
      ]
]

-- `ensureOpen`
unfoldable pub ensure_open : StreamReader → List Segment → Bool × StreamReader
ensure_open sr gs = elim sr.file [
  | some f ↦ (true, sr)
  | none ↦
      let ids = eligible sr.from_lsn gs in
      if sr.listed
      then open_listed sr gs
      else if length ids == 0
      then (false, sr)
      else open_listed (record sr { listed = true; left = ids; max_id = last_id 0 gs }) gs
]

unfoldable pub drop_first : List ℕ → List ℕ
drop_first [] = []
drop_first (id ∷ ids) = ids

-- `advance`
unfoldable pub advance : StreamReader → List Segment → StreamReader
advance sr gs = (ensure_open (record sr { file = none; left = drop_first sr.left }) gs).1

-- `durableLimit`
unfoldable pub durable_limit : OpenFile → Wal → ℕ × Bool
durable_limit f w =
    let (current, synced) = head w in if f.id == current then (synced, true) else (f.size, false)

-- What `Next` does with a frame, or that it is caught up.
pub data Frame : Type 0 where
  caught_up : Frame
  read : LogRecord → ℕ → Frame

-- Where `Next` is at the end of the region that can be read.
pub data Position : Type 0 where
  at_end inside torn : Position

-- A round of `Next` ends the call, or is followed by another one.
pub data Round : Type 0 where
  done : Result StreamFault (Option LogRecord) → StreamReader → Round
  again : StreamReader → Round

unfoldable pub position : ℕ → ℕ → Position
position offset limit =
    if leb limit offset
    then at_end
    else if ltb limit (offset + record_header_size + record_crc_size)
    then torn
    else inside

unfoldable pub release : LogRecord → StreamReader → Option LogRecord × StreamReader
release rec sr = elim sr.pending [
  | [] ↦ (some rec, record sr { emit = []; pending = [] })
  | r ∷ rs ↦ (some r, record sr { emit = rs ++ rec ∷ []; pending = [] })
]

module _ (crc : List ℕ → ℕ) where
  -- `readFrame`, on the bytes of the file
  unfoldable pub read_frame : List ℕ → ℕ → ℕ → Bool → Result StreamFault Frame
  read_frame bytes offset limit is_current =
      let here = drop offset bytes in
      let payload = field 4 (skip 1 (skip 8 here)) in
      let n = record_header_size + payload + record_crc_size in
      if ltb (length here) record_header_size
      then err unreadable
      else if ltb 1_048_576 payload
      then err corrupted
      else if ltb limit (offset + n)
      then (if is_current then ok caught_up else err corrupted)
      else if ltb (length here) n
      then err unreadable
      else elim (decode_record crc (take n here)) [
        | err e ↦ err (undecodable e)
        | ok rec ↦ ok (read rec n)
      ]

  -- A frame that was read at the offset: a commit record releases its batch, if the count is right.
  unfoldable pub take_frame : StreamReader → OpenFile → LogRecord → ℕ → Round
  take_frame sr f rec n =
      let sr' = record sr { file = some (record f { offset = f.offset + n }) } in
      elim (rec.kind == record_type_batch_commit) [
        | false ↦ again (record sr' { pending = sr'.pending ++ rec ∷ [] })
        | true ↦ elim (length sr'.pending == expected_count rec) [
          | false ↦ again (record sr' { pending = [] })
          | true ↦ let (out, sr'') = release rec sr' in done (ok out) sr''
        ]
      ]

  unfoldable pub read_at : Wal → StreamReader → OpenFile → ℕ → Bool → Round
  read_at w sr f limit is_current = elim (segment_with f.id (segments w)) [
    | none ↦ done (err unreadable) sr
    | some g ↦ elim (read_frame g.bytes f.offset limit is_current) [
      | err e ↦ done (err e) sr
      | ok caught_up ↦ done (ok none) sr
      | ok (read rec n) ↦ take_frame sr f rec n
    ]
  ]

  unfoldable pub round_in : Wal → StreamReader → OpenFile → ℕ → Bool → Position → Round
  round_in w sr f limit true at_end = done (ok none) sr
  round_in w sr f limit false at_end = again (advance sr (segments w))
  round_in w sr f limit true torn = done (ok none) sr
  round_in w sr f limit false torn = done (err corrupted) sr
  round_in w sr f limit is_current inside = read_at w sr f limit is_current

  unfoldable pub round_at : Wal → StreamReader → OpenFile → ℕ × Bool → Round
  round_at w sr f (limit, is_current) = round_in w sr f limit is_current (position f.offset limit)

  -- A round of the loop in `Next`, which takes a frame or moves to the next segment.
  unfoldable pub round : Wal → StreamReader → Round
  round w sr = elim sr.emit [
    | r ∷ rs ↦ done (ok (some r)) (record sr { emit = rs })
    | [] ↦
        let (opened, sr') = ensure_open sr (segments w) in
        elim sr'.file [ none ↦ done (ok none) sr' | some f ↦ round_at w sr' f (durable_limit f w) ]
  ]

  -- `Next`: a record, none if the reader is caught up, or an error; the outer `none` is a call that has
  -- not ended within its fuel.
  unfoldable pub next :
      ℕ → Wal → StreamReader → Option (Result StreamFault (Option LogRecord)) × StreamReader
  next zero w sr = (none, sr)
  next (suc fuel) w sr = elim (round w sr) [
    | done r sr' ↦ (some r, sr')
    | again sr' ↦ next fuel w sr'
  ]
