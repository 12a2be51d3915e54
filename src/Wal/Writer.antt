-- ===== src/Wal/Writer.antt =====
-- internal/wal/wal.go: the log as its appender sees it. The directory is the list of the segments
-- before the current one, oldest first, and the current one.
pub mod Frames
pub mod Refusals
use aequitas_ledger.Prelude.{
  ℕ, zero, suc, ◌+◌, ◌-◌, ◌*◌, ◌%◌, ◌^◌, Bool, true, false, ltb, leb, ◌==◌, ◌&&◌, ◌||◌, take,
  Option, none, some, List, [], ◌∷◌, ◌++◌, length, Result, ok, err, if◌then◌else◌,
}
use aequitas_ledger.Prelude.Bytes.{put_be, skip}
use aequitas_ledger.Wal.Records.{
  LogRecord, append_frame, append_commit_frame, record_type_checkpoint,
}
use aequitas_ledger.Wal.Segments.{
  Segment, WalError, encoding, panicked, default_segment_size, record_larger_than_segment,
  open_segment, size, is_full, write, sync,
}

pub record Wal : Type 0 where
  pub segment_size : ℕ
  pub closed : List Segment
  pub current : Segment
  pub current_lsn : ℕ

-- The segment files, oldest first: those before the last, and the last one opened again.
unfoldable pub open_last : ℕ → List Segment → List Segment × Segment
unfolding open_segment
open_last segment_size [] = ([], open_segment 1 segment_size [])
open_last segment_size (g ∷ gs) =
    let (closed, current) = open_last segment_size gs in
    elim gs [ [] ↦ ([], open_segment g.id segment_size g.bytes) | g' ∷ gs' ↦ (g ∷ closed, current) ]

-- `OpenWithOptions`, of a directory with these files
unfoldable pub open_log : ℕ → List Segment → Wal
open_log segment_size files =
    let n = if segment_size == 0 then default_segment_size else segment_size in
    let (closed, current) = open_last n files in
    record { segment_size = n; closed = closed; current = current; current_lsn = 0 }

-- `Rotate`: the segment is synced and closed, and the next one is a new file.
unfoldable pub rotate : Wal → Wal
unfolding sync open_segment
rotate w = record w {
  closed = w.closed ++ sync w.current ∷ [];
  current = open_segment (w.current.id + 1) w.segment_size [];
}

-- A full segment is left.
unfoldable pub with_room : Wal → Wal
with_room w = if is_full 1 w.current then rotate w else w

-- `encBuf`: the frames one after the other.
unfoldable pub joined : List (List ℕ) → List ℕ
joined [] = []
joined (f ∷ fs) = f ++ joined fs

-- An int32 as an int; none is negative.
abbrev pub int_of_int32 : ℕ → Option ℕ
int_of_int32 e = if ltb e (2 ^ 31) then some e else none

-- `frameEnds`: the ends of frames that stand one after the other from an offset on, as int32 values.
unfoldable pub frame_ends : ℕ → List (List ℕ) → List ℕ
frame_ends offset [] = []
frame_ends offset (f ∷ fs) = (offset + length f) % 2 ^ 32 ∷ frame_ends (offset + length f) fs

-- `int64(end-int32(written)) <= space`: an int32 difference may wrap, and a negative one is no more
-- than any space.
abbrev pub end_fits : ℕ → ℕ → ℕ → Bool
end_fits space written e =
    let difference = (e + 2 ^ 32 - written % 2 ^ 32) % 2 ^ 32 in
    leb (2 ^ 31) difference || leb difference space

-- The end of the frames that fit, and the ends after it.
unfoldable pub last_fitting : ℕ → ℕ → List ℕ → Option ℕ → Option ℕ × List ℕ
last_fitting space written [] end = (end, [])
last_fitting space written (e ∷ es) end =
    let further = last_fitting space written es (int_of_int32 e) in
    if end_fits space written e then further else (end, e ∷ es)

-- `buf[written:end]`; none is a panic.
unfoldable pub slice : List ℕ → ℕ → ℕ → Option (List ℕ)
slice buf from to =
    if leb from to && leb to (length buf) then some (take (to - from) (skip from buf)) else none

-- The error names the end of the next frame, which there has to be.
abbrev pub oversized : List ℕ → WalError
oversized [] = panicked
oversized (e ∷ es) = record_larger_than_segment

-- The loop in `writeBuffered`. A round takes the end of some frame or rotates, and a round after a
-- rotation takes one or gives up; `none` is a loop that has not ended within its fuel.
unfoldable pub write_buffered :
    ℕ → List ℕ → ℕ → List ℕ → Wal → Option (Result WalError (Unit {0}) × Wal)
write_buffered zero buf written ends w = none
write_buffered (suc fuel) buf written ends w =
    let w₁ = with_room w in
    let space = w₁.current.max_size - size w₁.current in
    let (last, rest) = last_fitting space written ends (some written) in
    elim (leb (length buf) written) [
      | true ↦ some (ok tt, w)
      | false ↦ elim last [
        | none ↦ some (err panicked, w₁)
        | some end ↦ elim (end == written) [
          | true ↦ elim (ltb space w₁.segment_size) [
            | true ↦ write_buffered fuel buf written rest (rotate w₁)
            | false ↦ some (err (oversized rest), w₁)
          ]
          | false ↦ elim (slice buf written end) [
            | none ↦ some (err panicked, w₁)
            | some run ↦
                let (result, s) = write run w₁.current in
                elim result [
                  | err e ↦ some (err e, record w₁ { current = s })
                  | ok n ↦ write_buffered fuel buf end rest (record w₁ { current = s })
                ]
          ]
        ]
      ]
    ]

-- `Sync`
unfoldable pub sync_log : Wal → Wal
unfolding sync
sync_log w = record w { current = sync w.current }

abbrev pub after_write : Result WalError (Unit {0}) → ℕ → Result WalError ℕ
after_write (err e) lsn = err e
after_write (ok u) lsn = ok lsn

abbrev synced_if_ok : Result WalError ℕ × Wal → Result WalError (Unit {0}) × Wal
synced_if_ok (err e, w) = (err e, w)
synced_if_ok (ok n, w) = (ok tt, sync_log w)

module _ (crc : List ℕ → ℕ) where
  -- The loop that encodes a batch: the LSN after it, and the frames or an error. A record that is
  -- refused has used its LSN.
  unfoldable pub encode_from : ℕ → ℕ → List LogRecord → Result WalError (List (List ℕ)) × ℕ
  encode_from segment_size lsn [] = (ok [], lsn)
  encode_from segment_size lsn (r ∷ rs) =
      let (rest, last) = encode_from segment_size (lsn + 1) rs in
      elim (append_frame crc [] (record r { lsn = lsn + 1 })) [
        | err e ↦ (err (encoding e), lsn + 1)
        | ok f ↦ elim (ltb segment_size (length f)) [
          | true ↦ (err record_larger_than_segment, lsn + 1)
          | false ↦ elim rest [ err e ↦ (err e, last) | ok fs ↦ (ok (f ∷ fs), last) ]
        ]
      ]

  unfoldable pub append_batch : List LogRecord → Wal → Option (Result WalError ℕ × Wal)
  append_batch [] w = some (ok w.current_lsn, w)
  append_batch (r ∷ rs) w =
      let (encoded, lsn) = encode_from w.segment_size w.current_lsn (r ∷ rs) in
      elim encoded [
        | err e ↦ some (err e, record w { current_lsn = lsn })
        | ok fs ↦
            let marker = append_commit_frame crc [] (lsn + 1) (length (r ∷ rs)) in
            let frames = fs ++ marker ∷ [] in
            elim (write_buffered (2 * length frames + 2) (joined frames) 0 (frame_ends 0 frames)
              (record w { current_lsn = lsn + 1 })) [
                | none ↦ none
                | some (result, w') ↦ some (after_write result (w.current_lsn + 1), w')
              ]
      ]

  -- `AppendCheckpoint`, with the sync at its end.
  unfoldable pub append_checkpoint : ℕ → Wal → Option (Result WalError (Unit {0}) × Wal)
  append_checkpoint lsn w =
      let marker : LogRecord = record {
        lsn = 0;
        kind = record_type_checkpoint;
        payload = put_be 8 lsn;
      } in
      elim (append_batch (marker ∷ []) w) [ none ↦ none | some done ↦ some (synced_if_ok done) ]

-- `Head`
unfoldable pub head : Wal → ℕ × ℕ
head w = (w.current.id, w.current.synced_offset)

unfoldable pub advance_lsn_to : ℕ → Wal → Wal
advance_lsn_to at_least w =
    if ltb w.current_lsn at_least then record w { current_lsn = at_least } else w

-- `Reset`
unfoldable pub reset : Wal → Wal
unfolding open_segment
reset w = record w { closed = []; current = open_segment 1 w.segment_size []; current_lsn = 0 }

-- The files of the log.
abbrev pub segments : Wal → List Segment
segments w = w.closed ++ w.current ∷ []
