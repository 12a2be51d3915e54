-- ===== src/Wal/Recovery.antt =====
-- internal/wal/recovery.go over all segments, and `RecoverFromLSN` of internal/wal/wal.go with its
-- peek at a segment's tail. A run of the caller's handler may fail; the files are as in `Segments`.
pub mod Delivery
pub mod Written
pub mod Appended
pub mod Restart
pub mod Straddles
mod Tests
use aequitas_ledger.Prelude.{
  ℕ, zero, suc, ◌+◌, ◌-◌, ◌^◌, Bool, true, false, ltb, leb, ◌==◌, ◌!=◌, ◌&&◌, ◌||◌, Option, none,
  some, List, [], ◌∷◌, ◌++◌, length, drop, not, Result, ok, err, map, if◌then◌else◌,
}
use aequitas_ledger.Prelude.Words.{word}
use aequitas_ledger.Prelude.Bytes.{field, skip}
use aequitas_ledger.Prelude.Exec
use aequitas_ledger.Wal.Records.{LogRecord, record_header_size, record_crc_size}
use aequitas_ledger.Wal.Replay.{ReplayState, new_replay_state, replay_segment}
use aequitas_ledger.Wal.Segments.{Segment, size, truncate, open_segment}
use aequitas_ledger.Wal.Writer.{Wal, segments}

abbrev pub peek_tail_chunk : ℕ
peek_tail_chunk = 65_536

abbrev pub peek_resync_bound : ℕ
peek_resync_bound = 4_096

abbrev pub peek_max_payload : ℕ
peek_max_payload = 1_048_576

-- The bytes covered from `off` on, and the LSN of the last complete frame. A frame takes a byte.
unfoldable pub walk_frames : ℕ → List ℕ → ℕ → ℕ → ℕ × ℕ
walk_frames zero b off last = (off, last)
walk_frames (suc fuel) b off last =
    let at_kind = skip 8 b in
    let payload = field 4 (skip 1 at_kind) in
    let n = record_header_size + payload + record_crc_size in
    let lsn = field 8 b in
    let rest = walk_frames fuel (skip n b) (off + n) lsn in
    if ltb (length b) (record_header_size + record_crc_size)
    then (off, last)
    else if ltb peek_max_payload payload
    then (off, last)
    else if ltb (length b) n
    then (off, last)
    else if field 1 at_kind == 0
    then (off, last)
    else if lsn == 0 || leb (2 ^ 63) lsn
    then (off, last)
    else rest

unfoldable pub walk_frame_chain : List ℕ → ℕ × ℕ
unfolding walk_frames
walk_frame_chain b = walk_frames (length b) b 0 0

-- The search for the chain that goes furthest, from the starts that are left.
unfoldable pub resync : ℕ → ℕ → List ℕ → ℕ × ℕ → ℕ
resync zero start b best = best.1
resync (suc tries) start b best =
    let (covered, lsn) = walk_frame_chain b in
    let best' = if ltb best.0 (start + covered) then (start + covered, lsn) else best in
    let rest = resync tries (start + 1) (skip 1 b) best' in
    if covered == length b then best'.1 else rest

unfoldable pub peek_segment_max_lsn : List ℕ → ℕ
peek_segment_max_lsn bytes =
    let n = length bytes in
    let buf = drop (n - peek_tail_chunk) bytes in
    let tries = if ltb (length buf) peek_resync_bound then length buf else peek_resync_bound in
    if ltb n (record_header_size + record_crc_size) then 0 else resync tries 0 buf (0, 0)

-- The segments that `TruncateBefore` keeps: those from the current one on, and those that do not end
-- below `lsn`.
unfoldable pub kept_from : ℕ → ℕ → List Segment → List Segment
kept_from current_id lsn [] = []
kept_from current_id lsn (g ∷ gs) =
    let others = kept_from current_id lsn gs in
    if leb current_id g.id
    then g ∷ others
    else if ltb (peek_segment_max_lsn g.bytes) lsn
    then others
    else g ∷ others

-- `TruncateBefore`
unfoldable pub truncate_before : ℕ → Wal → Wal
unfolding kept_from
truncate_before lsn w = record w { closed = kept_from w.current.id lsn w.closed }

-- The least of an int64's range that no LSN reaches stands for no record.
unfoldable pub min_record_lsn : List LogRecord → ℕ
min_record_lsn [] = 2 ^ 63 - 1
min_record_lsn (r ∷ rs) = let least = min_record_lsn rs in if ltb r.lsn least then r.lsn else least

-- The walk over the segments: those that were seen, with the committed offset if they were read, and
-- those after a stop.
pub record Walk : Type 0 where
  pub seen : List (Segment × Option ℕ)
  pub stale : List Segment
  pub stopped : Bool
  pub last_id : ℕ
  pub state : ReplayState

abbrev pub new_walk : Walk
new_walk = record { seen = []; stale = []; stopped = false; last_id = 0; state = new_replay_state }

abbrev is_last : List Segment → Bool
is_last [] = true
is_last (g ∷ gs) = false

-- A segment that was read, cut at its committed offset.
abbrev pub heal : Segment × Option ℕ → Segment
heal (g, none) = g
heal (g, some committed) = if size g == committed then g else truncate committed g

module _ {E S : Type 0} (crc : List ℕ → ℕ) (handler : LogRecord → Exec.Exec E S (Unit {0})) where
  unfoldable pub walk_segments : ℕ → List Segment → Walk → S → Result E Walk × S
  walk_segments from [] w s = (ok w, s)
  walk_segments from (g ∷ gs) w s =
      let covered = ltb 0 from && not (is_last gs) && leb (peek_segment_max_lsn g.bytes) from in
      elim covered [
        | true ↦
            walk_segments from gs (record w { seen = w.seen ++ (g, none) ∷ []; last_id = g.id }) s
        | false ↦
            let (read, state, s') = replay_segment crc handler g.bytes w.state s in
            elim read [
              | err e ↦ (err e, s')
              | ok (stop, committed) ↦
                  let w' = record w {
                    seen = w.seen ++ (g, some committed) ∷ [];
                    last_id = g.id;
                    state = state;
                  } in
                  elim stop [
                    | true ↦ (ok (record w' { stopped = true; stale = gs }), s')
                    | false ↦ walk_segments from gs w' s'
                  ]
            ]
      ]

  -- Whether something uncommitted is to be cut off: it is above the snapshot.
  unfoldable pub heals : ℕ → Walk → Bool
  heals from w =
      (w.stopped || length w.state.pending != 0)
      && (from == 0 || ltb from (min_record_lsn w.state.pending))

  -- The files afterwards. Stale segments are removed.
  unfoldable pub healed_files : ℕ → Walk → List Segment
  healed_files from w = if heals from w then map heal w.seen else map (λ p. p.0) w.seen ++ w.stale

  unfoldable pub recover_segments : ℕ → List Segment → S → Result E (List Segment × ℕ × ℕ) × S
  recover_segments from files s =
      let (walked, s') = walk_segments from files new_walk s in
      elim walked [
        | err e ↦ (err e, s')
        | ok w ↦ (ok (healed_files from w, w.state.highest_lsn, w.last_id), s')
      ]

  -- `RecoverFromLSN`'s handler lets no record through that the snapshot covers.
  abbrev pub above : ℕ → LogRecord → Exec.Exec E S (Unit {0})
  above from r = if leb r.lsn from then (λ s. (ok tt, s)) else handler r

-- The file with an id, and the others.
abbrev file_with : ℕ → List Segment → Option Segment
file_with id [] = none
file_with id (g ∷ gs) = let later = file_with id gs in if g.id == id then some g else later

abbrev other_files : ℕ → List Segment → List Segment
other_files id [] = []
other_files id (g ∷ gs) =
    let others = other_files id gs in if g.id == id then others else g ∷ others

abbrev content : Option Segment → List ℕ
content none = []
content (some g) = g.bytes

abbrev max : ℕ → ℕ → ℕ
max a b = if ltb a b then b else a

module _ {E S : Type 0} (crc : List ℕ → ℕ) (handler : LogRecord → Exec.Exec E S (Unit {0})) where
  -- The watermark is raised to what was recovered, and the last segment is opened again.
  unfoldable pub recover_from_lsn : ℕ → Wal → S → Result E (Unit {0}) × Wal × S
  unfolding open_segment
  recover_from_lsn from w s =
      let (recovered, s') = recover_segments crc (above crc handler from) from (segments w) s in
      elim recovered [
        | err e ↦ (err e, w, s')
        | ok (files, highest, last) ↦
            let id = if last == 0 then 1 else last in
            (
              ok tt,
              record w {
                closed = other_files id files;
                current = open_segment id w.segment_size (content (file_with id files));
                current_lsn = max w.current_lsn (max highest from);
              },
              s',
            )
      ]
