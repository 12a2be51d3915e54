-- ===== src/Wal/Replay/Steps.antt =====
-- Rounds of `replaySegment` (internal/wal/recovery.go) over frames that are not corrupted.
use mathlib.Core.List.{append_assoc, append-nil}
use aequitas_ledger.Prelude.{
  ℕ, suc, some, ◌+◌, ◌≤◌, ◌<◌, ◌^◌, ◌≡◌, refl, arith, List, [], ◌∷◌, ◌++◌, length, length-append,
  take, take-append, drop-append, true, false, ◌==◌, ok, ap,
}
use aequitas_ledger.Prelude.Bytes.{put_be, field, skip}
use aequitas_ledger.Prelude.Exec
use aequitas_ledger.Wal.Records.{LogRecord, frame_body, frame, record_type_batch_commit}
use aequitas_ledger.Wal.Records.RoundTrip.{IsSizedRecord, decode-frame, size_part, length-checked}
use aequitas_ledger.Wal.Replay.{ReplayState, next_record, handle_all, replay_from, expected_count}

module _ {E S : Type 0} (crc : List ℕ → ℕ) (narrow : (bytes : List ℕ) → crc bytes < 256 ^ 4)
    (handler : LogRecord → Exec.Exec E S (Unit {0})) where
  pub length-frame :
      (r : LogRecord) → IsSizedRecord r → length (frame crc r) ≡ 13 + length r.payload + 4
  unfolding frame
  length-frame r v = length-checked crc narrow r v

  size-frame :
      (r : LogRecord) (v : IsSizedRecord r) (tail : List ℕ)
      → field 4 (skip 1 (skip 8 (frame crc r ++ tail))) ≡ length r.payload
  unfolding frame
  size-frame r v tail =
      rw (append_assoc (frame_body r))
        (size_part r v ((put_be 4 (crc (frame_body r)) ++ []) ++ tail))

  take-frame :
      (r : LogRecord) (v : IsSizedRecord r) (tail : List ℕ)
      → take (13 + length r.payload + 4) (frame crc r ++ tail) ≡ frame crc r
  take-frame r v tail = rw (← length-frame r v) (take-append (frame crc r) tail)

  skip-frame :
      (r : LogRecord) (v : IsSizedRecord r) (tail : List ℕ)
      → skip (13 + length r.payload + 4) (frame crc r ++ tail) ≡ tail
  unfolding skip
  skip-frame r v tail = rw (← length-frame r v) (drop-append (frame crc r) tail)

  length-after :
      (r : LogRecord) (v : IsSizedRecord r) (tail : List ℕ) → 17 ≤ length (frame crc r ++ tail)
  length-after r v tail = omega (arith, length-append (frame crc r) tail, length-frame r v)

  next_record-frame :
      (r : LogRecord) (v : IsSizedRecord r) (tail : List ℕ)
      → next_record crc handler (frame crc r ++ tail) ≡ some (r, 13 + length r.payload + 4)
  unfolding next_record
  next_record-frame r v tail =
      rw (size-frame r v tail, take-frame r v tail, decode-frame crc narrow r v)
        (ground (arith, length-append (frame crc r) tail, length-frame r v, size-frame r v tail))

  -- A record that is no commit record waits for one.
  pub replay-record :
      (fuel : ℕ) (r : LogRecord) (tail : List ℕ) (offset committed : ℕ) (st : ReplayState) (s : S)
      → IsSizedRecord r
      → (r.kind == record_type_batch_commit) ≡ false
      → replay_from crc handler (suc fuel) (frame crc r ++ tail) offset committed st s
        ≡ replay_from crc handler fuel tail
            (offset + (13 + length r.payload + 4))
            committed
            (record st { pending = st.pending ++ r ∷ [] })
            s
  unfolding replay_from
  replay-record fuel r tail offset committed st s v other =
      let some_left : (length (frame crc r ++ tail) == 0) ≡ false =
        ground (arith, length-after r v tail) in
      rw (replay_from, some_left, next_record-frame r v tail, other, skip-frame r v tail) refl

  -- A commit record that counts the records that wait hands them on.
  pub replay-commit :
      (fuel : ℕ) (r : LogRecord) (tail : List ℕ) (offset committed : ℕ) (st : ReplayState)
      (s s' : S)
      → IsSizedRecord r
      → (r.kind == record_type_batch_commit) ≡ true
      → (length st.pending == expected_count r) ≡ true
      → handle_all crc handler st.pending s ≡ (ok tt, s')
      → replay_from crc handler (suc fuel) (frame crc r ++ tail) offset committed st s
        ≡ replay_from crc handler fuel tail
            (offset + (13 + length r.payload + 4))
            (offset + (13 + length r.payload + 4))
            (record { pending = []; highest_lsn = r.lsn })
            s'
  unfolding replay_from
  replay-commit fuel r tail offset committed st s s' v marks counts handled =
      let some_left : (length (frame crc r ++ tail) == 0) ≡ false =
        ground (arith, length-after r v tail) in
      rw
        (
          replay_from,
          some_left,
          next_record-frame r v tail,
          marks,
          counts,
          handled,
          skip-frame r v tail,
        )
        (rw (ap (λ p. p.1) handled) refl)

  -- A commit record that counts others makes them void.
  pub replay-mismatch :
      (fuel : ℕ) (r : LogRecord) (tail : List ℕ) (offset committed : ℕ) (st : ReplayState) (s : S)
      → IsSizedRecord r
      → (r.kind == record_type_batch_commit) ≡ true
      → (length st.pending == expected_count r) ≡ false
      → replay_from crc handler (suc fuel) (frame crc r ++ tail) offset committed st s
        ≡ replay_from crc handler fuel tail
            (offset + (13 + length r.payload + 4))
            committed
            (record st { pending = [] })
            s
  unfolding replay_from
  replay-mismatch fuel r tail offset committed st s v marks counts =
      let some_left : (length (frame crc r ++ tail) == 0) ≡ false =
        ground (arith, length-after r v tail) in
      rw (replay_from, some_left, next_record-frame r v tail, marks, counts, skip-frame r v tail)
        refl

  -- Records that wait, one after the other.
  unfoldable pub frames : List LogRecord → List ℕ
  frames [] = []
  frames (r ∷ rs) = frame crc r ++ frames rs

  abbrev pub AreSized : List LogRecord → Type 0
  AreSized [] = Unit
  AreSized (r ∷ rs) = IsSizedRecord r × ((r.kind == record_type_batch_commit) ≡ false) × AreSized rs

  pub replay-records :
      (fuel : ℕ) (rs : List LogRecord) (tail : List ℕ) (offset committed : ℕ) (st : ReplayState)
      (s : S)
      → AreSized rs
      → replay_from crc handler (length rs + fuel) (frames rs ++ tail) offset committed st s
        ≡ replay_from crc handler fuel tail
            (offset + length (frames rs))
            committed
            (record st { pending = st.pending ++ rs })
            s
  unfolding frames
  replay-records fuel [] tail offset committed st s v =
      let none_left : 0 + fuel ≡ fuel = omega arith in
      let no_bytes : offset + 0 ≡ offset = omega arith in
      rw (none_left, no_bytes, append-nil st.pending) refl
  replay-records fuel (r ∷ rs) tail offset committed st s (sized, other, more) =
      let one_more : suc (length rs) + fuel ≡ suc (length rs + fuel) = omega arith in
      let n = 13 + length r.payload + 4 in
      let bytes : offset + n + length (frames rs) ≡ offset + length (frame crc r ++ frames rs) =
        omega (arith, length-append (frame crc r) (frames rs), length-frame r sized) in
      rw
        (
          one_more,
          append_assoc (frame crc r) (frames rs) tail,
          replay-record (length rs + fuel) r (frames rs ++ tail) offset committed st s sized other,
          replay-records fuel rs tail (offset + n) committed
              (record st { pending = st.pending ++ r ∷ [] }) s more,
          append_assoc st.pending (r ∷ []) rs,
          bytes,
        )
        refl

  pub length-frames : (rs : List LogRecord) → AreSized rs → length rs ≤ length (frames rs)
  unfolding frames
  length-frames [] v = omega arith
  length-frames (r ∷ rs) (sized, other, more) =
      omega (
        arith,
        length-append (frame crc r) (frames rs),
        length-frame r sized,
        length-frames rs more,
      )
