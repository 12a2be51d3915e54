-- ===== src/Wal/Writer/Refusals.antt =====
-- What `AppendBatch` of internal/wal/wal.go does with a batch that it refuses.
use aequitas_ledger.Prelude.{
  ℕ, suc, ◌+◌, ◌*◌, ◌<◌, ◌^◌, ◌≡◌, refl, arith, List, [], ◌∷◌, ◌++◌, length, true, false, ◌==◌, ok,
  err, Result, some, Option, none, ltb, ap,
}
use aequitas_ledger.Wal.Records.{LogRecord, frame, append_frame, append_commit_frame}
use aequitas_ledger.Wal.Records.RoundTrip.{IsSizedRecord}
use aequitas_ledger.Wal.Segments.{WalError, record_larger_than_segment}
use aequitas_ledger.Wal.Writer.{
  Wal, encode_from, append_batch, write_buffered, joined, frame_ends, after_write,
}
use aequitas_ledger.Wal.Replay.Steps.{length-frame}
use aequitas_ledger.Wal.Recovery.Appended.{IsAccepted, AreAccepted, numbered-IsSized}

module _ (crc : List ℕ → ℕ) (narrow : (bytes : List ℕ) → crc bytes < 256 ^ 4) where
  -- The frame of a sized record, by its payload.
  frame_size : (r : LogRecord) → IsSizedRecord r → length (frame crc r) ≡ 13 + length r.payload + 4
  frame_size r v = length-frame {E = Unit} {S = Unit} crc narrow (λ q s. (ok tt, s)) r v

  encode-accepted :
      (n lsn : ℕ) (r : LogRecord) (rs : List LogRecord) (e : WalError) (last : ℕ)
      → IsAccepted n r
      → lsn + 1 < 256 ^ 8
      → encode_from crc n (lsn + 1) rs ≡ (err e, last)
      → encode_from crc n lsn (r ∷ rs) ≡ (err e, last)
  unfolding encode_from append_frame
  encode-accepted n lsn r rs e last v h later =
      let r' = record r { lsn = lsn + 1 } in
      let known : (r.kind == 0) ≡ false = ground (arith, v.known) in
      let sized : ltb 4_294_967_295 (length r.payload) ≡ false = ground (arith, v.payload) in
      let room : ltb n (length (frame crc r')) ≡ false =
        ground (arith, v.room, frame_size r' (numbered-IsSized n lsn r v h)) in
      rw (encode_from, known, sized, room)
        (ap
          (λ (x : Result WalError (List (List ℕ)) × ℕ).
            elim x.0 as (λ y. Result WalError (List (List ℕ)) × ℕ) [
              | err e ↦ (err e, x.1)
              | ok fs ↦ (ok (frame crc r' ∷ fs), x.1)
            ])
          later)

  -- A record that is sized, but with no room for its frame.
  pub record IsTooLarge (n : ℕ) (r : LogRecord) : Type 0 where
    pub kind : r.kind < 256 ^ 1
    pub known : 0 < r.kind
    pub payload : length r.payload < 256 ^ 4
    pub large : n < 13 + length r.payload + 4

  encode-refused :
      (n lsn : ℕ) (rs later : List LogRecord) (r : LogRecord)
      → AreAccepted n rs
      → IsTooLarge n r
      → lsn + length rs + 1 < 256 ^ 8
      → encode_from crc n lsn (rs ++ r ∷ later)
        ≡ (err record_larger_than_segment, lsn + length rs + 1)
  unfolding encode_from append_frame
  encode-refused n lsn [] later r v w h =
      let here : lsn + 0 + 1 ≡ lsn + 1 = omega arith in
      let r' = record r { lsn = lsn + 1 } in
      let known : (r.kind == 0) ≡ false = ground (arith, w.known) in
      let sized : ltb 4_294_967_295 (length r.payload) ≡ false = ground (arith, w.payload) in
      let too_large : ltb n (length (frame crc r')) ≡ true = ground (
        arith,
        w.large,
        frame_size r'
            (record { lsn = omega arith; kind = w.kind; known = w.known; payload = w.payload }),
      ) in
      rw here (rw (encode_from, known, sized, too_large) refl)
  encode-refused n lsn (x ∷ xs) later r (v, more) w h =
      let lsns : lsn + 1 + length xs + 1 ≡ lsn + suc (length xs) + 1 = omega arith in
      encode-accepted n lsn x (xs ++ r ∷ later) record_larger_than_segment
        (lsn + suc (length xs) + 1) v (omega arith)
        (rw lsns at (encode-refused n (lsn + 1) xs later r more w (omega arith)))

  ends :
      (r : LogRecord) (rs : List LogRecord) (w : Wal) {e : WalError} {last : ℕ}
      → encode_from crc w.segment_size w.current_lsn (r ∷ rs) ≡ (err e, last)
      → append_batch crc (r ∷ rs) w ≡ some (err e, record w { current_lsn = last })
  unfolding append_batch
  ends r rs w h =
      ap
        (λ (x : Result WalError (List (List ℕ)) × ℕ).
          elim x.0 as (λ y. Option (Result WalError ℕ × Wal)) [
            | err e ↦ some (err e, record w { current_lsn = x.1 })
            | ok fs ↦
                let frames = fs ++ append_commit_frame crc [] (x.1 + 1) (length (r ∷ rs)) ∷ [] in
                elim (write_buffered (2 * length frames + 2) (joined frames) 0 (frame_ends 0 frames)
                  (record w { current_lsn = x.1 + 1 })) [
                    | none ↦ none
                    | some (result, w₁) ↦ some (after_write result (w.current_lsn + 1), w₁)
                  ]
          ])
        h

  -- With a checksum of 32 bits: a batch in which some record's frame is larger than a segment, and all
  -- records before it are accepted, is refused with that error. Nothing is written, and the records
  -- up to and including that one have used up their sequence numbers.
  pub append_batch-refused :
      (rs later : List LogRecord) (r : LogRecord) (w : Wal)
      → AreAccepted w.segment_size rs
      → IsTooLarge w.segment_size r
      → w.current_lsn + length rs + 1 < 256 ^ 8
      → append_batch crc (rs ++ r ∷ later) w
        ≡ some (
          err record_larger_than_segment,
          record w { current_lsn = w.current_lsn + length rs + 1 },
        )
  append_batch-refused [] later r w v t h =
      ends r later w (encode-refused w.segment_size w.current_lsn [] later r v t h)
  append_batch-refused (x ∷ xs) later r w v t h =
      ends x (xs ++ r ∷ later) w
        (encode-refused w.segment_size w.current_lsn (x ∷ xs) later r v t h)
