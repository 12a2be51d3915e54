-- ===== src/Wal/Recovery/Appended.antt =====
-- `AppendBatch` of internal/wal/wal.go, and what recovery makes of the log that it leaves.
use aequitas_ledger.Prelude.{
  ℕ, suc, ◌+◌, ◌*◌, ◌≤◌, ◌<◌, ◌^◌, ◌≡◌, refl, sym, arith, List, [], ◌∷◌, ◌++◌, map, length,
  length-append, false, ◌==◌, ok, err, Result, inr, none, some, ◌∙◌, ltb, ap, Option,
}
use aequitas_ledger.Prelude.Bytes.{put_be}
use aequitas_ledger.Prelude.Exec
use aequitas_ledger.Wal.Records.{
  LogRecord, frame, append_frame, append_commit_frame, record_type_batch_commit,
}
use aequitas_ledger.Wal.Records.RoundTrip.{IsSizedRecord}
use aequitas_ledger.Wal.Segments.{WalError}
use aequitas_ledger.Wal.Writer.{
  Wal, encode_from, append_batch, write_buffered, joined, frame_ends, after_write,
}
use aequitas_ledger.Wal.Writer.Frames.{AreFilled, write_buffered-frames}
use aequitas_ledger.Wal.Replay.Steps.{length-frame}
use aequitas_ledger.Wal.Replay.Batches.{Batch, commit_record, commit-IsSized, commit_payload}
use aequitas_ledger.Wal.Recovery.Written.{
  IsWritable, Holds, AreWritable, IsWritten, write_frames-IsWritten,
}

-- The records with the sequence numbers that they get after `lsn`.
abbrev pub numbered : ℕ → List LogRecord → List LogRecord
numbered lsn [] = []
numbered lsn (r ∷ rs) = record r { lsn = lsn + 1 } ∷ numbered (lsn + 1) rs

pub length-numbered : (lsn : ℕ) (rs : List LogRecord) → length (numbered lsn rs) ≡ length rs
length-numbered lsn [] = refl
length-numbered lsn (r ∷ rs) = ap suc (length-numbered (lsn + 1) rs)

-- A record that callers append, and that a segment of `n` bytes has room for.
pub record IsAccepted (n : ℕ) (r : LogRecord) : Type 0 where
  pub kind : r.kind < 256 ^ 1
  pub known : 0 < r.kind
  pub no_commit : (r.kind == record_type_batch_commit) ≡ false
  pub payload : length r.payload < 256 ^ 4
  pub room : 13 + length r.payload + 4 ≤ n

abbrev pub AreAccepted : ℕ → List LogRecord → Type 0
AreAccepted n [] = Unit
AreAccepted n (r ∷ rs) = IsAccepted n r × AreAccepted n rs

-- The bytes of a batch's frames and of its commit record.
unfoldable pub batch_bytes : List LogRecord → ℕ
batch_bytes [] = 29
batch_bytes (r ∷ rs) = 13 + length r.payload + 4 + batch_bytes rs

pub numbered-IsSized :
    (n lsn : ℕ) (r : LogRecord)
    → IsAccepted n r
    → lsn + 1 < 256 ^ 8
    → IsSizedRecord (record r { lsn = lsn + 1 })
numbered-IsSized n lsn r v h = record {
  lsn = h;
  kind = v.kind;
  known = v.known;
  payload = v.payload;
}

length-map : {A B : Type 0} (f : A → B) (xs : List A) → length (map f xs) ≡ length xs
length-map f [] = refl
length-map f (x ∷ xs) = ap suc (length-map f xs)

map-snoc :
    {A B : Type 0} (f : A → B) (xs : List A) (x : A) → map f xs ++ f x ∷ [] ≡ map f (xs ++ x ∷ [])
map-snoc f [] x = refl
map-snoc f (y ∷ xs) x = ap (λ l. f y ∷ l) (map-snoc f xs x)

module _ {E S : Type 0} (crc : List ℕ → ℕ) (narrow : (bytes : List ℕ) → crc bytes < 256 ^ 4)
    (handler : LogRecord → Exec.Exec E S (Unit {0})) where
  pub encode_from-numbered :
      (n lsn : ℕ) (rs : List LogRecord)
      → AreAccepted n rs
      → lsn + length rs < 256 ^ 8
      → encode_from crc n lsn rs ≡ (ok (map (frame crc) (numbered lsn rs)), lsn + length rs)
  unfolding encode_from append_frame
  encode_from-numbered n lsn [] v h = let no_more : lsn + 0 ≡ lsn = omega arith in rw no_more refl
  encode_from-numbered n lsn (r ∷ rs) (v, more) h =
      let r' = record r { lsn = lsn + 1 } in
      let ih = encode_from-numbered n (lsn + 1) rs more (omega arith) in
      let known : (r.kind == 0) ≡ false = ground (arith, v.known) in
      let narrow_payload : ltb 4_294_967_295 (length r.payload) ≡ false =
        ground (arith, v.payload) in
      let room : ltb n (length (frame crc r')) ≡ false = ground (
        arith,
        v.room,
        length-frame crc narrow handler r' (numbered-IsSized n lsn r v (omega arith)),
      ) in
      let lsns : lsn + 1 + length rs ≡ lsn + suc (length rs) = omega arith in
      rw (encode_from, known, narrow_payload, room)
        (rw lsns at (
          ap
            (λ (x : Result WalError (List (List ℕ)) × ℕ).
              elim x.0 as (λ y. Result WalError (List (List ℕ)) × ℕ) [
                | err e ↦ (err e, x.1)
                | ok fs ↦ (ok (frame crc r' ∷ fs), x.1)
              ])
            ih))

  -- What a batch adds to the log.
  abbrev pub batch_of : ℕ → List LogRecord → Batch crc narrow handler
  batch_of lsn rs = record { records = numbered lsn rs; commit_lsn = lsn + length rs + 1 }

  abbrev pub items : ℕ → List LogRecord → List LogRecord
  items lsn rs = numbered lsn rs ++ commit_record crc narrow handler (batch_of lsn rs) ∷ []

  items-AreWritable :
      (n lsn : ℕ) (rs : List LogRecord) (lsn' : ℕ) (c : LogRecord)
      → AreAccepted n rs
      → lsn + length rs < 256 ^ 8
      → IsSizedRecord c
      → 13 + length c.payload + 4 ≤ n
      → AreWritable crc narrow handler n (numbered lsn rs ++ c ∷ [])
  items-AreWritable n lsn [] lsn' c v h sized room =
      (sized, omega (arith, length-frame crc narrow handler c sized), tt)
  items-AreWritable n lsn (r ∷ rs) lsn' c (v, more) h sized room =
      let s = numbered-IsSized n lsn r v (omega arith) in
      (
        s,
        omega (arith, v.room, length-frame crc narrow handler (record r { lsn = lsn + 1 }) s),
        items-AreWritable n (lsn + 1) rs lsn' c more (omega arith) sized room,
      )

  items-AreFilled :
      (n lsn : ℕ) (rs : List LogRecord) (c : LogRecord)
      → AreAccepted n rs
      → lsn + length rs < 256 ^ 8
      → IsSizedRecord c
      → length c.payload ≡ 12
      → AreFilled (map (frame crc) (numbered lsn rs ++ c ∷ []))
        × (length (joined (map (frame crc) (numbered lsn rs ++ c ∷ []))) ≡ batch_bytes rs)
  unfolding joined batch_bytes
  items-AreFilled n lsn [] c v h sized payload =
      let whole = length-frame crc narrow handler c sized in
      ((omega (arith, whole), tt), omega (arith, whole, payload, length-append (frame crc c) []))
  items-AreFilled n lsn (r ∷ rs) c (v, more) h sized payload =
      let r' = record r { lsn = lsn + 1 } in
      let whole = length-frame crc narrow handler r' (numbered-IsSized n lsn r v (omega arith)) in
      let (filled, total) = items-AreFilled n (lsn + 1) rs c more (omega arith) sized payload in
      (
        (omega (arith, whole), filled),
        omega (
          arith,
          whole,
          total,
          length-append (frame crc r') (joined (map (frame crc) (numbered (lsn + 1) rs ++ c ∷ []))),
        ),
      )

  abbrev finish : ℕ → Option (Result WalError (Unit {0}) × Wal) → Option (Result WalError ℕ × Wal)
  finish lsn none = none
  finish lsn (some (result, w)) = some (after_write result lsn, w)

  append_batch-runs :
      (r : LogRecord) (rs : List LogRecord) (fs all : List (List ℕ)) (lsn : ℕ) (w w' : Wal)
      → encode_from crc w.segment_size w.current_lsn (r ∷ rs) ≡ (ok fs, lsn)
      → fs ++ append_commit_frame crc [] (lsn + 1) (length (r ∷ rs)) ∷ [] ≡ all
      → write_buffered
          (2 * length all + 2)
          (joined all)
          0
          (frame_ends 0 all)
          (record w { current_lsn = lsn + 1 })
        ≡ some (ok tt, w')
      → append_batch crc (r ∷ rs) w ≡ some (ok (w.current_lsn + 1), w')
  unfolding append_batch
  append_batch-runs r rs fs all lsn w w' encoded marked written =
      ap
        (λ (x : Result WalError (List (List ℕ)) × ℕ).
          elim x.0 as (λ y. Option (Result WalError ℕ × Wal)) [
            | err e ↦ some (err e, record w { current_lsn = x.1 })
            | ok gs ↦
                let frames = gs ++ append_commit_frame crc [] (x.1 + 1) (length (r ∷ rs)) ∷ [] in
                elim (write_buffered (2 * length frames + 2) (joined frames) 0 (frame_ends 0 frames)
                  (record w { current_lsn = x.1 + 1 })) [
                    | none ↦ none
                    | some (result, w₁) ↦ some (after_write result (w.current_lsn + 1), w₁)
                  ]
          ])
        encoded
      ∙ ap
          (λ (frames : List (List ℕ)). finish (w.current_lsn + 1) (
            write_buffered (2 * length frames + 2) (joined frames) 0 (frame_ends 0 frames)
              (record w { current_lsn = lsn + 1 })))
          marked
      ∙ ap (finish (w.current_lsn + 1)) written

  -- A batch that is accepted is written as a whole: its records with the next sequence numbers, and
  -- the commit record.
  pub append_batch-IsWritten :
      (r : LogRecord) (rs old : List LogRecord) (w : Wal)
      → IsWritable w
      → AreAccepted w.segment_size (r ∷ rs)
      → w.current_lsn + length (r ∷ rs) + 1 < 256 ^ 8
      → 29 ≤ w.segment_size
      → batch_bytes (r ∷ rs) < 2 ^ 31
      → Holds crc narrow handler w old
      → (w' : Wal) × (append_batch crc (r ∷ rs) w ≡ some (ok (w.current_lsn + 1), w'))
        × IsWritten crc narrow handler
            (old ++ items w.current_lsn (r ∷ rs))
            (record w { current_lsn = w.current_lsn + length (r ∷ rs) + 1 })
            w'
  unfolding append_batch append_commit_frame
  append_batch-IsWritten r rs old w v accepted h room short held =
      let lsn = w.current_lsn in
      let b = batch_of lsn (r ∷ rs) in
      let c = commit_record crc narrow handler b in
      let all = items lsn (r ∷ rs) in
      let w₁ = record w { current_lsn = lsn + length (r ∷ rs) + 1 } in
      let writable =
        items-AreWritable w.segment_size lsn (r ∷ rs) lsn c accepted (omega arith)
          (commit-IsSized crc narrow handler b h)
          (omega (arith, commit_payload crc narrow handler b)) in
      let n = length all in
      let (w', e, done) =
        write_frames-IsWritten crc narrow handler (2 * length (map (frame crc) all) + 2) all old w₁
          (record { sized = v.sized; room = v.room; some_size = v.some_size }) writable held
          (omega arith) (omega (arith, length-map (frame crc) all))
          (inr (omega (arith, length-map (frame crc) all))) in
      let (filled, total) =
        items-AreFilled w.segment_size lsn (r ∷ rs) c accepted (omega arith)
          (commit-IsSized crc narrow handler b h) (commit_payload crc narrow handler b) in
      let buffered =
        write_buffered-frames (2 * length (map (frame crc) all) + 2) [] (map (frame crc) all) w₁
          filled (omega (arith, total)) in
      let encoded = encode_from-numbered w.segment_size lsn (r ∷ rs) accepted (omega arith) in
      let marked = map-snoc (frame crc) (numbered lsn (r ∷ rs)) c in
      let count =
        ap
          (λ k. frame crc (record {
            lsn = lsn + length (r ∷ rs) + 1;
            kind = record_type_batch_commit;
            payload = put_be 8 (lsn + length (r ∷ rs) + 1) ++ (put_be 4 k ++ []);
          }))
          (length-numbered lsn (r ∷ rs)) in
      (
        w',
        append_batch-runs r rs (map (frame crc) (numbered lsn (r ∷ rs))) (map (frame crc) all)
            (lsn + length (r ∷ rs)) w w' encoded (rw (sym count) marked) (buffered ∙ e),
        done,
      )
