-- ===== src/Wal/Replay/Batches.antt =====
-- What `replaySegment` (internal/wal/recovery.go) does with whole batches and an open tail.
use mathlib.Core.List.{append_assoc, append-nil}
use aequitas_ledger.Prelude.{
  ℕ, ◌-◌, suc, ◌+◌, ◌≤◌, ◌<◌, ◌^◌, ◌≡◌, refl, arith, List, [], ◌∷◌, ◌++◌, length, Result-cases, inl,
  inr, length-append, true, false, ◌==◌, ok, ap,
}
use aequitas_ledger.Prelude.Bytes.{put_be, length-put_be, field-put_be, skip-put_be}
use aequitas_ledger.Prelude.Exec
use aequitas_ledger.Wal.Records.{LogRecord, frame, append_commit_frame, record_type_batch_commit}
use aequitas_ledger.Wal.Records.RoundTrip.{IsSizedRecord}
use aequitas_ledger.Wal.Replay.{
  ReplayState, handle_all, replay_from, replay_segment, expected_count, new_replay_state,
}
use aequitas_ledger.Wal.Replay.Steps.{
  length-frames, length-frame, frames, AreSized, replay-records, replay-commit,
}

module _ {E S : Type 0} (crc : List ℕ → ℕ) (narrow : (bytes : List ℕ) → crc bytes < 256 ^ 4)
    (handler : LogRecord → Exec.Exec E S (Unit {0})) where
  -- A batch as `AppendBatch` writes it: its records, and the commit record that counts them.
  pub record Batch : Type 0 where
    pub records : List LogRecord
    pub commit_lsn : ℕ

  abbrev pub commit_record : Batch → LogRecord
  commit_record b = record {
    lsn = b.commit_lsn;
    kind = record_type_batch_commit;
    payload = put_be 8 b.commit_lsn ++ (put_be 4 (length b.records) ++ []);
  }

  batch_bytes : Batch → List ℕ
  unfolding append_commit_frame
  batch_bytes b =
      append_commit_frame crc (frames crc narrow handler b.records) b.commit_lsn (length b.records)

  pub log : List Batch → List ℕ
  unfolding batch_bytes
  log [] = []
  log (b ∷ bs) = batch_bytes b ++ log bs

  abbrev pub AreBatches : List Batch → Type 0
  AreBatches [] = Unit
  AreBatches (b ∷ bs) =
      AreSized crc narrow handler b.records
      × (b.commit_lsn < 256 ^ 8)
      × (length b.records < 256 ^ 4)
      × AreBatches bs

  -- The records of all batches, in order, and the last commit.
  abbrev pub all_records : List Batch → List LogRecord
  all_records [] = []
  all_records (b ∷ bs) = b.records ++ all_records bs

  abbrev pub last_commit : ℕ → List Batch → ℕ
  last_commit lsn [] = lsn
  last_commit lsn (b ∷ bs) = last_commit b.commit_lsn bs

  pub commit_payload : (b : Batch) → length (commit_record b).payload ≡ 12
  commit_payload b = simp (length-append, length-put_be)

  pub commit-IsSized : (b : Batch) → b.commit_lsn < 256 ^ 8 → IsSizedRecord (commit_record b)
  commit-IsSized b h = record {
    lsn = h;
    kind = omega arith;
    known = omega arith;
    payload = omega (arith, commit_payload b);
  }

  pub commit_count :
      (b : Batch) → length b.records < 256 ^ 4 → expected_count (commit_record b) ≡ length b.records
  commit_count b h = rw (commit_payload b, skip-put_be) (field-put_be 4 (length b.records) h [])

  pub handle_all-split :
      (xs ys : List LogRecord) (s s' : S)
      → handle_all crc handler (xs ++ ys) s ≡ (ok tt, s')
      → (s₁ : S) × (handle_all crc handler xs s ≡ (ok tt, s₁))
        × (handle_all crc handler ys s₁ ≡ (ok tt, s'))
  unfolding handle_all
  handle_all-split [] ys s s' h = (s, refl, h)
  handle_all-split (x ∷ xs) ys s s' h = elim (Result-cases (handler x s).0) [
    | inl (u, e) ↦
        let (s₁, e₁, e₂) = handle_all-split xs ys (handler x s).1 s' (rw e at h) in
        (s₁, rw (handle_all, e) e₁, e₂)
    | inr (e, e₁) ↦ absurd (ground arith)
  ]

  -- A batch is handled as a whole once its commit record has been read.
  replay-batch :
      (fuel : ℕ) (b : Batch) (tail : List ℕ) (offset lsn : ℕ) (s s' : S)
      → AreSized crc narrow handler b.records
      → b.commit_lsn < 256 ^ 8
      → length b.records < 256 ^ 4
      → handle_all crc handler b.records s ≡ (ok tt, s')
      → replay_from crc handler
          (length b.records + suc fuel)
          (batch_bytes b ++ tail)
          offset
          offset
          (record { pending = []; highest_lsn = lsn })
          s
        ≡ replay_from crc handler fuel tail
            (offset + length (batch_bytes b))
            (offset + length (batch_bytes b))
            (record { pending = []; highest_lsn = b.commit_lsn })
            s'
  unfolding batch_bytes append_commit_frame
  replay-batch fuel b tail offset lsn s s' sized fits few handled =
      let c = commit_record b in
      let v = commit-IsSized b fits in
      let start : ReplayState = record { pending = []; highest_lsn = lsn } in
      let n = offset + length (frames crc narrow handler b.records) in
      let counts : (length b.records == expected_count c) ≡ true =
        ground (arith, commit_count b few) in
      let bytes : n + (13 + length c.payload + 4)
          ≡ offset + length (frames crc narrow handler b.records ++ frame crc c) =
        omega (
          arith,
          length-append (frames crc narrow handler b.records) (frame crc c),
          length-frame crc narrow handler c v,
        ) in
      rw
        (
          append_assoc (frames crc narrow handler b.records) (frame crc c) tail,
          replay-records crc narrow handler (suc fuel) b.records (frame crc c ++ tail) offset offset
              start s sized,
          replay-commit crc narrow handler fuel c tail n offset
              (record { pending = b.records; highest_lsn = lsn }) s s' v refl counts handled,
          bytes,
        )
        refl

  abbrev rounds : List Batch → ℕ
  rounds [] = 0
  rounds (b ∷ bs) = length b.records + suc (rounds bs)

  replay-log :
      (fuel : ℕ) (bs : List Batch) (tail : List ℕ) (offset lsn : ℕ) (s s' : S)
      → AreBatches bs
      → handle_all crc handler (all_records bs) s ≡ (ok tt, s')
      → replay_from crc handler
          (rounds bs + fuel)
          (log bs ++ tail)
          offset
          offset
          (record { pending = []; highest_lsn = lsn })
          s
        ≡ replay_from crc handler fuel tail
            (offset + length (log bs))
            (offset + length (log bs))
            (record { pending = []; highest_lsn = last_commit lsn bs })
            s'
  unfolding log handle_all
  replay-log fuel [] tail offset lsn s s' v handled =
      let none_left : 0 + fuel ≡ fuel = omega arith in
      let no_bytes : offset + 0 ≡ offset = omega arith in
      let same : s ≡ s' = ap (λ p. p.1) handled in rw (none_left, no_bytes, same) refl
  replay-log fuel (b ∷ bs) tail offset lsn s s' (sized, fits, few, more) handled =
      let (s₁, first, others) = handle_all-split b.records (all_records bs) s s' handled in
      let one = batch_bytes b in
      let left : rounds (b ∷ bs) + fuel ≡ length b.records + suc (rounds bs + fuel) = omega arith in
      let bytes : offset + length one + length (log bs) ≡ offset + length (one ++ log bs) =
        omega (arith, length-append one (log bs)) in
      rw
        (
          left,
          append_assoc one (log bs) tail,
          replay-batch (rounds bs + fuel) b (log bs ++ tail) offset lsn s s₁ sized fits few first,
          replay-log fuel bs tail (offset + length one) b.commit_lsn s₁ s' more others,
          bytes,
        )
        refl

  length-log : (bs : List Batch) → AreBatches bs → rounds bs ≤ length (log bs)
  unfolding log batch_bytes append_commit_frame
  length-log [] v = omega arith
  length-log (b ∷ bs) (sized, fits, few, more) =
      let c = commit_record b in
      omega (
        arith,
        length-append (frames crc narrow handler b.records ++ frame crc c) (log bs),
        length-append (frames crc narrow handler b.records) (frame crc c),
        length-frame crc narrow handler c (commit-IsSized b fits),
        length-frames crc narrow handler b.records sized,
        length-log bs more,
      )

  -- Records with no commit record after them are left waiting.
  pub replay-open :
      (extra : ℕ) (after : List LogRecord) (committed lsn : ℕ) (s : S)
      → AreSized crc narrow handler after
      → replay_from crc handler
          (length after + suc extra)
          (frames crc narrow handler after)
          committed
          committed
          (record { pending = []; highest_lsn = lsn })
          s
        ≡ (ok (false, committed), record { pending = after; highest_lsn = lsn }, s)
  unfolding replay_from
  replay-open extra after committed lsn s w = rw (append-nil (frames crc narrow handler after)) at (
      replay-records crc narrow handler (suc extra) after [] committed committed
        (record { pending = []; highest_lsn = lsn }) s w)

  -- With a checksum of 32 bits: a segment of whole batches, followed by records with no commit record,
  -- is replayed to its end. The handler gets the records of the batches, in order, and of no others,
  -- if it accepts them all; the offset is that of the end of the last batch, and the records that
  -- follow wait.
  pub replay_segment-log :
      (bs : List Batch) (after : List LogRecord) (s s' : S)
      → AreBatches bs
      → AreSized crc narrow handler after
      → handle_all crc handler (all_records bs) s ≡ (ok tt, s')
      → replay_segment crc handler (log bs ++ frames crc narrow handler after) new_replay_state s
        ≡ (
          ok (false, length (log bs)),
          record { pending = after; highest_lsn = last_commit 0 bs },
          s',
        )
  unfolding replay_segment
  replay_segment-log bs after s s' v w handled =
      let total = length (log bs ++ frames crc narrow handler after) in
      let start : 0 + length (log bs) ≡ length (log bs) = omega arith in
      let extra = total - (rounds bs + length after) in
      let fuel : total + 1 ≡ rounds bs + (length after + suc extra) = omega (
        arith,
        length-append (log bs) (frames crc narrow handler after),
        length-log bs v,
        length-frames crc narrow handler after w,
      ) in
      rw
        (
          replay_segment,
          fuel,
          replay-log (length after + suc extra) bs (frames crc narrow handler after) 0 0 s s' v
              handled,
          start,
          replay-open extra after (length (log bs)) (last_commit 0 bs) s' w,
        )
        refl
