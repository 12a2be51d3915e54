-- ===== src/Wal/Recovery/Written.antt =====
-- `writeBuffered` of internal/wal/wal.go: frames go to the current segment, or to the next ones, and
-- none is cut in two.
use mathlib.Core.Path.{subst}
use mathlib.Core.List.{append_assoc, append-nil}
use aequitas_ledger.Prelude.{
  ℕ, zero, suc, ◌-◌, ◌+◌, ◌*◌, ◌≤◌, ◌<◌, ◌^◌, ◌≡◌, refl, sym, arith, List, [], ◌∷◌, ◌++◌, map,
  length, length-append, true, false, ok, err, Result, inl, inr, Bool-cases, some, ◌∙◌, ltb, ap,
  ◌⊎◌,
}
use aequitas_ledger.Prelude.Exec
use aequitas_ledger.Wal.Records.{LogRecord, frame}
use aequitas_ledger.Wal.Records.RoundTrip.{IsSizedRecord}
use aequitas_ledger.Wal.Segments.{Segment, size, is_full, write, sync, open_segment, WalError}
use aequitas_ledger.Wal.Writer.{Wal, with_room, rotate, segments}
use aequitas_ledger.Wal.Writer.Frames.{fitting, write_frames}
use aequitas_ledger.Wal.Replay.Steps.{frames}
use aequitas_ledger.Wal.Recovery.Delivery.{
  AreFramed, IsHeld, IsHeld-last, framed-append, frames-append,
}

-- The current segment can hold as much as the log's segments, and does not hold more.
pub record IsWritable (w : Wal) : Type 0 where
  pub sized : w.current.max_size ≡ w.segment_size
  pub room : size w.current ≤ w.segment_size
  pub some_size : 0 < w.segment_size

rotate-IsWritable : (w : Wal) → IsWritable w → IsWritable (rotate w)
unfolding rotate open_segment
rotate-IsWritable w v = record {
  sized = ground (arith, v.some_size);
  room = omega arith;
  some_size = v.some_size;
}

rotate_empty : (w : Wal) → size (rotate w).current ≡ 0
unfolding rotate open_segment
rotate_empty w = refl

-- What a segment with room for a byte keeps of the log.
record IsPrepared (w w' : Wal) : Type 0 where
  writable : IsWritable w'
  same_size : w'.segment_size ≡ w.segment_size
  same_lsn : w'.current_lsn ≡ w.current_lsn
  still_empty : size w.current ≡ 0 → size w'.current ≡ 0

rotate-IsPrepared : (w : Wal) → IsWritable w → IsPrepared w (rotate w)
unfolding rotate
rotate-IsPrepared w v = record {
  writable = rotate-IsWritable w v;
  same_size = refl;
  same_lsn = refl;
  still_empty = λ h. rotate_empty w;
}

with_room-IsPrepared : (w : Wal) → IsWritable w → IsPrepared w (with_room w)
unfolding with_room
with_room-IsPrepared w v = elim (Bool-cases (is_full 1 w.current)) [
  | inl full ↦ rw full (rotate-IsPrepared w v)
  | inr left ↦
      rw left (record { writable = v; same_size = refl; same_lsn = refl; still_empty = λ h. h })
]

module _ {E S : Type 0} (crc : List ℕ → ℕ) (narrow : (bytes : List ℕ) → crc bytes < 256 ^ 4)
    (handler : LogRecord → Exec.Exec E S (Unit {0})) where
  -- The files of the log hold the frames of these records.
  abbrev pub Holds : Wal → List LogRecord → Type 0
  Holds w rs = IsHeld crc narrow handler (segments w) rs

  rotate-Holds : (w : Wal) (rs : List LogRecord) → Holds w rs → Holds (rotate w) rs
  unfolding rotate sync open_segment IsHeld frames
  rotate-Holds w rs v =
      let next = (rotate w).current in
      rw (append_assoc w.closed (sync w.current ∷ []) (next ∷ [])) (
        rw (append-nil rs) at (
          IsHeld-last crc narrow handler w.closed (sync w.current ∷ next ∷ []) w.current rs [] v
            (λ xs framed bytes. (xs, [], bytes, framed, refl, ([], [], refl, tt, refl, refl)))))

  write-Holds :
      (w : Wal) (rs new : List LogRecord)
      → AreFramed crc narrow handler new
      → Holds w rs
      → Holds
          (record w {
            current = record w.current { bytes = w.current.bytes ++ frames crc narrow handler new };
          })
          (rs ++ new)
  unfolding IsHeld
  write-Holds w rs new framed v =
      let g = record w.current { bytes = w.current.bytes ++ frames crc narrow handler new } in
      IsHeld-last crc narrow handler w.closed (g ∷ []) w.current rs new v (λ xs old bytes. (
        xs ++ new,
        [],
        rw bytes (sym (frames-append crc narrow handler xs new)),
        framed-append crc narrow handler xs new old framed,
        sym (append-nil (xs ++ new)),
        refl,
      ))

  -- The frames that fit are those of the first records.
  record IsFit (space : ℕ) (rs run rest : List LogRecord) : Type 0 where
    parts : rs ≡ run ++ rest
    fits : length (frames crc narrow handler run) ≤ space
    cut : fitting space (map (frame crc) rs) ≡ (frames crc narrow handler run, map (frame crc) rest)

  fitting-IsFit :
      (space : ℕ) (rs : List LogRecord)
      → (run : List LogRecord) × (rest : List LogRecord) × IsFit space rs run rest
  unfolding fitting frames
  fitting-IsFit space [] = ([], [], record { parts = refl; fits = omega arith; cut = refl })
  fitting-IsFit space (r ∷ rs) =
      let (run, rest, v) = fitting-IsFit (space - length (frame crc r)) rs in
      elim (Bool-cases (ltb space (length (frame crc r)))) [
        | inl small ↦ ([], r ∷ rs, record { parts = refl; fits = omega arith; cut = rw small refl })
        | inr fits ↦ (
          r ∷ run,
          rest,
          record {
            parts = rw v.parts refl;
            fits =
                ground (arith, length-append (frame crc r) (frames crc narrow handler run), v.fits);
            cut = rw (fits, v.cut) refl;
          },
        )
      ]

  -- A frame that the space left is too small for starts a segment.
  rotation-round :
      (fuel : ℕ) (f : List ℕ) (fs : List (List ℕ)) (w : Wal)
      → ltb ((with_room w).current.max_size - size (with_room w).current) (length f) ≡ true
      → ltb ((with_room w).current.max_size - size (with_room w).current) (with_room w).segment_size
        ≡ true
      → write_frames (suc fuel) (f ∷ fs) w ≡ write_frames fuel (f ∷ fs) (rotate (with_room w))
  unfolding write_frames
  rotation-round fuel f fs w big small = rw (write_frames, big, small) refl

  run-round :
      (fuel : ℕ) (f : List ℕ) (fs rest : List (List ℕ)) (run : List ℕ) (w : Wal) (n : ℕ)
      (g : Segment)
      → ltb ((with_room w).current.max_size - size (with_room w).current) (length f) ≡ false
      → fitting ((with_room w).current.max_size - size (with_room w).current) (f ∷ fs) ≡ (run, rest)
      → write run (with_room w).current ≡ (ok n, g)
      → write_frames (suc fuel) (f ∷ fs) w
        ≡ write_frames fuel rest (record (with_room w) { current = g })
  unfolding write_frames
  run-round fuel f fs rest run w n g fits cut written =
      let w' = with_room w in
      rw (write_frames, fits)
        (ap
            (λ (c : List ℕ × List (List ℕ)). elim (write c.0 w'.current).0 [
              | err e ↦ some (err e, record w' { current = (write c.0 w'.current).1 })
              | ok n ↦ write_frames fuel c.1 (record w' { current = (write c.0 w'.current).1 })
            ])
            cut
          ∙ ap
              (λ (x : Result WalError ℕ × Segment). elim x.0 [
                | err e ↦ some (err e, record w' { current = x.1 })
                | ok n ↦ write_frames fuel rest (record w' { current = x.1 })
              ])
              written)

  write-fits :
      (run : List ℕ) (g : Segment)
      → length run ≤ g.max_size - size g
      → size g ≤ g.max_size
      → write run g ≡ (ok (size g), record g { bytes = g.bytes ++ run })
  unfolding write is_full
  write-fits run g fits room =
      let not_full : ltb g.max_size (size g + length run) ≡ false = ground arith in rw not_full refl

  with_room-Holds : (w : Wal) (rs : List LogRecord) → Holds w rs → Holds (with_room w) rs
  unfolding with_room
  with_room-Holds w rs held = elim (Bool-cases (is_full 1 w.current)) [
    | inl full ↦ rw full (rotate-Holds w rs held)
    | inr left ↦ rw left held
  ]

  -- Records that a segment has room for.
  abbrev pub AreWritable : ℕ → List LogRecord → Type 0
  AreWritable n [] = Unit
  AreWritable n (r ∷ rs) = IsSizedRecord r × (length (frame crc r) ≤ n) × AreWritable n rs

  resize : (n m : ℕ) (rs : List LogRecord) → m ≡ n → AreWritable n rs → AreWritable m rs
  resize n m rs e v = subst (λ k. AreWritable k rs) (sym e) v

  writable-split :
      (n : ℕ) (run rest : List LogRecord)
      → AreWritable n (run ++ rest)
      → AreFramed crc narrow handler run × AreWritable n rest
  writable-split n [] rest v = (tt, v)
  writable-split n (r ∷ run) rest (sized, small, more) =
      let (framed, others) = writable-split n run rest more in ((sized, framed), others)

  -- What the loop leaves.
  pub record IsWritten (rs : List LogRecord) (w w' : Wal) : Type 0 where
    pub writable : IsWritable w'
    pub same_size : w'.segment_size ≡ w.segment_size
    pub same_lsn : w'.current_lsn ≡ w.current_lsn
    pub contents : Holds w' rs

  IsWritten-trans :
      (rs : List LogRecord) (w w₁ w₂ : Wal)
      → w₁.segment_size ≡ w.segment_size
      → w₁.current_lsn ≡ w.current_lsn
      → IsWritten rs w₁ w₂
      → IsWritten rs w w₂
  IsWritten-trans rs w w₁ w₂ size_kept lsn_kept v = record {
    writable = v.writable;
    same_size = v.same_size ∙ size_kept;
    same_lsn = v.same_lsn ∙ lsn_kept;
    contents = v.contents;
  }

  -- The frames that go to a segment with the first of them.
  first_fits :
      (space : ℕ) (r : LogRecord) (rs : List LogRecord)
      → ltb space (length (frame crc r)) ≡ false
      → (run : List LogRecord) × (rest : List LogRecord) × (length rest ≤ length rs)
        × IsFit space (r ∷ rs) (r ∷ run) rest
  unfolding fitting frames
  first_fits space r rs fits =
      let (run, rest, v) = fitting-IsFit (space - length (frame crc r)) rs in
      (
        run,
        rest,
        omega (arith, ap length v.parts, length-append run rest),
        record {
          parts = ap (λ l. r ∷ l) v.parts;
          fits =
              ground (arith, length-append (frame crc r) (frames crc narrow handler run), v.fits);
          cut = rw (fits, v.cut) refl;
        },
      )

  abbrev after_run : Wal → List LogRecord → Wal
  after_run w run = record w {
    current = record w.current { bytes = w.current.bytes ++ frames crc narrow handler run };
  }

  after_run-IsWritable :
      (w : Wal) (run : List LogRecord)
      → IsWritable w
      → length (frames crc narrow handler run) ≤ w.current.max_size - size w.current
      → IsWritable (after_run w run)
  after_run-IsWritable w run v fits = record {
    sized = v.sized;
    room =
        omega
          (arith, v.sized, v.room, length-append w.current.bytes (frames crc narrow handler run));
    some_size = v.some_size;
  }

  -- The loop ends, and has written every frame.
  pub write_frames-IsWritten :
      (fuel : ℕ) (rs old : List LogRecord) (w : Wal)
      → IsWritable w
      → AreWritable w.segment_size rs
      → Holds w old
      → 1 ≤ fuel
      → 2 * length rs ≤ fuel
      → (size w.current ≡ 0) ⊎ (2 * length rs + 1 ≤ fuel)
      → (w' : Wal) × (write_frames fuel (map (frame crc) rs) w ≡ some (ok tt, w'))
        × IsWritten (old ++ rs) w w'
  unfolding write_frames
  write_frames-IsWritten zero rs old w v small held some_fuel enough more = absurd (omega arith)
  write_frames-IsWritten (suc fuel) [] old w v small held some_fuel enough more = (
    w,
    refl,
    record { writable = v; same_size = refl; same_lsn = refl; contents = rw (append-nil old) held },
  )
  write_frames-IsWritten (suc fuel) (r ∷ rs) old w v (sized, small, others) held some_fuel enough
        more =
      let w₁ = with_room w in
      let p = with_room-IsPrepared w v in
      let held₁ = with_room-Holds w old held in
      let space = w₁.current.max_size - size w₁.current in
      let small₁ : length (frame crc r) ≤ w₁.segment_size = rw p.same_size small in
      elim (Bool-cases (ltb space (length (frame crc r)))) [
        | inl big ↦
            let below : ltb space w₁.segment_size ≡ true = ground arith in
            let fuel_left : 2 * length (r ∷ rs) ≤ fuel = elim more [
              | inl none_yet ↦ absurd (ground (arith, p.still_empty none_yet, p.writable.sized))
              | inr h ↦ omega arith
            ] in
            let q = rotate-IsPrepared w₁ p.writable in
            let (w', e, done) =
              write_frames-IsWritten fuel (r ∷ rs) old (rotate w₁) q.writable
                (resize w.segment_size (rotate w₁).segment_size (r ∷ rs) (q.same_size ∙ p.same_size)
                  (sized, small, others))
                (rotate-Holds w₁ old held₁) (omega arith) fuel_left (inl (rotate_empty w₁)) in
            (
              w',
              rotation-round fuel (frame crc r) (map (frame crc) rs) w big below ∙ e,
              IsWritten-trans (old ++ r ∷ rs) w (rotate w₁) w' (q.same_size ∙ p.same_size)
                  (q.same_lsn ∙ p.same_lsn) done,
            )
        | inr fits ↦
            let (run, rest, fewer, cut) = first_fits space r rs fits in
            let (framed, left) = writable-split w₁.segment_size (r ∷ run) rest (
              subst (λ l. AreWritable w₁.segment_size l) cut.parts
                (resize w.segment_size w₁.segment_size (r ∷ rs) p.same_size
                  (sized, small, others))) in
            let w₂ = after_run w₁ (r ∷ run) in
            let (w', e, done) =
              write_frames-IsWritten fuel rest (old ++ r ∷ run) w₂
                (after_run-IsWritable w₁ (r ∷ run) p.writable cut.fits) left
                (write-Holds w₁ old (r ∷ run) framed held₁) (omega arith) (omega (arith, fewer))
                (inr (omega (arith, fewer))) in
            (
              w',
              run-round fuel (frame crc r) (map (frame crc) rs) (map (frame crc) rest)
                    (frames crc narrow handler (r ∷ run)) w (size w₁.current) w₂.current fits
                    cut.cut
                    (write-fits (frames crc narrow handler (r ∷ run)) w₁.current cut.fits
                      (omega (arith, p.writable.sized, p.writable.room)))
                  ∙ e,
              IsWritten-trans (old ++ r ∷ rs) w w₂ w' p.same_size p.same_lsn (
                  subst (λ l. IsWritten l w₂ w')
                    (append_assoc old (r ∷ run) rest ∙ ap (λ l. old ++ l) (sym cut.parts)) done),
            )
      ]
