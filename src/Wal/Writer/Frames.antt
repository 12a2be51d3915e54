-- ===== src/Wal/Writer/Frames.antt =====
-- `writeBuffered` of internal/wal/wal.go, for a buffer whose ends an int32 can hold: it writes frames, by
-- a description that needs neither buffer nor ends.
use mathlib.Core.List.{append_assoc, append-nil}
use aequitas_ledger.Prelude.{
  ℕ, zero, suc, ◌+◌, ◌-◌, ◌%◌, ◌^◌, ◌<◌, ◌≤◌, ◌≡◌, refl, sym, ap, ◌∙◌, arith, true, false, ltb, leb,
  ◌==◌, Option, none, some, List, [], ◌∷◌, ◌++◌, length, length-append, Result, ok, err,
  if◌then◌else◌, Bool-cases, Result-cases, inl, inr,
}
use aequitas_ledger.Prelude.{◌&&◌, take-append}
use aequitas_ledger.Prelude.Bytes.{skip-prefix}
use aequitas_ledger.Wal.Segments.{WalError, record_larger_than_segment, size, write}
use aequitas_ledger.Wal.Writer.{
  Wal, rotate, with_room, joined, frame_ends, last_fitting, slice, write_buffered, end_fits,
  oversized,
}

-- The longest run of frames that fits into the space, and the frames after it.
unfoldable pub fitting : ℕ → List (List ℕ) → List ℕ × List (List ℕ)
fitting space [] = ([], [])
fitting space (f ∷ fs) =
    let (run, rest) = fitting (space - length f) fs in
    if ltb space (length f) then ([], f ∷ fs) else (f ++ run, rest)

-- The frames go to the segments.
unfoldable pub write_frames : ℕ → List (List ℕ) → Wal → Option (Result WalError (Unit {0}) × Wal)
write_frames zero frames w = none
write_frames (suc fuel) frames w = elim frames [
  | [] ↦ some (ok tt, w)
  | f ∷ fs ↦
      let w₁ = with_room w in
      let space = w₁.current.max_size - size w₁.current in
      let (run, rest) = fitting space (f ∷ fs) in
      elim (ltb space (length f)) [
        | false ↦
            let (written, s) = write run w₁.current in
            elim written [
              | err e ↦ some (err e, record w₁ { current = s })
              | ok n ↦ write_frames fuel rest (record w₁ { current = s })
            ]
        | true ↦ elim (ltb space w₁.segment_size) [
          | true ↦ write_frames fuel (f ∷ fs) (rotate w₁)
          | false ↦ some (err record_larger_than_segment, w₁)
        ]
      ]
]

-- The frames are not empty.
abbrev pub AreFilled : List (List ℕ) → Type 0
AreFilled [] = Unit
AreFilled (f ∷ fs) = (0 < length f) × AreFilled fs

fitting-joined :
    (space : ℕ) (fs : List (List ℕ))
    → (fitting space fs).0 ++ joined (fitting space fs).1 ≡ joined fs
unfolding fitting joined
fitting-joined space [] = refl
fitting-joined space (f ∷ fs) = elim (Bool-cases (ltb space (length f))) [
  | inl small ↦ rw small refl
  | inr fits ↦
      rw
        (
          fits,
          append_assoc f (fitting (space - length f) fs).0
              (joined (fitting (space - length f) fs).1),
          fitting-joined (space - length f) fs,
        )
        refl
]

fitting-AreFilled : (space : ℕ) (fs : List (List ℕ)) → AreFilled fs → AreFilled (fitting space fs).1
unfolding fitting
fitting-AreFilled space [] v = tt
fitting-AreFilled space (f ∷ fs) v = elim (Bool-cases (ltb space (length f))) [
  | inl small ↦ rw small v
  | inr fits ↦ rw fits (fitting-AreFilled (space - length f) fs v.1)
]

abbrev cut_at : ℕ → List ℕ × List (List ℕ) → Option ℕ × List ℕ
cut_at offset (run, rest) = (some (offset + length run), frame_ends (offset + length run) rest)

cut_at-append :
    (offset : ℕ) (f : List ℕ) (cut : List ℕ × List (List ℕ))
    → cut_at (offset + length f) cut ≡ cut_at offset (f ++ cut.0, cut.1)
cut_at-append offset f (run, rest) =
    let n : offset + length f + length run ≡ offset + length (f ++ run) =
      omega (arith, length-append f run) in
    ap (λ k. (some k, frame_ends k rest)) n

-- Ends that do not wrap pick the frames that fit.
last_fitting-fitting :
    (space written taken : ℕ) (fs : List (List ℕ))
    → taken ≤ space
    → written + taken + length (joined fs) < 2 ^ 31
    → last_fitting space written (frame_ends (written + taken) fs) (some (written + taken))
      ≡ cut_at (written + taken) (fitting (space - taken) fs)
unfolding last_fitting fitting joined frame_ends
last_fitting-fitting space written taken [] below short = ground arith
last_fitting-fitting space written taken (f ∷ fs) below short =
    let end = written + taken + length f in
    let total : length (joined (f ∷ fs)) ≡ length f + length (joined fs) =
      length-append f (joined fs) in
    let whole : end % 2 ^ 32 ≡ end = omega (arith, total) in
    let positive : ltb end (2 ^ 31) ≡ true = ground (arith, total) in
    elim (Bool-cases (ltb (space - taken) (length f))) [
      | inl small ↦
          let stop : end_fits space written end ≡ false = ground (arith, total) in
          rw (whole, stop, small) (ground arith)
      | inr fits ↦
          let go : end_fits space written end ≡ true = ground (arith, total) in
          let left : space - (taken + length f) ≡ space - taken - length f = omega arith in
          let one : written + (taken + length f) ≡ end = omega arith in
          let rest =
            rw (one, left) at
              (last_fitting-fitting space written (taken + length f) fs (ground arith)
                (omega (arith, total))) in
          rw (whole, go, positive, fits)
            (rest ∙ cut_at-append (written + taken) f (fitting (space - taken - length f) fs))
    ]

slice-run :
    (done run rest : List ℕ)
    → slice (done ++ (run ++ rest)) (length done) (length done + length run) ≡ some run
unfolding slice
slice-run done run rest =
    let inside : (leb (length done) (length done + length run)
          && leb (length done + length run) (length (done ++ (run ++ rest))))
        ≡ true =
      ground (arith, length-append done (run ++ rest), length-append run rest) in
    let n : length done + length run - length done ≡ length run = omega arith in
    rw (inside, n, skip-prefix (length done) done (run ++ rest) refl, take-append run rest) refl

joined_some :
    (done f : List ℕ) (fs : List (List ℕ))
    → 0 < length f
    → leb (length (done ++ (f ++ joined fs))) (length done) ≡ false
joined_some done f fs h =
    ground (arith, length-append done (f ++ joined fs), length-append f (joined fs))

cut-run :
    (space offset : ℕ) (fs : List (List ℕ))
    → offset + length (joined fs) < 2 ^ 31
    → last_fitting space offset (frame_ends offset fs) (some offset)
      ≡ cut_at offset (fitting space fs)
cut-run space offset fs short =
    let none_taken : offset + 0 ≡ offset = omega arith in
    let all_left : space - 0 ≡ space = omega arith in
    rw (none_taken, all_left) at
      (last_fitting-fitting space offset 0 fs (omega arith) (omega arith))

fitting_nothing :
    (space : ℕ) (f : List ℕ) (fs : List (List ℕ))
    → ltb space (length f) ≡ true
    → fitting space (f ∷ fs) ≡ ([], f ∷ fs)
unfolding fitting
fitting_nothing space f fs small = rw small refl

-- The first frame is too large for the space.
cut-small :
    (space offset : ℕ) (f : List ℕ) (fs : List (List ℕ))
    → offset + length (joined (f ∷ fs)) < 2 ^ 31
    → ltb space (length f) ≡ true
    → last_fitting space offset (frame_ends offset (f ∷ fs)) (some offset)
      ≡ (some offset, frame_ends offset (f ∷ fs))
cut-small space offset f fs short small =
    let none_taken : offset + 0 ≡ offset = omega arith in
    cut-run space offset (f ∷ fs) short
    ∙ ap (cut_at offset) (fitting_nothing space f fs small)
    ∙ ap (λ k. (some k, frame_ends k (f ∷ fs))) none_taken

run-filled :
    (space : ℕ) (f : List ℕ) (fs : List (List ℕ))
    → 0 < length f
    → ltb space (length f) ≡ false
    → 0 < length (fitting space (f ∷ fs)).0
unfolding fitting
run-filled space f fs h fits =
    rw fits (omega (arith, length-append f (fitting (space - length f) fs).0))

oversized-frame :
    (offset : ℕ) (f : List ℕ) (fs : List (List ℕ))
    → oversized (frame_ends offset (f ∷ fs)) ≡ record_larger_than_segment
unfolding frame_ends
oversized-frame offset f fs = refl

-- The loop in `writeBuffered`, over a buffer of less than 2 GiB of which some bytes are written and the
-- rest is frames, none empty, with their ends as int32 values, does round by round what is done with
-- these frames as a list: the longest run of them that fits goes to the current segment, and where
-- the first does not fit, the next segment is started, or the frame refused by an empty one.
pub write_buffered-frames :
    (fuel : ℕ) (done : List ℕ) (fs : List (List ℕ)) (w : Wal)
    → AreFilled fs
    → length done + length (joined fs) < 2 ^ 31
    → write_buffered fuel (done ++ joined fs) (length done) (frame_ends (length done) fs) w
      ≡ write_frames fuel fs w
unfolding write_buffered write_frames joined
write_buffered-frames zero done fs w v short = refl
write_buffered-frames (suc fuel) done [] w v short = ground (arith, append-nil done)
write_buffered-frames (suc fuel) done (f ∷ fs) w v short =
    let w₁ = with_room w in
    let space = w₁.current.max_size - size w₁.current in
    let more = joined_some done f fs v.0 in
    elim (Bool-cases (ltb space (length f))) [
      | inl small ↦
          let same : (length done == length done) ≡ true = ground arith in
          let cut = cut-small space (length done) f fs short small in
          elim (Bool-cases (ltb space w₁.segment_size)) [
            | inl behind ↦
                rw (write_buffered, more, cut, same, behind)
                  (rw (cut, write_frames, small, behind)
                    (write_buffered-frames fuel done (f ∷ fs) (rotate w₁) v short))
            | inr fresh ↦
                rw (write_buffered, more, cut, same, fresh)
                  (rw (cut, write_frames, small, fresh)
                    (ap (λ e. some (err e, w₁)) (oversized-frame (length done) f fs)))
          ]
      | inr fits ↦
          let run = (fitting space (f ∷ fs)).0 in
          let rest = (fitting space (f ∷ fs)).1 in
          let cut = cut-run space (length done) (f ∷ fs) short in
          let parts : joined (f ∷ fs) ≡ run ++ joined rest = sym (fitting-joined space (f ∷ fs)) in
          let other : (length done + length run == length done) ≡ false =
            ground (arith, run-filled space f fs v.0 fits) in
          let bytes : slice (done ++ joined (f ∷ fs)) (length done) (length done + length run)
              ≡ some run =
            ap (λ l. slice (done ++ l) (length done) (length done + length run)) parts
            ∙ slice-run done run (joined rest) in
          let s = (write run w₁.current).1 in
          let again =
            write_buffered-frames fuel (done ++ run) rest (record w₁ { current = s })
              (fitting-AreFilled space (f ∷ fs) v)
              (omega (
                arith,
                length-append done run,
                length-append run (joined rest),
                ap length parts,
              )) in
          let w₂ : Wal = record w₁ { current = s } in
          let moved : write_buffered fuel (done ++ joined (f ∷ fs)) (length done + length run)
                (frame_ends (length done + length run) rest) w₂
              ≡ write_buffered fuel ((done ++ run) ++ joined rest) (length (done ++ run))
                  (frame_ends (length (done ++ run)) rest) w₂ =
            ap
              (λ l.
                write_buffered fuel (done ++ l) (length done + length run)
                  (frame_ends (length done + length run) rest) w₂)
              parts
            ∙ ap
                (λ l.
                  write_buffered fuel l (length done + length run)
                    (frame_ends (length done + length run) rest) w₂)
                (sym (append_assoc done run (joined rest)))
            ∙ ap (λ k. write_buffered fuel ((done ++ run) ++ joined rest) k (frame_ends k rest) w₂)
                (sym (length-append done run)) in
          elim (Result-cases (write run w₁.current).0) [
            | inl (n, q) ↦
                rw (write_buffered, more, cut, other, bytes, q)
                  (rw (cut, write_frames, fits, q) (moved ∙ again))
            | inr (e, q) ↦
                rw (write_buffered, more, cut, other, bytes, q) (rw (write_frames, fits, q) refl)
          ]
    ]
