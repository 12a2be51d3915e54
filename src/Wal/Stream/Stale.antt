-- ===== src/Wal/Stream/Stale.antt =====
-- The reader of internal/wal/stream.go, on a segment that was the current one when it was opened, and has
-- grown and been closed since.
use mathlib.Core.Path.{subst}
use aequitas_ledger.Prelude.{
  ℕ, suc, ◌≤◌, ◌<◌, ◌≡◌, refl, sym, ap, ◌∙◌, arith, true, false, ltb, ◌==◌, none, some, Bool, List,
  [], ◌∷◌, ◌++◌, Option, Option-cases, Bool-cases, inl, inr,
}
use aequitas_ledger.Wal.Records.{LogRecord}
use aequitas_ledger.Wal.Segments.{Segment, size}
use aequitas_ledger.Wal.Writer.{Wal, segments, head}
use aequitas_ledger.Wal.Stream.{
  StreamReader, OpenFile, created_since, last_id, segment_with, open_first, open_listed,
  ensure_open, drop_first, advance, durable_limit, Position, position, at_end, again, round_at,
  round_in, round, next,
}

-- One segment has other bytes in the second list.
pub data DiffersAt (id : ℕ) : List Segment → List Segment → Type 0 where
  here :
      (g g' : Segment) (gs : List Segment)
      → g.id ≡ id
      → g'.id ≡ id
      → DiffersAt id (g ∷ gs) (g' ∷ gs)
  there :
      (g : Segment) {gs gs' : List Segment} → DiffersAt id gs gs' → DiffersAt id (g ∷ gs) (g ∷ gs')

-- None of these ids is that segment's.
abbrev pub Avoids : ℕ → List ℕ → Type 0
Avoids id [] = Unit
Avoids id (k ∷ ks) = (id < k) × Avoids id ks

module _ (id : ℕ) where
  same_created :
      (m : ℕ) {gs gs' : List Segment}
      → DiffersAt id gs gs'
      → created_since m gs ≡ created_since m gs'
  unfolding created_since
  same_created m (here g g' gs e e') = ground arith
  same_created m (there g {gs} {gs'} d) = rw (same_created m d) refl

  same_last : (m : ℕ) {gs gs' : List Segment} → DiffersAt id gs gs' → last_id m gs ≡ last_id m gs'
  unfolding last_id
  same_last m (here g g' gs e e') = ap (λ (k : ℕ). last_id k gs) (e ∙ sym e')
  same_last m (there g {gs} {gs'} d) = same_last g.id d

  same_segment :
      (k : ℕ) {gs gs' : List Segment}
      → id < k
      → DiffersAt id gs gs'
      → segment_with k gs ≡ segment_with k gs'
  unfolding segment_with
  same_segment k h (here g g' gs e e') = ground arith
  same_segment k h (there g {gs} {gs'} d) = rw (same_segment k h d) refl

  same_open :
      (ks : List ℕ) {gs gs' : List Segment}
      → Avoids id ks
      → DiffersAt id gs gs'
      → open_first ks gs ≡ open_first ks gs'
  unfolding open_first
  same_open [] v d = refl
  same_open (k ∷ ks) {gs} {gs'} (h, v) d =
      ap
        (λ (x : Option Segment). elim x as (λ y. Option (OpenFile × List ℕ)) [
          | none ↦ open_first ks gs
          | some g ↦ some (record { id = k; size = size g; offset = 0 }, k ∷ ks)
        ])
        (same_segment k h d)
      ∙ ap
          (λ (r : Option (OpenFile × List ℕ)).
            elim (segment_with k gs') as (λ y. Option (OpenFile × List ℕ)) [
              | none ↦ r
              | some g ↦ some (record { id = k; size = size g; offset = 0 }, k ∷ ks)
            ])
          (same_open ks v d)

  created-Avoids : (m : ℕ) (gs : List Segment) → id ≤ m → Avoids id (created_since m gs)
  unfolding created_since
  created-Avoids m [] h = tt
  created-Avoids m (g ∷ gs) h = elim (Bool-cases (ltb m g.id)) [
    | inl e ↦ rw e (ground arith, created-Avoids m gs h)
    | inr e ↦ rw e (created-Avoids m gs h)
  ]

  same_listed :
      (sr : StreamReader) {gs gs' : List Segment}
      → Avoids id sr.left
      → id ≤ sr.max_id
      → DiffersAt id gs gs'
      → open_listed sr gs ≡ open_listed sr gs'
  unfolding open_listed
  same_listed sr {gs} {gs'} v h d =
      let created = created_since sr.max_id gs in
      let first = same_open sr.left v d in
      let found =
        ap (λ (ks : List ℕ). open_first ks gs) (same_created sr.max_id d)
        ∙ same_open (created_since sr.max_id gs') (created-Avoids sr.max_id gs' h) d in
      elim (Option-cases (open_first sr.left gs)) [
        | inr (p, e) ↦ rw (open_listed, e, sym first ∙ e) refl
        | inl e ↦ elim (Option-cases (open_first created gs)) [
          | inl e' ↦ rw (open_listed, e, sym first ∙ e, e', sym found ∙ e') refl
          | inr (p, e') ↦
              rw (open_listed, e, sym first ∙ e, e', sym found ∙ e')
                (ap (λ (m : ℕ). (true, record sr { file = some p.0; left = p.1; max_id = m }))
                  (same_last sr.max_id d))
        ]
      ]

  same_advance :
      (sr : StreamReader) {gs gs' : List Segment}
      → sr.listed ≡ true
      → Avoids id (drop_first sr.left)
      → id ≤ sr.max_id
      → DiffersAt id gs gs'
      → advance sr gs ≡ advance sr gs'
  unfolding advance ensure_open
  same_advance sr listed v h d =
      rw (advance, ensure_open, listed)
        (ap (λ p. p.1)
          (same_listed (record sr { listed = true; file = none; left = drop_first sr.left }) v h d))

closed_limit :
    (f : OpenFile) (w : Wal) → (f.id == w.current.id) ≡ false → durable_limit f w ≡ (f.size, false)
unfolding durable_limit head
closed_limit f w closed = rw (durable_limit, head, closed) refl

at_end_of : (f : OpenFile) → f.size ≤ f.offset → position f.offset f.size ≡ at_end
unfolding position
at_end_of f behind = ground arith

-- The round of a reader at the end of what it takes the closed segment's size to be.
opened_moves :
    (crc : List ℕ → ℕ) (w : Wal) (sr : StreamReader) (f : OpenFile)
    → f.size ≤ f.offset
    → (f.id == w.current.id) ≡ false
    → round crc w (record sr { emit = []; file = some f })
      ≡ again (advance (record sr { emit = []; file = some f }) (segments w))
unfolding round ensure_open round_at round_in
opened_moves crc w sr f behind closed =
    let sr' = record sr { emit = []; file = some f } in
    ap (λ (x : ℕ × Bool). round_at crc w sr' f x) (closed_limit f w closed)
    ∙ ap (λ (x : Position). round_in crc w sr' f f.size false x) (at_end_of f behind)

moves_on :
    (crc : List ℕ → ℕ) (fuel : ℕ) (w : Wal) (sr : StreamReader) (f : OpenFile)
    → sr.emit ≡ []
    → sr.file ≡ some f
    → f.size ≤ f.offset
    → (f.id == w.current.id) ≡ false
    → next crc (suc fuel) w sr ≡ next crc fuel w (advance sr (segments w))
unfolding next
moves_on crc fuel w sr f quiet opened behind closed =
    let same : record sr { emit = []; file = some f } ≡ sr =
      ap (λ (x : List LogRecord). record sr { emit = x; file = some f }) (sym quiet)
      ∙ ap (λ (x : Option OpenFile). record sr { file = x }) (sym opened) in
    let moved =
      subst (λ (x : StreamReader). round crc w x ≡ again (advance x (segments w))) same
        (opened_moves crc w sr f behind closed) in
    rw (next, moved) refl

differs-append :
    {id : ℕ} {gs gs' : List Segment} (more : List Segment)
    → DiffersAt id gs gs'
    → DiffersAt id (gs ++ more) (gs' ++ more)
differs-append more (here g g' gs e e') = here g g' (gs ++ more) e e'
differs-append more (there g d) = there g (differs-append more d)

-- A reader has a segment open that is not the current one any more, has read it at least as far as
-- its size was when it was opened, and has no later record of it to hand out. The segments that it
-- has still to read come after that one. Then the next round takes it to the same segment and state
-- whatever bytes the closed segment holds: none that were appended after the opening and behind the
-- reader's offset are read, though they were synced when the segment was closed.
pub stale_size_skips :
    (crc : List ℕ → ℕ) (fuel : ℕ) (w : Wal) (closed' : List Segment) (sr : StreamReader)
    (f : OpenFile)
    → sr.emit ≡ []
    → sr.listed ≡ true
    → sr.file ≡ some f
    → f.size ≤ f.offset
    → (f.id == w.current.id) ≡ false
    → Avoids f.id (drop_first sr.left)
    → f.id ≤ sr.max_id
    → DiffersAt f.id w.closed closed'
    → (next crc (suc fuel) w sr ≡ next crc fuel w (advance sr (segments w)))
      × (next crc (suc fuel) (record w { closed = closed' }) sr
          ≡ next crc fuel (record w { closed = closed' }) (advance sr (segments w)))
stale_size_skips crc fuel w closed' sr f quiet listed opened behind closed later known d =
    let same = same_advance f.id sr listed later known (differs-append (w.current ∷ []) d) in
    let w' = record w { closed = closed' } in
    (
      moves_on crc fuel w sr f quiet opened behind closed,
      moves_on crc fuel w' sr f quiet opened behind closed
          ∙ ap (λ (x : StreamReader). next crc fuel w' x) (sym same),
    )
