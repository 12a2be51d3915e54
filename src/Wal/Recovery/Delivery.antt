-- ===== src/Wal/Recovery/Delivery.antt =====
-- Recovery (internal/wal/recovery.go) over segments that hold whole frames: what matters is the
-- sequence of their records, wherever the files cut it.
use mathlib.Core.List.{append_assoc, append-nil}
use aequitas_ledger.Prelude.{
  ℕ, suc, ◌-◌, ◌+◌, ◌≤◌, ◌<◌, ◌^◌, ◌≡◌, refl, sym, arith, Bool, List, [], ◌∷◌, ◌++◌, map, length,
  length-append, true, false, ◌==◌, ok, err, Result, inl, inr, Bool-cases, Result-cases, Option,
  some, ◌∙◌, ap,
}
use aequitas_ledger.Prelude.Exec
use aequitas_ledger.Wal.Records.{LogRecord, frame, record_type_batch_commit}
use aequitas_ledger.Wal.Records.RoundTrip.{IsSizedRecord}
use aequitas_ledger.Wal.Segments.{Segment}
use aequitas_ledger.Wal.Recovery.{Walk, walk_segments}
use aequitas_ledger.Wal.Replay.{
  ReplayState, handle_all, replay_from, replay_segment, expected_count,
}
use aequitas_ledger.Wal.Replay.Steps.{
  frames, length-frame, replay-record, replay-commit, replay-mismatch,
}

seen-snoc :
    (seen : List (Segment × Option ℕ)) (g : Segment) (end : Option ℕ) (gs : List Segment)
    → map (λ p. p.0) (seen ++ (g, end) ∷ []) ++ gs ≡ map (λ p. p.0) seen ++ g ∷ gs
seen-snoc [] g end gs = refl
seen-snoc (x ∷ xs) g end gs = ap (λ ys. x.0 ∷ ys) (seen-snoc xs g end gs)

abbrev pub last_id_of : ℕ → List Segment → ℕ
last_id_of id [] = id
last_id_of id (g ∷ gs) = last_id_of g.id gs

-- A walk that has read some more segments to their ends.
pub record IsRead (gs : List Segment) (st' : ReplayState) (w w' : Walk) : Type 0 where
  pub state_after : w'.state ≡ st'
  pub goes_on : w'.stopped ≡ w.stopped
  pub all_seen : map (λ p. p.0) w'.seen ≡ map (λ p. p.0) w.seen ++ gs
  pub none_stale : w'.stale ≡ w.stale
  pub last_seen : w'.last_id ≡ last_id_of w.last_id gs

module _ {E S : Type 0} (crc : List ℕ → ℕ) (narrow : (bytes : List ℕ) → crc bytes < 256 ^ 4)
    (handler : LogRecord → Exec.Exec E S (Unit {0})) where
  -- What the records of the log come to: a commit record hands on those that wait if it counts them.
  unfoldable pub deliver : List LogRecord → ReplayState → S → Result E (Unit {0}) × ReplayState × S
  unfolding handle_all
  deliver [] st s = (ok tt, st, s)
  deliver (r ∷ rs) st s = elim (r.kind == record_type_batch_commit) [
    | false ↦ deliver rs (record st { pending = st.pending ++ r ∷ [] }) s
    | true ↦ elim (length st.pending == expected_count r) [
      | false ↦ deliver rs (record st { pending = [] }) s
      | true ↦
          let (result, s') = handle_all crc handler st.pending s in
          elim result [
            | err e ↦ (err e, st, s')
            | ok u ↦ deliver rs (record { pending = []; highest_lsn = r.lsn }) s'
          ]
    ]
  ]

  abbrev pub AreFramed : List LogRecord → Type 0
  AreFramed [] = Unit
  AreFramed (r ∷ rs) = IsSizedRecord r × AreFramed rs

  pub replay-deliver :
      (fuel : ℕ) (rs : List LogRecord) (offset committed : ℕ) (st st' : ReplayState) (s s' : S)
      → AreFramed rs
      → deliver rs st s ≡ (ok tt, st', s')
      → (end : ℕ) × (replay_from crc handler
            (length rs + suc fuel)
            (frames crc narrow handler rs)
            offset
            committed
            st
            s
          ≡ (ok (false, end), st', s'))
  unfolding frames deliver replay_from
  replay-deliver fuel [] offset committed st st' s s' v h =
      let one : 0 + suc fuel ≡ suc fuel = omega arith in
      rw one (committed, ap (λ p. (ok (false, committed), p.1, p.2)) h)
  replay-deliver fuel (r ∷ rs) offset committed st st' s s' (sized, more) h =
      let one_more : suc (length rs) + suc fuel ≡ suc (length rs + suc fuel) = omega arith in
      let left = length rs + suc fuel in
      let next = offset + (13 + length r.payload + 4) in
      rw one_more (elim (Bool-cases (r.kind == record_type_batch_commit)) [
        | inr other ↦
            rw
              (replay-record crc narrow handler left r (frames crc narrow handler rs) offset
                committed st s sized other)
              (replay-deliver fuel rs next committed (record st { pending = st.pending ++ r ∷ [] })
                st' s s' more (rw (deliver, other) at h))
        | inl marks ↦ elim (Bool-cases (length st.pending == expected_count r)) [
          | inr counts ↦
              rw
                (replay-mismatch crc narrow handler left r (frames crc narrow handler rs) offset
                  committed st s sized marks counts)
                (replay-deliver fuel rs next committed (record st { pending = [] }) st' s s' more
                  (rw (deliver, marks, counts) at h))
          | inl counts ↦ elim (Result-cases (handle_all crc handler st.pending s).0) [
            | inl (u, e) ↦
                rw
                  (replay-commit crc narrow handler left r (frames crc narrow handler rs) offset
                    committed st s (handle_all crc handler st.pending s).1 sized marks counts
                    (ap (λ x. (x, (handle_all crc handler st.pending s).1)) e))
                  (replay-deliver fuel rs next next (record { pending = []; highest_lsn = r.lsn })
                    st' (handle_all crc handler st.pending s).1 s' more
                    (rw (deliver, marks, counts, e) at h))
            | inr (e, failed) ↦ absurd (ground (arith, (rw (deliver, marks, counts, failed) at h)))
          ]
        ]
      ])

  deliver-split :
      (xs ys : List LogRecord) (st st' : ReplayState) (s s' : S)
      → deliver (xs ++ ys) st s ≡ (ok tt, st', s')
      → (st₁ : ReplayState) × (s₁ : S) × (deliver xs st s ≡ (ok tt, st₁, s₁))
        × (deliver ys st₁ s₁ ≡ (ok tt, st', s'))
  unfolding deliver
  deliver-split [] ys st st' s s' h = (st, s, refl, h)
  deliver-split (r ∷ xs) ys st st' s s' h = elim (Bool-cases (r.kind == record_type_batch_commit)) [
    | inr other ↦
        let (st₁, s₁, e₁, e₂) =
          deliver-split xs ys (record st { pending = st.pending ++ r ∷ [] }) st' s s'
            (rw (deliver, other) at h) in
        (st₁, s₁, rw (deliver, other) e₁, e₂)
    | inl marks ↦ elim (Bool-cases (length st.pending == expected_count r)) [
      | inr counts ↦
          let (st₁, s₁, e₁, e₂) =
            deliver-split xs ys (record st { pending = [] }) st' s s'
              (rw (deliver, marks, counts) at h) in
          (st₁, s₁, rw (deliver, marks, counts) e₁, e₂)
      | inl counts ↦ elim (Result-cases (handle_all crc handler st.pending s).0) [
        | inl (u, e) ↦
            let (st₁, s₁, e₁, e₂) =
              deliver-split xs ys (record { pending = []; highest_lsn = r.lsn }) st'
                (handle_all crc handler st.pending s).1 s' (rw (deliver, marks, counts, e) at h) in
            (st₁, s₁, rw (deliver, marks, counts, e) e₁, e₂)
        | inr (e, failed) ↦ absurd (ground (arith, (rw (deliver, marks, counts, failed) at h)))
      ]
    ]
  ]

  -- The files hold the frames of some records, each file a part of them.
  unfoldable pub IsHeld : List Segment → List LogRecord → Type 0
  unfolding frames
  IsHeld [] rs = rs ≡ []
  IsHeld (g ∷ gs) rs =
      (xs : List LogRecord) × (ys : List LogRecord) × (g.bytes ≡ frames crc narrow handler xs)
      × AreFramed xs
      × (rs ≡ xs ++ ys)
      × IsHeld gs ys

  length-framed :
      (rs : List LogRecord) → AreFramed rs → length rs ≤ length (frames crc narrow handler rs)
  unfolding frames
  length-framed [] v = omega arith
  length-framed (r ∷ rs) (sized, more) = omega (
    arith,
    length-append (frame crc r) (frames crc narrow handler rs),
    length-frame crc narrow handler r sized,
    length-framed rs more,
  )

  replay_segment-deliver :
      (rs : List LogRecord) (st st' : ReplayState) (s s' : S)
      → AreFramed rs
      → deliver rs st s ≡ (ok tt, st', s')
      → (end : ℕ) × (replay_segment crc handler (frames crc narrow handler rs) st s
          ≡ (ok (false, end), st', s'))
  unfolding replay_segment
  replay_segment-deliver rs st st' s s' v h =
      let n = length (frames crc narrow handler rs) in
      let fuel : n + 1 ≡ length rs + suc (n - length rs) = omega (arith, length-framed rs v) in
      rw fuel (replay-deliver (n - length rs) rs 0 0 st st' s s' v h)

  opened :
      (st st' : ReplayState) (s s' : S)
      → deliver [] st s ≡ (ok tt, st', s')
      → ◌≡◌ {A = Result E (Unit {0}) × ReplayState × S} (ok tt, st, s) (ok tt, st', s')
  unfolding deliver
  opened st st' s s' h = h

  pub walk-end :
      (w : Walk) (st : ReplayState) (s s' : S)
      → deliver [] w.state s ≡ (ok tt, st, s')
      → walk_segments crc handler 0 [] w s ≡ (ok w, s')
  unfolding deliver walk_segments
  walk-end w st s s' h = ap (λ p. (ok w, p.2)) h

  pub walk-read :
      (g : Segment) (gs : List Segment) (w : Walk) (st : ReplayState) (s s' : S) (end : ℕ)
      → replay_segment crc handler g.bytes w.state s ≡ (ok (false, end), st, s')
      → walk_segments crc handler 0 (g ∷ gs) w s
        ≡ walk_segments crc handler 0 gs
            (record w { seen = w.seen ++ (g, some end) ∷ []; last_id = g.id; state = st })
            s'
  unfolding walk_segments
  walk-read g gs w st s s' end h =
      ap
        (λ (x : Result E (Bool × ℕ) × ReplayState × S). elim x.0 [
          | err e ↦ (err e, x.2)
          | ok p ↦
              let w' = record w {
                seen = w.seen ++ (g, some p.1) ∷ [];
                last_id = g.id;
                state = x.1;
              } in
              elim p.0 [
                | true ↦ (ok (record w' { stopped = true; stale = gs }), x.2)
                | false ↦ walk_segments crc handler 0 gs w' x.2
              ]
        ])
        h

  pub walk_segments-deliver :
      (gs : List Segment) (rs : List LogRecord) (w : Walk) (st' : ReplayState) (s s' : S)
      → IsHeld gs rs
      → deliver rs w.state s ≡ (ok tt, st', s')
      → (w' : Walk) × (walk_segments crc handler 0 gs w s ≡ (ok w', s')) × IsRead gs st' w w'
  unfolding IsHeld
  walk_segments-deliver [] rs w st' s s' none_held h =
      let e : deliver [] w.state s ≡ (ok tt, st', s') = rw none_held at h in
      (
        w,
        walk-end w st' s s' e,
        record {
          state_after = ap (λ p. p.1) (opened w.state st' s s' e);
          goes_on = refl;
          all_seen = sym (append-nil _);
          none_stale = refl;
          last_seen = refl;
        },
      )
  walk_segments-deliver (g ∷ gs) rs w st' s s' (xs, ys, bytes, framed, parts, held) h =
      let (st₁, s₁, e₁, e₂) = deliver-split xs ys w.state st' s s' (rw parts at h) in
      let (end, read) = replay_segment-deliver xs w.state st₁ s s₁ framed e₁ in
      let w₁ = record w { seen = w.seen ++ (g, some end) ∷ []; last_id = g.id; state = st₁ } in
      let (w', walked, v) = walk_segments-deliver gs ys w₁ st' s₁ s' held e₂ in
      (
        w',
        walk-read g gs w st₁ s s₁ end (rw bytes read) ∙ walked,
        record {
          state_after = v.state_after;
          goes_on = v.goes_on;
          all_seen = v.all_seen ∙ seen-snoc w.seen g (some end) gs;
          none_stale = v.none_stale;
          last_seen = v.last_seen;
        },
      )

  -- The last file gives way to others that hold its records and some more.
  pub IsHeld-last :
      (gs hs : List Segment) (g : Segment) (rs new : List LogRecord)
      → IsHeld (gs ++ g ∷ []) rs
      → ((xs : List LogRecord)
          → AreFramed xs
          → g.bytes ≡ frames crc narrow handler xs
          → IsHeld hs (xs ++ new))
      → IsHeld (gs ++ hs) (rs ++ new)
  unfolding IsHeld
  IsHeld-last [] hs g rs new (xs, ys, bytes, framed, parts, held) last =
      rw (parts, held, append-nil xs) (last xs framed bytes)
  IsHeld-last (g' ∷ gs) hs g rs new (xs, ys, bytes, framed, parts, held) last = (
    xs,
    ys ++ new,
    bytes,
    framed,
    rw (parts, append_assoc xs ys new) refl,
    IsHeld-last gs hs g ys new held last,
  )

  pub framed-append : (xs ys : List LogRecord) → AreFramed xs → AreFramed ys → AreFramed (xs ++ ys)
  framed-append [] ys v w = w
  framed-append (x ∷ xs) ys (sized, more) w = (sized, framed-append xs ys more w)

  pub frames-append :
      (xs ys : List LogRecord)
      → frames crc narrow handler (xs ++ ys)
        ≡ frames crc narrow handler xs ++ frames crc narrow handler ys
  unfolding frames
  frames-append [] ys = refl
  frames-append (x ∷ xs) ys = rw (frames-append xs ys) (
      sym
        (append_assoc (frame crc x) (frames crc narrow handler xs) (frames crc narrow handler ys)))
