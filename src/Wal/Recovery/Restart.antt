-- ===== src/Wal/Recovery/Restart.antt =====
-- The log of internal/wal/wal.go, from its opening over batches that are appended to the recovery of
-- internal/wal/recovery.go.
use mathlib.Core.Path.{subst}
use mathlib.Core.List.{append_assoc, append-nil}
use aequitas_ledger.Prelude.{
  ℕ, ◌+◌, ◌≤◌, ◌<◌, ◌^◌, ◌≡◌, refl, sym, arith, List, [], ◌∷◌, ◌++◌, map, length, true, false, ◌==◌,
  ok, err, Result, none, some, ◌∙◌, ap, Option,
}
use aequitas_ledger.Prelude.Exec
use aequitas_ledger.Wal.Records.{LogRecord, record_type_batch_commit}
use aequitas_ledger.Wal.Segments.{Segment, WalError, open_segment}
use aequitas_ledger.Wal.Writer.{Wal, append_batch, segments, reset}
use aequitas_ledger.Wal.Replay.{ReplayState, handle_all, new_replay_state, expected_count}
use aequitas_ledger.Wal.Replay.Steps.{frames}
use aequitas_ledger.Wal.Replay.Batches.{Batch, commit_record, commit_count, handle_all-split}
use aequitas_ledger.Wal.Recovery.{Walk, new_walk, recover_segments, healed_files, heals}
use aequitas_ledger.Wal.Recovery.Delivery.{
  deliver, IsHeld, IsRead, walk_segments-deliver, last_id_of,
}
use aequitas_ledger.Wal.Recovery.Written.{IsWritable, Holds}
use aequitas_ledger.Wal.Recovery.Appended.{
  numbered, AreAccepted, items, batch_of, batch_bytes, append_batch-IsWritten, length-numbered,
}

-- Callers append one batch after the other.
unfoldable pub append_all :
    (List ℕ → ℕ) → List (List LogRecord) → Wal → Option (Result WalError (Unit {0}) × Wal)
append_all crc [] w = some (ok tt, w)
append_all crc (b ∷ bs) w = elim (append_batch crc b w) [
  | none ↦ none
  | some (result, w') ↦ elim result [ err e ↦ some (err e, w') | ok lsn ↦ append_all crc bs w' ]
]

append-step :
    (crc : List ℕ → ℕ) (b : List LogRecord) (bs : List (List LogRecord)) (w w₁ : Wal) (lsn : ℕ)
    → append_batch crc b w ≡ some (ok lsn, w₁)
    → append_all crc (b ∷ bs) w ≡ append_all crc bs w₁
unfolding append_all
append-step crc b bs w w₁ lsn e =
    ap
      (λ (x : Option (Result WalError ℕ × Wal)).
        elim x as (λ y. Option (Result WalError (Unit {0}) × Wal)) [
          | none ↦ none
          | some (result, w') ↦ elim result [
            | err e ↦ some (err e, w')
            | ok lsn ↦ append_all crc bs w'
          ]
        ])
      e

-- The records of the batches, numbered, a commit record taking a number after each batch.
abbrev pub appended : ℕ → List (List LogRecord) → List LogRecord
appended lsn [] = []
appended lsn (b ∷ bs) = numbered lsn b ++ appended (lsn + length b + 1) bs

abbrev pub last_lsn : ℕ → List (List LogRecord) → ℕ
last_lsn lsn [] = lsn
last_lsn lsn (b ∷ bs) = last_lsn (lsn + length b + 1) bs

-- Batches of accepted records, none empty, that the 64-bit numbers suffice for, each of less than 2 GiB.
abbrev pub AreAppendable : ℕ → ℕ → List (List LogRecord) → Type 0
AreAppendable n lsn [] = Unit
AreAppendable n lsn (b ∷ bs) =
    (0 < length b)
    × (length b < 256 ^ 4)
    × AreAccepted n b
    × (lsn + length b + 1 < 256 ^ 8)
    × (batch_bytes b < 2 ^ 31)
    × AreAppendable n (lsn + length b + 1) bs

pub last_id-snoc : (id : ℕ) (gs : List Segment) (g : Segment) → last_id_of id (gs ++ g ∷ []) ≡ g.id
last_id-snoc id [] g = refl
last_id-snoc id (h ∷ gs) g = last_id-snoc h.id gs g

-- None of the records is a commit record.
abbrev pub AreOrdinary : List LogRecord → Type 0
AreOrdinary [] = Unit
AreOrdinary (r ∷ rs) = ((r.kind == record_type_batch_commit) ≡ false) × AreOrdinary rs

numbered-no_commit :
    (n lsn : ℕ) (rs : List LogRecord) → AreAccepted n rs → AreOrdinary (numbered lsn rs)
numbered-no_commit n lsn [] v = tt
numbered-no_commit n lsn (r ∷ rs) (v, more) = (v.no_commit, numbered-no_commit n (lsn + 1) rs more)

module _ {E S : Type 0} (crc : List ℕ → ℕ) (narrow : (bytes : List ℕ) → crc bytes < 256 ^ 4)
    (handler : LogRecord → Exec.Exec E S (Unit {0})) where
  abbrev all_items : ℕ → List (List LogRecord) → List LogRecord
  all_items lsn [] = []
  all_items lsn (b ∷ bs) = items crc narrow handler lsn b ++ all_items (lsn + length b + 1) bs

  pub deliver-records :
      (rs tail : List LogRecord) (st : ReplayState) (s : S)
      → AreOrdinary rs
      → deliver crc narrow handler (rs ++ tail) st s
        ≡ deliver crc narrow handler tail (record st { pending = st.pending ++ rs }) s
  unfolding deliver
  deliver-records [] tail st s v = rw (append-nil st.pending) refl
  deliver-records (r ∷ rs) tail st s (v, more) =
      rw (deliver, v)
        (deliver-records rs tail (record st { pending = st.pending ++ r ∷ [] }) s more
          ∙ ap
              (λ (p : List LogRecord).
                deliver crc narrow handler tail (record st { pending = p }) s)
              (append_assoc st.pending (r ∷ []) rs))

  deliver-commit :
      (b : Batch crc narrow handler) (tail : List LogRecord) (lsn : ℕ) (s s' : S)
      → length b.records < 256 ^ 4
      → handle_all crc handler b.records s ≡ (ok tt, s')
      → deliver crc narrow handler
          (commit_record crc narrow handler b ∷ tail)
          (record { pending = b.records; highest_lsn = lsn })
          s
        ≡ deliver crc narrow handler tail (record { pending = []; highest_lsn = b.commit_lsn }) s'
  unfolding deliver
  deliver-commit b tail lsn s s' few handled =
      let c = commit_record crc narrow handler b in
      let counts : (length b.records == expected_count c) ≡ true =
        ground (arith, commit_count crc narrow handler b few) in
      rw (deliver, counts)
        (ap
          (λ (x : Result E (Unit {0}) × S).
            elim x.0 as (λ y. Result E (Unit {0}) × ReplayState × S) [
              | err e ↦ (err e, record { pending = b.records; highest_lsn = lsn }, x.1)
              | ok u ↦
                  deliver crc narrow handler tail
                    (record { pending = []; highest_lsn = b.commit_lsn }) x.1
            ])
          handled)

  deliver-all :
      (n lsn : ℕ) (bs : List (List LogRecord)) (s s' : S)
      → AreAppendable n lsn bs
      → handle_all crc handler (appended lsn bs) s ≡ (ok tt, s')
      → deliver crc narrow handler (all_items lsn bs) (record { pending = []; highest_lsn = lsn }) s
        ≡ (ok tt, record { pending = []; highest_lsn = last_lsn lsn bs }, s')
  unfolding deliver handle_all
  deliver-all n lsn [] s s' v h =
      ap (λ p. (ok tt, record { pending = []; highest_lsn = lsn }, p.1)) h
  deliver-all n lsn (b ∷ bs) s s' (filled, few, accepted, below, short, more) h =
      let next = lsn + length b + 1 in
      let c = commit_record crc narrow handler (batch_of crc narrow handler lsn b) in
      let (s₁, first, others) =
        handle_all-split crc narrow handler (numbered lsn b) (appended next bs) s s' h in
      rw (append_assoc (numbered lsn b) (c ∷ []) (all_items next bs)) (
        deliver-records (numbered lsn b) (c ∷ all_items next bs)
          (record { pending = []; highest_lsn = lsn }) s (numbered-no_commit n lsn b accepted)
        ∙ deliver-commit (batch_of crc narrow handler lsn b) (all_items next bs) lsn s s₁
            (omega (arith, length-numbered lsn b)) first
        ∙ deliver-all n next bs s₁ s' more others)

  -- The log after the batches.
  record IsAppended (rs : List LogRecord) (lsn : ℕ) (w : Wal) : Type 0 where
    writable : IsWritable w
    contents : Holds crc narrow handler w rs
    counted : w.current_lsn ≡ lsn

  append_all-IsAppended :
      (bs : List (List LogRecord)) (old : List LogRecord) (n lsn : ℕ) (w : Wal)
      → IsWritable w
      → w.segment_size ≡ n
      → w.current_lsn ≡ lsn
      → 29 ≤ n
      → AreAppendable n lsn bs
      → Holds crc narrow handler w old
      → (w' : Wal) × (append_all crc bs w ≡ some (ok tt, w'))
        × IsAppended (old ++ all_items lsn bs) (last_lsn lsn bs) w'
  unfolding append_all
  append_all-IsAppended [] old n lsn w v sized counted room all held =
      (w, refl, record { writable = v; contents = rw (append-nil old) held; counted = counted })
  append_all-IsAppended ([] ∷ bs) old n lsn w v sized counted room
        (filled, few, accepted, below, short, more) held =
      absurd (omega arith)
  append_all-IsAppended ((r ∷ rs) ∷ bs) old n lsn w v sized counted room
        (filled, few, accepted, below, short, more) held =
      let b = r ∷ rs in
      let next = lsn + length b + 1 in
      let (w₁, e, done) =
        append_batch-IsWritten crc narrow handler r rs old w v
          (subst (λ k. AreAccepted k b) (sym sized) accepted) (rw counted below) (rw sized room)
          short held in
      let (w', e', all) =
        append_all-IsAppended bs (old ++ items crc narrow handler lsn b) n next w₁ done.writable
          (done.same_size ∙ sized) (rw counted at done.same_lsn) room more
          (rw counted at done.contents) in
      (
        w',
        append-step crc b bs w w₁ (w.current_lsn + 1) e ∙ e',
        subst (λ l. IsAppended l (last_lsn next bs) w')
            (append_assoc old (items crc narrow handler lsn b) (all_items next bs)) all,
      )

  healed_nothing :
      (files : List Segment) (lsn : ℕ) (w : Walk)
      → IsRead files (record { pending = []; highest_lsn = lsn }) new_walk w
      → healed_files crc handler 0 w ≡ files
  unfolding healed_files heals
  healed_nothing files lsn w v =
      let waiting : w.state.pending ≡ [] = ap (λ (st : ReplayState). st.pending) v.state_after in
      let kept : healed_files crc handler 0 w ≡ map (λ p. p.0) w.seen ++ w.stale =
        rw (healed_files, heals, v.goes_on, waiting) refl in
      kept
      ∙ ap (λ (l : List Segment). l ++ w.stale) v.all_seen
      ∙ ap (λ (l : List Segment). files ++ l) v.none_stale
      ∙ append-nil files

  pub recover-held :
      (files : List Segment) (rs : List LogRecord) (lsn : ℕ) (s s' : S)
      → IsHeld crc narrow handler files rs
      → deliver crc narrow handler rs new_replay_state s
        ≡ (ok tt, record { pending = []; highest_lsn = lsn }, s')
      → recover_segments crc handler 0 files s ≡ (ok (files, lsn, last_id_of 0 files), s')
  unfolding recover_segments
  recover-held files rs lsn s s' held delivered =
      let (w, walked, v) =
        walk_segments-deliver crc narrow handler files rs new_walk
          (record { pending = []; highest_lsn = lsn }) s s' held delivered in
      ap
        (λ (x : Result E Walk × S). elim x.0 as (λ y. Result E (List Segment × ℕ × ℕ) × S) [
          | err e ↦ (err e, x.1)
          | ok w ↦ (ok (healed_files crc handler 0 w, w.state.highest_lsn, w.last_id), x.1)
        ])
        walked
      ∙ ap (λ (l : List Segment). (ok (l, w.state.highest_lsn, w.last_id), s'))
          (healed_nothing files lsn w v)
      ∙ ap (λ (l : ℕ). (ok (files, l, w.last_id), s'))
          (ap (λ (st : ReplayState). st.highest_lsn) v.state_after)
      ∙ ap (λ (l : ℕ). (ok (files, lsn, l), s')) v.last_seen

  empty-Holds : (w : Wal) → Holds crc narrow handler (reset w) []
  unfolding reset open_segment IsHeld frames
  empty-Holds w = ([], [], refl, tt, refl, refl)

  empty-IsWritable : (w : Wal) → 0 < w.segment_size → IsWritable (reset w)
  unfolding reset open_segment
  empty-IsWritable w h = record { sized = ground (arith, h); room = omega arith; some_size = h }

  reset-size : (w : Wal) → (reset w).segment_size ≡ w.segment_size
  unfolding reset
  reset-size w = refl

  reset-lsn : (w : Wal) → (reset w).current_lsn ≡ 0
  unfolding reset
  reset-lsn w = refl

  found :
      (w : Wal) (lsn : ℕ) (s : S)
      → w.current_lsn ≡ lsn
      → ◌≡◌ {A = Result E (List Segment × ℕ × ℕ) × S}
          (ok (segments w, lsn, last_id_of 0 (segments w)), s)
          (ok (segments w, w.current_lsn, w.current.id), s)
  found w lsn s counted =
      ap (λ (l : ℕ). (ok (segments w, l, last_id_of 0 (segments w)), s)) (sym counted)
      ∙ ap (λ (l : ℕ). (ok (segments w, w.current_lsn, l), s)) (last_id-snoc 0 w.closed w.current)

  -- With a checksum of 32 bits: batches are appended, one after the other, to an empty log whose
  -- segments have at least 29 bytes. No batch is empty, every record has a type other than 0 and the
  -- commit type, and a frame that fits into a segment, and the numbers fit into 64 bits, the batches'
  -- sizes into 32, and the bytes of a batch with its commit record into 31. Then every append
  -- succeeds, and a recovery of the files from 0 hands the records to the handler, in the order and
  -- with the numbers that they were appended with, wherever the segments cut the batches, if the
  -- handler accepts them. It leaves the files as they are, and finds the last sequence number of the
  -- log.
  pub appended_recovered :
      (bs : List (List LogRecord)) (w : Wal) (s s' : S)
      → 29 ≤ w.segment_size
      → AreAppendable w.segment_size 0 bs
      → handle_all crc handler (appended 0 bs) s ≡ (ok tt, s')
      → (w' : Wal) × (append_all crc bs (reset w) ≡ some (ok tt, w'))
        × (recover_segments crc handler 0 (segments w') s
            ≡ (ok (segments w', w'.current_lsn, w'.current.id), s'))
  appended_recovered bs w s s' room v handled =
      let (w', e, done) =
        append_all-IsAppended bs [] w.segment_size 0 (reset w) (empty-IsWritable w (omega arith))
          (reset-size w) (reset-lsn w) room v (empty-Holds w) in
      (
        w',
        e,
        recover-held (segments w') (all_items 0 bs) (last_lsn 0 bs) s s' done.contents
              (deliver-all w.segment_size 0 bs s s' v handled)
            ∙ found w' (last_lsn 0 bs) s' done.counted,
      )
