-- ===== src/Wal/Recovery/Straddles.antt =====
-- A batch that two segments share, before one that is open: what `recoverSegments` of
-- internal/wal/recovery.go does to its files.
use mathlib.Core.List.{append_assoc, append-nil}
use aequitas_ledger.Prelude.{
  ℕ, suc, ◌-◌, ◌+◌, ◌<◌, ◌^◌, ◌≡◌, refl, sym, arith, List, [], ◌∷◌, ◌++◌, length, length-append,
  take-append, true, false, ◌==◌, ◌!=◌, ok, err, Result, some, ◌∙◌, ap,
}
use aequitas_ledger.Prelude.Exec
use aequitas_ledger.Wal.Records.{LogRecord, frame}
use aequitas_ledger.Wal.Records.RoundTrip.{IsSizedRecord}
use aequitas_ledger.Wal.Segments.{Segment, truncate, size}
use aequitas_ledger.Wal.Replay.{
  handle_all, replay_segment, new_replay_state, expected_count, replay_from,
}
use aequitas_ledger.Wal.Replay.Steps.{
  frames, AreSized, length-frame, length-frames, replay-records, replay-commit,
}
use aequitas_ledger.Wal.Replay.Batches.{
  Batch, commit_record, commit-IsSized, commit_count, replay-open,
}
use aequitas_ledger.Wal.Recovery.{
  Walk, new_walk, recover_segments, walk_segments, healed_files, heals, heal,
}
use aequitas_ledger.Wal.Recovery.Delivery.{
  deliver, AreFramed, IsHeld, walk-read, framed-append, frames-append,
}
use aequitas_ledger.Wal.Recovery.Restart.{recover-held, deliver-records, AreOrdinary}

module _ {E S : Type 0} (crc : List ℕ → ℕ) (narrow : (bytes : List ℕ) → crc bytes < 256 ^ 4)
    (handler : LogRecord → Exec.Exec E S (Unit {0}))
    -- A batch whose first records are in one file, and the others in the next, before open records.
    (first others waiting : List LogRecord) (commit_lsn : ℕ) (g h : Segment) (s s' : S) where
  abbrev pub shared : Batch crc narrow handler
  shared = record { records = first ++ others; commit_lsn = commit_lsn }

  abbrev c : LogRecord
  c = commit_record crc narrow handler shared

  abbrev pub committed_part : List ℕ
  committed_part = frames crc narrow handler others ++ frame crc c

  -- The case.
  pub record IsShared : Type 0 where
    pub first_sized : AreSized crc narrow handler first
    pub others_sized : AreSized crc narrow handler others
    pub waiting_sized : AreSized crc narrow handler waiting
    pub lsn_sized : commit_lsn < 256 ^ 8
    pub few : length (first ++ others) < 256 ^ 4
    pub some_first : 0 < length first
    pub some_waiting : 0 < length waiting
    pub first_bytes : g.bytes ≡ frames crc narrow handler first
    pub next_bytes : h.bytes ≡ committed_part ++ frames crc narrow handler waiting
    pub accepted : handle_all crc handler (first ++ others) s ≡ (ok tt, s')

  first_file :
      IsShared
      → replay_segment crc handler g.bytes new_replay_state s
        ≡ (ok (false, 0), record { pending = first; highest_lsn = 0 }, s)
  unfolding replay_segment
  first_file v =
      let n = length (frames crc narrow handler first) in
      let extra = n - length first in
      let fuel : n + 1 ≡ length first + suc extra =
        omega (arith, length-frames crc narrow handler first v.first_sized) in
      rw (v.first_bytes, fuel) (replay-open crc narrow handler extra first 0 0 s v.first_sized)

  c-IsSized : IsShared → IsSizedRecord c
  c-IsSized v = commit-IsSized crc narrow handler shared v.lsn_sized

  c_counts : IsShared → (length (first ++ others) == expected_count c) ≡ true
  c_counts v = ground (arith, commit_count crc narrow handler shared v.few)

  length-committed_part :
      IsShared
      → 0 + length (frames crc narrow handler others) + (13 + length c.payload + 4)
        ≡ length committed_part
  length-committed_part v = omega (
    arith,
    length-append (frames crc narrow handler others) (frame crc c),
    length-frame crc narrow handler c (c-IsSized v),
  )

  next_run :
      (extra : ℕ)
      → IsShared
      → replay_from crc handler
          (length others + suc (length waiting + suc extra))
          (committed_part ++ frames crc narrow handler waiting)
          0
          0
          (record { pending = first; highest_lsn = 0 })
          s
        ≡ (
          ok (false, length committed_part),
          record { pending = waiting; highest_lsn = commit_lsn },
          s',
        )
  next_run extra v =
      let tail = frames crc narrow handler waiting in
      rw (append_assoc (frames crc narrow handler others) (frame crc c) tail) (
        replay-records crc narrow handler (suc (length waiting + suc extra)) others
          (frame crc c ++ tail) 0 0 (record { pending = first; highest_lsn = 0 }) s v.others_sized
        ∙ replay-commit crc narrow handler (length waiting + suc extra) c tail
            (0 + length (frames crc narrow handler others)) 0
            (record { pending = first ++ others; highest_lsn = 0 }) s s' (c-IsSized v) refl
            (c_counts v) v.accepted
        ∙ rw (length-committed_part v) (
            replay-open crc narrow handler extra waiting (length committed_part) commit_lsn s'
              v.waiting_sized))

  next_file :
      IsShared
      → replay_segment crc handler h.bytes (record { pending = first; highest_lsn = 0 }) s ≡ (
        ok (false, length committed_part),
        record { pending = waiting; highest_lsn = commit_lsn },
        s',
      )
  unfolding replay_segment
  next_file v =
      let tail = frames crc narrow handler waiting in
      let n = length (committed_part ++ tail) in
      let extra = n - (length others + 1 + length waiting) in
      let fuel : n + 1 ≡ length others + suc (length waiting + suc extra) = omega (
        arith,
        length-append committed_part tail,
        length-committed_part v,
        length-frames crc narrow handler others v.others_sized,
        length-frames crc narrow handler waiting v.waiting_sized,
      ) in
      rw (v.next_bytes, fuel) (next_run extra v)

  -- What the first recovery leaves of the files.
  abbrev pub left : List Segment
  left = truncate 0 g ∷ record h { bytes = committed_part } ∷ []

  -- The walk of the first recovery.
  abbrev after_first : Walk
  after_first = record new_walk {
    seen = (g, some 0) ∷ [];
    last_id = g.id;
    state = record { pending = first; highest_lsn = 0 };
  }

  abbrev after_next : Walk
  after_next = record after_first {
    seen = (g, some 0) ∷ (h, some (length committed_part)) ∷ [];
    last_id = h.id;
    state = record { pending = waiting; highest_lsn = commit_lsn };
  }

  healed_first : IsShared → heal (g, some 0) ≡ truncate 0 g
  healed_first v =
      let filled : (size g == 0) ≡ false = ground (
        arith,
        ap length v.first_bytes,
        length-frames crc narrow handler first v.first_sized,
        v.some_first,
      ) in
      rw filled refl

  healed_next :
      IsShared → heal (h, some (length committed_part)) ≡ record h { bytes = committed_part }
  unfolding truncate
  healed_next v =
      let tail = frames crc narrow handler waiting in
      let longer : (size h == length committed_part) ≡ false = ground (
        arith,
        ap length v.next_bytes,
        length-append committed_part tail,
        length-frames crc narrow handler waiting v.waiting_sized,
        v.some_waiting,
      ) in
      rw longer (
        ap (λ (l : List ℕ). record h { bytes = l })
          (rw v.next_bytes (take-append committed_part tail)))

  healed : IsShared → healed_files crc handler 0 after_next ≡ left
  unfolding healed_files heals
  healed v =
      let open_tail : (length waiting != 0) ≡ true = ground (arith, v.some_waiting) in
      rw (healed_files, heals, open_tail)
        (ap (λ (k : Segment). k ∷ heal (h, some (length committed_part)) ∷ []) (healed_first v)
          ∙ ap (λ (k : Segment). truncate 0 g ∷ k ∷ []) (healed_next v))

  first_recovery :
      IsShared → recover_segments crc handler 0 (g ∷ h ∷ []) s ≡ (ok (left, commit_lsn, h.id), s')
  unfolding recover_segments walk_segments
  first_recovery v =
      ap
        (λ (x : Result E Walk × S). elim x.0 as (λ y. Result E (List Segment × ℕ × ℕ) × S) [
          | err e ↦ (err e, x.1)
          | ok w ↦ (ok (healed_files crc handler 0 w, w.state.highest_lsn, w.last_id), x.1)
        ])
        (walk-read crc narrow handler g (h ∷ []) new_walk after_first.state s s 0 (first_file v)
          ∙ walk-read crc narrow handler h [] after_first after_next.state s s'
              (length committed_part) (next_file v))
      ∙ ap (λ (files : List Segment). (ok (files, commit_lsn, h.id), s')) (healed v)

  ordinary : (rs : List LogRecord) → AreSized crc narrow handler rs → AreOrdinary rs
  ordinary [] v = tt
  ordinary (r ∷ rs) (sized, other, more) = (other, ordinary rs more)

  framed : (rs : List LogRecord) → AreSized crc narrow handler rs → AreFramed crc narrow handler rs
  framed [] v = tt
  framed (r ∷ rs) (sized, other, more) = (sized, framed rs more)

  left-IsHeld : IsShared → IsHeld crc narrow handler left (others ++ c ∷ [])
  unfolding IsHeld frames truncate
  left-IsHeld v =
      let whole : committed_part ≡ frames crc narrow handler (others ++ c ∷ []) =
        ap (λ (l : List ℕ). frames crc narrow handler others ++ l) (sym (append-nil (frame crc c)))
        ∙ sym (frames-append crc narrow handler others (c ∷ [])) in
      (
        [],
        others ++ c ∷ [],
        refl,
        tt,
        refl,
        (
          others ++ c ∷ [],
          [],
          whole,
          framed-append crc narrow handler others (c ∷ []) (framed others v.others_sized)
              (c-IsSized v, tt),
          sym (append-nil (others ++ c ∷ [])),
          refl,
        ),
      )

  second_delivers :
      IsShared
      → deliver crc narrow handler (others ++ c ∷ []) new_replay_state s
        ≡ (ok tt, record { pending = []; highest_lsn = 0 }, s)
  unfolding deliver
  second_delivers v =
      let fewer : (length others == expected_count c) ≡ false = ground (
        arith,
        commit_count crc narrow handler shared v.few,
        length-append first others,
        v.some_first,
      ) in
      deliver-records crc narrow handler others (c ∷ []) new_replay_state s
        (ordinary others v.others_sized)
      ∙ rw (deliver, fewer) refl

  -- With a checksum of 32 bits: a batch starts in one file and ends in the next, behind whose commit
  -- record there are records with no commit record, as a crash leaves them. The first recovery from 0
  -- hands the batch over and cuts its first records off; the second one, over the files that the first
  -- has left, hands nothing over.
  pub straddling_lost :
      IsShared
      → (recover_segments crc handler 0 (g ∷ h ∷ []) s ≡ (ok (left, commit_lsn, h.id), s'))
        × (recover_segments crc handler 0 left s ≡ (ok (left, 0, h.id), s))
  straddling_lost v = (
    first_recovery v,
    recover-held crc narrow handler left (others ++ c ∷ []) 0 s s (left-IsHeld v)
        (second_delivers v),
  )
