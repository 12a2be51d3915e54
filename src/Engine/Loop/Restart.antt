-- ===== src/Engine/Loop/Restart.antt =====
-- The replay (internal/engine/ledger.go) of what the event loop (internal/engine/loop.go) has logged over
-- a run, and the recovery of its log.
use aequitas_ledger.Prelude.{
  ℕ, ◌+◌, ◌^◌, ◌≤◌, ◌<◌, ◌≡◌, refl, ap, ◌∙◌, arith, true, List, [], ◌∷◌, ◌++◌, map, length, ok,
  some,
}
use aequitas_ledger.Prelude.Words.{signed_less}
use aequitas_ledger.Prelude.Exec.{bind_ok}
use aequitas_ledger.Wal.Log.{Log}
use aequitas_ledger.Wal.Records.{LogRecord}
use aequitas_ledger.Wal.Writer.{Wal, segments, reset}
use aequitas_ledger.Wal.Replay.{handle_all}
use aequitas_ledger.Wal.Recovery.{recover_segments}
use aequitas_ledger.Wal.Recovery.Appended.{numbered}
use aequitas_ledger.Wal.Recovery.Restart.{appended, append_all, appended_recovered}
use aequitas_ledger.Engine.Accounts.{queue_of}
use aequitas_ledger.Engine.Accounts.Order.{IsOrdered}
use aequitas_ledger.Engine.Idempotency.{IdempotencyStore}
use aequitas_ledger.Engine.Loop.{EventLoop, next_clock, tick, check_create}
use aequitas_ledger.Engine.Loop.Replay.{
  replay, replay-cons, Replays, replay-transfers, replay-accounts,
}
use aequitas_ledger.Engine.Recover.{Recovered, recover_record, replay_clock}
use aequitas_ledger.Engine.Recover.Keys.{IsSettled}
use aequitas_ledger.Engine.Loop.Runs.{
  Request, transfers, accounts, stamped, outcomes, logged, handle, run, batches, IsServed,
  AreServed, AreCounted, Ordered, process_batch-accounts, process_account_create-accounts,
  tick-IsCurrent, handle-Ordered, batches-AreAppendable,
}

module _ (L : Log) (crc : List ℕ → ℕ) (now : LogRecord → ℕ) where
  ticked :
      (time : ℕ) (l : EventLoop L)
      → signed_less l.accounts.clock (next_clock time l.clock) ≡ true
      → replay_clock (next_clock time l.clock) l.accounts ≡ (tick L time l).accounts
  unfolding replay_clock tick
  ticked time l h = rw (replay_clock, h) refl

  handle-replayed :
      (q : Request) (lsn : ℕ) (l : EventLoop L) (keys : IdempotencyStore)
      → IsSettled keys
      → Ordered L l
      → IsServed L q l
      → 0 < length (logged L q l)
      → Replays crc now
          (numbered lsn (logged L q l))
          (record { accounts = l.accounts; keys = keys })
          (handle L q l).accounts
  unfolding handle logged
  handle-replayed (transfers time ts) lsn l keys settled o v some_logged =
      rw (process_batch-accounts L time ts l v.written) (
        replay-transfers crc now (next_clock time l.clock) lsn (stamped L time ts l)
          (outcomes L time ts l) (record { accounts = l.accounts; keys = keys })
          (tick L time l).accounts (ticked time l v.later) (tick-IsCurrent L time l o).quiet settled
          v.stamps v.applied some_logged)
  handle-replayed (accounts batch) lsn l keys settled o (sized, written) some_logged =
      rw (process_account_create-accounts L batch l written) (record {
        keys = keys;
        done =
            replay-accounts crc now L lsn batch (map (check_create L l.accounts) batch)
              (record { accounts = l.accounts; keys = keys }) sized;
        settled = settled;
      })

  replay-append :
      (rs rs' : List LogRecord) (s s' : Recovered)
      → replay crc now rs s ≡ (ok tt, s')
      → replay crc now (rs ++ rs') s ≡ replay crc now rs' s'
  unfolding handle_all
  replay-append [] rs' s s' h = ap (λ p. replay crc now rs' p.1) h
  replay-append (r ∷ rs) rs' s s' h =
      let (u, s₁, e₁, e₂) = bind_ok (recover_record now r) (λ _. replay crc now rs) s h in
      replay-cons crc now r (rs ++ rs') s s₁ e₁ ∙ replay-append rs rs' s₁ s' e₂

  -- The replay of all that a run L has logged L.
  pub run-replayed :
      (qs : List Request) (lsn : ℕ) (l : EventLoop L) (keys : IdempotencyStore)
      → IsSettled keys
      → Ordered L l
      → AreServed L qs l
      → Replays crc now
          (appended lsn (batches L qs l))
          (record { accounts = l.accounts; keys = keys })
          (run L qs l).accounts
  unfolding run batches handle_all
  run-replayed [] lsn l keys settled o v = record { keys = keys; done = refl; settled = settled }
  run-replayed (q ∷ qs) lsn l keys settled o (v, some_logged, more) =
      let first = handle-replayed q lsn l keys settled o v some_logged in
      let rest =
        run-replayed qs (lsn + length (logged L q l) + 1) (handle L q l) first.keys first.settled
          (handle-Ordered L q l v o) more in
      record {
        keys = rest.keys;
        done =
            replay-append (numbered lsn (logged L q l)) _
              (record { accounts = l.accounts; keys = keys })
              (record { accounts = (handle L q l).accounts; keys = first.keys }) first.done
            ∙ rest.done;
        settled = rest.settled;
      }

  -- With a checksum of 32 bits: from a state whose queue of deadlines is a heap, the event loop handles
  -- batches of transfers and of accounts, which its log accepts. Each has at least one record for the
  -- log. The clock of each batch of transfers is after the book's; the fields of transfers and
  -- accounts fit into their records; no hold is due as it is opened; and no transfer that the check
  -- of its batch passes is refused when it is applied. Then the same batches of records, appended to
  -- an empty log with segments of at least 161 bytes, if their numbers and counts do not overflow and
  -- each batch has less than 2 GiB, are recovered, over the state of the beginning and a key store with nothing pending, to the
  -- accounts, holds, deadlines and history that the event loop ended with.
  pub run_recovered :
      ((bytes : List ℕ) → crc bytes < 256 ^ 4)
      → (qs : List Request) (l : EventLoop L) (w : Wal) (keys : IdempotencyStore)
      → 161 ≤ w.segment_size
      → AreCounted L 0 (batches L qs l)
      → IsSettled keys
      → IsOrdered (queue_of l.accounts)
      → AreServed L qs l
      → (w' : Wal) × (keys' : IdempotencyStore) × (append_all crc (batches L qs l) (reset w)
          ≡ some (ok tt, w'))
        × (recover_segments crc
              (recover_record now)
              0
              (segments w')
              (record { accounts = l.accounts; keys = keys })
            ≡ (
              ok (segments w', w'.current_lsn, w'.current.id),
              record { accounts = (run L qs l).accounts; keys = keys' },
            ))
  run_recovered narrow qs l w keys room counted settled o v =
      let fits = batches-AreAppendable L w.segment_size 0 qs l room v counted in
      let all = run-replayed qs 0 l keys settled o v in
      let (w', appends, recovers) =
        appended_recovered crc narrow (recover_record now) (batches L qs l) w
          (record { accounts = l.accounts; keys = keys })
          (record { accounts = (run L qs l).accounts; keys = all.keys }) (omega arith) fits
          all.done in
      (w', all.keys, appends, recovers)
