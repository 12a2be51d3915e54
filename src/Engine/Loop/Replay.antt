-- ===== src/Engine/Loop/Replay.antt =====
-- The replay of internal/engine/ledger.go makes of the records of one batch of internal/engine/loop.go
-- what the event loop made of the batch.
use mathlib.Core.Path.{subst}
use aequitas_ledger.Prelude.{
  ℕ, ◌+◌, ◌<◌, length, Option, ◌≡◌, refl, ap, ◌∙◌, arith, true, none, some, List, [], ◌∷◌, ok, err,
  Result, inl, inr, Result-cases, if◌then◌else◌,
}
use aequitas_ledger.Prelude.Words.{signed_less}
use aequitas_ledger.Core.Errors.{LedgerError}
use aequitas_ledger.Core.Account.{Account}
use aequitas_ledger.Core.Transfer.{Transfer}
use aequitas_ledger.Core.Codec.RoundTrip.{IsSized, IsSizedAccount}
use aequitas_ledger.Wal.Records.{LogRecord}
use aequitas_ledger.Wal.Replay.{handle_all}
use aequitas_ledger.Wal.Recovery.Appended.{numbered}
use aequitas_ledger.Engine.Accounts.{AccountManager, create, apply_transfer_state}
use aequitas_ledger.Engine.Accounts.Quiet.{IsQuiet, outlives, apply-IsQuiet, close_expired-IsQuiet}
use aequitas_ledger.Engine.Idempotency.{IdempotencyStore}
use aequitas_ledger.Engine.Validator.{Outcome, apply_batch}
use aequitas_ledger.Engine.Loop.{make_wal_records, account_records, create_all}
use aequitas_ledger.Engine.Recover.{Recovered, RecoveryError, recover_record, replay_clock}
use aequitas_ledger.Engine.Recover.Keys.{IsSettled}
use aequitas_ledger.Engine.Recover.Records.{recover_created, recover_applied}
use aequitas_ledger.Wal.Log.{Log}

-- The first transfer is applied, and the others as they are from there.
record AppliesFirst (t : Transfer) (ts : List Transfer) (os : List Outcome) (m : AccountManager)
    : Type 0 where
  after : AccountManager
  applied : apply_transfer_state t m ≡ (ok tt, after)
  others : (apply_batch ts os after).0 ≡ os
  same : (apply_batch (t ∷ ts) (none ∷ os) m).1 ≡ (apply_batch ts os after).1

apply_batch-first :
    (t : Transfer) (ts : List Transfer) (os : List Outcome) (m : AccountManager)
    → (apply_batch (t ∷ ts) (none ∷ os) m).0 ≡ none ∷ os
    → AppliesFirst t ts os m
unfolding apply_batch
apply_batch-first t ts os m h =
    let (r, after) = apply_transfer_state t m in
    elim (Result-cases r) [
      | inr (e, q) ↦ absurd (ground arith)
      | inl (u, q) ↦ record {
        after = after;
        applied = ap (λ x. (x, after)) q;
        others = ground arith;
        same = refl;
      }
    ]

-- A stamped transfer whose fields fit into a record and whose hold, if it has one, lasts.
pub record IsStamped (c : ℕ) (t : Transfer) : Type 0 where
  pub time : t.timestamp ≡ c
  pub sized : IsSized t
  pub lasts : outlives c t ≡ true

abbrev pub AreStamped : ℕ → List Transfer → Type 0
AreStamped c [] = Unit
AreStamped c (t ∷ ts) = IsStamped c t × AreStamped c ts

abbrev pub AreSizedAccounts : List Account → Type 0
AreSizedAccounts [] = Unit
AreSizedAccounts (a ∷ rest) = IsSizedAccount a × AreSizedAccounts rest

module _ (crc : List ℕ → ℕ) (now : LogRecord → ℕ) where
  abbrev pub replay : List LogRecord → Recovered → Result RecoveryError (Unit {0}) × Recovered
  replay = handle_all crc (recover_record now)

  pub replay-cons :
      (r : LogRecord) (rs : List LogRecord) (s s' : Recovered)
      → recover_record now r s ≡ (ok tt, s')
      → replay (r ∷ rs) s ≡ replay rs s'
  unfolding handle_all
  replay-cons r rs s s' h =
      ap
        (λ (x : Result RecoveryError (Unit {0}) × Recovered).
          elim x.0 as (λ y. Result RecoveryError (Unit {0}) × Recovered) [
            | err e ↦ (err e, x.1)
            | ok u ↦ replay rs x.1
          ])
        h

  replay_clock-IsQuiet : (c : ℕ) (m : AccountManager) → IsQuiet c m → replay_clock c m ≡ m
  unfolding replay_clock
  replay_clock-IsQuiet c m v =
      let now : (if signed_less m.clock c then c else m.clock) ≡ c = ground (arith, v.time) in
      rw (replay_clock, now) (close_expired-IsQuiet c m v)

  -- The replay ends with these accounts.
  pub record Replays (records : List LogRecord) (s : Recovered) (m : AccountManager) : Type 0 where
    pub keys : IdempotencyStore
    pub done : replay records s ≡ (ok tt, record { accounts = m; keys = keys })
    pub settled : IsSettled keys

  -- After the first record, the accounts are where the event loop had them, and nothing is due.
  record Stepped (c lsn : ℕ) (t : Transfer) (ts : List Transfer) (os : List Outcome) (s : Recovered)
      (m : AccountManager) : Type 0 where
    state : Recovered
    done :
        replay (numbered lsn (make_wal_records (t ∷ ts) (none ∷ os))) s
        ≡ replay (numbered (lsn + 1) (make_wal_records ts os)) state
    quiet : IsQuiet c state.accounts
    settled : IsSettled state.keys
    others : (apply_batch ts os state.accounts).0 ≡ os
    same : (apply_batch (t ∷ ts) (none ∷ os) m).1 ≡ (apply_batch ts os state.accounts).1

  replay-step :
      (c lsn : ℕ) (t : Transfer) (ts : List Transfer) (os : List Outcome) (s : Recovered)
      (m : AccountManager)
      → replay_clock c s.accounts ≡ m
      → IsQuiet c m
      → IsSettled s.keys
      → IsStamped c t
      → (apply_batch (t ∷ ts) (none ∷ os) m).0 ≡ none ∷ os
      → Stepped c lsn t ts os s m
  unfolding make_wal_records
  replay-step c lsn t ts os s m ticked v settled p h =
      let first = apply_batch-first t ts os m h in
      let (keys, done, settled') =
        recover_applied now (lsn + 1) t s m first.after p.sized settled (rw p.time ticked)
          first.applied in
      let state : Recovered = record { accounts = first.after; keys = keys } in
      record {
        state = state;
        done = replay-cons _ (numbered (lsn + 1) (make_wal_records ts os)) s state done;
        quiet =
            subst (λ (x : Result LedgerError (Unit {0}) × AccountManager). IsQuiet c x.1)
              first.applied (apply-IsQuiet c t m p.lasts v);
        settled = settled';
        others = first.others;
        same = first.same;
      }

  apply_batch-refused :
      (t : Transfer) (ts : List Transfer) (e : LedgerError) (os : List Outcome) (m : AccountManager)
      → (apply_batch (t ∷ ts) (some e ∷ os) m).0 ≡ some e ∷ os
      → (apply_batch ts os m).0 ≡ os
  unfolding apply_batch
  apply_batch-refused t ts e os m h = ground arith

  replay-more :
      (c lsn : ℕ) (ts : List Transfer) (os : List Outcome) (s : Recovered)
      → IsQuiet c s.accounts
      → IsSettled s.keys
      → AreStamped c ts
      → (apply_batch ts os s.accounts).0 ≡ os
      → Replays (numbered lsn (make_wal_records ts os)) s (apply_batch ts os s.accounts).1
  unfolding make_wal_records apply_batch handle_all
  replay-more c lsn [] os s v settled p h = record { keys = s.keys; done = refl; settled = settled }
  replay-more c lsn (t ∷ ts) [] s v settled p h = record {
    keys = s.keys;
    done = refl;
    settled = settled;
  }
  replay-more c lsn (t ∷ ts) (some e ∷ os) s v settled (p, more) h =
      replay-more c lsn ts os s v settled more (apply_batch-refused t ts e os s.accounts h)
  replay-more c lsn (t ∷ ts) (none ∷ os) s v settled (p, more) h =
      let step =
        replay-step c lsn t ts os s s.accounts (replay_clock-IsQuiet c s.accounts v) v settled p
          h in
      let rest =
        replay-more c (lsn + 1) ts os step.state step.quiet step.settled more step.others in
      rw step.same
        (record { keys = rest.keys; done = step.done ∙ rest.done; settled = rest.settled })

  -- The replay of a batch's records, at least one, from accounts that the batch's clock had brought
  -- to a quiet moment.
  pub replay-transfers :
      (c lsn : ℕ) (ts : List Transfer) (os : List Outcome) (s : Recovered) (m : AccountManager)
      → replay_clock c s.accounts ≡ m
      → IsQuiet c m
      → IsSettled s.keys
      → AreStamped c ts
      → (apply_batch ts os m).0 ≡ os
      → 0 < length (make_wal_records ts os)
      → Replays (numbered lsn (make_wal_records ts os)) s (apply_batch ts os m).1
  unfolding make_wal_records apply_batch
  replay-transfers c lsn [] os s m ticked v settled p h some_logged = absurd (omega arith)
  replay-transfers c lsn (t ∷ ts) [] s m ticked v settled p h some_logged = absurd (omega arith)
  replay-transfers c lsn (t ∷ ts) (some e ∷ os) s m ticked v settled (p, more) h some_logged =
      replay-transfers c lsn ts os s m ticked v settled more (apply_batch-refused t ts e os m h)
        some_logged
  replay-transfers c lsn (t ∷ ts) (none ∷ os) s m ticked v settled (p, more) h some_logged =
      let step = replay-step c lsn t ts os s m ticked v settled p h in
      let rest =
        replay-more c (lsn + 1) ts os step.state step.quiet step.settled more step.others in
      rw step.same
        (record { keys = rest.keys; done = step.done ∙ rest.done; settled = rest.settled })

  -- The replay of the records of a batch of accounts creates the same accounts, whichever of them
  -- come twice.
  pub replay-accounts :
      (L : Log) (lsn : ℕ) (batch : List Account) (os : List (Option LedgerError)) (s : Recovered)
      → AreSizedAccounts batch
      → replay (numbered lsn (account_records L batch os)) s
        ≡ (ok tt, record s { accounts = (create_all L batch os s.accounts).1 })
  unfolding account_records create_all handle_all
  replay-accounts L lsn [] os s v = refl
  replay-accounts L lsn (a ∷ rest) [] s v = refl
  replay-accounts L lsn (a ∷ rest) (some e ∷ os) s (v, more) = replay-accounts L lsn rest os s more
  replay-accounts L lsn (a ∷ rest) (none ∷ os) s (v, more) =
      let s₁ = record s { accounts = (create a s.accounts).1 } in
      replay-cons _ (numbered (lsn + 1) (account_records L rest os)) s s₁
        (recover_created now (lsn + 1) a s v)
      ∙ replay-accounts L (lsn + 1) rest os s₁ more
