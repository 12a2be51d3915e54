-- ===== src/Engine/Loop/Runs.antt =====
-- Requests that the event loop of internal/engine/loop.go handles one after the other, and the replay
-- of what it has logged.
use aequitas_ledger.Prelude.{
  ℕ, ◌+◌, ◌^◌, ◌≤◌, ◌<◌, ◌≡◌, refl, arith, true, none, List, [], ◌∷◌, map, length, ok, some, Option,
  Bool-cases, inl, inr,
}
use aequitas_ledger.Prelude.Words.{signed_less}
use aequitas_ledger.Core.Account.{Account}
use aequitas_ledger.Core.Transfer.{Transfer}
use aequitas_ledger.Core.Errors.{LedgerError}
use aequitas_ledger.Core.Codec.{encode_transfer_payload, encode_account_payload}
use aequitas_ledger.Core.Codec.RoundTrip.{length-encode_transfer, length-encode_account}
use aequitas_ledger.Wal.Log.{Log}
use aequitas_ledger.Wal.Records.{LogRecord}
use aequitas_ledger.Wal.Recovery.Appended.{batch_bytes, AreAccepted}
use aequitas_ledger.Wal.Recovery.Restart.{AreAppendable}
use aequitas_ledger.Engine.Accounts.{AccountManager, create, queue_of, apply_transfer_state}
use aequitas_ledger.Engine.Accounts.Order.{IsOrdered}
use aequitas_ledger.Engine.Accounts.Deadlines.{IsCurrent, apply-IsOrdered, close_expired-IsCurrent}
use aequitas_ledger.Prelude.Maps.{contains}
use aequitas_ledger.Engine.Validator.{Outcome, validate_batch, apply_batch}
use aequitas_ledger.Engine.Loop.{
  EventLoop, stamp, next_clock, tick, make_wal_records, account_records, check_create, create_all,
  append_synced, log_records, process_batch, process_account_create,
}
use aequitas_ledger.Engine.Loop.Replay.{AreStamped, AreSizedAccounts}

-- A batch of transfers with the time at which it is processed, or a batch of accounts.
pub data Request : Type 0 where
  transfers : ℕ → List Transfer → Request
  accounts : List Account → Request

module _ (L : Log) where
  abbrev pub stamped : ℕ → List Transfer → EventLoop L → List Transfer
  stamped now ts l = map (stamp (next_clock now l.clock)) ts

  abbrev pub outcomes : ℕ → List Transfer → EventLoop L → List Outcome
  outcomes now ts l = validate_batch (stamped now ts l) (tick L now l).accounts

  -- The records that a request hands to the log.
  unfoldable pub logged : Request → EventLoop L → List LogRecord
  logged (transfers now ts) l = make_wal_records (stamped now ts l) (outcomes now ts l)
  logged (accounts batch) l = account_records L batch (map (check_create L l.accounts) batch)

  unfoldable pub handle : Request → EventLoop L → EventLoop L
  handle (transfers now ts) l = (process_batch L now ts l).1
  handle (accounts batch) l = (process_account_create L batch l).1

  log_records-accounts :
      (rs : List LogRecord) (l : EventLoop L) → (log_records L rs l).1.accounts ≡ l.accounts
  unfolding log_records append_synced
  log_records-accounts [] l = refl
  log_records-accounts (r ∷ rs) l = ground arith

  pub process_batch-accounts :
      (now : ℕ) (ts : List Transfer) (l : EventLoop L)
      → (log_records L (logged (transfers now ts) l) (tick L now l)).0 ≡ ok tt
      → (process_batch L now ts l).1.accounts
        ≡ (apply_batch (stamped now ts l) (outcomes now ts l) (tick L now l).accounts).1
  unfolding process_batch tick logged
  process_batch-accounts now ts l h = rw (process_batch, h, log_records-accounts) refl

  pub process_account_create-accounts :
      (batch : List Account) (l : EventLoop L)
      → (log_records L (logged (accounts batch) l) l).0 ≡ ok tt
      → (process_account_create L batch l).1.accounts
        ≡ (create_all L batch (map (check_create L l.accounts) batch) l.accounts).1
  unfolding process_account_create logged
  process_account_create-accounts batch l h =
      rw (process_account_create, h, log_records-accounts) refl

  unfoldable pub run : List Request → EventLoop L → EventLoop L
  run [] l = l
  run (q ∷ qs) l = run qs (handle q l)

  -- The batches of records that the log was handed.
  unfoldable pub batches : List Request → EventLoop L → List (List LogRecord)
  batches [] l = []
  batches (q ∷ qs) l = logged q l ∷ batches qs (handle q l)

  -- A batch of transfers that is written to the log and then applied as it was checked: its clock is
  -- after the book's, and its transfers fit into records and open no hold that is due at once.
  pub record IsApplied (now : ℕ) (ts : List Transfer) (l : EventLoop L) : Type 0 where
    pub later : signed_less l.accounts.clock (next_clock now l.clock) ≡ true
    pub stamps : AreStamped (next_clock now l.clock) (stamped now ts l)
    pub written : (log_records L (logged (transfers now ts) l) (tick L now l)).0 ≡ ok tt
    pub applied :
        (apply_batch (stamped now ts l) (outcomes now ts l) (tick L now l).accounts).0
        ≡ outcomes now ts l

  abbrev pub IsServed : Request → EventLoop L → Type 0
  IsServed (transfers now ts) l = IsApplied now ts l
  IsServed (accounts batch) l =
      AreSizedAccounts batch × ((log_records L (logged (accounts batch) l) l).0 ≡ ok tt)

  -- Every request is served, and has at least one record for the log.
  abbrev pub AreServed : List Request → EventLoop L → Type 0
  AreServed [] l = Unit
  AreServed (q ∷ qs) l = IsServed q l × (0 < length (logged q l)) × AreServed qs (handle q l)

  -- The numbers of the batches' records, and of a commit record after each batch, have 64 bits, and
  -- their counts 32; a batch has less than 2 GiB.
  abbrev pub AreCounted : ℕ → List (List LogRecord) → Type 0
  AreCounted lsn [] = Unit
  AreCounted lsn (b ∷ bs) =
      (length b < 256 ^ 4)
      × (lsn + length b + 1 < 256 ^ 8)
      × (batch_bytes b < 2 ^ 31)
      × AreCounted (lsn + length b + 1) bs

  make_wal_records-AreAccepted :
      (n : ℕ) (ts : List Transfer) (os : List Outcome)
      → 161 ≤ n
      → AreAccepted n (make_wal_records ts os)
  unfolding make_wal_records encode_transfer_payload
  make_wal_records-AreAccepted n [] os room = tt
  make_wal_records-AreAccepted n (t ∷ ts) [] room = tt
  make_wal_records-AreAccepted n (t ∷ ts) (some e ∷ os) room =
      make_wal_records-AreAccepted n ts os room
  make_wal_records-AreAccepted n (t ∷ ts) (none ∷ os) room = (
    record {
      kind = omega arith;
      known = omega arith;
      no_commit = refl;
      payload = omega (arith, length-encode_transfer t);
      room = omega (arith, length-encode_transfer t);
    },
    make_wal_records-AreAccepted n ts os room,
  )

  account_records-AreAccepted :
      (n : ℕ) (batch : List Account) (os : List (Option LedgerError))
      → 161 ≤ n
      → AreAccepted n (account_records L batch os)
  unfolding account_records encode_account_payload
  account_records-AreAccepted n [] os room = tt
  account_records-AreAccepted n (a ∷ rest) [] room = tt
  account_records-AreAccepted n (a ∷ rest) (some e ∷ os) room =
      account_records-AreAccepted n rest os room
  account_records-AreAccepted n (a ∷ rest) (none ∷ os) room = (
    record {
      kind = omega arith;
      known = omega arith;
      no_commit = refl;
      payload = omega (arith, length-encode_account a);
      room = omega (arith, length-encode_account a);
    },
    account_records-AreAccepted n rest os room,
  )

  logged-AreAccepted :
      (n : ℕ) (q : Request) (l : EventLoop L) → 161 ≤ n → AreAccepted n (logged q l)
  unfolding logged
  logged-AreAccepted n (transfers now ts) l room =
      make_wal_records-AreAccepted n (stamped now ts l) (outcomes now ts l) room
  logged-AreAccepted n (accounts batch) l room =
      account_records-AreAccepted n batch (map (check_create L l.accounts) batch) room

  pub batches-AreAppendable :
      (n lsn : ℕ) (qs : List Request) (l : EventLoop L)
      → 161 ≤ n
      → AreServed qs l
      → AreCounted lsn (batches qs l)
      → AreAppendable n lsn (batches qs l)
  unfolding batches
  batches-AreAppendable n lsn [] l room v counted = tt
  batches-AreAppendable n lsn (q ∷ qs) l room (v, some_logged, more) (few, below, short, others) = (
    some_logged,
    few,
    logged-AreAccepted n q l room,
    below,
    short,
    batches-AreAppendable n (lsn + length (logged q l) + 1) qs (handle q l) room more others,
  )

  abbrev pub Ordered : EventLoop L → Type 0
  Ordered l = IsOrdered (queue_of l.accounts)

  apply_batch-IsOrdered :
      (ts : List Transfer) (os : List Outcome) (m : AccountManager)
      → IsOrdered (queue_of m)
      → IsOrdered (queue_of (apply_batch ts os m).1)
  unfolding apply_batch
  apply_batch-IsOrdered [] os m o = o
  apply_batch-IsOrdered (t ∷ ts) [] m o = o
  apply_batch-IsOrdered (t ∷ ts) (some e ∷ os) m o = apply_batch-IsOrdered ts os m o
  apply_batch-IsOrdered (t ∷ ts) (none ∷ os) m o =
      apply_batch-IsOrdered ts os (apply_transfer_state t m).1 (apply-IsOrdered t m o)

  create-IsOrdered :
      (a : Account) (m : AccountManager)
      → IsOrdered (queue_of m)
      → IsOrdered (queue_of (create a m).1)
  unfolding create
  create-IsOrdered a m o = elim (Bool-cases (contains a.id m.index)) [
    | inl e ↦ rw (create, e) o
    | inr e ↦ rw (create, e) o
  ]

  create_all-IsOrdered :
      (batch : List Account) (os : List (Option LedgerError)) (m : AccountManager)
      → IsOrdered (queue_of m)
      → IsOrdered (queue_of (create_all L batch os m).1)
  unfolding create_all
  create_all-IsOrdered [] os m o = o
  create_all-IsOrdered (a ∷ rest) [] m o = o
  create_all-IsOrdered (a ∷ rest) (some e ∷ os) m o = create_all-IsOrdered rest os m o
  create_all-IsOrdered (a ∷ rest) (none ∷ os) m o =
      create_all-IsOrdered rest os (create a m).1 (create-IsOrdered a m o)

  pub tick-IsCurrent :
      (now : ℕ) (l : EventLoop L)
      → Ordered l
      → IsCurrent (next_clock now l.clock) (tick L now l).accounts
  unfolding tick
  tick-IsCurrent now l o = close_expired-IsCurrent (next_clock now l.clock) l.accounts o

  pub handle-Ordered :
      (q : Request) (l : EventLoop L) → IsServed q l → Ordered l → Ordered (handle q l)
  unfolding handle
  handle-Ordered (transfers now ts) l v o = rw (process_batch-accounts now ts l v.written) (
      apply_batch-IsOrdered (stamped now ts l) (outcomes now ts l) (tick L now l).accounts
        (tick-IsCurrent now l o).ordered)
  handle-Ordered (accounts batch) l v o =
      rw (process_account_create-accounts batch l v.1)
        (create_all-IsOrdered batch (map (check_create L l.accounts) batch) l.accounts o)
