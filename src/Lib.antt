-- ===== src/Lib.antt =====
-- A verification of aequitas-ledger, a double-entry ledger: amounts, accounts and payloads of
-- internal/core, the state machine of internal/engine with its ring buffer, the write-ahead log of
-- internal/wal with its recovery and its stream, the files of internal/snapshot, and the follower of
-- internal/replication with its terms.
--
-- The parts and how they interact. Requests pass the idempotency store and come through the ring, in
-- batches, to one event loop. The batch validator checks a batch against copies of the accounts, chain
-- by chain; what passes is written to the write-ahead log and then applied to the account manager,
-- which keeps the accounts, the open holds of two-phase transfers with their deadlines, and the
-- history. Recovery and followers apply the log by the same function `ApplyTransferState`. Recovery
-- starts from the latest snapshot, which holds the accounts and the open holds. A follower goes by
-- the term of the primary that it last accepted, and writes the records that it gets to a log of its
-- own before it applies them.
--
-- Files, by what they model:
--   Prelude           tests, lists, results, machine words, byte strings, maps, and `Exec`, the monad
--                     of calls that change a state and may fail (the state stays changed on failure)
--   Core/Uint128      internal/core/uint128.go; `Forms` has `FromString` and the binary form
--   Core/Errors       internal/core/errors.go
--   Core/Account      internal/core/account.go, balances and flags
--   Core/Transfer     internal/core/transfer.go and the transfer flags
--   Core/Codec        internal/core/codec.go
--   Engine/Accounts   internal/engine/accounts.go: `State` (fields, `Create`, `Get`), `Heap` (the
--                     queue of deadlines, by container/heap), `Rewrites` (what a write makes of an
--                     account), `Exec`, `Check` (`checkTransfer`), `Apply` (`ApplyTransferState`),
--                     `Expiry` (`CloseExpired`), `Queries`; `Ranks`, `Sifting`, `Order`, `Queued`,
--                     `Deadlines`, `Undue` and `Quiet` prove about the queue, and `Keeps` has a rule
--                     for what all methods keep
--   Engine/Idempotency  internal/engine/idempotency.go; `Between` has calls one after the other
--   Engine/Validator  internal/engine/transfers.go: `Staging` (`batchValidator`), `Step`
--                     (`validateAndApply`), `Batch` (`ValidateBatch`, `ApplyBatch`)
--   Engine/Loop       internal/engine/loop.go over any log: `processBatch`, `processAccountCreate`, reads;
--                     `Runs` has requests one after the other, `Replay`, `Restart` and `Overflows`
--                     prove
--   Engine/Recover    internal/engine/ledger.go: the handler of `RecoverFromSnapshot` and the loading of
--                     a snapshot in `NewLedger`
--   Engine/Ledger     internal/engine/ledger.go: `CreateTransfers`, `CreateTransfer`, `CreateAccounts`
--                     and `GetBalance`, with what the event loop answers as an argument
--   Engine/Ring       internal/engine/ring_buffer.go, and in `Interleavings` the steps of its threads
--   Wal/Records       internal/wal/record.go
--   Wal/Replay        internal/wal/recovery.go, `replaySegment`
--   Wal/Segments      internal/wal/segment.go
--   Wal/Writer        internal/wal/wal.go, but for the functions in `Recovery`; `Frames` has the loop
--                     of `writeBuffered` as one over frames
--   Wal/Recovery      internal/wal/recovery.go, `recoverSegments`; of internal/wal/wal.go
--                     `RecoverFromLSN`, `TruncateBefore` and the peek at a segment's tail. `Delivery`,
--                     `Written`, `Appended`, `Restart` and `Straddles` prove
--   Wal/Log           the operations of the log that the event loop calls, as an interface, and the log
--                     of `Writer` as one
--   Wal/Stream        internal/wal/stream.go; `Stale` proves
--   Snapshot          internal/snapshot/snapshot.go: `Write`, `Read`, `Latest`
--   Replication       internal/replication/term.go, and the terms in internal/replication/follower.go;
--                     `Stream` has what that file does with the records of a stream
--   The children named Tests have runs on small inputs.
--
-- How the code corresponds. Functions keep their names, in snake case. Byte arrays used as ids and
-- keys are numbers, as are uint64 words; an int64 is its bit pattern. A Go map is an association list
-- in which the newest binding comes first. A `*pendingEntry` is a position in `entries`, so that the
-- hold map and the expiry heap share entries as they do in the code; a `*Account` is its id, since the
-- slice of accounts is reached by the index alone. The doubly linked list of the idempotency store is
-- a list, most recent first. A call that fails returns its error with the state that it leaves;
-- in the log's writer a slice or an index out of bounds, where the code panics, is an error too, and
-- the ends of a batch's frames wrap as the int32 values that they are.
--
-- Bounds and fuel. Sifting in the heap has as fuel the number of entries, of which each step passes
-- one; `close_expired` has the number of queued entries, of which each round removes one;
-- `validate_from` has the length of the batch, in which each round goes forward; `chain_end` likewise;
-- `replay_segment` has a round more than there are bytes, and each round takes at least one.
-- `write_buffered` has two rounds for each frame and two more, and each round takes the end of a frame or
-- starts a segment that the frame fits into; `walk_frames` and `resync` have the number of bytes, and each round
-- passes one.
-- A round of `Next` in the stream takes a frame or a segment; its fuel is an argument.
-- A round of the follower's loop takes a frame of at least 25 bytes, of the bytes that a connection has.
-- The loop at the end of `Commit` need not end at all: `shrink` returns none when its fuel is spent,
-- and `commit` gives it one round more than there are entries.
--
-- Not modelled: metrics, the texts of errors (with the reason that a failed chain carries), channels,
-- locks and timers, files and system calls, and the network. hash/crc32 is a parameter, and so is the
-- handler of a replay. Writes and syncs of files succeed: direct input and output, short writes and
-- failing system calls are left out, and so is the signalling of arrivals at the ring; the event loop,
-- however, stands on any log, whose appends and syncs may fail. The calls of clients are steps, without
-- the path that they take when the ledger shuts down.
-- Of the follower, the loop that connects again after a failure, and of the primary, its side of the
-- connection, are left out.
-- The printing of numbers by math/big is left out.
pub mod Prelude
pub mod Core
pub mod Engine
pub mod Wal
pub mod Snapshot
pub mod Replication
