-- ===== src/Replication/Tests.antt =====
-- The theorems on the terms of internal/replication at concrete inputs, and a run of a follower.
use aequitas_ledger.Prelude.{
  ℕ, ◌≤◌, ◌≡◌, refl, arith, true, false, none, ok, err, List, [], ◌∷◌, ◌++◌, length,
}
use aequitas_ledger.Prelude.Bytes.{put_be, field, skip}
use aequitas_ledger.Wal.Log.{Log}
use aequitas_ledger.Wal.Records.{LogRecord, record_type_checkpoint, record_type_batch_commit}
use aequitas_ledger.Engine.Accounts.{new_account_manager}
use aequitas_ledger.Replication.Stream.{
  StreamFollower, stale, read_frame, apply_record, apply_records, persist, flush, buffer,
  commit_stream, receive, read_stream, sync_loop,
}
use aequitas_ledger.Replication.{
  Follower, TermFile, load_term, store_term, primary_term, bump_term, stale_primary, new_follower,
  handshake, accepts_frame,
}
use aequitas_ledger.Replication.Fencing.{
  restarts, here, next, new_follower-IsStored, old_term_fenced, promoted_not_above,
}

-- A primary's file of term 3, and a follower that has accepted term 4.
abbrev old_file : TermFile
old_file = store_term 3

abbrev moved : Follower
moved = record { last_term = 4; term_file = store_term 4 }

old_term_fenced_example :
    (handshake (primary_term old_file).0 (new_follower moved.term_file) ≡ err stale_primary)
    × (accepts_frame (primary_term old_file).0 (new_follower moved.term_file) ≡ false)
unfolding primary_term bump_term load_term store_term new_follower handshake put_be field
old_term_fenced_example =
    old_term_fenced old_file (new_follower none) moved (new_follower moved.term_file)
      (new_follower-IsStored none) (omega arith) refl (next here restarts)

abbrev joined : Follower
joined = record { last_term = 1; term_file = store_term 1 }

promoted_not_above_example :
    ((bump_term none).0 ≤ (primary_term none).0)
    × (accepts_frame (primary_term none).0 joined ≡ true)
    × (f : Follower) × (handshake (primary_term none).0 joined ≡ ok f)
unfolding primary_term bump_term load_term store_term new_follower handshake
promoted_not_above_example =
    promoted_not_above none (new_follower none) joined (new_follower-IsStored none) refl

-- A log of records, and the frames of a primary of term 4; the checksum is 0.
abbrev records_log : Log
records_log = record {
  State = List LogRecord;
  Fault = Unit;
  append = λ rs log. (ok (length rs), log ++ rs);
  sync = λ log. (ok tt, log);
  last = length;
}

abbrev sent : ℕ → ℕ → ℕ → List ℕ → List ℕ
sent term lsn kind payload =
    put_be 8 term
    ++ (put_be 8 lsn ++ (put_be 1 kind ++ (put_be 4 (length payload) ++ (payload ++ put_be 4 0))))

abbrev started : StreamFollower records_log
started = record {
  accounts = new_account_manager;
  local_wal = [];
  last_lsn = 0;
  terms = moved;
  primary_head = 0;
  pending = [];
}

abbrev data_frame : List ℕ
data_frame = sent 4 1 record_type_checkpoint (7 ∷ [])

abbrev commit_frame : List ℕ
commit_frame = sent 4 2 record_type_batch_commit []

-- The number that a connection reached, and how many records are in the follower's log.
abbrev seen : List ℕ → ℕ × ℕ
seen bytes =
    let f = (sync_loop records_log (λ bs. 0) (put_be 8 4 ++ bytes) started).2 in
    (f.last_lsn, length f.local_wal)

-- A batch counts once its commit has come, and a record that was sent already is passed over.
batch_applied :
    (seen (data_frame ++ commit_frame) ≡ (2, 1))
    × (seen data_frame ≡ (0, 0))
    × (seen (data_frame ++ (commit_frame ++ (data_frame ++ commit_frame))) ≡ (2, 1))
unfolding sync_loop handshake read_stream read_frame accepts_frame receive buffer commit_stream
    flush persist apply_records apply_record put_be field skip
batch_applied = (refl, refl, refl)

-- A frame of an older term ends the connection.
old_frame_refused :
    (sync_loop records_log
      (λ bs. 0)
      (put_be 8 4 ++ sent 3 1 record_type_checkpoint (7 ∷ []))
      started).1
    ≡ stale
unfolding sync_loop handshake read_stream read_frame accepts_frame put_be field skip
old_frame_refused = refl
