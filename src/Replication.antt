-- ===== src/Replication.antt =====
-- internal/replication: the terms that fence stale primaries (term.go, and the handshake of
-- follower.go), and in `Stream` the rest of follower.go. A term's file is none, or its bytes; it is
-- written as a whole.
pub mod Fencing
pub mod Stream
mod Tests
use aequitas_ledger.Prelude.{
  ℕ, ◌+◌, ◌%◌, Bool, not, ltb, ◌!=◌, ◌&&◌, List, length, Option, none, some, Result, ok, err,
  if◌then◌else◌,
}
use aequitas_ledger.Prelude.Words.{word}
use aequitas_ledger.Prelude.Bytes.{put_be, field}

abbrev pub TermFile : Type 0
TermFile = Option (List ℕ)

-- `loadTermUint`
unfoldable pub load_term : TermFile → ℕ
load_term none = 0
load_term (some bytes) = if length bytes != 8 then 0 else field 8 bytes

-- `storeTermUint`
unfoldable pub store_term : ℕ → TermFile
store_term term = some (put_be 8 term)

-- `PrimaryTerm`, with the file that it leaves
unfoldable pub primary_term : TermFile → ℕ × TermFile
unfolding load_term store_term
primary_term file = if ltb 0 (load_term file) then (load_term file, file) else (1, store_term 1)

-- `BumpTerm`
unfoldable pub bump_term : TermFile → ℕ × TermFile
unfolding load_term store_term
bump_term file = let term = (load_term file + 1) % word in (term, store_term term)

pub data StreamError : Type 0 where
  stale_primary : StreamError

-- What a follower knows of terms.
pub record Follower : Type 0 where
  pub last_term : ℕ
  pub term_file : TermFile

-- `NewFollower`
unfoldable pub new_follower : TermFile → Follower
unfolding load_term
new_follower file = record { last_term = load_term file; term_file = file }

-- The handshake in `syncLoop`, with the term that the primary sent.
unfoldable pub handshake : ℕ → Follower → Result StreamError Follower
unfolding store_term
handshake term f =
    if f.last_term != 0 && ltb term f.last_term
    then err stale_primary
    else if ltb f.last_term term
    then ok (record { last_term = term; term_file = store_term term })
    else ok f

-- Whether `syncLoop` goes on after a frame's term.
unfoldable pub accepts_frame : ℕ → Follower → Bool
accepts_frame term f = not (ltb term f.last_term)
