-- ===== src/Wal.antt =====
-- internal/wal: the write-ahead log. `Records` has its frames, `Replay` the replay of one segment,
-- `Segments` and `Writer` its files and what is appended to them, `Recovery` the replay of all, `Log` what
-- the engine calls of it, and `Stream` what is sent to replicas.
pub mod Records
pub mod Replay
pub mod Segments
pub mod Writer
pub mod Recovery
pub mod Log
pub mod Stream
mod Tests
