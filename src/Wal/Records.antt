-- ===== src/Wal/Records.antt =====
-- internal/wal/record.go: the frames of the write-ahead log. The checksum is hash/crc32, of which
-- only its range is used: 32 bits.
pub mod RoundTrip
use aequitas_ledger.Prelude.{
  ℕ, ◌+◌, List, [], ◌++◌, length, take, Bool, ltb, ◌==◌, ◌!=◌, Result, ok, err, ◌>>=◌, ◌>>◌,
  fail_if, if◌then◌else◌,
}
use aequitas_ledger.Prelude.Bytes.{put_be, field, skip}

pub data RecordError : Type 0 where
  corrupted payload_too_large invalid_record_type : RecordError

abbrev pub record_header_size : ℕ
record_header_size = 13

abbrev pub record_crc_size : ℕ
record_crc_size = 4

abbrev pub record_type_transfer : ℕ
record_type_transfer = 1

abbrev pub record_type_account : ℕ
record_type_account = 2

abbrev pub record_type_checkpoint : ℕ
record_type_checkpoint = 3

abbrev pub record_type_batch_commit : ℕ
record_type_batch_commit = 4

abbrev pub record_type_head : ℕ
record_type_head = 5

pub record LogRecord : Type 0 where
  pub lsn : ℕ
  pub kind : ℕ
  pub payload : List ℕ

-- `[LSN:8|type:1|len:4|payload]`, the part of a frame that the checksum covers.
unfoldable pub frame_body : LogRecord → List ℕ
frame_body r = put_be 8 r.lsn ++ (put_be 1 r.kind ++ (put_be 4 (length r.payload) ++ r.payload))

module _ (crc : List ℕ → ℕ) where
  unfoldable pub frame : LogRecord → List ℕ
  unfolding frame_body
  frame r = frame_body r ++ (put_be 4 (crc (frame_body r)) ++ [])

  unfoldable pub append_frame : List ℕ → LogRecord → Result RecordError (List ℕ)
  append_frame dst r = do
    fail_if (r.kind == 0) invalid_record_type
    fail_if (ltb 4_294_967_295 (length r.payload)) payload_too_large
    ok (dst ++ frame r)

  unfoldable pub encode_record : LogRecord → Result RecordError (List ℕ)
  unfolding append_frame
  encode_record r = append_frame [] r

  -- The marker of a batch's end.
  unfoldable pub append_commit_frame : List ℕ → ℕ → ℕ → List ℕ
  append_commit_frame dst commit_lsn count =
      dst
      ++ frame (record {
        lsn = commit_lsn;
        kind = record_type_batch_commit;
        payload = put_be 8 commit_lsn ++ (put_be 4 count ++ []);
      })

  -- The fixed offsets are reached field by field.
  unfoldable pub decode_record : List ℕ → Result RecordError LogRecord
  decode_record bytes =
      let at_kind = skip 8 bytes in
      let at_size = skip 1 at_kind in
      let size = field 4 at_size in
      do
        fail_if (ltb (length bytes) (record_header_size + record_crc_size)) corrupted
        fail_if (field 1 at_kind == 0) corrupted
        fail_if (length bytes != record_header_size + size + record_crc_size) corrupted
        fail_if
            (crc (take (record_header_size + size) bytes)
              != field 4 (skip (record_header_size + size) bytes))
            corrupted
        ok (record {
          lsn = field 8 bytes;
          kind = field 1 at_kind;
          payload = take size (skip 4 at_size);
        })
