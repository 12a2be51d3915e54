-- ===== src/Wal/Records/RoundTrip.antt =====
-- Frames of internal/wal/record.go are decoded to the records that they were made from.
use mathlib.Core.List.{append_assoc}
use aequitas_ledger.Prelude.{
  ℕ, ◌+◌, ◌<◌, ◌^◌, ◌≡◌, arith, List, [], ◌++◌, length, length-append, take, take-append,
  drop-append, ok, ◌>>=◌,
}
use aequitas_ledger.Prelude.Bytes.{put_be, field, skip, length-put_be, field-put_be, skip-put_be}
use aequitas_ledger.Wal.Records.{
  LogRecord, frame_body, frame, append_frame, encode_record, decode_record,
}

-- The fields lie in the ranges of their Go types, the type is not 0, and the payload's length is a
-- 32-bit number.
pub record IsSizedRecord (r : LogRecord) : Type 0 where
  pub lsn : r.lsn < 256 ^ 8
  pub kind : r.kind < 256 ^ 1
  pub known : 0 < r.kind
  pub payload : length r.payload < 256 ^ 4

ruleset frame_sizes = (length-append, length-put_be)

length-frame_body : (r : LogRecord) → length (frame_body r) ≡ 13 + length r.payload
unfolding frame_body
length-frame_body r = omega (
  arith,
  length-append (put_be 8 r.lsn) (put_be 1 r.kind ++ (put_be 4 (length r.payload) ++ r.payload)),
  length-append (put_be 1 r.kind) (put_be 4 (length r.payload) ++ r.payload),
  length-append (put_be 4 (length r.payload)) r.payload,
  length-put_be 8 r.lsn,
  length-put_be 1 r.kind,
  length-put_be 4 (length r.payload),
)

-- The parts of a frame body that is followed by anything.
module _ (r : LogRecord) (s : IsSizedRecord r) (rest : List ℕ) where
  frame_parts :
      frame_body r ++ rest
      ≡ put_be 8 r.lsn ++ (put_be 1 r.kind ++ (put_be 4 (length r.payload) ++ (r.payload ++ rest)))
  unfolding frame_body
  frame_parts = simp append_assoc

  lsn_part : field 8 (frame_body r ++ rest) ≡ r.lsn
  lsn_part = rw frame_parts (field-put_be 8 r.lsn s.lsn _)

  kind_part : field 1 (skip 8 (frame_body r ++ rest)) ≡ r.kind
  kind_part = rw (frame_parts, skip-put_be) (field-put_be 1 r.kind s.kind _)

  pub size_part : field 4 (skip 1 (skip 8 (frame_body r ++ rest))) ≡ length r.payload
  size_part =
      rw (frame_parts, skip-put_be, skip-put_be) (field-put_be 4 (length r.payload) s.payload _)

  payload_part :
      take (length r.payload) (skip 4 (skip 1 (skip 8 (frame_body r ++ rest)))) ≡ r.payload
  payload_part =
      rw (frame_parts, skip-put_be, skip-put_be, skip-put_be) (take-append r.payload rest)

  body_part : take (13 + length r.payload) (frame_body r ++ rest) ≡ frame_body r
  body_part = rw (← length-frame_body r) (take-append (frame_body r) rest)

  rest_part : skip (13 + length r.payload) (frame_body r ++ rest) ≡ rest
  unfolding skip
  rest_part = rw (← length-frame_body r) (drop-append (frame_body r) rest)

module _ (crc : List ℕ → ℕ) (narrow : (bytes : List ℕ) → crc bytes < 256 ^ 4) (r : LogRecord)
    (s : IsSizedRecord r) where
  abbrev check : List ℕ
  check = put_be 4 (crc (frame_body r)) ++ []

  pub length-checked : length (frame_body r ++ check) ≡ 13 + length r.payload + 4
  length-checked = omega (
    arith,
    length-append (frame_body r) check,
    length-append (put_be 4 (crc (frame_body r))) [],
    length-put_be 4 (crc (frame_body r)),
    length-frame_body r,
  )

  pub decode-frame : decode_record crc (frame crc r) ≡ ok r
  unfolding decode_record frame
  decode-frame =
      rw
        (
          lsn_part r s check,
          kind_part r s check,
          size_part r s check,
          payload_part r s check,
          body_part r s check,
          rest_part r s check,
          field-put_be 4 (crc (frame_body r)) (narrow (frame_body r)) [],
          length-checked,
        )
        (ground (arith, s.known))

  -- With a checksum of 32 bits: a record whose fields lie in their ranges and whose type is not 0 is
  -- encoded, and the frame is decoded to it.
  pub decode-encode_record : (encode_record crc r >>= decode_record crc) ≡ ok r
  unfolding encode_record append_frame
  decode-encode_record = ground (arith, decode-frame, s.known, s.payload)
