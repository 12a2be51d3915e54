-- ===== src/Snapshot.antt =====
-- internal/snapshot/snapshot.go: the file format of snapshots, `Write` and `Read`. A file is its
-- bytes. The checksum is hash/crc32, of which only its range is used.
pub mod RoundTrip
pub mod Latest
mod Tests
use aequitas_ledger.Prelude.{
  ℕ, zero, suc, ◌+◌, ◌-◌, ◌*◌, ◌%◌, List, [], ◌∷◌, ◌++◌, length, take, Bool, true, false, Option,
  none, some, ◌&&◌, ◌==◌, if◌then◌else◌, ltb, leb, ◌!=◌, Result, ok, err, ◌>>=◌, ◌>>◌, fail_if,
}
use aequitas_ledger.Prelude.Words.{word}
use aequitas_ledger.Prelude.Bytes.{put_be, field, skip}
use aequitas_ledger.Core.Account.{Account}
use aequitas_ledger.Core.Transfer.{Transfer}
use aequitas_ledger.Core.Codec.{
  PayloadError, transfer_payload_size, encode_account_payload, decode_account_payload,
  encode_transfer_payload, decode_transfer_payload,
}

-- `slice_too_long` is Go's panic in `make`.
pub data SnapshotError : Type 0 where
  invalid_snapshot_magic snapshot_corrupted invalid_snapshot_size slice_too_long : SnapshotError
  payload : PayloadError → SnapshotError

-- `LEDGER03`, as the number that its bytes spell.
abbrev pub magic_header : ℕ
magic_header = 5_495_873_993_171_939_379

abbrev pub account_size : ℕ
account_size = 128

unfoldable pub account_payloads : List Account → List ℕ
account_payloads [] = []
account_payloads (a ∷ rest) = encode_account_payload a ++ account_payloads rest

unfoldable pub transfer_payloads : List Transfer → List ℕ
transfer_payloads [] = []
transfer_payloads (t ∷ rest) = encode_transfer_payload t ++ transfer_payloads rest

-- What the checksum covers.
unfoldable pub snapshot_content : ℕ → List Account → List Transfer → List ℕ
snapshot_content lsn accounts pendings =
    put_be 8 magic_header
    ++ (put_be 8 lsn
        ++ (put_be 8 (length accounts)
            ++ (account_payloads accounts
                ++ (put_be 8 (length pendings) ++ transfer_payloads pendings))))

abbrev or_payload : {A : Type 0} → Result PayloadError A → Result SnapshotError A
or_payload (ok a) = ok a
or_payload (err e) = err (payload e)

unfoldable pub read_accounts : ℕ → List ℕ → Result SnapshotError (List Account)
read_accounts zero bytes = ok []
read_accounts (suc n) bytes = do
  a ← or_payload (decode_account_payload (take account_size bytes))
  rest ← read_accounts n (skip account_size bytes)
  ok (a ∷ rest)

unfoldable pub read_transfers : ℕ → List ℕ → Result SnapshotError (List Transfer)
read_transfers zero bytes = ok []
read_transfers (suc n) bytes = do
  t ← or_payload (decode_transfer_payload (take transfer_payload_size bytes))
  rest ← read_transfers n (skip transfer_payload_size bytes)
  ok (t ∷ rest)

-- A `.snap` file: the sequence number in its name, and its bytes.
pub record SnapFile : Type 0 where
  pub lsn : ℕ
  pub bytes : List ℕ

module _ (crc : List ℕ → ℕ) where
  -- `Write`
  unfoldable pub write_snapshot : ℕ → List Account → List Transfer → List ℕ
  unfolding snapshot_content
  write_snapshot lsn accounts pendings =
      let content = snapshot_content lsn accounts pendings in
      content ++ (put_be 4 (crc content) ++ [])

  -- `Read`: the counts are 64-bit numbers, and the offsets wrap.
  unfoldable pub read_snapshot : List ℕ → Result SnapshotError (List Account × List Transfer × ℕ)
  unfolding read_accounts read_transfers
  read_snapshot bytes =
      let end = length bytes - 4 in
      let count = field 8 (skip 8 (skip 8 bytes)) in
      let pend_count_off = (24 + count * account_size) % word in
      let pending_count = field 8 (skip pend_count_off bytes) in
      let pend_off = (pend_count_off + 8) % word in
      let expected = (pend_off + pending_count * transfer_payload_size) % word in
      do
        fail_if (ltb (length bytes) 36) invalid_snapshot_size
        fail_if (field 4 (skip end bytes) != crc (take end bytes)) snapshot_corrupted
        fail_if (field 8 bytes != magic_header) invalid_snapshot_magic
        fail_if (ltb end pend_off) invalid_snapshot_size
        fail_if (end != expected) invalid_snapshot_size
        fail_if (leb word (24 + count * account_size)) slice_too_long
        accounts ← read_accounts count (skip 8 (skip 8 (skip 8 bytes)))
        fail_if (leb word (pend_off + pending_count * transfer_payload_size)) slice_too_long
        pendings ← read_transfers pending_count (skip pend_off bytes)
        ok (accounts, pendings, field 8 (skip 8 bytes))

  -- Whether `Read` accepts the file with the number of its name.
  unfoldable pub is_valid : SnapFile → Bool
  unfolding read_snapshot
  is_valid f = elim (read_snapshot f.bytes) [
    | err e ↦ false
    | ok (accounts, pendings, lsn) ↦ lsn == f.lsn
  ]

  abbrev pub is_later : SnapFile → Option SnapFile → Bool
  is_later f none = true
  is_later f (some best) = ltb best.lsn f.lsn

  -- The loop in `Latest`, over the files of the directory. Numbers in names are not negative.
  unfoldable pub latest_from : Option SnapFile → List SnapFile → Option SnapFile
  unfolding is_valid
  latest_from best [] = best
  latest_from best (f ∷ files) =
      latest_from (if is_later f best && is_valid f then some f else best) files

  unfoldable pub latest : List SnapFile → Option SnapFile
  unfolding latest_from
  latest files = latest_from none files
