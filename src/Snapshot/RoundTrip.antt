-- ===== src/Snapshot/RoundTrip.antt =====
-- A snapshot of internal/snapshot/snapshot.go is read back.
use mathlib.Core.List.{append_assoc}
use aequitas_ledger.Prelude.{
  ℕ, ◌+◌, ◌-◌, ◌*◌, ◌%◌, ◌^◌, ◌<◌, ◌≡◌, refl, sym, ap, arith, false, List, [], ◌∷◌, ◌++◌, length,
  length-append, take, take-append, ltb, leb, ◌!=◌, ok,
}
use aequitas_ledger.Prelude.Words.{word}
use aequitas_ledger.Prelude.Bytes.{
  put_be, field, skip, length-put_be, field-put_be, skip-put_be, skip-prefix, take-prefix,
}
use aequitas_ledger.Core.Account.{Account}
use aequitas_ledger.Core.Transfer.{Transfer}
use aequitas_ledger.Core.Codec.{encode_account_payload, encode_transfer_payload}
use aequitas_ledger.Core.Codec.RoundTrip.{
  IsSized, IsSizedAccount, decode-encode_account, decode-encode_transfer, length-encode_account,
  length-encode_transfer,
}
use aequitas_ledger.Snapshot.{
  magic_header, account_payloads, transfer_payloads, snapshot_content, read_accounts,
  read_transfers, write_snapshot, read_snapshot,
}

abbrev pub AreSizedAccounts : List Account → Type 0
AreSizedAccounts [] = Unit
AreSizedAccounts (a ∷ rest) = IsSizedAccount a × AreSizedAccounts rest

abbrev pub AreSizedTransfers : List Transfer → Type 0
AreSizedTransfers [] = Unit
AreSizedTransfers (t ∷ rest) = IsSized t × AreSizedTransfers rest

length-account_payloads : (xs : List Account) → length (account_payloads xs) ≡ length xs * 128
unfolding account_payloads
length-account_payloads [] = refl
length-account_payloads (a ∷ xs) = omega (
  arith,
  length-append (encode_account_payload a) (account_payloads xs),
  length-encode_account a,
  length-account_payloads xs,
)

length-transfer_payloads : (xs : List Transfer) → length (transfer_payloads xs) ≡ length xs * 144
unfolding transfer_payloads
length-transfer_payloads [] = refl
length-transfer_payloads (t ∷ xs) = omega (
  arith,
  length-append (encode_transfer_payload t) (transfer_payloads xs),
  length-encode_transfer t,
  length-transfer_payloads xs,
)

read_accounts-payloads :
    (xs : List Account) (tail : List ℕ)
    → AreSizedAccounts xs
    → read_accounts (length xs) (account_payloads xs ++ tail) ≡ ok xs
unfolding read_accounts account_payloads
read_accounts-payloads [] tail v = refl
read_accounts-payloads (a ∷ xs) tail (sized, more) =
    let rest = account_payloads xs ++ tail in
    rw
      (
        append_assoc (encode_account_payload a) (account_payloads xs) tail,
        take-prefix 128 (encode_account_payload a) rest (length-encode_account a),
        skip-prefix 128 (encode_account_payload a) rest (length-encode_account a),
        decode-encode_account a sized,
        read_accounts-payloads xs tail more,
      )
      refl

read_transfers-payloads :
    (xs : List Transfer) (tail : List ℕ)
    → AreSizedTransfers xs
    → read_transfers (length xs) (transfer_payloads xs ++ tail) ≡ ok xs
unfolding read_transfers transfer_payloads
read_transfers-payloads [] tail v = refl
read_transfers-payloads (t ∷ xs) tail (sized, more) =
    let rest = transfer_payloads xs ++ tail in
    rw
      (
        append_assoc (encode_transfer_payload t) (transfer_payloads xs) tail,
        take-prefix 144 (encode_transfer_payload t) rest (length-encode_transfer t),
        skip-prefix 144 (encode_transfer_payload t) rest (length-encode_transfer t),
        decode-encode_transfer t sized,
        read_transfers-payloads xs tail more,
      )
      refl

-- The parts of a file whose content is followed by anything.
module _ (lsn : ℕ) (accounts : List Account) (pendings : List Transfer) (tail : List ℕ) where
  abbrev after_counts : List ℕ
  after_counts = put_be 8 (length pendings) ++ (transfer_payloads pendings ++ tail)

  parts :
      snapshot_content lsn accounts pendings ++ tail
      ≡ put_be 8 magic_header
        ++ (put_be 8 lsn
            ++ (put_be 8 (length accounts) ++ (account_payloads accounts ++ after_counts)))
  unfolding snapshot_content
  parts = simp append_assoc

  abbrev to_counts : List ℕ
  to_counts =
      put_be 8 magic_header
      ++ (put_be 8 lsn ++ (put_be 8 (length accounts) ++ account_payloads accounts))

  regrouped : snapshot_content lsn accounts pendings ++ tail ≡ to_counts ++ after_counts
  unfolding snapshot_content
  regrouped = simp append_assoc

  length-to_counts : length to_counts ≡ 24 + length accounts * 128
  length-to_counts = omega (
    arith,
    length-append (put_be 8 magic_header)
        (put_be 8 lsn ++ (put_be 8 (length accounts) ++ account_payloads accounts)),
    length-append (put_be 8 lsn) (put_be 8 (length accounts) ++ account_payloads accounts),
    length-append (put_be 8 (length accounts)) (account_payloads accounts),
    length-put_be 8 magic_header,
    length-put_be 8 lsn,
    length-put_be 8 (length accounts),
    length-account_payloads accounts,
  )

  magic_part : field 8 (snapshot_content lsn accounts pendings ++ tail) ≡ magic_header
  magic_part = rw parts (field-put_be 8 magic_header (omega arith) _)

  lsn_part : lsn < 256 ^ 8 → field 8 (skip 8 (snapshot_content lsn accounts pendings ++ tail)) ≡ lsn
  lsn_part h = rw (parts, skip-put_be) (field-put_be 8 lsn h _)

  count_part :
      length accounts < 256 ^ 8
      → field 8 (skip 8 (skip 8 (snapshot_content lsn accounts pendings ++ tail))) ≡ length accounts
  count_part h = rw (parts, skip-put_be, skip-put_be) (field-put_be 8 (length accounts) h _)

  accounts_part :
      skip 8 (skip 8 (skip 8 (snapshot_content lsn accounts pendings ++ tail)))
      ≡ account_payloads accounts ++ after_counts
  accounts_part = rw (parts, skip-put_be, skip-put_be, skip-put_be) refl

  pending_count_part :
      length pendings < 256 ^ 8
      → field 8 (skip (24 + length accounts * 128) (snapshot_content lsn accounts pendings ++ tail))
        ≡ length pendings
  pending_count_part h =
      rw
        (
          regrouped,
          skip-prefix (24 + length accounts * 128) to_counts after_counts length-to_counts,
        )
        (field-put_be 8 (length pendings) h _)

  pendings_part :
      skip (24 + length accounts * 128 + 8) (snapshot_content lsn accounts pendings ++ tail)
      ≡ transfer_payloads pendings ++ tail
  pendings_part =
      rw
        (
          regrouped,
          sym (
              append_assoc to_counts (put_be 8 (length pendings))
                (transfer_payloads pendings ++ tail)),
        )
        (skip-prefix (24 + length accounts * 128 + 8) (to_counts ++ put_be 8 (length pendings))
          (transfer_payloads pendings ++ tail)
          (omega (
            arith,
            length-append to_counts (put_be 8 (length pendings)),
            length-to_counts,
            length-put_be 8 (length pendings),
          )))

  length-file :
      length (snapshot_content lsn accounts pendings ++ tail)
      ≡ 32 + length accounts * 128 + length pendings * 144 + length tail
  length-file = omega (
    arith,
    ap length regrouped,
    length-append to_counts after_counts,
    length-to_counts,
    length-append (put_be 8 (length pendings)) (transfer_payloads pendings ++ tail),
    length-append (transfer_payloads pendings) tail,
    length-put_be 8 (length pendings),
    length-transfer_payloads pendings,
  )

module _ (crc : List ℕ → ℕ) (narrow : (bytes : List ℕ) → crc bytes < 256 ^ 4) where
  -- `Read` of a file whose parts have been read.
  read-parts :
      (bytes : List ℕ) (n m lsn : ℕ) (accounts : List Account) (pendings : List Transfer)
      → length bytes ≡ 32 + n * 128 + m * 144 + 4
      → 32 + n * 128 + m * 144 < word
      → field 4 (skip (length bytes - 4) bytes) ≡ crc (take (length bytes - 4) bytes)
      → field 8 bytes ≡ magic_header
      → field 8 (skip 8 bytes) ≡ lsn
      → field 8 (skip 8 (skip 8 bytes)) ≡ n
      → field 8 (skip (24 + n * 128) bytes) ≡ m
      → read_accounts n (skip 8 (skip 8 (skip 8 bytes))) ≡ ok accounts
      → read_transfers m (skip (24 + n * 128 + 8) bytes) ≡ ok pendings
      → read_snapshot crc bytes ≡ ok (accounts, pendings, lsn)
  unfolding read_snapshot
  read-parts bytes n m lsn accounts pendings size small check magic at_lsn at_n at_m all_accounts
        all_pendings =
      let end = length bytes - 4 in
      let off : (24 + n * 128) % word ≡ 24 + n * 128 = omega arith in
      let off' : (24 + n * 128 + 8) % word ≡ 24 + n * 128 + 8 = omega arith in
      let off'' : (24 + n * 128 + 8 + m * 144) % word ≡ 24 + n * 128 + 8 + m * 144 = omega arith in
      let long : ltb (length bytes) 36 ≡ false = ground arith in
      let sound : (field 4 (skip end bytes) != crc (take end bytes)) ≡ false = ground arith in
      let known : (field 8 bytes != magic_header) ≡ false = ground arith in
      let room : ltb end (24 + n * 128 + 8) ≡ false = ground arith in
      let exact : (end != 24 + n * 128 + 8 + m * 144) ≡ false = ground arith in
      let few : leb word (24 + n * 128) ≡ false = ground arith in
      let few' : leb word (24 + n * 128 + 8 + m * 144) ≡ false = ground arith in
      rw
        (
          read_snapshot, at_n, off, at_m, off', off'', long, sound, known, room, exact, few,
          all_accounts, few', all_pendings, at_lsn,
        )
        refl

  -- With a checksum of 32 bits: accounts and open holds whose fields lie in the ranges of their Go
  -- types are read back from a snapshot, with its sequence number, if its size is a 64-bit number.
  pub read-write_snapshot :
      (lsn : ℕ) (accounts : List Account) (pendings : List Transfer)
      → lsn < 256 ^ 8
      → AreSizedAccounts accounts
      → AreSizedTransfers pendings
      → 32 + length accounts * 128 + length pendings * 144 < word
      → read_snapshot crc (write_snapshot crc lsn accounts pendings) ≡ ok (accounts, pendings, lsn)
  unfolding read_snapshot write_snapshot
  read-write_snapshot lsn accounts pendings h v w small =
      let content = snapshot_content lsn accounts pendings in
      let sum = put_be 4 (crc content) ++ [] in
      let bytes = content ++ sum in
      let size = length-file lsn accounts pendings [] in
      let end : length bytes - 4 ≡ length content = omega (
        arith,
        length-append content sum,
        length-append (put_be 4 (crc content)) [],
        length-put_be 4 (crc content),
      ) in
      let checked : field 4 (skip (length content) bytes) ≡ crc (take (length content) bytes) =
        rw (skip-prefix (length content) content sum refl, take-append content sum)
          (field-put_be 4 (crc content) (narrow content) []) in
      read-parts bytes (length accounts) (length pendings) lsn accounts pendings
        (omega (
          arith,
          length-file lsn accounts pendings sum,
          length-append (put_be 4 (crc content)) [],
          length-put_be 4 (crc content),
        ))
        small (rw end checked) (magic_part lsn accounts pendings sum)
        (lsn_part lsn accounts pendings sum h) (count_part lsn accounts pendings sum (omega arith))
        (pending_count_part lsn accounts pendings sum (omega arith))
        (rw (accounts_part lsn accounts pendings sum)
          (read_accounts-payloads accounts (after_counts lsn accounts pendings sum) v))
        (rw (pendings_part lsn accounts pendings sum) (read_transfers-payloads pendings sum w))
