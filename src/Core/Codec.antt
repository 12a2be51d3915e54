-- ===== src/Core/Codec.antt =====
-- internal/core/codec.go: the wire payloads of transfers (144 bytes) and accounts (128 bytes).
pub mod RoundTrip
use aequitas_ledger.Prelude.{ℕ, List, [], ◌++◌, length, ◌!=◌, Result, ok, err, if◌then◌else◌}
use aequitas_ledger.Prelude.Bytes.{put_be, field, skip, zeros}
use aequitas_ledger.Core.Uint128.{Uint128}
use aequitas_ledger.Core.Account.{Account}
use aequitas_ledger.Core.Transfer.{Transfer}

pub data PayloadError : Type 0 where
  invalid_transfer_payload invalid_account_payload : PayloadError

abbrev pub transfer_payload_size : ℕ
transfer_payload_size = 144

abbrev pub account_payload_size : ℕ
account_payload_size = 128

-- The buffer is grown by zeros and each field is copied to its offset, from the first to the last.
unfoldable pub append_transfer_payload : List ℕ → Transfer → List ℕ
append_transfer_payload dst t =
    dst
    ++ (put_be 16 t.id
        ++ (put_be 16 t.debit_account_id
            ++ (put_be 16 t.credit_account_id
                ++ (put_be 8 t.amount.hi
                    ++ (put_be 8 t.amount.lo
                        ++ (put_be 32 t.idempotency_key
                            ++ (put_be 16 t.user_data128
                                ++ (put_be 8 t.timestamp
                                    ++ (put_be 8 t.timeout
                                        ++ (put_be 4 t.ledger
                                            ++ (put_be 2 t.code
                                                ++ (zeros 2
                                                    ++ (put_be 4 t.flags ++ zeros 4)))))))))))))

unfoldable pub encode_transfer_payload : Transfer → List ℕ
unfolding append_transfer_payload
encode_transfer_payload t = append_transfer_payload [] t

-- `off` moves over the payload: `skip` drops what it has passed.
transfer_fields : List ℕ → Transfer
transfer_fields b =
    let b₁ = skip 16 b in
    let b₂ = skip 16 b₁ in
    let b₃ = skip 16 b₂ in
    let b₄ = skip 8 b₃ in
    let b₅ = skip 8 b₄ in
    let b₆ = skip 32 b₅ in
    let b₇ = skip 16 b₆ in
    let b₈ = skip 8 b₇ in
    let b₉ = skip 8 b₈ in
    let b₁₀ = skip 4 b₉ in
    let b₁₁ = skip 2 (skip 2 b₁₀) in
    record {
      id = field 16 b;
      debit_account_id = field 16 b₁;
      credit_account_id = field 16 b₂;
      amount = record { lo = field 8 b₄; hi = field 8 b₃ };
      idempotency_key = field 32 b₅;
      user_data128 = field 16 b₆;
      timestamp = field 8 b₇;
      timeout = field 8 b₈;
      ledger = field 4 b₉;
      code = field 2 b₁₀;
      flags = field 4 b₁₁;
    }

pub decode_transfer_payload : List ℕ → Result PayloadError Transfer
unfolding transfer_fields
decode_transfer_payload b =
    if length b != transfer_payload_size
    then err invalid_transfer_payload
    else ok (transfer_fields b)

unfoldable pub append_account_payload : List ℕ → Account → List ℕ
append_account_payload dst a =
    dst
    ++ (put_be 16 a.id
        ++ (put_be 4 a.currency
            ++ (put_be 4 a.ledger
                ++ (put_be 2 a.code
                    ++ (zeros 2
                        ++ (put_be 4 a.flags
                            ++ (put_be 16 a.user_data128
                                ++ (put_be 8 a.posted_debits.hi
                                    ++ (put_be 8 a.posted_debits.lo
                                        ++ (put_be 8 a.posted_credits.hi
                                            ++ (put_be 8 a.posted_credits.lo
                                                ++ (put_be 8 a.pending_debits.hi
                                                    ++ (put_be 8 a.pending_debits.lo
                                                        ++ (put_be 8 a.pending_credits.hi
                                                            ++ (put_be 8 a.pending_credits.lo
                                                            ++ zeros 16)))))))))))))))

unfoldable pub encode_account_payload : Account → List ℕ
unfolding append_account_payload
encode_account_payload a = append_account_payload [] a

account_fields : List ℕ → Account
account_fields b =
    let b₁ = skip 16 b in
    let b₂ = skip 4 b₁ in
    let b₃ = skip 4 b₂ in
    let b₄ = skip 2 (skip 2 b₃) in
    let b₅ = skip 4 b₄ in
    let b₆ = skip 16 b₅ in
    let b₇ = skip 8 b₆ in
    let b₈ = skip 8 b₇ in
    let b₉ = skip 8 b₈ in
    let b₁₀ = skip 8 b₉ in
    let b₁₁ = skip 8 b₁₀ in
    let b₁₂ = skip 8 b₁₁ in
    let b₁₃ = skip 8 b₁₂ in
    record {
      id = field 16 b;
      currency = field 4 b₁;
      ledger = field 4 b₂;
      code = field 2 b₃;
      flags = field 4 b₄;
      user_data128 = field 16 b₅;
      posted_debits = record { lo = field 8 b₇; hi = field 8 b₆ };
      posted_credits = record { lo = field 8 b₉; hi = field 8 b₈ };
      pending_debits = record { lo = field 8 b₁₁; hi = field 8 b₁₀ };
      pending_credits = record { lo = field 8 b₁₃; hi = field 8 b₁₂ };
    }

pub decode_account_payload : List ℕ → Result PayloadError Account
unfolding account_fields
decode_account_payload b =
    if length b != account_payload_size then err invalid_account_payload else ok (account_fields b)
