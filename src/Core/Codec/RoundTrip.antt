-- ===== src/Core/Codec/RoundTrip.antt =====
-- Encoding and decoding of payloads (internal/core/codec.go) undo one another.
use aequitas_ledger.Prelude.{◌^◌, ◌<◌, ◌≡◌, arith, length, length-append, ok}
use aequitas_ledger.Prelude.Bytes.{
  length-put_be, length-zeros, field-put_be, skip-put_be, skip-zeros,
}
use aequitas_ledger.Core.Uint128.{IsWide}
use aequitas_ledger.Core.Account.{Account}
use aequitas_ledger.Core.Account.Balances.{IsWideAccount}
use aequitas_ledger.Core.Transfer.{Transfer}
use aequitas_ledger.Core.Codec.{
  encode_transfer_payload, decode_transfer_payload, transfer_fields, encode_account_payload,
  decode_account_payload, account_fields,
}

-- Every field lies in the range of its Go type.
pub record IsSized (t : Transfer) : Type 0 where
  pub id : t.id < 256 ^ 16
  pub debit_account_id : t.debit_account_id < 256 ^ 16
  pub credit_account_id : t.credit_account_id < 256 ^ 16
  pub amount : IsWide t.amount
  pub idempotency_key : t.idempotency_key < 256 ^ 32
  pub user_data128 : t.user_data128 < 256 ^ 16
  pub timestamp : t.timestamp < 256 ^ 8
  pub timeout : t.timeout < 256 ^ 8
  pub ledger : t.ledger < 256 ^ 4
  pub code : t.code < 256 ^ 2
  pub flags : t.flags < 256 ^ 4

ruleset size_laws = (length-append, length-put_be, length-zeros)

ruleset cursor_laws = (skip-put_be, skip-zeros)

pub length-encode_transfer : (t : Transfer) → length (encode_transfer_payload t) ≡ 144
unfolding encode_transfer_payload
length-encode_transfer t = simp size_laws

transfer_fields-encode :
    (t : Transfer) → IsSized t → transfer_fields (encode_transfer_payload t) ≡ t
unfolding transfer_fields encode_transfer_payload
transfer_fields-encode t s = simp (
  cursor_laws,
  field-put_be 16 t.id s.id,
  field-put_be 16 t.debit_account_id s.debit_account_id,
  field-put_be 16 t.credit_account_id s.credit_account_id,
  field-put_be 8 t.amount.hi s.amount.1,
  field-put_be 8 t.amount.lo s.amount.0,
  field-put_be 32 t.idempotency_key s.idempotency_key,
  field-put_be 16 t.user_data128 s.user_data128,
  field-put_be 8 t.timestamp s.timestamp,
  field-put_be 8 t.timeout s.timeout,
  field-put_be 4 t.ledger s.ledger,
  field-put_be 2 t.code s.code,
  field-put_be 4 t.flags s.flags,
)

-- A transfer whose fields lie in the ranges of their Go types is read back from its payload.
pub decode-encode_transfer :
    (t : Transfer) → IsSized t → decode_transfer_payload (encode_transfer_payload t) ≡ ok t
unfolding decode_transfer_payload
decode-encode_transfer t s = ground (arith, length-encode_transfer t, transfer_fields-encode t s)

pub record IsSizedAccount (a : Account) : Type 0 where
  pub id : a.id < 256 ^ 16
  pub currency : a.currency < 256 ^ 4
  pub ledger : a.ledger < 256 ^ 4
  pub code : a.code < 256 ^ 2
  pub flags : a.flags < 256 ^ 4
  pub user_data128 : a.user_data128 < 256 ^ 16
  pub amounts : IsWideAccount a

pub length-encode_account : (a : Account) → length (encode_account_payload a) ≡ 128
unfolding encode_account_payload
length-encode_account a = simp size_laws

account_fields-encode :
    (a : Account) → IsSizedAccount a → account_fields (encode_account_payload a) ≡ a
unfolding account_fields encode_account_payload
account_fields-encode a s = simp (
  cursor_laws,
  field-put_be 16 a.id s.id,
  field-put_be 4 a.currency s.currency,
  field-put_be 4 a.ledger s.ledger,
  field-put_be 2 a.code s.code,
  field-put_be 4 a.flags s.flags,
  field-put_be 16 a.user_data128 s.user_data128,
  field-put_be 8 a.posted_debits.hi s.amounts.posted_debits.1,
  field-put_be 8 a.posted_debits.lo s.amounts.posted_debits.0,
  field-put_be 8 a.posted_credits.hi s.amounts.posted_credits.1,
  field-put_be 8 a.posted_credits.lo s.amounts.posted_credits.0,
  field-put_be 8 a.pending_debits.hi s.amounts.pending_debits.1,
  field-put_be 8 a.pending_debits.lo s.amounts.pending_debits.0,
  field-put_be 8 a.pending_credits.hi s.amounts.pending_credits.1,
  field-put_be 8 a.pending_credits.lo s.amounts.pending_credits.0,
)

-- An account whose fields lie in the ranges of their Go types is read back from its payload.
pub decode-encode_account :
    (a : Account) → IsSizedAccount a → decode_account_payload (encode_account_payload a) ≡ ok a
unfolding decode_account_payload
decode-encode_account a s = ground (arith, length-encode_account a, account_fields-encode a s)
