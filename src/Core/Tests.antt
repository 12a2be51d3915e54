-- ===== src/Core/Tests.antt =====
-- The theorems on internal/core at concrete inputs.
use aequitas_ledger.Prelude.{refl, [], ◌∷◌, ◌≡◌, arith, ok, err}
use aequitas_ledger.Core.Uint128.{Uint128, cmp, add, sub, greater, uint128_overflow}
use aequitas_ledger.Core.Uint128.Arith.{cmp-val, add-val, sub-val}
use aequitas_ledger.Core.Uint128.Forms.{
  from_string, from_string-denotes, marshal_binary, unmarshal_binary, unmarshal-marshal,
}
use aequitas_ledger.Core.Account.{Account}
use aequitas_ledger.Core.Account.Balances.{IsWideAccount}
use aequitas_ledger.Core.Transfer.{Transfer}
use aequitas_ledger.Core.Codec.{
  encode_transfer_payload, decode_transfer_payload, encode_account_payload, decode_account_payload,
}
use aequitas_ledger.Core.Codec.RoundTrip.{decode-encode_transfer, decode-encode_account}

-- The words of 2 ^ 64 and of 2 ^ 128 - 1.
abbrev wide : Uint128
wide = record { lo = 0; hi = 1 }

abbrev greatest : Uint128
greatest = record { lo = 18_446_744_073_709_551_615; hi = 18_446_744_073_709_551_615 }

abbrev few : Uint128
few = record { lo = 5; hi = 0 }

cmp-val_example : cmp wide few ≡ greater
cmp-val_example = cmp-val wide few (omega arith, omega arith) (omega arith, omega arith)

add-val_example : add greatest few ≡ err uint128_overflow
add-val_example = add-val greatest few (omega arith, omega arith) (omega arith, omega arith)

sub-val_example : sub wide few ≡ ok (record { lo = 18_446_744_073_709_551_611; hi = 0 })
sub-val_example = sub-val wide few (omega arith, omega arith) (omega arith, omega arith)

-- The text 120
from_string-denotes_example : from_string (49 ∷ 50 ∷ 48 ∷ []) ≡ ok (record { lo = 120; hi = 0 })
from_string-denotes_example = from_string-denotes 49 (50 ∷ 48 ∷ []) refl

unmarshal-marshal_example : unmarshal_binary (marshal_binary wide) ≡ ok wide
unmarshal-marshal_example = unmarshal-marshal wide (omega arith, omega arith)

abbrev account : Account
account = record {
  id = 1;
  currency = 840;
  ledger = 1;
  code = 3;
  flags = 0;
  user_data128 = 0;
  posted_debits = few;
  posted_credits = wide;
  pending_debits = few;
  pending_credits = few;
}

account-IsWide : IsWideAccount account
account-IsWide = record {
  posted_debits = (omega arith, omega arith);
  posted_credits = (omega arith, omega arith);
  pending_debits = (omega arith, omega arith);
  pending_credits = (omega arith, omega arith);
}

abbrev transfer : Transfer
transfer = record {
  id = 7;
  debit_account_id = 1;
  credit_account_id = 2;
  amount = wide;
  idempotency_key = 9;
  user_data128 = 0;
  timestamp = 10;
  timeout = 0;
  ledger = 1;
  code = 3;
  flags = 8;
}

decode-encode_transfer_example :
    decode_transfer_payload (encode_transfer_payload transfer) ≡ ok transfer
decode-encode_transfer_example = decode-encode_transfer transfer (record {
  id = omega arith;
  debit_account_id = omega arith;
  credit_account_id = omega arith;
  amount = (omega arith, omega arith);
  idempotency_key = omega arith;
  user_data128 = omega arith;
  timestamp = omega arith;
  timeout = omega arith;
  ledger = omega arith;
  code = omega arith;
  flags = omega arith;
})

decode-encode_account_example : decode_account_payload (encode_account_payload account) ≡ ok account
decode-encode_account_example = decode-encode_account account (record {
  id = omega arith;
  currency = omega arith;
  ledger = omega arith;
  code = omega arith;
  flags = omega arith;
  user_data128 = omega arith;
  amounts = account-IsWide;
})
