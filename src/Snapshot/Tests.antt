-- ===== src/Snapshot/Tests.antt =====
-- The theorems on internal/snapshot at concrete inputs. The checksum is the sum of the bytes, in 32
-- bits.
use aequitas_ledger.Prelude.{ℕ, ◌%◌, ◌^◌, ◌≡◌, arith, List, [], ◌∷◌, sum_by, ok}
use aequitas_ledger.Core.Uint128.{Uint128}
use aequitas_ledger.Core.Account.{Account}
use aequitas_ledger.Core.Transfer.{Transfer}
use aequitas_ledger.Snapshot.{SnapFile, write_snapshot, read_snapshot, latest}
use aequitas_ledger.Snapshot.RoundTrip.{read-write_snapshot}
use aequitas_ledger.Snapshot.Latest.{IsLatest, latest-IsLatest}

abbrev checksum : List ℕ → ℕ
checksum bytes = sum_by (λ b. b) bytes % 2 ^ 32

abbrev amount : Uint128
amount = record { lo = 300; hi = 1 }

abbrev holder : Account
holder = record {
  id = 1;
  currency = 840;
  ledger = 1;
  code = 3;
  flags = 0;
  user_data128 = 0;
  posted_debits = amount;
  posted_credits = amount;
  pending_debits = amount;
  pending_credits = amount;
}

abbrev hold : Transfer
hold = record {
  id = 7;
  debit_account_id = 1;
  credit_account_id = 2;
  amount = amount;
  idempotency_key = 9;
  user_data128 = 0;
  timestamp = 10;
  timeout = 0;
  ledger = 1;
  code = 3;
  flags = 2;
}

read-write_snapshot_example :
    read_snapshot checksum (write_snapshot checksum 12 (holder ∷ []) (hold ∷ []))
    ≡ ok (holder ∷ [], hold ∷ [], 12)
read-write_snapshot_example =
    read-write_snapshot checksum (λ bytes. omega arith) 12 (holder ∷ []) (hold ∷ []) (omega arith)
      (
        record {
          id = omega arith;
          currency = omega arith;
          ledger = omega arith;
          code = omega arith;
          flags = omega arith;
          user_data128 = omega arith;
          amounts = record {
            posted_debits = (omega arith, omega arith);
            posted_credits = (omega arith, omega arith);
            pending_debits = (omega arith, omega arith);
            pending_credits = (omega arith, omega arith);
          };
        },
        tt,
      )
      (
        record {
          id = omega arith;
          debit_account_id = omega arith;
          credit_account_id = omega arith;
          amount = (omega arith, omega arith);
          idempotency_key = omega arith;
          user_data128 = omega arith;
          timestamp = omega arith;
          timeout = omega arith;
          ledger = omega arith;
          code = omega arith;
          flags = omega arith;
        },
        tt,
      )
      (omega arith)

-- Two files; the later one is cut off.
abbrev whole_file : SnapFile
whole_file = record { lsn = 12; bytes = write_snapshot checksum 12 [] [] }

abbrev cut_file : SnapFile
cut_file = record { lsn = 20; bytes = 76 ∷ [] }

latest-IsLatest_example :
    IsLatest checksum (latest checksum (cut_file ∷ whole_file ∷ [])) (cut_file ∷ whole_file ∷ [])
latest-IsLatest_example = latest-IsLatest checksum (cut_file ∷ whole_file ∷ [])
