-- ===== src/Core/Transfer.antt =====
-- internal/core/transfer.go and the transfer flags of internal/core/account.go.
use aequitas_ledger.Prelude.{ℕ, ◌/◌, ◌%◌, Bool, ◌!=◌}
use aequitas_ledger.Core.Uint128.{Uint128}

-- `timestamp` is the bit pattern of an int64.
pub record Transfer : Type 0 where
  pub id : ℕ
  pub debit_account_id : ℕ
  pub credit_account_id : ℕ
  pub amount : Uint128
  pub idempotency_key : ℕ
  pub user_data128 : ℕ
  pub timestamp : ℕ
  pub timeout : ℕ
  pub ledger : ℕ
  pub code : ℕ
  pub flags : ℕ

-- `flags & mask != 0` for a mask of one bit.
unfoldable pub has_flag : ℕ → ℕ → Bool
has_flag flags mask = (flags / mask) % 2 != 0

abbrev pub transfer_flag_pending : ℕ
transfer_flag_pending = 1

abbrev pub transfer_flag_post_pending : ℕ
transfer_flag_post_pending = 2

abbrev pub transfer_flag_void_pending : ℕ
transfer_flag_void_pending = 4

abbrev pub transfer_flag_linked : ℕ
transfer_flag_linked = 8

unfoldable pub is_pending : Transfer → Bool
is_pending t = has_flag t.flags transfer_flag_pending

unfoldable pub is_post : Transfer → Bool
is_post t = has_flag t.flags transfer_flag_post_pending

unfoldable pub is_void : Transfer → Bool
is_void t = has_flag t.flags transfer_flag_void_pending

unfoldable pub is_linked : Transfer → Bool
is_linked t = has_flag t.flags transfer_flag_linked

-- `flags &^ knownFlags != 0`: a bit above the four known ones is set.
unfoldable pub has_unknown_flags : Transfer → Bool
has_unknown_flags t = t.flags / 16 != 0
