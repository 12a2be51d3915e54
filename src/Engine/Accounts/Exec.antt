-- ===== src/Engine/Accounts/Exec.antt =====
-- Methods of `AccountManager` (internal/engine/accounts.go) that write and may fail.
use aequitas_ledger.Prelude.{ℕ, ok, err}
use aequitas_ledger.Prelude.Exec
use aequitas_ledger.Core.Errors.{LedgerError}
use aequitas_ledger.Core.Account.{Account}
use aequitas_ledger.Engine.Accounts.State.{AccountManager, get, put}
use aequitas_ledger.Engine.Accounts.Rewrites.{Rewrite}

abbrev pub Action : Type 0 → Type 0
Action A = Exec.Exec LedgerError AccountManager A

abbrev pub find : ℕ → Action Account
find id m = (get m id, m)

-- An account is read, rewritten, and stored, unless the account is missing or the rewriting fails.
unfoldable pub update : ℕ → Rewrite → Action (Unit {0})
update id f m = elim (get m id) [
  | err e ↦ (err e, m)
  | ok old ↦ elim (f old) [ err e ↦ (err e, m) | ok new ↦ (ok tt, put id new m) ]
]
