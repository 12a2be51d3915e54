-- ===== src/Engine/Accounts/State.antt =====
-- The state of `AccountManager` (internal/engine/accounts.go), and the operations on accounts.
use aequitas_ledger.Prelude.{
  ℕ, Option, none, some, List, [], ◌∷◌, ◌++◌, length, get_elem?, set, Result, ok, err,
  if◌then◌else◌,
}
use aequitas_ledger.Prelude.Maps.{Map, lookup, insert, contains}
use aequitas_ledger.Core.Errors.{
  LedgerError, duplicate_account_id, account_not_found, index_out_of_range,
}
use aequitas_ledger.Core.Account.{Account}
use aequitas_ledger.Core.Transfer.{Transfer}

-- `expires` is the bit pattern of an int64.
pub record PendingEntry : Type 0 where
  pub transfer : Transfer
  pub expires : ℕ
  pub heap_idx : ℕ

-- A `*pendingEntry` is a position in `entries`, which holds every entry ever allocated. `pending`
-- and `expiry` share entries by such positions.
pub record AccountManager : Type 0 where
  pub accounts : List Account
  pub index : Map ℕ
  pub clock : ℕ
  pub entries : List PendingEntry
  pub pending : Map ℕ
  pub expiry : List ℕ
  pub transfers : Map Transfer
  pub history : Map (List ℕ)

abbrev pub new_account_manager : AccountManager
new_account_manager = record {
  accounts = [];
  index = [];
  clock = 0;
  entries = [];
  pending = [];
  expiry = [];
  transfers = [];
  history = [];
}

unfoldable pub create : Account → AccountManager → Result LedgerError (Unit {0}) × AccountManager
create a m = if contains a.id m.index then (err (duplicate_account_id a.id), m) else (
  ok tt,
  record m { accounts = m.accounts ++ a ∷ []; index = insert a.id (length m.accounts) m.index },
)

abbrev pub at_position : AccountManager → ℕ → Result LedgerError Account
at_position m i = elim (get_elem? m.accounts i) [ none ↦ err index_out_of_range | some a ↦ ok a ]

unfoldable pub get : AccountManager → ℕ → Result LedgerError Account
get m id = elim (lookup id m.index) [ none ↦ err (account_not_found id) | some i ↦ at_position m i ]

-- The writes through the pointer that `Get` returns.
unfoldable pub put : ℕ → Account → AccountManager → AccountManager
put id a m = elim (lookup id m.index) [
  | none ↦ m
  | some i ↦ record m { accounts = set m.accounts i a }
]

unfoldable pub set_clock : ℕ → AccountManager → AccountManager
set_clock nanos m = record m { clock = nanos }

-- `Snapshot` and `Len`
unfoldable pub snapshot : AccountManager → List Account
snapshot m = m.accounts

unfoldable pub len : AccountManager → ℕ
len m = length m.accounts

-- The entry to which `m.pending[id]` points.
unfoldable pub pending_entry : AccountManager → ℕ → Option PendingEntry
pending_entry m id = elim (lookup id m.pending) [ none ↦ none | some h ↦ get_elem? m.entries h ]

unfoldable pub get_transfer : AccountManager → ℕ → Option Transfer
get_transfer m id = lookup id m.transfers
