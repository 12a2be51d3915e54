-- ===== src/Engine/Accounts/Queries.antt =====
-- `AccountTransfers` of internal/engine/accounts.go: pages of an account's history.
use aequitas_ledger.Prelude.{
  ℕ, ◌+◌, ◌-◌, none, some, List, [], ◌∷◌, length, take, drop, ltb, ◌==◌, ◌||◌, if◌then◌else◌,
}
use aequitas_ledger.Prelude.Maps.{Map, lookup}
use aequitas_ledger.Core.Transfer.{Transfer}
use aequitas_ledger.Engine.Accounts.State.{AccountManager}

unfoldable pub history_of : AccountManager → ℕ → List ℕ
history_of m account = elim (lookup account m.history) [ none ↦ [] | some ids ↦ ids ]

-- The position after the first occurrence of the cursor, counted from `i`; 0 if it is not there.
unfoldable pub position_after : ℕ → ℕ → List ℕ → ℕ
position_after after i [] = 0
position_after after i (id ∷ ids) =
    let rest = position_after after (i + 1) ids in if id == after then i + 1 else rest

collect : Map Transfer → List ℕ → List Transfer
collect transfers [] = []
collect transfers (id ∷ ids) = elim (lookup id transfers) [
  | none ↦ collect transfers ids
  | some t ↦ t ∷ collect transfers ids
]

-- A limit of 0 stands for every `limit <= 0`.
unfoldable pub account_transfers : AccountManager → ℕ → ℕ → ℕ → List Transfer
unfolding history_of position_after collect
account_transfers m account after limit =
    let ids = history_of m account in
    let start = if after == 0 then 0 else position_after after 0 ids in
    let rest = length ids - start in
    let count = if limit == 0 || ltb rest limit then rest else limit in
    collect m.transfers (take count (drop start ids))
