-- ===== src/Engine/Ledger.antt =====
-- internal/engine/ledger.go: the calls of clients. A call is one step, and what the event loop answers
-- is its argument. A key is looked up again and again, at the given times, until the context is
-- cancelled; between these times other calls leave the key store alone.
pub mod Keys
mod Tests
use aequitas_ledger.Prelude.{
  ℕ, true, false, ltb, ◌==◌, Bool, Option, none, some, List, [], ◌∷◌, ◌++◌, length, Result, ok, err,
  ◌>>=◌, if◌then◌else◌,
}
use aequitas_ledger.Core.Uint128.{Uint128}
use aequitas_ledger.Core.Errors.{
  LedgerError, idempotency_conflict, not_leader, batch_too_large, ledger_closed,
}
use aequitas_ledger.Core.Account.{Account, balance}
use aequitas_ledger.Core.Transfer.{Transfer}
use aequitas_ledger.Engine.Idempotency.{
  IdempotencyStore, conflict, hit, reserved, check_and_reserve, commit, rollback,
}
use aequitas_ledger.Engine.Loop.{AckError, refused, TransferAck, zero_transfer}

abbrev pub max_transfer_batch_size : ℕ
max_transfer_batch_size = 8_192

abbrev pub max_account_batch_size : ℕ
max_account_batch_size = 8_192

-- An item of a batch: its outcome, which has the fields of an acknowledgement, or an event for the
-- event loop.
pub data Slot (F : Type 0) : Type 0 where
  settled : TransferAck F → Slot F
  submitted : Transfer → Slot F

-- What ends a call as a whole.
pub data CallError : Type 0 where
  rejected : LedgerError → CallError
  cancelled : CallError

-- What a call knows of a key: the transfer that has it, or that it is the call's own.
pub data Claim : Type 0 where
  existing : Transfer → Claim
  claimed : Claim

-- `reserveKey`, with the times of its looks
unfoldable pub reserve_key :
    List ℕ → ℕ → IdempotencyStore → Result CallError Claim × IdempotencyStore
reserve_key [] key s = (err cancelled, s)
reserve_key (now ∷ later) key s =
    let (reply, s') = check_and_reserve now key s in
    elim reply [
      | conflict e ↦ reserve_key later key s'
      | hit t ↦ (ok (existing t), s')
      | reserved ↦ (ok claimed, s')
    ]

unfoldable pub contains : ℕ → List ℕ → Bool
contains key [] = false
contains key (k ∷ ks) = let rest = contains key ks in if k == key then true else rest

unfoldable pub rollback_all : List ℕ → IdempotencyStore → IdempotencyStore
rollback_all [] s = s
rollback_all (k ∷ ks) s = rollback_all ks (rollback k s)

abbrev seen_after : Claim → ℕ → List ℕ → List ℕ
seen_after (existing u) key seen = seen
seen_after claimed key seen = seen ++ key ∷ []

-- What `CreateTransfers` returns, if it returns.
abbrev pub Returned : Type 0 → Type 0
Returned F = Option (Result CallError (List (TransferAck F)) × IdempotencyStore)

-- `CreateTransfer`: the event may be refused by the ring, or acknowledged; the wait may be cancelled.
pub data Answer (F : Type 0) : Type 0 where
  unsubmitted : LedgerError → Answer F
  acknowledged : TransferAck F → Answer F
  abandoned : Answer F

module _ {F : Type 0} where
  abbrev pub success : Transfer → TransferAck F
  success t = record { transfer = t; error = none }

  abbrev pub failure : AckError F → TransferAck F
  failure e = record { transfer = zero_transfer; error = some e }

  abbrev slot_of : Claim → Transfer → Slot F
  slot_of (existing u) t = settled (success u)
  slot_of claimed t = submitted t

  -- Phase 1 of `CreateTransfers`. `seen` are the keys that were reserved so far: a key that comes again
  -- is refused, and they are rolled back if the call is cancelled.
  unfoldable pub reserve_slots :
      List ℕ
      → List ℕ
      → List Transfer
      → IdempotencyStore
      → Result CallError (List (Slot F)) × IdempotencyStore
  reserve_slots looks seen [] s = (ok [], s)
  reserve_slots looks seen (t ∷ ts) s = elim (t.idempotency_key == 0) [
    | true ↦
        let (rest, s') = reserve_slots looks seen ts s in
        (elim rest [ err e ↦ err e | ok slots ↦ ok (submitted t ∷ slots) ], s')
    | false ↦ elim (contains t.idempotency_key seen) [
      | true ↦
          let again = settled (failure (refused (idempotency_conflict t.idempotency_key))) in
          let (rest, s') = reserve_slots looks seen ts s in
          (elim rest [ err e ↦ err e | ok slots ↦ ok (again ∷ slots) ], s')
      | false ↦
          let (claim, s₁) = reserve_key looks t.idempotency_key s in
          elim claim [
            | err e ↦ (err e, rollback_all seen s₁)
            | ok c ↦
                let (rest, s') = reserve_slots looks (seen_after c t.idempotency_key seen) ts s₁ in
                (elim rest [ err e ↦ err e | ok slots ↦ ok (slot_of c t ∷ slots) ], s')
          ]
    ]
  ]

  -- The events, in order.
  unfoldable pub events : List (Slot F) → List Transfer
  events [] = []
  events (settled o ∷ slots) = events slots
  events (submitted t ∷ slots) = t ∷ events slots

  -- The key is that of the transfer in the acknowledgement.
  unfoldable pub settle_key : ℕ → TransferAck F → IdempotencyStore → Option IdempotencyStore
  settle_key now ack s =
      let key = ack.transfer.idempotency_key in
      if key == 0
      then some s
      else elim ack.error [ some e ↦ some (rollback key s) | none ↦ commit now key ack.transfer s ]

  -- `materialize`, with the acknowledgements of the events, in order; `none` is a `Commit` that does
  -- not end.
  unfoldable pub materialize :
      ℕ
      → List (Slot F)
      → List (TransferAck F)
      → IdempotencyStore
      → Option (List (TransferAck F) × IdempotencyStore)
  materialize now [] acks s = some ([], s)
  materialize now (settled o ∷ slots) acks s = elim (materialize now slots acks s) [
    | none ↦ none
    | some (outcomes, s') ↦ some (o ∷ outcomes, s')
  ]
  materialize now (submitted t ∷ slots) [] s = some ([], s)
  materialize now (submitted t ∷ slots) (ack ∷ acks) s = elim (settle_key now ack s) [
    | none ↦ none
    | some s₁ ↦ elim (materialize now slots acks s₁) [
      | none ↦ none
      | some (outcomes, s') ↦ some (ack ∷ outcomes, s')
    ]
  ]

  abbrev returns : Option (List (TransferAck F) × IdempotencyStore) → Returned F
  returns none = none
  returns (some (outcomes, s)) = some (ok outcomes, s)

  -- Where no event is left there is nothing to wait for.
  abbrev finish :
      ℕ
      → (List Transfer → List (TransferAck F))
      → Result CallError (List (Slot F)) × IdempotencyStore
      → Returned F
  finish now process (err e, s) = some (err e, s)
  finish now process (ok slots, s) = returns (materialize now slots (process (events slots)) s)

  -- `CreateTransfers`; `process` gives the acknowledgements of the event loop.
  unfoldable pub create_transfers :
      Bool
      → List ℕ
      → ℕ
      → (List Transfer → List (TransferAck F))
      → List Transfer
      → IdempotencyStore
      → Returned F
  create_transfers is_follower looks now process batch s =
      if is_follower
      then some (err (rejected not_leader), s)
      else if length batch == 0
      then some (ok [], s)
      else if ltb max_transfer_batch_size (length batch)
      then some (err (rejected (batch_too_large (length batch) max_transfer_batch_size)), s)
      else finish now process (reserve_slots looks [] batch s)

  abbrev keyless : Answer F → Result CallError (TransferAck F)
  keyless (unsubmitted e) = err (rejected e)
  keyless (acknowledged ack) = ok ack
  keyless abandoned = err cancelled

  -- The answer, with the call's own key.
  unfoldable pub settle_answer :
      ℕ
      → ℕ
      → Answer F
      → IdempotencyStore
      → Option (Result CallError (TransferAck F) × IdempotencyStore)
  settle_answer now key (unsubmitted e) s = some (err (rejected e), rollback key s)
  settle_answer now key abandoned s = some (err cancelled, rollback key s)
  settle_answer now key (acknowledged ack) s = elim ack.error [
    | some e ↦ some (ok (failure e), rollback key s)
    | none ↦ elim (commit now key ack.transfer s) [ none ↦ none | some s' ↦ some (ok ack, s') ]
  ]

  unfoldable pub create_transfer :
      Bool
      → List ℕ
      → ℕ
      → (Transfer → Answer F)
      → Transfer
      → IdempotencyStore
      → Option (Result CallError (TransferAck F) × IdempotencyStore)
  create_transfer is_follower looks now process t s =
      if is_follower
      then some (err (rejected not_leader), s)
      else if t.idempotency_key == 0
      then some (keyless (process t), s)
      else let (claim, s') = reserve_key looks t.idempotency_key s in
        elim claim [
          | err e ↦ some (err e, s')
          | ok (existing u) ↦ some (ok (success u), s')
          | ok claimed ↦ settle_answer now t.idempotency_key (process t) s'
        ]

-- `CreateAccounts`; `process` gives the results of the event loop, or none if it has ended.
pub record AccountOutcome (F : Type 0) : Type 0 where
  pub account : Account
  pub error : Option (AckError F)

module _ {F : Type 0} where
  unfoldable pub account_outcomes :
      List Account → List (Option (AckError F)) → List (AccountOutcome F)
  account_outcomes (a ∷ rest) (e ∷ es) =
      record { account = a; error = e } ∷ account_outcomes rest es
  account_outcomes _ _ = []

  unfoldable pub create_accounts :
      Bool
      → (List Account → Option (List (Option (AckError F))))
      → List Account
      → Result LedgerError (List (AccountOutcome F))
  create_accounts is_follower process batch =
      if is_follower
      then err not_leader
      else if length batch == 0
      then ok []
      else if ltb max_account_batch_size (length batch)
      then err (batch_too_large (length batch) max_account_batch_size)
      else elim (process batch) [
        | none ↦ err ledger_closed
        | some results ↦ ok (account_outcomes batch results)
      ]

-- `GetBalance`, with the answer of the event loop
unfoldable pub get_balance : Result LedgerError Account → Result LedgerError Uint128
get_balance answer = answer >>= balance
