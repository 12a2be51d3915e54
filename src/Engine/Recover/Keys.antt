-- ===== src/Engine/Recover/Keys.antt =====
-- The keys that the replay of internal/engine/ledger.go commits: none of them is pending, so every
-- `Commit` ends.
use aequitas_ledger.Prelude.{
  ℕ, ◌≤◌, ◌≡◌, refl, arith, ◌==◌, List, [], ◌∷◌, ok, Bool-cases, inl, inr,
}
use aequitas_ledger.Core.Transfer.{Transfer}
use aequitas_ledger.Engine.Idempotency.{
  IdEntry, IdempotencyStore, drop_key, evict_expired, committed,
}
use aequitas_ledger.Engine.Idempotency.Bounds.{open_count, commit_ends}
use aequitas_ledger.Engine.Recover.{Recovered, recover_key}

drop_key-open : (key : ℕ) (es : List IdEntry) → open_count (drop_key key es) ≤ open_count es
unfolding drop_key
drop_key-open key [] = omega arith
drop_key-open key (e ∷ es) = ground (arith, drop_key-open key es)

evict_expired-open :
    (now : ℕ) (es : List IdEntry) → open_count (evict_expired now es) ≤ open_count es
unfolding evict_expired
evict_expired-open now [] = omega arith
evict_expired-open now (e ∷ es) = ground (arith, evict_expired-open now es)

-- No entry of the store is pending.
abbrev pub IsSettled : IdempotencyStore → Type 0
IsSettled s = open_count s.entries ≡ 0

committed-open :
    (now key : ℕ) (t : Transfer) (s : IdempotencyStore)
    → IsSettled s
    → open_count (committed now key t s) ≡ 0
unfolding committed
committed-open now key t s v =
    ground
      (arith, drop_key-open key (evict_expired now s.entries), evict_expired-open now s.entries)

-- A replayed key is committed, and the store stays settled.
pub recover_key-IsSettled :
    (now : ℕ) (t : Transfer) (s : Recovered)
    → IsSettled s.keys
    → (keys : IdempotencyStore) × (recover_key now t s ≡ (ok tt, record s { keys = keys }))
      × IsSettled keys
unfolding recover_key
recover_key-IsSettled now t s v = elim (Bool-cases (t.idempotency_key == 0)) [
  | inl e ↦ (s.keys, rw (recover_key, e) refl, v)
  | inr e ↦
      let none_open = committed-open now t.idempotency_key t s.keys v in
      let (keys, done, few, left) =
        commit_ends now t.idempotency_key t s.keys (omega (arith, none_open)) in
      (keys, rw (recover_key, e, done) refl, rw none_open at left)
]
