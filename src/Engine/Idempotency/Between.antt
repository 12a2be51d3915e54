-- ===== src/Engine/Idempotency/Between.antt =====
-- What stays in the store of internal/engine/idempotency.go while callers use it for other keys.
use aequitas_ledger.Prelude.{
  ℕ, zero, suc, ◌+◌, ◌<◌, ◌≡◌, refl, arith, Bool, true, false, ◌==◌, Option, none, some,
  Option-cases, Bool-cases, List, [], ◌∷◌, length, inl, inr,
}
use aequitas_ledger.Core.Transfer.{Transfer}
use aequitas_ledger.Engine.Idempotency.{
  IdEntry, IdempotencyStore, find, drop_key, evict_expired, evict_lru, shrink, reserve, committed,
  commit, rollback,
}
use aequitas_ledger.Engine.Idempotency.Unique.{find-key}

-- Calls of the store before a time, in any order, in which no caller commits or rolls back a key;
-- other keys are committed only if `any` is true. The first part of `CheckAndReserve` changes
-- nothing, so a call of it is at most its second part.
pub data Between (key limit : ℕ) (any : Bool) : IdempotencyStore → IdempotencyStore → Type 0 where
  untouched : (s : IdempotencyStore) → Between key limit any s s
  reserving :
      (s s' : IdempotencyStore) (now other : ℕ)
      → Between key limit any s s'
      → now < limit
      → Between key limit any s (reserve now other s').1
  rolling_back :
      (s s' : IdempotencyStore) (other : ℕ)
      → Between key limit any s s'
      → (other == key) ≡ false
      → Between key limit any s (rollback other s')
  committing :
      (s s' s'' : IdempotencyStore) (now other : ℕ) (t : Transfer)
      → Between key limit any s s'
      → now < limit
      → (other == key) ≡ false
      → any ≡ true
      → commit now other t s' ≡ some s''
      → Between key limit any s s''

evict_expired-find :
    (now key : ℕ) (es : List IdEntry) (e : IdEntry)
    → find key es ≡ some e
    → now < e.expires_at
    → find key (evict_expired now es) ≡ some e
unfolding find evict_expired
evict_expired-find now key [] e h alive = cc
evict_expired-find now key (x ∷ xs) e h alive = ground (arith, evict_expired-find now key xs e)

drop_key-find :
    (other key : ℕ) (es : List IdEntry)
    → (other == key) ≡ false
    → find key (drop_key other es) ≡ find key es
unfolding find drop_key
drop_key-find other key [] h = refl
drop_key-find other key (x ∷ xs) h = ground (arith, drop_key-find other key xs h)

-- An eviction, where there is one, leaves the entry.
abbrev Keeps : ℕ → IdEntry → Option (List IdEntry) → Type 0
Keeps key e none = Unit
Keeps key e (some es) = find key es ≡ some e

evict_lru-Keeps :
    (key : ℕ) (es : List IdEntry) (e : IdEntry)
    → find key es ≡ some e
    → e.result ≡ none
    → Keeps key e (evict_lru es)
unfolding find evict_lru
evict_lru-Keeps key [] e h p = cc
evict_lru-Keeps key (x ∷ xs) e h p = elim (Option-cases (evict_lru xs)) [
  | inl q ↦ ground (arith, evict_lru-Keeps key xs e)
  | inr (rest, q) ↦ ground (arith, evict_lru-Keeps key xs e)
]

shrink-find :
    (fuel max key : ℕ) (es : List IdEntry) (e : IdEntry)
    → find key es ≡ some e
    → e.result ≡ none
    → Keeps key e (shrink fuel max es)
unfolding shrink
shrink-find zero max key es e h p = tt
shrink-find (suc fuel) max key es e h p = elim (Option-cases (evict_lru es)) [
  | inl q ↦ ground (arith, shrink-find fuel max key es e h p)
  | inr (rest, q) ↦ ground (arith, shrink-find fuel max key rest e, evict_lru-Keeps key es e h p)
]

reserve-find :
    (now other key : ℕ) (s : IdempotencyStore) (e : IdEntry)
    → find key s.entries ≡ some e
    → now < e.expires_at
    → find key (reserve now other s).1.entries ≡ some e
unfolding reserve find
reserve-find now other key s e h alive =
    let es = evict_expired now s.entries in
    let kept = evict_expired-find now key s.entries e h alive in
    let named = find-key key es e kept in
    elim (Option-cases (find other es)) [
      | inl q ↦ ground arith
      | inr (x, q) ↦
          let other_named = find-key other es x q in
          elim (Bool-cases (other == key)) [
            | inl same ↦ ground arith
            | inr apart ↦ ground (arith, drop_key-find other key es apart)
          ]
    ]

rollback-find :
    (other key : ℕ) (s : IdempotencyStore) (e : IdEntry)
    → (other == key) ≡ false
    → find key s.entries ≡ some e
    → find key (rollback other s).entries ≡ some e
unfolding rollback
rollback-find other key s e apart h = ground (arith, drop_key-find other key s.entries apart)

commit-find :
    (now other key : ℕ) (t : Transfer) (s : IdempotencyStore) (e : IdEntry) {s' : IdempotencyStore}
    → (other == key) ≡ false
    → find key s.entries ≡ some e
    → now < e.expires_at
    → e.result ≡ none
    → commit now other t s ≡ some s'
    → find key s'.entries ≡ some e
unfolding commit committed find
commit-find now other key t s e apart h alive p c =
    let es = committed now other t s in
    let kept = evict_expired-find now key s.entries e h alive in
    ground (
      arith,
      drop_key-find other key (evict_expired now s.entries) apart,
      shrink-find (length es + 1) s.max_size key es e,
    )

-- An entry stays until the time at which it expires, if it is pending where keys are committed.
pub Between-find :
    (key limit : ℕ) (any : Bool) (s s' : IdempotencyStore) (e : IdEntry)
    → e.expires_at ≡ limit
    → (any ≡ true → e.result ≡ none)
    → find key s.entries ≡ some e
    → Between key limit any s s'
    → find key s'.entries ≡ some e
Between-find key limit any s _ e l p h (untouched _) = h
Between-find key limit any s _ e l p h (reserving _ s' now other b early) =
    reserve-find now other key s' e (Between-find key limit any s s' e l p h b) (omega arith)
Between-find key limit any s _ e l p h (rolling_back _ s' other b apart) =
    rollback-find other key s' e apart (Between-find key limit any s s' e l p h b)
Between-find key limit any s s'' e l p h (committing _ s' _ now other t b early apart may c) =
    commit-find now other key t s' e apart (Between-find key limit any s s' e l p h b) (omega arith)
      (p may) c
