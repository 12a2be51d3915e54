-- ===== src/Engine/Accounts/Index.antt =====
-- The slice of accounts and the index into it (internal/engine/accounts.go) agree.
use aequitas_ledger.Prelude.{
  ℕ, ◌≡◌, ◌≢◌, ◌∙◌, arith, none, some, Option-cases, Bool-cases, inl, inr, [], ◌∷◌, ◌++◌, length,
  get_elem?, set, get_elem?-set_self, get_elem?-set_ne, get_elem?-append_end, get_elem?-append_left,
  get_elem?-append_cases, ◌==◌, ok,
}
use aequitas_ledger.Prelude.Maps.{lookup, insert, lookup-insert}
use aequitas_ledger.Core.Account.{Account}
use aequitas_ledger.Engine.Accounts.State.{AccountManager, new_account_manager, create, get, put}

-- The account at a position, under the id that leads there.
pub record Located (m : AccountManager) (id i : ℕ) : Type 0 where
  pub account : Account
  pub there : get_elem? m.accounts i ≡ some account
  pub named : account.id ≡ id

pub record IsIndexed (m : AccountManager) : Type 0 where
  pub located : (id i : ℕ) → lookup id m.index ≡ some i → Located m id i
  pub listed :
      (i : ℕ) (a : Account) → get_elem? m.accounts i ≡ some a → lookup a.id m.index ≡ some i

-- Where an account was found.
pub get_found :
    (m : AccountManager) (id : ℕ) {a : Account}
    → get m id ≡ ok a
    → (i : ℕ) × (lookup id m.index ≡ some i) × (get_elem? m.accounts i ≡ some a)
unfolding get
get_found m id h = elim (Option-cases (lookup id m.index)) [
  | inl e ↦ absurd (ground arith)
  | inr (i, e) ↦ (i, e, ground arith)
]

pub get-id :
    {m : AccountManager} (v : IsIndexed m) (id : ℕ) {a : Account} → get m id ≡ ok a → a.id ≡ id
get-id {m = m} v id h =
    let (i, e, e') = get_found m id h in
    let l = v.located id i e in ground (arith, l.there, l.named)

index-put : (id : ℕ) (new : Account) (m : AccountManager) → (put id new m).index ≡ m.index
unfolding put
index-put id new m = ground arith

accounts-put :
    (id i : ℕ) (new : Account) (m : AccountManager)
    → lookup id m.index ≡ some i
    → (put id new m).accounts ≡ set m.accounts i new
unfolding put
accounts-put id i new m h = ground arith

pub position_id :
    {m : AccountManager} (v : IsIndexed m) (id j i : ℕ)
    → lookup id m.index ≡ some i
    → lookup j m.index ≡ some i
    → id ≡ j
position_id v id j i h k =
    let l = v.located id i h in
    let l' = v.located j i k in ground (arith, l.there, l'.there, l.named, l'.named)

module _ {m : AccountManager} (v : IsIndexed m) (id : ℕ) (new : Account) {old : Account} where
  pub get-put_self : get m id ≡ ok old → get (put id new m) id ≡ ok new
  unfolding get put
  get-put_self h =
      let (i, e, e') = get_found m id h in ground (arith, get_elem?-set_self m.accounts i new e')

  pub get-put_ne : (j : ℕ) → get m id ≡ ok old → id ≢ j → get (put id new m) j ≡ get m j
  unfolding put get
  get-put_ne j h ne =
      let (i, e, e') = get_found m id h in
      elim (Option-cases (lookup j m.index)) [
        | inl q ↦ ground arith
        | inr (k, q) ↦
            let apart : i ≢ k = λ same. ne (position_id v id j i e (rw same q)) in
            ground (arith, get_elem?-set_ne m.accounts i k new apart)
      ]

  put-Located :
      get m id ≡ ok old
      → new.id ≡ id
      → (j k : ℕ) → lookup j m.index ≡ some k
      → Located (put id new m) j k
  put-Located h same j k q =
      let (i, e, e') = get_found m id h in
      elim (Bool-cases (i == k)) [
        | inl eq ↦
            let here : i ≡ k = ground arith in
            let one : id ≡ j = position_id v id j i e (rw here q) in
            record {
              account = new;
              there =
                  rw (accounts-put id i new m e, ← here) (get_elem?-set_self m.accounts i new e');
              named = same ∙ one;
            }
        | inr ne ↦
            let l = v.located j k q in
            record {
              account = l.account;
              there =
                  rw (accounts-put id i new m e, get_elem?-set_ne m.accounts i k new (ground arith))
                    l.there;
              named = l.named;
            }
      ]

  put_listed :
      get m id ≡ ok old
      → new.id ≡ id
      → (k : ℕ) (a : Account) → get_elem? (put id new m).accounts k ≡ some a
      → lookup a.id m.index ≡ some k
  put_listed h same k a q =
      let (i, e, e') = get_found m id h in
      elim (Bool-cases (i == k)) [
        | inl eq ↦ ground (arith, accounts-put id i new m e, get_elem?-set_self m.accounts i new e')
        | inr ne ↦ ground (
          arith,
          accounts-put id i new m e,
          get_elem?-set_ne m.accounts i k new (ground arith),
          v.listed k a,
        )
      ]

  pub put-IsIndexed : get m id ≡ ok old → new.id ≡ id → IsIndexed (put id new m)
  put-IsIndexed h same = record {
    located = λ j k q. put-Located h same j k (rw (index-put id new m) at q);
    listed = λ k a q. rw (index-put id new m) (put_listed h same k a q);
  }

module _ (a : Account) {m : AccountManager} (v : IsIndexed m)
    (fresh : lookup a.id m.index ≡ none) where
  abbrev longer : AccountManager
  longer = record m {
    accounts = m.accounts ++ a ∷ [];
    index = insert a.id (length m.accounts) m.index;
  }

  longer-Located : (j k : ℕ) → lookup j longer.index ≡ some k → Located longer j k
  longer-Located j k q = elim (Bool-cases (j == a.id)) [
    | inl eq ↦
        let n : length m.accounts ≡ k =
          ground (arith, lookup-insert j a.id (length m.accounts) m.index) in
        record {
          account = a;
          there = rw (← n) (get_elem?-append_end m.accounts a);
          named = ground arith;
        }
    | inr ne ↦
        let l = v.located j k (ground (arith, lookup-insert j a.id (length m.accounts) m.index)) in
        record {
          account = l.account;
          there = get_elem?-append_left m.accounts (a ∷ []) k l.there;
          named = l.named;
        }
  ]

  longer_listed :
      (k : ℕ) (b : Account)
      → get_elem? longer.accounts k ≡ some b
      → lookup b.id longer.index ≡ some k
  longer_listed k b q =
      let n = length m.accounts in
      elim (get_elem?-append_cases m.accounts a k q) [
        | inl old ↦
            ground (arith, lookup-insert b.id a.id n m.index, v.listed k b old, v.located b.id k)
        | inr (here, same) ↦ ground (arith, lookup-insert b.id a.id n m.index)
      ]

-- Creating an account keeps the index and the slice in agreement, whether its id is new or taken.
pub create-IsIndexed : (a : Account) {m : AccountManager} → IsIndexed m → IsIndexed (create a m).1
unfolding create
create-IsIndexed a {m = m} v = elim (Option-cases (lookup a.id m.index)) [
  | inl e ↦
      let appended : (create a m).1 ≡ longer a v e = ground arith in
      rw appended (record { located = longer-Located a v e; listed = longer_listed a v e })
  | inr (i, e) ↦ let kept : (create a m).1 ≡ m = ground arith in rw kept v
]

pub new-IsIndexed : IsIndexed new_account_manager
unfolding lookup
new-IsIndexed = record { located = λ id i h. cc; listed = λ i a h. cc }
