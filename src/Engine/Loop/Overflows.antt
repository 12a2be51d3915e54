-- ===== src/Engine/Loop/Overflows.antt =====
-- A hold of internal/engine/accounts.go whose deadline overflows, in internal/engine/loop.go and in the
-- replay of internal/engine/ledger.go.
use mathlib.Core.Path.{subst}
use aequitas_ledger.Prelude.{
  ℕ, ◌+◌, ◌%◌, ◌≡◌, refl, sym, ap, ◌∙◌, arith, true, false, ◌||◌, ltb, none, some, List, [], ◌∷◌,
  ◌++◌, length, get_elem?, set, ok, err, Result, Bool-cases, inl, inr, option_ind,
  get_elem?-append_end, get_elem?-set_self, if◌then◌else◌,
}
use aequitas_ledger.Prelude.Words.{word, signed_less}
use aequitas_ledger.Prelude.Maps.{lookup, remove, lookup-remove}
use aequitas_ledger.Prelude.Exec.{bind_ok, lift}
use aequitas_ledger.Core.Uint128.{Uint128}
use aequitas_ledger.Core.Errors.{LedgerError, pending_not_found}
use aequitas_ledger.Core.Account.{Account}
use aequitas_ledger.Core.Transfer.{Transfer, is_post, is_void, is_pending}
use aequitas_ledger.Core.Codec.RoundTrip.{IsSized}
use aequitas_ledger.Engine.Accounts.{
  Rewrite, AccountManager, PendingEntry, put, set_clock, pending_entry, check_transfer, check_flags,
  Queue, queue_of, with_queue, open_hold, record_transfer, apply_transfer_state, heap_push,
  heap_pop, sift_up, close_hold, close_loop, close_expired,
}
use aequitas_ledger.Engine.Accounts.Effects.{
  Applied, plain, pending, post, void, apply_transfer_state-Applied, dispatch,
}
use aequitas_ledger.Engine.Accounts.Writes.{TwoSided}
use aequitas_ledger.Engine.Accounts.Keeps.{release_pending-Keeps, apply-Keeps}
use aequitas_ledger.Engine.Accounts.Quiet.{outlives}
use aequitas_ledger.Engine.Accounts.Queued.{IsStable-kept}
use aequitas_ledger.Wal.Records.{LogRecord}
use aequitas_ledger.Wal.Replay.{handle_all}
use aequitas_ledger.Wal.Recovery.Appended.{numbered}
use aequitas_ledger.Engine.Loop.{transfer_record}
use aequitas_ledger.Engine.Loop.Replay.{replay, replay-cons}
use aequitas_ledger.Engine.Recover.{
  Recovered, RecoveryError, unapplied, recover_key, recover_transfer, replay_clock,
}
use aequitas_ledger.Engine.Recover.Keys.{IsSettled}
use aequitas_ledger.Engine.Recover.Records.{recover_applied, recover-transfer_record}

-- A hold is alone in the queue.
record IsAlone (t : Transfer) (m : AccountManager) : Type 0 where
  handle : ℕ
  entry : PendingEntry
  queue : m.expiry ≡ handle ∷ []
  there : get_elem? m.entries handle ≡ some entry
  held : entry.transfer ≡ t
  expires : entry.expires ≡ (t.timestamp + t.timeout) % word

heap_push-first :
    (h : ℕ) (entries : List PendingEntry) {e : PendingEntry}
    → get_elem? entries h ≡ some e
    → heap_push h (record { entries = entries; expiry = [] })
      ≡ record { entries = set entries h (record e { heap_idx = 0 }); expiry = h ∷ [] }
unfolding heap_push sift_up
heap_push-first h entries found = rw (heap_push, found) refl

open_empty-IsAlone :
    (t : Transfer) (m : AccountManager)
    → ltb 0 t.timeout ≡ true
    → IsAlone t (open_hold t (record m { expiry = [] }))
unfolding open_hold
open_empty-IsAlone t m timed =
    let h = length m.entries in
    let e : PendingEntry = record {
      transfer = t;
      expires = (t.timestamp + t.timeout) % word;
      heap_idx = 0;
    } in
    let found = get_elem?-append_end m.entries e in
    let pushed = heap_push-first h (m.entries ++ e ∷ []) found in
    rw (open_hold, timed)
      (record {
        handle = h;
        entry = e;
        queue = ap (λ (q : Queue). q.expiry) pushed;
        there =
            ap (λ (q : Queue). get_elem? q.entries h) pushed
            ∙ get_elem?-set_self (m.entries ++ e ∷ []) h e found;
        held = refl;
        expires = refl;
      })

open_hold-IsAlone :
    (t : Transfer) (m : AccountManager)
    → m.expiry ≡ []
    → ltb 0 t.timeout ≡ true
    → IsAlone t (open_hold t m)
open_hold-IsAlone t m none_queued timed =
    let same : record m { expiry = [] } ≡ m =
      ap (λ (x : List ℕ). record m { expiry = x }) (sym none_queued) in
    subst (λ (m : AccountManager). IsAlone t (open_hold t m)) same (open_empty-IsAlone t m timed)

put-expiry : (id : ℕ) (a : Account) (m : AccountManager) → (put id a m).expiry ≡ m.expiry
unfolding put
put-expiry id a m = ground arith

TwoSided-expiry :
    (f g : Rewrite) (d c : ℕ) (m : AccountManager) {m' : AccountManager}
    → TwoSided f g d c m m'
    → m'.expiry ≡ m.expiry
TwoSided-expiry f g d c m s =
    rw s.credit.stored
      (put-expiry c s.credit.new s.middle ∙ rw s.debit.stored (put-expiry d s.debit.new m))

applied-IsAlone :
    (t : Transfer) (m : AccountManager) {m' : AccountManager}
    → m.expiry ≡ []
    → ltb 0 t.timeout ≡ true
    → is_post t ≡ false
    → is_void t ≡ false
    → is_pending t ≡ true
    → Applied t m m'
    → IsAlone t m'
unfolding record_transfer
applied-IsAlone t m none_queued timed np nv is (plain x y z r checked s w e) = absurd (cc)
applied-IsAlone t m none_queued timed np nv is (post x p q amount checked s w e) = absurd (cc)
applied-IsAlone t m none_queued timed np nv is (void x y p q s w e) = absurd (cc)
applied-IsAlone t m none_queued timed np nv is (pending x y z r checked s w e) =
    let a = open_hold-IsAlone t s (TwoSided-expiry _ _ _ _ m w ∙ none_queued) timed in
    rw e (record {
      handle = a.handle;
      entry = a.entry;
      queue = a.queue;
      there = a.there;
      held = a.held;
      expires = a.expires;
    })

close_hold-unheld :
    (t : Transfer) (m : AccountManager) → lookup t.id (close_hold t m).pending ≡ none
unfolding close_hold put
close_hold-unheld t m =
    let popped = with_queue m (heap_pop (queue_of m)) in
    release_pending-Keeps (λ (m : AccountManager). lookup t.id m.pending ≡ none)
      (λ id a m' v.
        option_ind (λ (m : AccountManager). lookup t.id m.pending ≡ none) (lookup id m'.index) v
          λ i e. v)
      t (record popped { pending = remove t.id popped.pending })
      (lookup-remove t.id t.id popped.pending ∙ ground arith)

-- At a clock that the overflown deadline does not lie after, the hold is closed.
replay_clock-unheld :
    (c : ℕ) (t : Transfer) (m : AccountManager)
    → IsAlone t m
    → m.clock ≡ c
    → signed_less c ((t.timestamp + t.timeout) % word) ≡ false
    → lookup t.id (replay_clock c m).pending ≡ none
unfolding replay_clock close_expired close_loop set_clock
replay_clock-unheld c t m a clock due =
    let now : (if signed_less m.clock c then c else m.clock) ≡ c = ground arith in
    let passed : signed_less c a.entry.expires ≡ false = rw a.expires due in
    rw (replay_clock, now, close_expired, a.queue, close_loop, a.there, passed, a.held)
      (close_hold-unheld t (record m { clock = c; expiry = a.handle ∷ [] }))

check_transfer-unheld :
    (p : Transfer) (m m' : AccountManager) {r : Uint128}
    → (is_post p || is_void p) ≡ true
    → check_transfer m p ≡ ok r
    → lookup p.id m'.pending ≡ none
    → check_transfer m' p ≡ err (pending_not_found p.id)
unfolding check_transfer pending_entry
check_transfer-unheld p m m' is h unheld = ground arith

unheld-refused :
    (p : Transfer) (m m' : AccountManager) {m'' : AccountManager}
    → (is_post p || is_void p) ≡ true
    → apply_transfer_state p m ≡ (ok tt, m'')
    → lookup p.id m'.pending ≡ none
    → apply_transfer_state p m' ≡ (err (pending_not_found p.id), m')
unfolding apply_transfer_state
unheld-refused p m m' is h unheld =
    let (r, s, e₁, e₂) = bind_ok (lift (check_transfer m p)) (dispatch p) m h in
    let refused = check_transfer-unheld p m m' is (ap (λ x. x.0) e₁) unheld in
    rw (apply_transfer_state, refused) refl

IsAlone-clock :
    (c : ℕ) (t : Transfer) (m : AccountManager)
    → m.clock ≡ c
    → (apply_transfer_state t m).1.clock ≡ c
IsAlone-clock c t m h =
    apply-Keeps (λ (m : AccountManager). m.clock ≡ c)
      (IsStable-kept {t = t} {P = λ (clock : ℕ) (q : Queue). clock ≡ c} (record {
        removes = λ now i q below v. v;
        rewrites = λ now h p q found v. v;
        allocates = λ now q v. v;
        pushes = λ now q e v. v;
      }))
      m h

-- A hold that is applied is neither a post nor a void.
hold_flags :
    (t : Transfer) (m : AccountManager) {m' : AccountManager}
    → is_pending t ≡ true
    → apply_transfer_state t m ≡ (ok tt, m')
    → (is_post t ≡ false) × (is_void t ≡ false)
unfolding check_transfer check_flags apply_transfer_state
hold_flags t m is h =
    let (r, s, e₁, e₂) = bind_ok (lift (check_transfer m t)) (dispatch t) m h in
    let checked : check_transfer m t ≡ ok r = ap (λ x. x.0) e₁ in
    elim (Bool-cases (is_post t)) [
      | inl e ↦ absurd (ground arith)
      | inr e ↦ elim (Bool-cases (is_void t)) [ inl e' ↦ absurd (ground arith) | inr e' ↦ (e, e') ]
    ]

refused_record :
    (time : ℕ) (p : Transfer) (s : Recovered) (m : AccountManager) (e : LedgerError)
    → replay_clock p.timestamp s.accounts ≡ m
    → apply_transfer_state p m ≡ (err e, m)
    → recover_transfer time p s ≡ (err (unapplied e), record s { accounts = m })
unfolding recover_transfer
refused_record time p s m e ticked refused =
    ap
      (λ (x : Result LedgerError (Unit {0}) × AccountManager).
        elim x.0 as (λ y. Result RecoveryError (Unit {0}) × Recovered) [
          | err e ↦ (err (unapplied e), record s { accounts = x.1 })
          | ok u ↦ recover_key time p (record s { accounts = x.1 })
        ])
      (ap (λ m. apply_transfer_state p m) ticked ∙ refused)

module _ (crc : List ℕ → ℕ) (now : LogRecord → ℕ) where
  -- In a book in which no deadline is queued, a hold with a timeout whose deadline is not after its
  -- timestamp, as a sum of int64 values that overflows, is applied, and a post or void of it with the
  -- same timestamp is applied after it. The replay of the two records that the event loop logs for
  -- them fails, since it closes the hold before it comes to the second one: the log cannot be
  -- recovered.
  pub overflow_unreplayable :
      (lsn : ℕ) (t p : Transfer) (s : Recovered) (m m₁ m₂ : AccountManager)
      → IsSized t
      → IsSized p
      → p.id ≡ t.id
      → p.timestamp ≡ t.timestamp
      → is_pending t ≡ true
      → ltb 0 t.timeout ≡ true
      → outlives t.timestamp t ≡ false
      → (is_post p || is_void p) ≡ true
      → IsSettled s.keys
      → replay_clock t.timestamp s.accounts ≡ m
      → m.clock ≡ t.timestamp
      → m.expiry ≡ []
      → apply_transfer_state t m ≡ (ok tt, m₁)
      → apply_transfer_state p m₁ ≡ (ok tt, m₂)
      → (replay crc now (numbered lsn (transfer_record t ∷ transfer_record p ∷ [])) s).0
        ≡ err (unapplied (pending_not_found t.id))
  unfolding outlives handle_all
  overflow_unreplayable lsn t p s m m₁ m₂ v w same_id same_time is timed due settles settled ticked
        clock none_queued live live' =
      let (np, nv) = hold_flags t m is live in
      let a =
        applied-IsAlone t m none_queued timed np nv is (apply_transfer_state-Applied t m live) in
      let c = t.timestamp in
      let clock₁ : m₁.clock ≡ c =
        subst (λ (x : Result LedgerError (Unit {0}) × AccountManager). x.1.clock ≡ c) live
          (IsAlone-clock c t m clock) in
      let unheld : lookup p.id (replay_clock c m₁).pending ≡ none =
        rw same_id (replay_clock-unheld c t m₁ a clock₁ (rw timed at due)) in
      let refused = unheld-refused p m₁ (replay_clock c m₁) settles live' unheld in
      let (keys, first, settled') = recover_applied now (lsn + 1) t s m m₁ v settled ticked live in
      let s₁ : Recovered = record { accounts = m₁; keys = keys } in
      let r = record (transfer_record p) { lsn = lsn + 1 + 1 } in
      let second =
        recover-transfer_record now (lsn + 1 + 1) p s₁ w
        ∙ refused_record (now r) p s₁ (replay_clock c m₁) (pending_not_found p.id)
            (ap (λ (x : ℕ). replay_clock x m₁) same_time) refused in
      ap (λ x. x.0) (replay-cons crc now _ (r ∷ []) s s₁ first)
      ∙ ap
          (λ (x : Result RecoveryError (Unit {0}) × Recovered).
            (elim x.0 as (λ y. Result RecoveryError (Unit {0}) × Recovered) [
              | err e ↦ (err e, x.1)
              | ok u ↦ (ok tt, x.1)
            ]).0)
          second
      ∙ ap (λ (x : ℕ). err (unapplied (pending_not_found x))) same_id
