-- ===== src/Replication/Fencing.antt =====
-- Once a follower has accepted a promoted primary (internal/replication/term.go and follower.go), it
-- refuses the old one.
use mathlib.Core.List.{append-nil}
use aequitas_ledger.Prelude.{
  ℕ, [], ◌+◌, ◌≤◌, ◌<◌, ◌^◌, ◌≡◌, refl, arith, true, false, ltb, ◌!=◌, ◌&&◌, length, none, ok, err,
  Bool-cases, inl, inr,
}
use aequitas_ledger.Prelude.Words.{word}
use aequitas_ledger.Prelude.Bytes.{put_be, length-put_be, field-put_be}
use aequitas_ledger.Replication.{
  TermFile, load_term, store_term, primary_term, bump_term, stale_primary, Follower, new_follower,
  handshake, accepts_frame,
}

-- What a follower goes through: streams that it accepts, and restarts.
pub data Step (f : Follower) : Follower → Type 0 where
  connects : {f' : Follower} (term : ℕ) → term < 256 ^ 8 → handshake term f ≡ ok f' → Step f f'
  restarts : Step f (new_follower f.term_file)

pub data Reachable (start : Follower) : Follower → Type 0 where
  here : Reachable start start
  next : {f f' : Follower} → Reachable start f → Step f f' → Reachable start f'

load-store_term : (term : ℕ) → term < 256 ^ 8 → load_term (store_term term) ≡ term
unfolding load_term store_term
load-store_term term h =
    let whole : (length (put_be 8 term) != 8) ≡ false = ground (arith, length-put_be 8 term) in
    rw whole (rw (append-nil (put_be 8 term)) at (field-put_be 8 term h []))

-- The file has the term that the follower goes by.
pub record IsStored (f : Follower) : Type 0 where
  pub stored : load_term f.term_file ≡ f.last_term

pub new_follower-IsStored : (file : TermFile) → IsStored (new_follower file)
unfolding new_follower
new_follower-IsStored file = record { stored = refl }

-- What an accepted handshake leaves.
record IsAccepted (term : ℕ) (f f' : Follower) : Type 0 where
  stored : IsStored f'
  above : f.last_term ≤ f'.last_term
  not_below : term ≤ f'.last_term
  not_above : f'.last_term ≤ term

handshake-IsAccepted :
    (term : ℕ) (f f' : Follower)
    → IsStored f
    → term < 256 ^ 8
    → handshake term f ≡ ok f'
    → IsAccepted term f f'
unfolding handshake
handshake-IsAccepted term f f' v h e =
    elim (Bool-cases (f.last_term != 0 && ltb term f.last_term)) [
      | inl stale ↦ absurd (ground (arith, (rw (handshake, stale) at e)))
      | inr fresh ↦ elim (Bool-cases (ltb f.last_term term)) [
        | inl higher ↦
            let same : record { last_term = term; term_file = store_term term } ≡ f' =
              ground (arith, (rw (handshake, fresh, higher) at e)) in
            rw (← same) (record {
              stored = record { stored = load-store_term term h };
              above = ground arith;
              not_below = omega arith;
              not_above = omega arith;
            })
        | inr equal ↦
            let same : f ≡ f' = ground (arith, (rw (handshake, fresh, equal) at e)) in
            rw (← same) (record {
              stored = v;
              above = omega arith;
              not_below = ground arith;
              not_above = ground arith;
            })
      ]
    ]

-- A later state of a follower.
record IsLater (f f' : Follower) : Type 0 where
  stored : IsStored f'
  above : f.last_term ≤ f'.last_term

Reachable-IsLater : {f f' : Follower} → IsStored f → Reachable f f' → IsLater f f'
unfolding new_follower
Reachable-IsLater v here = record { stored = v; above = omega arith }
Reachable-IsLater v (next {f = g} {f' = g'} before (connects term h e)) =
    let w = Reachable-IsLater v before in
    let a = handshake-IsAccepted term g g' w.stored h e in
    record { stored = a.stored; above = omega (arith, w.above, a.above) }
Reachable-IsLater v (next {f = g} before restarts) =
    let w = Reachable-IsLater v before in
    record {
      stored = new_follower-IsStored g.term_file;
      above = omega (arith, w.above, w.stored.stored);
    }

load-primary_term : (file : TermFile) → load_term (primary_term file).1 ≡ (primary_term file).0
unfolding primary_term
load-primary_term file = elim (Bool-cases (ltb 0 (load_term file))) [
  | inl kept ↦ rw kept refl
  | inr fresh ↦ rw fresh (load-store_term 1 (omega arith))
]

refused : (term : ℕ) (f : Follower) → term < f.last_term → handshake term f ≡ err stale_primary
unfolding handshake
refused term f h =
    let stale : (f.last_term != 0 && ltb term f.last_term) ≡ true = ground arith in rw stale refl

-- A primary's term is raised, and a follower that knew no other than its stored one accepts the new
-- term. However it connects and restarts from then on, it refuses streams and frames of the old term,
-- if the term does not wrap.
pub old_term_fenced :
    (file : TermFile) (f f' f'' : Follower)
    → IsStored f
    → (primary_term file).0 + 1 < word
    → handshake (bump_term (primary_term file).1).0 f ≡ ok f'
    → Reachable f' f''
    → (handshake (primary_term file).0 f'' ≡ err stale_primary)
      × (accepts_frame (primary_term file).0 f'' ≡ false)
unfolding bump_term accepts_frame
old_term_fenced file f f' f'' v bounded e later =
    let t = (primary_term file).0 in
    let raised : (bump_term (primary_term file).1).0 ≡ t + 1 =
      rw (load-primary_term file) (omega arith) in
    let a = handshake-IsAccepted (t + 1) f f' v (omega arith) (rw raised at e) in
    let w = Reachable-IsLater a.stored later in
    let below : t < f''.last_term = omega (arith, a.not_below, w.above) in
    (refused t f'' below, ground arith)

primary_term_positive : (file : TermFile) → 0 < (primary_term file).0
unfolding primary_term
primary_term_positive file = elim (Bool-cases (ltb 0 (load_term file))) [
  | inl kept ↦ rw kept (ground arith)
  | inr fresh ↦ rw fresh (omega arith)
]

accepted :
    (term : ℕ) (f : Follower) → f.last_term ≤ term → (f' : Follower) × (handshake term f ≡ ok f')
unfolding handshake
accepted term f h =
    let fresh : (f.last_term != 0 && ltb term f.last_term) ≡ false = ground arith in
    elim (Bool-cases (ltb f.last_term term)) [
      | inl higher ↦
          (record { last_term = term; term_file = store_term term }, rw (fresh, higher) refl)
      | inr equal ↦ (f, rw (fresh, equal) refl)
    ]

-- A follower that was never a primary has no primary's file. When it is promoted, its term is not
-- above the old primary's, whatever that is, and a follower that has accepted the promoted one, and
-- knew no other term than its stored one before, accepts streams and frames of the old one.
pub promoted_not_above :
    (file : TermFile) (f f' : Follower)
    → IsStored f
    → handshake (bump_term none).0 f ≡ ok f'
    → ((bump_term none).0 ≤ (primary_term file).0)
      × (accepts_frame (primary_term file).0 f' ≡ true)
      × (f'' : Follower) × (handshake (primary_term file).0 f' ≡ ok f'')
unfolding bump_term load_term accepts_frame
promoted_not_above file f f' v e =
    let t = (primary_term file).0 in
    let positive = primary_term_positive file in
    let a = handshake-IsAccepted 1 f f' v (omega arith) e in
    let below : f'.last_term ≤ t = omega (arith, a.not_above) in
    let (f'', again) = accepted t f' below in (omega arith, ground arith, f'', again)
