-- ===== src/Snapshot/Latest.antt =====
-- `Latest` of internal/snapshot/snapshot.go finds the snapshot to start from.
use mathlib.Core.Path.{subst}
use aequitas_ledger.Prelude.{
  sym, ap, ℕ, ◌≤◌, ◌≡◌, arith, Bool, true, false, ◌&&◌, List, [], ◌∷◌, Option, none, some, ltb,
  Bool-cases, inl, inr, if◌then◌else◌,
}
use aequitas_ledger.Snapshot.{SnapFile, is_valid, is_later, latest_from, latest}

second_of : (a b : Bool) → (a && b) ≡ true → b ≡ true
second_of true b h = h
second_of false b h = absurd (ground arith)

module _ (crc : List ℕ → ℕ) where
  -- The file is not valid, or not later than the one chosen.
  pub Covers : Option SnapFile → SnapFile → Type 0
  Covers none g = is_valid crc g ≡ false
  Covers (some f) g = (is_valid crc g && ltb f.lsn g.lsn) ≡ false

  abbrev AllCovered : Option SnapFile → List SnapFile → Type 0
  AllCovered r [] = Unit
  AllCovered r (g ∷ gs) = Covers r g × AllCovered r gs

  abbrev IsValidChoice : Option SnapFile → Type 0
  IsValidChoice none = Unit
  IsValidChoice (some f) = is_valid crc f ≡ true

  AtLeast : Option SnapFile → Option SnapFile → Type 0
  AtLeast none r = Unit
  AtLeast (some b) none = ⊥
  AtLeast (some b) (some f) = b.lsn ≤ f.lsn

  -- What the choice is to be.
  pub IsLatest : Option SnapFile → List SnapFile → Type 0
  IsLatest r files = IsValidChoice r × AllCovered r files

  AtLeast-refl : (r : Option SnapFile) → AtLeast r r
  unfolding AtLeast
  AtLeast-refl none = tt
  AtLeast-refl (some f) = omega arith

  Covers-kept :
      (f : SnapFile) (best r : Option SnapFile)
      → AtLeast best r
      → (is_later crc f best && is_valid crc f) ≡ false
      → Covers r f
  unfolding AtLeast Covers
  Covers-kept f none none above e = e
  Covers-kept f none (some r) above e = ground arith
  Covers-kept f (some b) none above e = absurd above
  Covers-kept f (some b) (some r) above e = ground arith

  Covers-taken :
      (f : SnapFile) (best r : Option SnapFile)
      → AtLeast (some f) r
      → (is_later crc f best && is_valid crc f) ≡ true
      → AtLeast best r × Covers r f
  unfolding AtLeast Covers
  Covers-taken f best none above e = absurd above
  Covers-taken f none (some r) above e = (tt, ground arith)
  Covers-taken f (some b) (some r) above e = (ground arith, ground arith)

  latest_from-Covers :
      (best : Option SnapFile) (files : List SnapFile)
      → IsValidChoice best
      → IsValidChoice (latest_from crc best files)
        × AtLeast best (latest_from crc best files)
        × AllCovered (latest_from crc best files) files
  unfolding latest_from
  latest_from-Covers best [] v = (v, AtLeast-refl best, tt)
  latest_from-Covers best (f ∷ files) v =
      elim (Bool-cases (is_later crc f best && is_valid crc f)) [
        | inl taken ↦
            let (valid, above, all) =
              latest_from-Covers (some f) files
                (second_of (is_later crc f best) (is_valid crc f) taken) in
            let (kept, covered) =
              Covers-taken f best (latest_from crc (some f) files) above taken in
            subst (λ r. IsValidChoice r × AtLeast best r × AllCovered r (f ∷ files))
              (sym (ap (λ b. latest_from crc (if b then some f else best) files) taken))
              (valid, kept, (covered, all))
        | inr passed ↦
            let (valid, above, all) = latest_from-Covers best files v in
            subst (λ r. IsValidChoice r × AtLeast best r × AllCovered r (f ∷ files))
              (sym (ap (λ b. latest_from crc (if b then some f else best) files) passed))
              (valid, above, (Covers-kept f best (latest_from crc best files) above passed, all))
      ]

  -- `Latest` chooses a file that `Read` accepts with the number of its name, and none that is accepted
  -- has a greater number; it chooses none only if no file is accepted.
  pub latest-IsLatest : (files : List SnapFile) → IsLatest (latest crc files) files
  unfolding latest IsLatest
  latest-IsLatest files = let (valid, above, all) = latest_from-Covers none files tt in (valid, all)
