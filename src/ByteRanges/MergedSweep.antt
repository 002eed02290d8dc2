-- ===== src/ByteRanges/MergedSweep.antt =====
-- Sweeping the merged points of two sets: `Merge` says what `merged` yields for two alternating lists.
use realize.Prelude.{ℕ, suc, ◌+◌, ◌<◌, ◌≤◌, Bool, not, ◌≡◌, refl, [], ◌∷◌, arith, leb}
use realize.Prelude.Table.{Table}
use realize.ByteRanges.{Point}
use realize.ByteRanges.Covers.{opens, covers_from, Alternates, Alternates-mono}
use realize.ByteRanges.Sweep.{
  bit, after, sweep, Bounded, sweep_before, sweep_after, sweep_nil, sweep-Alternates,
  sweep-Alternates_twice,
}

-- `Merge fa fb sa sb lo a b m`: two lists alternating from the states `sa` and `sb` to `fa` and `fb`
-- are merged to `m`.
pub data Merge (fa fb : Bool)
    : Bool → Bool → ℕ → Table Point → Table Point → Table Point → Type 0 where
  stop : {sa sb : Bool} {lo : ℕ} → sa ≡ fa → sb ≡ fb → Merge fa fb sa sb lo [] [] []
  left :
      {sa sb : Bool} {lo k : ℕ} {p : Point} {a b m : Table Point}
      → lo ≤ k
      → opens p ≡ not sa
      → Merge fa fb (not sa) sb (suc k) a b m
      → Merge fa fb sa sb lo ((k, p) ∷ a) b ((k, p) ∷ m)
  right :
      {sa sb : Bool} {lo k : ℕ} {p : Point} {a b m : Table Point}
      → lo ≤ k
      → opens p ≡ not sb
      → Merge fa fb sa (not sb) (suc k) a b m
      → Merge fa fb sa sb lo a ((k, p) ∷ b) ((k, p) ∷ m)
  both :
      {sa sb : Bool} {lo k : ℕ} {p : Point} {a b m : Table Point}
      → lo ≤ k
      → opens p ≡ not sa
      → opens p ≡ not sb
      → Merge fa fb (not sa) (not sb) (suc k) a b m
      → Merge fa fb sa sb lo ((k, p) ∷ a) ((k, p) ∷ b) ((k, p) ∷ (k, p) ∷ m)
  skip :
      {sa sb : Bool} {lo k : ℕ} {p q : Point} {a b m : Table Point}
      → lo ≤ k
      → opens p ≡ not sa
      → opens q ≡ not sb
      → opens p ≡ not (opens q)
      → Merge fa fb (not sa) (not sb) (suc k) a b m
      → Merge fa fb sa sb lo ((k, p) ∷ a) ((k, q) ∷ b) m

skip_bits : (sa sb : Bool) → sa ≡ not sb → bit sa + bit sb ≡ bit (not sa) + bit (not sb)
skip_bits sa sb h = ground arith

after_left :
    (p : Point) (sa sb : Bool)
    → opens p ≡ not sa
    → after p (bit sa + bit sb) ≡ bit (not sa) + bit sb
after_left Point.start sa sb h = ground arith
after_left Point.end sa sb h = ground arith

after_right :
    (p : Point) (sa sb : Bool)
    → opens p ≡ not sb
    → after p (bit sa + bit sb) ≡ bit sa + bit (not sb)
after_right Point.start sa sb h = ground arith
after_right Point.end sa sb h = ground arith

module _ {fa fb : Bool} where
  Merge-below :
      {sa sb : Bool} {lo : ℕ} {a b m : Table Point} (x : ℕ)
      → Merge fa fb sa sb lo a b m
      → x < lo
      → (covers_from sa a x ≡ sa) × (covers_from sb b x ≡ sb)
  unfolding covers_from
  Merge-below x (stop e f) h = (refl, refl)
  Merge-below x (left l e r) h = ground (arith, Merge-below x r)
  Merge-below x (right l e r) h = ground (arith, Merge-below x r)
  Merge-below x (both l e f r) h = ground arith
  Merge-below x (skip l e f g r) h = ground arith

  -- The swept points cover what at least `t` of the two lists cover.
  pub Merge-covers :
      {sa sb : Bool} {lo : ℕ} {a b m : Table Point} (t x : ℕ)
      → 0 < t
      → Merge fa fb sa sb lo a b m
      → covers_from (leb t (bit sa + bit sb)) (sweep t (bit sa + bit sb) m) x
        ≡ leb t (bit (covers_from sa a x) + bit (covers_from sb b x))
  unfolding covers_from
  Merge-covers t x h (stop {sa} {sb} e f) = rw (sweep_nil t (bit sa + bit sb))
  Merge-covers t x h (left {sa} {sb} {k = k} {p = p} {m = m} l e r) = ground (
    arith,
    after_left p sa sb e,
    sweep_before t (bit sa + bit sb) k x p m,
    sweep_after t (bit sa + bit sb) k x p m,
    Merge-covers t x h r,
    Merge-below x r,
  )
  Merge-covers t x h (right {sa} {sb} {k = k} {p = p} {m = m} l e r) = ground (
    arith,
    after_right p sa sb e,
    sweep_before t (bit sa + bit sb) k x p m,
    sweep_after t (bit sa + bit sb) k x p m,
    Merge-covers t x h r,
    Merge-below x r,
  )
  Merge-covers t x h (both {sa} {sb} {k = k} {p = p} {m = m} l e f r) = ground (
    arith,
    after_left p sa sb e,
    after_right p (not sa) sb f,
    sweep_before t (bit sa + bit sb) k x p ((k, p) ∷ m),
    sweep_after t (bit sa + bit sb) k x p ((k, p) ∷ m),
    sweep_before t (bit (not sa) + bit sb) k x p m,
    sweep_after t (bit (not sa) + bit sb) k x p m,
    Merge-covers t x h r,
    Merge-below x r,
  )
  Merge-covers t x h (skip {sa} {sb} l e f g r) =
      ground (arith, Merge-covers t x h r, Merge-below x r)

  -- The swept points alternate.
  pub Merge-Alternates :
      {sa sb : Bool} {lo : ℕ} {a b m : Table Point} (t : ℕ)
      → 0 < t
      → Merge fa fb sa sb lo a b m
      → Alternates
          (leb t (bit fa + bit fb))
          (leb t (bit sa + bit sb))
          lo
          (sweep t (bit sa + bit sb) m)
  Merge-Alternates t h (stop {sa} {sb} e f) = rw (sweep_nil t (bit sa + bit sb)) (cc)
  Merge-Alternates t h (left {sa} {sb} {lo} {k} {p} {m = m} l e r) =
      sweep-Alternates (bit fa + bit fb) t (bit sa + bit sb) lo k p m l (ground arith)
        (rw (after_left p sa sb e) (Merge-Alternates t h r))
  Merge-Alternates t h (right {sa} {sb} {lo} {k} {p} {m = m} l e r) =
      sweep-Alternates (bit fa + bit fb) t (bit sa + bit sb) lo k p m l (ground arith)
        (rw (after_right p sa sb e) (Merge-Alternates t h r))
  Merge-Alternates t h (both {sa} {sb} {lo} {k} {p} {m = m} l e f r) =
      sweep-Alternates_twice (bit fa + bit fb) t (bit sa + bit sb) lo k p m l (ground arith)
        (ground (arith, after_left p sa sb e))
        (rw (after_left p sa sb e, after_right p (not sa) sb f) (Merge-Alternates t h r))
  Merge-Alternates t h (skip {sa} {sb} {lo} {k} {m = m} l e f g r) =
      Alternates-mono _ _ (suc k) lo (sweep t (bit sa + bit sb) m) (omega arith)
        (rw (skip_bits sa sb (ground arith)) (Merge-Alternates t h r))

  pub Merge-Bounded :
      {sa sb : Bool} {lo : ℕ} {a b m : Table Point}
      → Merge fa fb sa sb lo a b m
      → Bounded (bit fa + bit fb) (bit sa + bit sb) m
  Merge-Bounded (stop e f) = cc
  Merge-Bounded (left {sa} {sb} {p = p} l e r) =
      (ground arith, ground arith, rw (after_left p sa sb e) (Merge-Bounded r))
  Merge-Bounded (right {sa} {sb} {p = p} l e r) =
      (ground arith, ground arith, rw (after_right p sa sb e) (Merge-Bounded r))
  Merge-Bounded (both {sa} {sb} {p = p} l e f r) = (
    ground arith,
    ground arith,
    (
      ground (arith, after_left p sa sb e),
      ground (arith, after_left p sa sb e),
      (rw (after_left p sa sb e, after_right p (not sa) sb f) (Merge-Bounded r)),
    ),
  )
  Merge-Bounded (skip {sa} {sb} l e f g r) = rw (skip_bits sa sb (ground arith)) (Merge-Bounded r)
