-- ===== src/ByteRanges/Merging.antt =====
-- The items that the `Merged` iterator yields for two lists of alternating points.
use realize.Prelude.{ℕ, suc, ◌<◌, Bool, not, ◌≡◌, refl, [], ◌∷◌, arith, ◌⊎◌, inl, inr, lt_eq_gt}
use realize.Prelude.Table.{Table}
use realize.ByteRanges.{Point, merged}
use realize.ByteRanges.Covers.{opens, Alternates}
use realize.ByteRanges.MergedSweep.{Merge, stop, left, right, both, skip}

merged-nil : (a : Table Point) → merged a [] ≡ a
unfolding merged
merged-nil [] = refl
merged-nil (p ∷ a) = refl

merged-nil_left : (b : Table Point) → merged [] b ≡ b
unfolding merged
merged-nil_left b = refl

merged_lt :
    (x y : ℕ) (p q : Point) (a b : Table Point)
    → x < y
    → merged ((x, p) ∷ a) ((y, q) ∷ b) ≡ (x, p) ∷ merged a ((y, q) ∷ b)
unfolding merged
merged_lt x y p q a b h = ground arith

merged_gt :
    (x y : ℕ) (p q : Point) (a b : Table Point)
    → y < x
    → merged ((x, p) ∷ a) ((y, q) ∷ b) ≡ (y, q) ∷ merged ((x, p) ∷ a) b
unfolding merged
merged_gt x y p q a b h = ground arith

merged_skip :
    (x : ℕ) (p q : Point) (a b : Table Point)
    → opens p ≡ not (opens q)
    → merged ((x, p) ∷ a) ((x, q) ∷ b) ≡ merged a b
unfolding merged
merged_skip x Point.start Point.start a b h = cc
merged_skip x Point.start Point.end a b h = ground arith
merged_skip x Point.end Point.start a b h = ground arith
merged_skip x Point.end Point.end a b h = cc

merged_above :
    (fb inside : Bool) (x : ℕ) (p : Point) (a b : Table Point)
    → Alternates fb inside (suc x) b
    → merged ((x, p) ∷ a) b ≡ (x, p) ∷ merged a b
unfolding merged
merged_above fb inside x p a [] w = simp merged-nil
merged_above fb inside x p a ((y, q) ∷ b) w = merged_lt x y p q a b w.0

merged_both :
    (fb inside : Bool) (x : ℕ) (p : Point) (a b : Table Point)
    → Alternates fb inside (suc x) b
    → merged ((x, p) ∷ a) ((x, p) ∷ b) ≡ (x, p) ∷ (x, p) ∷ merged a b
unfolding merged
merged_both fb inside x Point.start a b w =
    ground (arith, merged_above fb inside x Point.start a b w)
merged_both fb inside x Point.end a b w = ground (arith, merged_above fb inside x Point.end a b w)

point_cases : (p q : Point) → (q ≡ p) ⊎ (opens p ≡ not (opens q))
point_cases Point.start Point.start = inl refl
point_cases Point.start Point.end = inr refl
point_cases Point.end Point.start = inr refl
point_cases Point.end Point.end = inl refl

-- Two alternating lists from the same place on are merged.
pub merged-Merge :
    (fa fb sa sb : Bool) (lo : ℕ) (a b : Table Point)
    → Alternates fa sa lo a
    → Alternates fb sb lo b
    → Merge fa fb sa sb lo a b (merged a b)
merged-Merge fa fb sa sb lo [] [] v w = rw merged-nil (stop v w)
merged-Merge fa fb sa sb lo [] ((y, q) ∷ b) v w =
    rw merged-nil_left
      (right w.0 w.1 (rw merged-nil_left at (merged-Merge fa fb sa (not sb) (suc y) [] b v w.2)))
merged-Merge fa fb sa sb lo ((x, p) ∷ a) [] v w =
    rw merged-nil
      (left v.0 v.1 (rw merged-nil at (merged-Merge fa fb (not sa) sb (suc x) a [] v.2 w)))
merged-Merge fa fb sa sb lo ((x, p) ∷ a) ((y, q) ∷ b) v w = elim (lt_eq_gt x y) [
  | inl h ↦
      rw (merged_lt x y p q a b h)
        (left v.0 v.1 (merged-Merge fa fb (not sa) sb (suc x) a ((y, q) ∷ b) v.2 (h, w.1, w.2)))
  | inr (inr h) ↦
      rw (merged_gt x y p q a b h)
        (right w.0 w.1 (merged-Merge fa fb sa (not sb) (suc y) ((x, p) ∷ a) b (h, v.1, v.2) w.2))
  | inr (inl e) ↦
      let rest = merged-Merge fa fb (not sa) (not sb) (suc x) a b v.2 (rw (← e) at w.2) in
      rw (← e) (elim (point_cases p q) [
        | inl s ↦
            rw (s, merged_both fb (not sb) x p a b (rw (← e) at w.2))
              (both v.0 v.1 (rw s at w.1) rest)
        | inr d ↦ rw (merged_skip x p q a b d) (skip v.0 v.1 w.1 d rest)
      ])
]
