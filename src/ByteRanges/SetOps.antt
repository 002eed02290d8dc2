-- ===== src/ByteRanges/SetOps.antt =====
-- `union`, `intersection` and `subtraction` against the sets of bytes that they stand for.
use realize.Prelude.{
  ℕ, suc, ◌+◌, ◌<◌, Bool, true, false, not, ◌&&◌, ◌||◌, ◌≡◌, refl, inr, ap, ◌∙◌, [], ◌∷◌, arith,
  leb,
}
use realize.Prelude.Table.{Table}
use realize.ByteRanges.{
  Point, ByteRanges, is_empty, merged, reversed, reverse, union_loop, union, intersection_loop,
  intersection, subtraction_loop, subtraction,
}
use realize.ByteRanges.Covers.{opens, covers_from, covers, Alternates, IsValid, Alternates-IsSorted}
use realize.ByteRanges.Sweep.{bit, sweep, Bounded}
use realize.ByteRanges.MergedSweep.{Merge-covers, Merge-Alternates, Merge-Bounded}
use realize.ByteRanges.Merging.{merged-Merge}
use realize.ByteRanges.Loops.{
  gather, gather-sweep, swept, union_loop-gather, intersection_loop-gather, subtraction_loop-gather,
}

-- Two lists that alternate from `fa` to `fa` and from `fb` to `fb`, merged and swept.
module _ (t : ℕ) (pos : 0 < t) (fa fb : Bool) (a b : Table Point) (wa : Alternates fa fa 0 a)
    (wb : Alternates fb fb 0 b) where
  merged-Bounded : Bounded (bit fa + bit fb) (bit fa + bit fb) (merged a b)
  merged-Bounded = Merge-Bounded (merged-Merge fa fb fa fb 0 a b wa wb)

  sweep-merged-Alternates :
      Alternates
        (leb t (bit fa + bit fb))
        (leb t (bit fa + bit fb))
        0
        (sweep t (bit fa + bit fb) (merged a b))
  sweep-merged-Alternates = Merge-Alternates t pos (merged-Merge fa fb fa fb 0 a b wa wb)

  gather-eq-sweep :
      gather t (merged a b) [] (bit fa + bit fb) ≡ sweep t (bit fa + bit fb) (merged a b)
  gather-eq-sweep =
      gather-sweep t 0 (bit fa + bit fb) (merged a b) []
        (Alternates-IsSorted _ _ 0 _ sweep-merged-Alternates) tt

  gather-Alternates :
      Alternates
        (leb t (bit fa + bit fb))
        (leb t (bit fa + bit fb))
        0
        (gather t (merged a b) [] (bit fa + bit fb))
  gather-Alternates = rw gather-eq-sweep sweep-merged-Alternates

  gather-covers :
      (x : ℕ)
      → covers_from (leb t (bit fa + bit fb)) (gather t (merged a b) [] (bit fa + bit fb)) x
        ≡ leb t (bit (covers_from fa a x) + bit (covers_from fb b x))
  gather-covers x = rw gather-eq-sweep (Merge-covers t x pos (merged-Merge fa fb fa fb 0 a b wa wb))

at_least_one : (p q : Bool) → leb 1 (bit p + bit q) ≡ (p || q)
at_least_one p q = ground arith

at_least_two : (p q : Bool) → leb 2 (bit p + bit q) ≡ (p && q)
at_least_two p q = ground arith

-- The `debug_assert!`s of the two loops hold, and the final depth is 0.
module _ (a b : Table Point) (wa : Alternates false false 0 a)
    (wb : Alternates false false 0 b) where
  union_run : union_loop (merged a b) [] 0 true ≡ swept (gather 1 (merged a b) [] 0) 0 true
  union_run =
      union_loop-gather 0 0 true (merged a b) []
        (merged-Bounded 1 (omega arith) false false a b wa wb)

  intersection_run :
      intersection_loop (merged a b) [] 0 true ≡ swept (gather 2 (merged a b) [] 0) 0 true
  intersection_run =
      intersection_loop-gather 0 0 true (merged a b) []
        (merged-Bounded 2 (omega arith) false false a b wa wb)

-- `r` is valid and covers the byte `x` exactly when `f x` is true.
pub record Represents (r : ByteRanges) (f : ℕ → Bool) : Type 0 where
  pub valid : IsValid r
  pub same : (x : ℕ) → covers r x ≡ f x

union_points :
    (a b : Table Point)
    → Alternates false false 0 a
    → Alternates false false 0 b
    → Represents
        (union (record { btree = a }) (record { btree = b }))
        (λ x. covers_from false a x || covers_from false b x)
unfolding union covers is_empty covers_from
union_points [] b wa wb = record { valid = wb; same = λ x. refl }
union_points (p ∷ a) b wa wb = record {
  valid =
      rw (union_run (p ∷ a) b wa wb)
        (gather-Alternates 1 (omega arith) false false (p ∷ a) b wa wb);
  same = λ x.
      rw (union_run (p ∷ a) b wa wb)
        (gather-covers 1 (omega arith) false false (p ∷ a) b wa wb x ∙ at_least_one _ _);
}

-- The union of two valid sets is valid, and covers exactly the bytes that one of them covers.
pub union_lem :
    (a b : ByteRanges)
    → IsValid a
    → IsValid b
    → Represents (union a b) (λ x. covers a x || covers b x)
unfolding covers
union_lem a b wa wb = union_points a.btree b.btree wa wb

intersection_points :
    (a b : Table Point)
    → Alternates false false 0 a
    → Alternates false false 0 b
    → Represents
        (intersection (record { btree = a }) (record { btree = b }))
        (λ x. covers_from false a x && covers_from false b x)
unfolding intersection covers covers_from
intersection_points [] b wa wb = record { valid = refl; same = λ x. refl }
intersection_points (p ∷ a) [] wa wb = record { valid = refl; same = λ x. ground arith }
intersection_points (p ∷ a) (q ∷ b) wa wb = record {
  valid =
      rw (intersection_run (p ∷ a) (q ∷ b) wa wb)
        (gather-Alternates 2 (omega arith) false false (p ∷ a) (q ∷ b) wa wb);
  same = λ x.
      rw (intersection_run (p ∷ a) (q ∷ b) wa wb)
        (gather-covers 2 (omega arith) false false (p ∷ a) (q ∷ b) wa wb x ∙ at_least_two _ _);
}

-- The intersection of two valid sets is valid, and covers exactly the bytes that both cover.
pub intersection_lem :
    (a b : ByteRanges)
    → IsValid a
    → IsValid b
    → Represents (intersection a b) (λ x. covers a x && covers b x)
unfolding covers
intersection_lem a b wa wb = intersection_points a.btree b.btree wa wb

opens-reverse : (p : Point) → opens (reverse p) ≡ not (opens p)
unfolding reverse
opens-reverse Point.start = refl
opens-reverse Point.end = refl

reversed-Alternates :
    (fin inside : Bool) (lo : ℕ) (t : Table Point)
    → Alternates fin inside lo t
    → Alternates (not fin) (not inside) lo (reversed t)
unfolding reversed
reversed-Alternates fin inside lo [] w = ap not w
reversed-Alternates fin inside lo ((k, p) ∷ t) w =
    (w.0, opens-reverse p ∙ ap not w.1, reversed-Alternates fin (not inside) (suc k) t w.2)

covers-reversed :
    (inside : Bool) (t : Table Point) (x : ℕ)
    → covers_from (not inside) (reversed t) x ≡ not (covers_from inside t x)
unfolding reversed covers_from
covers-reversed inside [] x = refl
covers-reversed inside ((k, p) ∷ t) x =
    ground (arith, opens-reverse p, covers-reversed (opens p) t x)

subtraction_run :
    (a b : Table Point)
    → Alternates false false 0 a
    → Alternates true true 0 b
    → subtraction_loop (merged a b) [] 1 false true ≡ swept (gather 2 (merged a b) [] 1) 1 true
subtraction_run a b wa wb =
    subtraction_loop-gather 1 1 false true (merged a b) [] (inr (omega arith))
      (merged-Bounded 2 (omega arith) false true a b wa wb)

-- The subtraction of two valid sets is valid, and covers exactly the bytes that the first covers
-- and the second does not.
pub subtraction_lem :
    (a b : ByteRanges)
    → IsValid a
    → IsValid b
    → Represents (subtraction a b) (λ x. covers a x && not (covers b x))
unfolding subtraction covers
subtraction_lem a b wa wb =
    let flipped = reversed-Alternates false false 0 b.btree wb in
    let run = subtraction_run a.btree (reversed b.btree) wa flipped in
    record {
      valid =
          rw run
            (gather-Alternates 2 (omega arith) false true a.btree (reversed b.btree) wa flipped);
      same = λ x. rw run (
          gather-covers 2 (omega arith) false true a.btree (reversed b.btree) wa flipped x
          ∙ at_least_two _ _
          ∙ ap (λ c. covers_from false a.btree x && c) (covers-reversed false b.btree x));
    }

-- For valid sets no `debug_assert!` of the three loops fails: the depth stays from 0 to 2 after
-- every point, and ends at 0, or at 1 for the subtraction.
pub asserts_hold :
    (a b : ByteRanges)
    → IsValid a
    → IsValid b
    → let u = union_loop (merged a.btree b.btree) [] 0 true in
      let i = intersection_loop (merged a.btree b.btree) [] 0 true in
      let s = subtraction_loop (merged a.btree (reversed b.btree)) [] 1 false true in
      ((u.held ≡ true) × (u.depth ≡ 0))
      × ((i.held ≡ true) × (i.depth ≡ 0))
      × ((s.held ≡ true) × (s.depth ≡ 1))
asserts_hold a b wa wb =
    let run =
      subtraction_run a.btree (reversed b.btree) wa
        (reversed-Alternates false false 0 b.btree wb) in
    (
      (rw (union_run a.btree b.btree wa wb), rw (union_run a.btree b.btree wa wb)),
      (rw (intersection_run a.btree b.btree wa wb), rw (intersection_run a.btree b.btree wa wb)),
      (rw run, rw run),
    )
