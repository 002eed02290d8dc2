-- ===== src/ByteRanges/Lookup.antt =====
-- `containing_range`: the maximal run of covered bytes around an offset.
use realize.Prelude.{
  ℕ, suc, ◌+◌, ◌<◌, ◌≤◌, Bool, true, false, not, ◌≡◌, refl, sym, ap, ◌∙◌, Option, none, some, [],
  ◌∷◌, arith, inl, inr, le_or_lt,
}
use realize.Prelude.Table.{Table, last_lt, first_ge}
use realize.ByteRange.{ByteRange, u64_mod, add64, new}
use realize.ByteRanges.{Point, ByteRanges, range_between, containing_range}
use realize.ByteRanges.Covers.{opens, covers_from, covers, Alternates, IsValid, covers_from_below}

-- `r` is a run of the set `f` around `x`: all its bytes are in the set, and the bytes just before
-- and just after it are not.
pub record IsRun (f : ℕ → Bool) (x : ℕ) (r : ByteRange) : Type 0 where
  pub starts : r.start ≤ x
  pub ends : x < r.end
  pub inside : (y : ℕ) → r.start ≤ y → y < r.end → f y ≡ true
  pub after : f r.end ≡ false
  pub before : (y : ℕ) → suc y ≡ r.start → f y ≡ false

-- The last entry up to the offset, or else the one that came before the list.
abbrev or_else : Option (ℕ × Point) → Option (ℕ × Point) → Option (ℕ × Point)
or_else none d = d
or_else (some e) d = some e

pick : Option (ℕ × Point) → ℕ → Table Point → Option ByteRange
pick prev x t = range_between (or_else (last_lt (suc x) t) prev) (first_ge (suc x) t)

-- The list after an entry, seen from the offset on.
pick_after :
    (x k : ℕ) (p : Point) (t : Table Point) (prev : Option (ℕ × Point))
    → k ≤ x
    → pick prev x ((k, p) ∷ t) ≡ pick (some (k, p)) x t
unfolding pick last_lt first_ge
pick_after x k p t prev h = ground arith

-- The offset lies between two entries.
pick_between :
    (x s k : ℕ) (p q : Point) (t : Table Point)
    → x < k
    → pick (some (s, p)) x ((k, q) ∷ t) ≡ range_between (some (s, p)) (some (k, q))
unfolding pick last_lt first_ge
pick_between x s k p q t h = ground arith

covers_from_after :
    (inside : Bool) (k x : ℕ) (p : Point) (t : Table Point)
    → k ≤ x
    → covers_from inside ((k, p) ∷ t) x ≡ covers_from (opens p) t x
unfolding covers_from
covers_from_after inside k x p t h = ground arith

covers_from_before :
    (inside : Bool) (k x : ℕ) (p : Point) (t : Table Point)
    → x < k
    → covers_from inside ((k, p) ∷ t) x ≡ inside
unfolding covers_from
covers_from_before inside k x p t h = ground arith

outside_between :
    (s k : ℕ) (p q : Point) → opens p ≡ false → range_between (some (s, p)) (some (k, q)) ≡ none
unfolding range_between
outside_between s k Point.start q e = cc
outside_between s k Point.end q e = refl

-- Outside the set nothing is found.
pick-none :
    (s x : ℕ) (p : Point) (t : Table Point)
    → Alternates false (opens p) (suc s) t
    → covers_from (opens p) t x ≡ false
    → pick (some (s, p)) x t ≡ none
pick-none s x Point.start [] w c = cc
pick-none s x Point.end [] w c = unfold pick last_lt first_ge range_between in refl
pick-none s x p ((k, q) ∷ t) w c = elim (le_or_lt k x) [
  | inl l ↦
      rw (pick_after x k q t (some (s, p)) l)
        (pick-none k x q t (rw (w.1) (w.2)) (sym (covers_from_after (opens p) k x q t l) ∙ c))
  | inr l ↦
      rw (pick_between x s k p q t l)
        (outside_between s k p q (sym (covers_from_before (opens p) k x q t l) ∙ c))
]

pub IsRun-eq :
    (f g : ℕ → Bool) (s x : ℕ) (r : ByteRange)
    → s < r.start
    → ((y : ℕ) → s ≤ y → f y ≡ g y)
    → IsRun f x r
    → IsRun g x r
IsRun-eq f g s x r h same run = record {
  starts = run.starts;
  ends = run.ends;
  inside = λ y a b. sym (same y (omega arith)) ∙ run.inside y a b;
  after = sym (same r.end (omega (arith, run.starts, run.ends))) ∙ run.after;
  before = λ y e. sym (same y (omega arith)) ∙ run.before y e;
}

-- The run between a start at `s` and an end at `k`.
IsRun-between :
    (s k x : ℕ) (t : Table Point)
    → s ≤ x
    → x < k
    → Alternates false false (suc k) t
    → IsRun (covers_from false ((s, Point.start) ∷ (k, Point.end) ∷ t)) x (new s k)
unfolding new covers_from
IsRun-between s k x t h l w = record {
  starts = h;
  ends = l;
  inside = λ y a b. ground arith;
  after = ground (arith, covers_from_below false false (suc k) k t);
  before = λ y e. ground arith;
}

covers-nil : (x : ℕ) → covers_from false [] x ≡ true → ⊥
unfolding covers_from
covers-nil x c = cc

not_swap : (a b : Bool) → a ≡ not b → not a ≡ b
not_swap a b e = ground arith

between :
    (s x k : ℕ) (p q : Point) (t : Table Point)
    → s ≤ x
    → x < k
    → Alternates false (opens p) (suc s) ((k, q) ∷ t)
    → opens p ≡ true
    → (r : ByteRange) × (pick (some (s, p)) x ((k, q) ∷ t) ≡ some r)
      × (s ≤ r.start)
      × IsRun (covers_from (not (opens p)) ((s, p) ∷ (k, q) ∷ t)) x r
between s x k Point.end q t h l w e = cc
between s x k Point.start Point.start t h l w e = cc
between s x k Point.start Point.end t h l w e = (
  new s k,
  (rw (pick_between x s k Point.start Point.end t l) (unfold range_between in refl)),
  (unfold new in omega arith),
  IsRun-between s k x t h l w.2,
)

pick-some :
    (s x : ℕ) (p : Point) (t : Table Point)
    → s ≤ x
    → Alternates false (opens p) (suc s) t
    → covers_from (opens p) t x ≡ true
    → (r : ByteRange) × (pick (some (s, p)) x t ≡ some r)
      × (s ≤ r.start)
      × IsRun (covers_from (not (opens p)) ((s, p) ∷ t)) x r
pick-some s x Point.start [] h w c = cc
pick-some s x Point.end [] h w c = absurd (covers-nil x c)
pick-some s x p ((k, q) ∷ t) h w c = elim (le_or_lt k x) [
  | inl l ↦
      let (r, run, above, is_run) =
        pick-some k x q t l (rw (w.1) (w.2)) (sym (covers_from_after (opens p) k x q t l) ∙ c) in
      (
        r,
        (rw (pick_after x k q t (some (s, p)) l) run),
        omega (arith, w.0),
        IsRun-eq (covers_from (not (opens q)) ((k, q) ∷ t))
            (covers_from (not (opens p)) ((s, p) ∷ (k, q) ∷ t)) s x r (omega (arith, w.0))
            (λ y a.
              ap (λ i. covers_from i ((k, q) ∷ t) y) (not_swap (opens q) (opens p) w.1)
              ∙ sym (covers_from_after (not (opens p)) s y p ((k, q) ∷ t) a))
            is_run,
      )
  | inr l ↦ between s x k p q t h l w (sym (covers_from_before (opens p) k x q t l) ∙ c)
]

or_else-none : (o : Option (ℕ × Point)) → o ≡ or_else o none
or_else-none none = refl
or_else-none (some e) = refl

add64-eq-suc : (x : ℕ) → x + 1 < u64_mod → add64 x 1 ≡ suc x
add64-eq-suc x h = omega arith

not_both : false ≡ true → ⊥
not_both e = cc

pick_nothing : (x k : ℕ) (p : Point) (t : Table Point) → x < k → pick none x ((k, p) ∷ t) ≡ none
unfolding pick last_lt range_between
pick_nothing x k p t h = ground arith

containing_range-pick :
    (b : ByteRanges) (x : ℕ) → x + 1 < u64_mod → containing_range b x ≡ pick none x b.btree
unfolding containing_range pick
containing_range-pick b x h =
    rw (add64-eq-suc x h) (
      ap (λ o. range_between o (first_ge (suc x) b.btree)) (or_else-none (last_lt (suc x) b.btree)))

pick_lem :
    (x : ℕ) (t : Table Point)
    → Alternates false false 0 t
    → (covers_from false t x ≡ true
        → (r : ByteRange) × (pick none x t ≡ some r) × IsRun (covers_from false t) x r)
      × (covers_from false t x ≡ false → pick none x t ≡ none)
pick_lem x [] w = ((λ c. absurd (covers-nil x c)), λ c. (unfold pick last_lt range_between in refl))
pick_lem x ((k, p) ∷ t) w = elim (le_or_lt k x) [
  | inl l ↦
      let after = sym (covers_from_after false k x p t l) in
      let flip = not_swap (opens p) false w.1 in
      (
        λ c.
            let (r, run, above, is_run) = pick-some k x p t l (rw (w.1) (w.2)) (after ∙ c) in
            (r, (rw (pick_after x k p t none l) run), (rw flip at is_run)),
        λ c. rw (pick_after x k p t none l) (pick-none k x p t (rw (w.1) (w.2)) (after ∙ c)),
      )
  | inr l ↦ (
    λ c. absurd (not_both (sym (covers_from_before false k x p t l) ∙ c)),
    λ c. (pick_nothing x k p t l),
  )
]

-- On a valid set and an offset below 2^64 - 1: if the set covers the offset, `containing_range`
-- returns the maximal run of covered bytes around it, and otherwise it returns nothing.
pub containing_range_lem :
    (b : ByteRanges) (x : ℕ)
    → IsValid b
    → x + 1 < u64_mod
    → (covers b x ≡ true → (r : ByteRange) × (containing_range b x ≡ some r) × IsRun (covers b) x r)
      × (covers b x ≡ false → containing_range b x ≡ none)
unfolding covers
containing_range_lem b x w h = rw (containing_range-pick b x h) (pick_lem x b.btree w)
