-- ===== src/ByteRanges/Canonical.antt =====
-- The representation is canonical, so the derived `==` compares sets of bytes; and the iterator
-- lists the maximal runs of the set in order.
use realize.Prelude.{
  ℕ, suc, ◌+◌, ◌<◌, ◌≤◌, Bool, true, false, not, ◌||◌, ◌≡◌, refl, sym, ap, ◌∙◌, List, [], ◌∷◌,
  length, arith, any, inl, inr, lt_eq_gt,
}
use realize.Prelude.Table.{Table}
use realize.ByteRange
use realize.ByteRange.{ByteRange}
use realize.ByteRanges.{Point, ByteRanges, is_empty, len, points_iter, as_vec, from_ranges, extend}
use realize.ByteRanges.Covers.{opens, covers_from, covers, Alternates, IsValid, covers_from_below}
use realize.ByteRanges.SetOps.{Represents}
use realize.ByteRanges.Add.{from_ranges_lem, foldl-add}

covers_at :
    (inside fin : Bool) (k : ℕ) (p : Point) (t : Table Point)
    → opens p ≡ not inside
    → Alternates fin (not inside) (suc k) t
    → covers_from inside ((k, p) ∷ t) k ≡ not inside
unfolding covers_from
covers_at inside fin k p t e w = ground (arith, covers_from_below fin (not inside) (suc k) k t)

opens-injective : (p q : Point) → opens p ≡ opens q → p ≡ q
opens-injective Point.start Point.start e = refl
opens-injective Point.start Point.end e = cc
opens-injective Point.end Point.start e = cc
opens-injective Point.end Point.end e = refl

not_same : (b : Bool) → b ≡ not b → ⊥
not_same true e = cc
not_same false e = cc

tail_same :
    (fin inside : Bool) (k : ℕ) (p q : Point) (a b : Table Point)
    → Alternates fin (not inside) (suc k) a
    → Alternates fin (not inside) (suc k) b
    → opens p ≡ not inside
    → opens q ≡ not inside
    → (x : ℕ) → covers_from inside ((k, p) ∷ a) x ≡ covers_from inside ((k, q) ∷ b) x
    → covers_from (not inside) a x ≡ covers_from (not inside) b x
unfolding covers_from
tail_same fin inside k p q a b v w e f x h = ground (
  arith,
  covers_from_below fin (not inside) (suc k) x a,
  covers_from_below fin (not inside) (suc k) x b,
)

points_unique :
    (fin inside : Bool) (lo : ℕ) (a b : Table Point)
    → Alternates fin inside lo a
    → Alternates fin inside lo b
    → ((x : ℕ) → covers_from inside a x ≡ covers_from inside b x)
    → a ≡ b
unfolding covers_from
points_unique fin inside lo [] [] v w h = refl
points_unique fin inside lo [] ((k, q) ∷ b) v w h =
    absurd (not_same inside (h k ∙ covers_at inside fin k q b w.1 w.2))
points_unique fin inside lo ((k, p) ∷ a) [] v w h =
    absurd (not_same inside (sym (h k) ∙ covers_at inside fin k p a v.1 v.2))
points_unique fin inside lo ((j, p) ∷ a) ((k, q) ∷ b) v w h = elim (lt_eq_gt j k) [
  | inl l ↦ absurd (
      not_same inside (
        sym (covers_from_below fin inside (suc j) j ((k, q) ∷ b) (omega arith) (l, w.1, w.2))
        ∙ sym (h j)
        ∙ covers_at inside fin j p a v.1 v.2))
  | inr (inr l) ↦ absurd (
      not_same inside (
        sym (covers_from_below fin inside (suc k) k ((j, p) ∷ a) (omega arith) (l, v.1, v.2))
        ∙ h k
        ∙ covers_at inside fin k q b w.1 w.2))
  | inr (inl e) ↦
      let v' = rw e at v.2 in
      let rest =
        points_unique fin (not inside) (suc k) a b v' w.2
          (λ x. tail_same fin inside k p q a b v' w.2 v.1 w.1 x (rw e at (h x))) in
      cc (e, opens-injective p q (v.1 ∙ sym w.1), rest)
]

-- Two valid sets that cover the same bytes are equal.
pub covers-injective :
    (a b : ByteRanges) → IsValid a → IsValid b → ((x : ℕ) → covers a x ≡ covers b x) → a ≡ b
unfolding covers
covers-injective a b v w h =
    ap (λ t. record { btree = t }) (points_unique false false 0 a.btree b.btree v w h)

-- The ranges follow one another from `lo` on; none is empty, and two of them never touch.
abbrev pub Separated : ℕ → List ByteRange → Type 0
Separated lo [] = Unit
Separated lo (r ∷ rs) = (lo ≤ r.start) × (r.start < r.end) × Separated (suc r.end) rs

record Lists (lo : ℕ) (t : Table Point) (rs : List ByteRange) : Type 0 where
  separated : Separated lo rs
  same : (x : ℕ) → any (λ r. ByteRange.contains r x) rs ≡ covers_from false t x
  count : length t ≡ length rs + length rs

covers_run :
    (k j x : ℕ) (t : Table Point)
    → k < j
    → (x < suc j → covers_from false t x ≡ false)
    → covers_from false ((k, Point.start) ∷ (j, Point.end) ∷ t) x
      ≡ (ByteRange.contains (ByteRange.new k j) x || covers_from false t x)
unfolding covers_from ByteRange.contains ByteRange.new
covers_run k j x t h below = ground arith

points_iter-Lists :
    (lo : ℕ) (t : Table Point) → Alternates false false lo t → Lists lo t (points_iter t)
unfolding points_iter covers_from ByteRange.new
points_iter-Lists lo [] w = record { separated = tt; same = λ x. refl; count = refl }
points_iter-Lists lo ((k, Point.end) ∷ t) w = cc
points_iter-Lists lo ((k, Point.start) ∷ []) w = cc
points_iter-Lists lo ((k, Point.start) ∷ (j, Point.start) ∷ t) w = cc
points_iter-Lists lo ((k, Point.start) ∷ (j, Point.end) ∷ t) w =
    let rest = points_iter-Lists (suc j) t w.2.2 in
    record {
      separated = (w.0, w.2.0, rest.separated);
      same = λ x.
          ap (λ c. ByteRange.contains (ByteRange.new k j) x || c) (rest.same x)
          ∙ sym (covers_run k j x t w.2.0 (λ h. covers_from_below false false (suc j) x t h w.2.2));
      count = omega (arith, rest.count);
    }

-- The iterator over a valid set yields ranges that are not empty, increase and never touch; they
-- contain exactly the bytes of the set, and there are `len` of them.
pub as_vec_lem :
    (b : ByteRanges)
    → IsValid b
    → Separated 0 (as_vec b)
      × ((x : ℕ) → any (λ r. ByteRange.contains r x) (as_vec b) ≡ covers b x)
      × (len b ≡ length (as_vec b))
unfolding as_vec covers len
as_vec_lem b w =
    let lists = points_iter-Lists 0 b.btree w in
    (lists.separated, lists.same, omega (arith, lists.count))

-- Building a set again from the ranges of a valid set gives the same set.
pub from_ranges-as_vec : (b : ByteRanges) → IsValid b → from_ranges (as_vec b) ≡ b
from_ranges-as_vec b w =
    let built = from_ranges_lem (as_vec b) in
    covers-injective (from_ranges (as_vec b)) b built.valid w
      (λ x. built.same x ∙ (as_vec_lem b w).1 x)

extend_points :
    (a b : Table Point)
    → Alternates false false 0 a
    → IsValid (record { btree = b })
    → Represents
        (extend (record { btree = a }) (record { btree = b }))
        (λ x. covers (record { btree = a }) x || covers (record { btree = b }) x)
unfolding extend is_empty covers covers_from
extend_points [] b v w = record { valid = w; same = λ x. refl }
extend_points (p ∷ a) b v w =
    let added = foldl-add (as_vec (record { btree = b })) (record { btree = p ∷ a }) v in
    record {
      valid = added.valid;
      same = λ x.
          added.same x
          ∙ ap (λ c. covers (record { btree = p ∷ a }) x || c)
              ((as_vec_lem (record { btree = b }) w).1 x);
    }

-- Extending a valid set by another one leaves a valid set, which covers the bytes of both.
pub extend_lem :
    (a b : ByteRanges)
    → IsValid a
    → IsValid b
    → Represents (extend a b) (λ x. covers a x || covers b x)
extend_lem a b v w = extend_points a.btree b.btree v w
