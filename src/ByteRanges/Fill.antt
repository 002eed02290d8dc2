-- ===== src/ByteRanges/Fill.antt =====
-- The points that `add_points` leaves: those outside the range, with a start and an end where they are
-- needed.
use realize.Prelude.{
  ℕ, suc, ◌<◌, ◌≤◌, Bool, true, false, not, ◌&&◌, ◌||◌, ◌≡◌, refl, ap, ◌∙◌, Option, none, some, [],
  ◌∷◌, arith, ltb, leb, if◌then◌else◌, inl, inr, le_or_lt,
}
use realize.Prelude.Table.{Table, IsSorted, IsSorted-mono, insert, last_lt, first_ge, range, remove}
use realize.ByteRange.{ByteRange}
use realize.ByteRanges.{Point, keys, remove_all, is_start, is_end, add_points}
use realize.ByteRanges.Covers.{
  opens, covers_from, Alternates, Alternates-IsSorted, Alternates-mono, covers_from_below,
}

-- The entries with keys outside `lo` to `hi`, without `hi`.
pub outside : ℕ → ℕ → Table Point → Table Point
outside lo hi [] = []
outside lo hi ((k, p) ∷ t) =
    let rest = outside lo hi t in if leb lo k && ltb k hi then rest else (k, p) ∷ rest

remove_all_above :
    (lo hi j : ℕ) (p : Point) (t u : Table Point)
    → IsSorted (suc j) t
    → remove_all (keys (range lo hi t)) ((j, p) ∷ u) ≡ (j, p) ∷ remove_all (keys (range lo hi t)) u
unfolding remove_all range remove
remove_all_above lo hi j p [] u s = refl
remove_all_above lo hi j p ((k, q) ∷ t) u s = ground (
  arith,
  remove_all_above lo hi j p t u,
  remove_all_above lo hi j p t (remove k u),
  IsSorted-mono (suc k) (suc j) t,
)

remove_all-range :
    (lo hi at_least : ℕ) (t : Table Point)
    → IsSorted at_least t
    → remove_all (keys (range lo hi t)) t ≡ outside lo hi t
unfolding remove_all range outside remove
remove_all-range lo hi at_least [] s = refl
remove_all-range lo hi at_least ((k, p) ∷ t) s =
    ground (arith, remove_all-range lo hi (suc k) t s.1, remove_all_above lo hi k p t t s.1)

-- The state before the key of the entry that `last_lt` looks for.
abbrev pub state : Bool → Option (ℕ × Point) → Bool
state inside none = inside
state inside (some (_, p)) = opens p

-- `add_points` after the removal, from any state.
pub fill : Bool → ℕ → ℕ → Table Point → Table Point
fill inside lo hi kept =
    let opened = if state inside (last_lt lo kept) then kept else insert lo Point.start kept in
    if is_end (first_ge hi opened) then opened else insert hi Point.end opened

pub state-is_start : (o : Option (ℕ × Point)) → state false o ≡ is_start o
unfolding is_start
state-is_start none = refl
state-is_start (some (k, Point.start)) = refl
state-is_start (some (k, Point.end)) = refl

fill_before :
    (inside : Bool) (lo hi k : ℕ) (p : Point) (kept : Table Point)
    → k < lo
    → lo < hi
    → fill inside lo hi ((k, p) ∷ kept) ≡ (k, p) ∷ fill (opens p) lo hi kept
unfolding fill last_lt first_ge insert
fill_before inside lo hi k p kept h l = ground arith

outside_drop :
    (lo hi k : ℕ) (p : Point) (t : Table Point)
    → lo ≤ k
    → k < hi
    → outside lo hi ((k, p) ∷ t) ≡ outside lo hi t
unfolding outside
outside_drop lo hi k p t h l = ground arith

outside_before :
    (lo hi k : ℕ) (p : Point) (t : Table Point)
    → k < lo
    → outside lo hi ((k, p) ∷ t) ≡ (k, p) ∷ outside lo hi t
unfolding outside
outside_before lo hi k p t h = ground arith

outside_above : (lo hi : ℕ) (t : Table Point) → IsSorted hi t → outside lo hi t ≡ t
unfolding outside
outside_above lo hi [] s = refl
outside_above lo hi ((k, p) ∷ t) s =
    ground (arith, outside_above lo hi t, IsSorted-mono (suc k) hi t)

covers_from_step :
    (inside : Bool) (k x : ℕ) (p : Point) (t : Table Point)
    → k ≤ x
    → covers_from inside ((k, p) ∷ t) x ≡ covers_from (opens p) t x
unfolding covers_from
covers_from_step inside k x p t h = ground arith

-- What is left of a list from `lo` on when the keys up to `hi` are taken out.
outside_from :
    (inside : Bool) (lo hi : ℕ) (t : Table Point)
    → Alternates false inside lo t
    → (inside' : Bool) × Alternates false inside' (suc hi) (outside lo (suc hi) t)
      × ((x : ℕ) → hi ≤ x → covers_from inside t x ≡ covers_from inside' (outside lo (suc hi) t) x)
outside_from inside lo hi [] w = (inside, (unfold outside in w), λ x h. (unfold outside in refl))
outside_from inside lo hi ((k, p) ∷ t) w = elim (le_or_lt k hi) [
  | inl h ↦
      let (inside', alternates, same) =
        outside_from (not inside) lo hi t
          (Alternates-mono false (not inside) (suc k) lo t (omega arith) w.2) in
      (
        inside',
        (rw (outside_drop lo (suc hi) k p t w.0 (omega arith)) alternates),
        λ x l.
            rw
              (
                outside_drop lo (suc hi) k p t w.0 (omega arith),
                covers_from_step inside k x p t (omega arith),
                w.1,
              )
              (same x l),
      )
  | inr h ↦
      let above =
        outside_above lo (suc hi) ((k, p) ∷ t)
          (h, Alternates-IsSorted false (not inside) (suc k) t w.2) in
      (inside, (rw above (h, w.1, w.2)), λ x l. rw above refl)
]

-- The start goes in unless the range begins inside, and the end unless it ends inside.
abbrev opening : Bool → ℕ → Table Point → Table Point
opening true lo r = r
opening false lo r = (lo, Point.start) ∷ r

abbrev closing : Bool → ℕ → Table Point → Table Point
closing true hi r = r
closing false hi r = (hi, Point.end) ∷ r

fill_above :
    (inside inside' : Bool) (lo hi : ℕ) (kept : Table Point)
    → lo < hi
    → Alternates false inside' (suc hi) kept
    → fill inside lo hi kept ≡ opening inside lo (closing inside' hi kept)
unfolding fill last_lt first_ge insert is_end
fill_above true true lo hi [] l w = ground arith
fill_above true false lo hi [] l w = ground arith
fill_above false true lo hi [] l w = ground arith
fill_above false false lo hi [] l w = ground arith
fill_above true inside' lo hi ((k, Point.start) ∷ kept) l w = ground arith
fill_above true inside' lo hi ((k, Point.end) ∷ kept) l w = ground arith
fill_above false inside' lo hi ((k, Point.start) ∷ kept) l w = ground arith
fill_above false inside' lo hi ((k, Point.end) ∷ kept) l w = ground arith

-- `r` alternates like `t`, and covers the bytes from `lo` up to `hi` too.
pub record Filled (inside : Bool) (least lo hi : ℕ) (t r : Table Point) : Type 0 where
  pub alternates : Alternates false inside least r
  pub same : (x : ℕ) → covers_from inside r x ≡ (covers_from inside t x || (leb lo x && ltb x hi))

opening-Alternates :
    (inside inside' : Bool) (lo hi : ℕ) (kept : Table Point)
    → lo < hi
    → Alternates false inside' (suc hi) kept
    → Alternates false inside lo (opening inside lo (closing inside' hi kept))
opening-Alternates true true lo hi kept l w =
    Alternates-mono false true (suc hi) lo kept (omega arith) w
opening-Alternates true false lo hi kept l w = (omega arith, refl, w)
opening-Alternates false true lo hi kept l w =
    (omega arith, refl, Alternates-mono false true (suc hi) (suc lo) kept (omega arith) w)
opening-Alternates false false lo hi kept l w = (omega arith, refl, (omega arith, refl, w))

covers-opening :
    (inside inside' : Bool) (lo hi x : ℕ) (kept : Table Point)
    → lo < hi
    → Alternates false inside' (suc hi) kept
    → covers_from inside (opening inside lo (closing inside' hi kept)) x
      ≡ (if ltb x lo then inside else if ltb x hi then true else covers_from inside' kept x)
unfolding covers_from
covers-opening true true lo hi x kept l w =
    ground (arith, covers_from_below false true (suc hi) x kept)
covers-opening true false lo hi x kept l w = ground arith
covers-opening false true lo hi x kept l w =
    ground (arith, covers_from_below false true (suc hi) x kept)
covers-opening false false lo hi x kept l w = ground arith

-- A list that begins at `lo` or later.
fill_from :
    (inside : Bool) (lo hi : ℕ) (t : Table Point)
    → lo < hi
    → Alternates false inside lo t
    → Filled inside lo lo hi t (fill inside lo hi (outside lo (suc hi) t))
fill_from inside lo hi t l w =
    let (inside', alternates, same) = outside_from inside lo hi t w in
    let form = fill_above inside inside' lo hi (outside lo (suc hi) t) l alternates in
    record {
      alternates = rw form (opening-Alternates inside inside' lo hi _ l alternates);
      same = λ x. rw form (
          covers-opening inside inside' lo hi x _ l alternates
          ∙ ground (arith, same x, covers_from_below false inside lo x t));
    }

Filled-cons :
    (inside : Bool) (least lo hi k : ℕ) (p : Point) (t : Table Point) {r : Table Point}
    → least ≤ k
    → opens p ≡ not inside
    → k < lo
    → Filled (not inside) (suc k) lo hi t r
    → Filled inside least lo hi ((k, p) ∷ t) ((k, p) ∷ r)
unfolding covers_from
Filled-cons inside least lo hi k p t h e g filled = record {
  alternates = (h, e, filled.alternates);
  same = λ x. ground (arith, e, filled.same x);
}

pub fill-Filled :
    (inside : Bool) (least lo hi : ℕ) (t : Table Point)
    → lo < hi
    → least ≤ lo
    → Alternates false inside least t
    → Filled inside least lo hi t (fill inside lo hi (outside lo (suc hi) t))
fill-Filled inside least lo hi [] l h w = record {
  alternates = Alternates-mono false inside lo least _ h (fill_from inside lo hi [] l w).alternates;
  same = (fill_from inside lo hi [] l w).same;
}
fill-Filled inside least lo hi ((k, p) ∷ t) l h w = elim (le_or_lt lo k) [
  | inl g ↦
      let filled = fill_from inside lo hi ((k, p) ∷ t) l (g, w.1, w.2) in
      record {
        alternates = Alternates-mono false inside lo least _ h filled.alternates;
        same = filled.same;
      }
  | inr g ↦
      let form =
        ap (fill inside lo hi) (outside_before lo (suc hi) k p t g)
        ∙ fill_before inside lo hi k p (outside lo (suc hi) t) g l in
      rw (form, w.1)
        (Filled-cons inside least lo hi k p t w.0 w.1 g
          (fill-Filled (not inside) (suc k) lo hi t l g w.2))
]

pub add_points-eq-fill :
    (r : ByteRange) (t : Table Point)
    → IsSorted 0 t
    → add_points r t ≡ fill false r.start r.end (outside r.start (suc r.end) t)
unfolding add_points fill
add_points-eq-fill r t s = rw (remove_all-range r.start (suc r.end) 0 t s, state-is_start)
