-- ===== src/ByteRanges/Add.antt =====
-- `add`, `single` and what is built from them: the set gains exactly the bytes of the range.
use mathlib.Core.List.{foldl}
use realize.Prelude.{
  ℕ, ◌<◌, ◌≤◌, false, ◌&&◌, ◌||◌, ◌≡◌, refl, ap, ◌∙◌, List, [], ◌∷◌, arith, any, ltb, leb, inl, inr,
  le_or_lt, le→leb, leb_of_lt, ltb_of_ge, or_false,
}
use realize.ByteRange
use realize.ByteRange.{ByteRange}
use realize.ByteRanges.{Point, ByteRanges, new, single, add_points, add, from_ranges}
use realize.ByteRanges.Covers.{covers_from, covers, IsValid, Alternates-IsSorted}
use realize.ByteRanges.SetOps.{Represents}
use realize.ByteRanges.Fill.{fill-Filled, add_points-eq-fill}

add_empty : (b : ByteRanges) (r : ByteRange) → r.end ≤ r.start → add b r ≡ b
unfolding add ByteRange.is_empty
add_empty b r h = rw (le→leb r.end r.start h)

add_nonempty :
    (b : ByteRanges) (r : ByteRange)
    → r.start < r.end
    → add b r ≡ record { btree = add_points r b.btree }
unfolding add ByteRange.is_empty
add_nonempty b r h = rw (leb_of_lt r.end r.start h)

contains_empty : (r : ByteRange) (x : ℕ) → r.end ≤ r.start → ByteRange.contains r x ≡ false
unfolding ByteRange.contains
contains_empty r x h = ground arith

-- Adding a range to a valid set leaves a valid set, which covers the bytes of the set and those of
-- the range, and no others. An empty range changes nothing.
pub add_lem :
    (b : ByteRanges) (r : ByteRange)
    → IsValid b
    → Represents (add b r) (λ x. covers b x || ByteRange.contains r x)
add_lem b r w = elim (le_or_lt r.end r.start) [
  | inl h ↦
      rw (add_empty b r h)
        (record { valid = w; same = λ x. rw (contains_empty r x h) (or_false _) })
  | inr h ↦
      let filled = fill-Filled false 0 r.start r.end b.btree h (omega arith) w in
      rw
        (
          add_nonempty b r h,
          add_points-eq-fill r b.btree (Alternates-IsSorted false false 0 b.btree w),
        )
        (record {
          valid = filled.alternates;
          same = unfold covers ByteRange.contains in filled.same;
        })
]

pub new-Represents : Represents new (λ x. false)
unfolding new covers covers_from
new-Represents = record { valid = refl; same = λ x. refl }

pub single_nonempty :
    (lo hi : ℕ)
    → lo < hi
    → single lo hi ≡ record { btree = (lo, Point.start) ∷ (hi, Point.end) ∷ [] }
unfolding single
single_nonempty lo hi h = ground arith

single_empty : (lo hi : ℕ) → hi ≤ lo → single lo hi ≡ new
unfolding single
single_empty lo hi h = rw (ltb_of_ge lo hi h)

-- `single` holds the bytes from `lo` up to `hi`, and none if `hi` is not above `lo`.
pub single_lem : (lo hi : ℕ) → Represents (single lo hi) (λ x. leb lo x && ltb x hi)
unfolding covers covers_from
single_lem lo hi = elim (le_or_lt hi lo) [
  | inl h ↦
      rw (single_empty lo hi h)
        (record { valid = new-Represents.valid; same = λ x. new-Represents.same x ∙ ground arith })
  | inr h ↦
      rw (single_nonempty lo hi h)
        (record { valid = (omega arith, refl, (h, refl, refl)); same = λ x. ground arith })
]

pub foldl-add :
    (rs : List ByteRange) (b : ByteRanges)
    → IsValid b
    → Represents (foldl add b rs) (λ x. covers b x || any (λ r. ByteRange.contains r x) rs)
foldl-add [] b w = record { valid = w; same = λ x. ground arith }
foldl-add (r ∷ rs) b w =
    let added = add_lem b r w in
    let rest = foldl-add rs (add b r) added.valid in
    record { valid = rest.valid; same = λ x. ground (arith, rest.same x, added.same x) }

-- A set built from any list of ranges, in any order and overlapping as they may, is valid and
-- covers exactly the bytes that one of the ranges contains.
pub from_ranges_lem :
    (rs : List ByteRange) → Represents (from_ranges rs) (λ x. any (λ r. ByteRange.contains r x) rs)
unfolding from_ranges
from_ranges_lem rs =
    let added = foldl-add rs new new-Represents.valid in
    record {
      valid = added.valid;
      same = λ x.
          added.same x
          ∙ ap (λ c. c || any (λ r. ByteRange.contains r x) rs) (new-Represents.same x);
    }
