-- ===== src/Tests/Ranges.antt =====
-- Runs of crate/realize-types/src/byterange.rs on small ranges and sets.
use realize.Prelude.{true, false, not, ◌&&◌, ◌||◌, ◌≡◌, refl, none, some, List, [], ◌∷◌, arith}
use realize.ByteRange
use realize.ByteRange.{ByteRange, zero_len, empty, is_empty, span, contains, collect}
use realize.ByteRange.Chunks.{Tiles, chunked-Tiles}
use realize.ByteRanges
use realize.ByteRanges.{
  Point, ByteRanges, single, add, union, subtraction, overlaps, containing_range, as_vec,
  from_ranges, extend, len,
}
use realize.ByteRanges.Covers.{covers, IsValid}
use realize.ByteRanges.SetOps.{
  Represents, union_lem, intersection_lem, subtraction_lem, asserts_hold,
}
use realize.ByteRanges.Add.{add_lem}
use realize.ByteRanges.Lookup.{IsRun, containing_range_lem}
use realize.ByteRanges.Canonical.{from_ranges-as_vec}

-- 10..20 and 30..40
abbrev two : ByteRanges
two = record {
  btree = (10, Point.start) ∷ (20, Point.end) ∷ (30, Point.start) ∷ (40, Point.end) ∷ [];
}

two-IsValid : IsValid two
two-IsValid =
    (omega arith, refl, (omega arith, refl, (omega arith, refl, (omega arith, refl, refl))))

-- 15..32
abbrev one : ByteRanges
one = record { btree = (15, Point.start) ∷ (32, Point.end) ∷ [] }

one-IsValid : IsValid one
one-IsValid = (omega arith, refl, (omega arith, refl, refl))

abbrev r_5_35 : ByteRange
r_5_35 = record { start = 5; end = 35 }

abbrev r_10_20 : ByteRange
r_10_20 = record { start = 10; end = 20 }

union_lem_example : Represents (ByteRanges.union two one) (λ x. covers two x || covers one x)
union_lem_example = union_lem two one two-IsValid one-IsValid

intersection_lem_example :
    Represents (ByteRanges.intersection two one) (λ x. covers two x && covers one x)
intersection_lem_example = intersection_lem two one two-IsValid one-IsValid

subtraction_lem_example : Represents (subtraction two one) (λ x. covers two x && not (covers one x))
subtraction_lem_example = subtraction_lem two one two-IsValid one-IsValid

add_lem_example : Represents (add two r_5_35) (λ x. covers two x || contains r_5_35 x)
add_lem_example = add_lem two r_5_35 two-IsValid

containing_range_lem_example :
    (covers two 12 ≡ true
      → (r : ByteRange) × (containing_range two 12 ≡ some r) × IsRun (covers two) 12 r)
    × (covers two 12 ≡ false → containing_range two 12 ≡ none)
containing_range_lem_example =
    containing_range_lem two 12 two-IsValid (unfold ByteRange.u64_mod in omega arith)

from_ranges-as_vec_example : from_ranges (as_vec two) ≡ two
from_ranges-as_vec_example = from_ranges-as_vec two two-IsValid

asserts_hold_example :
    let u = ByteRanges.union_loop (ByteRanges.merged two.btree one.btree) [] 0 true in
    let i = ByteRanges.intersection_loop (ByteRanges.merged two.btree one.btree) [] 0 true in
    let s =
      ByteRanges.subtraction_loop
        (ByteRanges.merged two.btree (ByteRanges.reversed one.btree))
        []
        1
        false
        true in
    ((u.held ≡ true) × (u.depth ≡ 0))
    × ((i.held ≡ true) × (i.depth ≡ 0))
    × ((s.held ≡ true) × (s.depth ≡ 1))
asserts_hold_example = asserts_hold two one two-IsValid one-IsValid

chunked-Tiles_example :
    (rs : List ByteRange) × (collect 11 (ByteRange.chunked r_10_20 4) ≡ some rs) × Tiles 4 10 20 rs
chunked-Tiles_example =
    chunked-Tiles 11 r_10_20 4 (omega arith) (omega arith) (unfold ByteRange.u64_mod in omega arith)
