-- ===== src/ByteRanges.antt =====
-- `ByteRanges` of crate/realize-types/src/byterange.rs: a set of bytes, kept as a `BTreeMap` from
-- the places where a range starts or ends to which of the two it is.
pub mod Covers
pub mod Emptiness
mod Sweep
mod MergedSweep
mod Merging
mod Loops
pub mod SetOps
mod Fill
pub mod Add
pub mod Queries
pub mod Lookup
pub mod Canonical
use realize.Prelude.{
  ℕ, zero, suc, ◌+◌, ◌-◌, ◌/◌, ◌%◌, ◌^◌, Bool, true, false, not, ◌&&◌, ◌||◌, Option, none, some,
  List, [], ◌∷◌, map, length, any, ltb, leb, ◌==◌, if◌then◌else◌,
}
use realize.Prelude.Table
use realize.Prelude.Table.{Table}
use realize.ByteRange
use realize.ByteRange.{ByteRange, add64}
use mathlib.Core.List.{foldl, ◌++◌}
use mathlib.Core.Option as OptionLib

pub data Point : Type 0 where
  start end : Point

unfoldable pub reverse : Point → Point
reverse Point.start = Point.end
reverse Point.end = Point.start

-- The derived `==` on points.
unfoldable pub same_point : Point → Point → Bool
same_point Point.start Point.start = true
same_point Point.end Point.end = true
same_point _ _ = false

pub record ByteRanges : Type 0 where
  pub btree : Table Point

unfoldable pub new : ByteRanges
new = record { btree = [] }

unfoldable pub single : ℕ → ℕ → ByteRanges
unfolding new Table.insert
single lo hi =
    if ltb lo hi
    then record { btree = Table.insert hi Point.end (Table.insert lo Point.start []) }
    else new

unfoldable pub for_range : ByteRange → ByteRanges
unfolding single
for_range r = single r.start r.end

unfoldable pub is_empty : ByteRanges → Bool
is_empty b = elim b.btree [ [] ↦ true | _ ↦ false ]

unfoldable pub len : ByteRanges → ℕ
len b = length b.btree / 2

-- `for val in … { self.btree.remove(&val); }`
unfoldable pub remove_all : List ℕ → Table Point → Table Point
remove_all [] t = t
remove_all (val ∷ vals) t = remove_all vals (Table.remove val t)

-- `if !matches!(…, Some((_, Point::Start)))` guards the first insertion of `add`.
unfoldable pub is_start : Option (ℕ × Point) → Bool
is_start (some (_, Point.start)) = true
is_start _ = false

unfoldable pub is_end : Option (ℕ × Point) → Bool
is_end (some (_, Point.end)) = true
is_end _ = false

abbrev pub keys : Table Point → List ℕ
keys t = map (λ e. e.0) t

-- `range(start..=end)` is the keys below `end + 1`.
unfoldable pub add_points : ByteRange → Table Point → Table Point
unfolding remove_all is_start is_end
add_points r btree =
    let kept = remove_all (keys (Table.range r.start (suc r.end) btree)) btree in
    let opened =
      if is_start (Table.last_lt r.start kept)
      then kept
      else Table.insert r.start Point.start kept in
    if is_end (Table.first_ge r.end opened) then opened else Table.insert r.end Point.end opened

unfoldable pub add : ByteRanges → ByteRange → ByteRanges
unfolding add_points
add b r = if ByteRange.is_empty r then b else record { btree = add_points r b.btree }

unfoldable pub from_ranges : List ByteRange → ByteRanges
unfolding new
from_ranges ranges = foldl add new ranges

-- `ByteRangesIter` takes two points at a time and stops at the first pair that is no range.
unfoldable pub points_iter : Table Point → List ByteRange
points_iter ((lo, Point.start) ∷ (hi, Point.end) ∷ rest) = ByteRange.new lo hi ∷ points_iter rest
points_iter _ = []

unfoldable pub as_vec : ByteRanges → List ByteRange
unfolding points_iter
as_vec b = points_iter b.btree

unfoldable pub bytecount : ByteRanges → ℕ
unfolding as_vec
bytecount b = foldl (λ sum r. add64 sum (ByteRange.bytecount r)) 0 (as_vec b)

unfoldable pub extend : ByteRanges → ByteRanges → ByteRanges
unfolding is_empty as_vec
extend b other = if is_empty b then other else foldl add b (as_vec other)

-- The items of `Merged`: both lists by key, the second first where they have the same point, and
-- a start and an end at the same key both left out.
unfoldable pub merged : Table Point → Table Point → Table Point
unfolding same_point
merged [] b = b
merged (p ∷ a) [] = p ∷ a
merged ((x, p) ∷ a) ((y, q) ∷ b) = elim (x == y && not (same_point p q)) [
  | true ↦ merged a b
  | false ↦ elim (ltb x y) [
    | true ↦ (x, p) ∷ merged a ((y, q) ∷ b)
    | false ↦ (y, q) ∷ merged ((x, p) ∷ a) b
  ]
]

-- `depth` is an `i32`; a value from 2^31 on stands for a negative one.
abbrev pub i32_mod : ℕ
i32_mod = 2 ^ 32

abbrev pub inc : ℕ → ℕ
inc depth = (depth + 1) % i32_mod

abbrev pub dec : ℕ → ℕ
dec depth = (depth + i32_mod - 1) % i32_mod

-- What a loop over the merged points leaves; `held` is true if every `debug_assert!` of the loop
-- body, 0 ≤ depth ≤ 2, held.
pub record Swept : Type 0 where
  pub btree : Table Point
  pub depth : ℕ
  pub held : Bool

unfoldable pub union_loop : Table Point → Table Point → ℕ → Bool → Swept
union_loop [] result depth held = record { btree = result; depth = depth; held = held }
union_loop ((val, Point.start) ∷ pts) result depth held =
    union_loop pts (if depth == 0 then Table.insert val Point.start result else result) (inc depth)
      (held && leb (inc depth) 2)
union_loop ((val, Point.end) ∷ pts) result depth held =
    union_loop pts (if dec depth == 0 then Table.insert val Point.end result else result)
      (dec depth) (held && leb (dec depth) 2)

unfoldable pub union : ByteRanges → ByteRanges → ByteRanges
unfolding is_empty union_loop merged
union b other =
    if is_empty b
    then other
    else record { btree = (union_loop (merged b.btree other.btree) [] 0 true).btree }

unfoldable pub intersection_loop : Table Point → Table Point → ℕ → Bool → Swept
intersection_loop [] result depth held = record { btree = result; depth = depth; held = held }
intersection_loop ((val, Point.start) ∷ pts) result depth held =
    intersection_loop pts (if inc depth == 2 then Table.insert val Point.start result else result)
      (inc depth) (held && leb (inc depth) 2)
intersection_loop ((val, Point.end) ∷ pts) result depth held =
    intersection_loop pts (if depth == 2 then Table.insert val Point.end result else result)
      (dec depth) (held && leb (dec depth) 2)

unfoldable pub intersection : ByteRanges → ByteRanges → ByteRanges
unfolding is_empty new intersection_loop merged
intersection b other =
    if is_empty b || is_empty other
    then new
    else record { btree = (intersection_loop (merged b.btree other.btree) [] 0 true).btree }

unfoldable pub subtraction_loop : Table Point → Table Point → ℕ → Bool → Bool → Swept
subtraction_loop [] result depth started held = record {
  btree = result;
  depth = depth;
  held = held;
}
subtraction_loop ((val, Point.start) ∷ pts) result depth started held =
    subtraction_loop pts (if inc depth == 2 then Table.insert val Point.start result else result)
      (inc depth) (started || inc depth == 2) (held && leb (inc depth) 2)
subtraction_loop ((val, Point.end) ∷ pts) result depth started held =
    subtraction_loop pts
      (if depth == 2 && started then Table.insert val Point.end result else result) (dec depth)
      started (held && leb (dec depth) 2)

-- `other.btree.iter().map(|(v, p)| (*v, p.reverse()))`
unfoldable pub reversed : Table Point → Table Point
unfolding reverse
reversed [] = []
reversed ((v, p) ∷ t) = (v, reverse p) ∷ reversed t

unfoldable pub subtraction : ByteRanges → ByteRanges → ByteRanges
unfolding subtraction_loop merged reversed
subtraction b other = record {
  btree = (subtraction_loop (merged b.btree (reversed other.btree)) [] 1 false true).btree;
}

-- `none` is the panic of `BTreeMap::range` on a range that ends before it starts.
unfoldable pub overlaps : ByteRanges → ByteRange → Option Bool
unfolding is_start
overlaps b r =
    if ltb r.end r.start
    then none
    else some (
        any (λ e. is_start (some e)) (Table.range r.start r.end b.btree)
        || is_start (Table.last_lt r.start b.btree))

-- The two nested `if let` of `containing_range`, on the entries that they match.
unfoldable pub range_between : Option (ℕ × Point) → Option (ℕ × Point) → Option ByteRange
range_between (some (lo, Point.start)) (some (hi, Point.end)) = some (ByteRange.new lo hi)
range_between _ _ = none

-- `range(..=offset)` is the keys below `offset + 1`; `offset + 1` in the second call is a `u64`.
unfoldable pub containing_range : ByteRanges → ℕ → Option ByteRange
unfolding range_between
containing_range b offset =
    range_between (Table.last_lt (suc offset) b.btree) (Table.first_ge (add64 offset 1) b.btree)

-- `ByteRanges::chunked`: the chunks of every range in turn; `none` if the fuel ran out in one.
unfoldable pub chunk_all : ℕ → List ByteRange → ℕ → Option (List ByteRange)
chunk_all fuel [] size = some []
chunk_all fuel (r ∷ rs) size = elim (ByteRange.collect fuel (ByteRange.chunked r size)) [
  | none ↦ none
  | some cs ↦ OptionLib.map (λ ds. cs ++ ds) (chunk_all fuel rs size)
]

unfoldable pub chunked : ℕ → ByteRanges → ℕ → Option (List ByteRange)
unfolding as_vec chunk_all
chunked fuel b size = chunk_all fuel (as_vec b) size
