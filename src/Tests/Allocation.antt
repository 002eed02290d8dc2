-- ===== src/Tests/Allocation.antt =====
-- Runs of crate/realize-storage/src/global/inode_allocator.rs on the ranges of two arenas.
use realize.Prelude.{◌+◌, ◌<◌, ◌≡◌, refl, some, [], ◌∷◌, arith}
use realize.Prelude.Table
use realize.Prelude.Table.{Table, IsSorted}
use realize.Prelude.Eq.{string_eq, lookup}
use realize.ByteRange.{u64_mod}
use realize.Inodes.{
  Inode, InodeAllocator, owned_by, get_by_right, last_end, allocate_inode, arena_for_inode,
  allocate_arena_inode,
}
use realize.Inodes.Ranges.{owner}
use realize.Inodes.Fresh.{Allocates, IsTaken, Holds, allocate_inode-Allocates}
use realize.Inodes.Lookup.{Added, arena_for_inode-allocated}

-- A global range, and ranges of the roots 2 and 3.
abbrev ranges : Table Inode
ranges = (101, 1) ∷ (10101, 2) ∷ (20101, 3) ∷ []

ranges-IsSorted : IsSorted 0 ranges
ranges-IsSorted = (omega arith, (omega arith, (omega arith, tt)))

ranges_fit : last_end ranges + 1 + 10000 < u64_mod
unfolding last_end Table.last
ranges_fit = omega arith

-- The arenas `a` and `b`.
abbrev allocator : InodeAllocator
allocator = record {
  ranges = ranges;
  arenas = ("a", 2) ∷ ("b", 3) ∷ [];
  arena_roots = ("a", 2) ∷ ("b", 3) ∷ [];
  global_range = some (3, 102);
  arena_ranges = ("a", (200, 10102)) ∷ [];
}

held : Holds ranges 2 (some (200, 10102))
unfolding owner Table.first_ge
held = (omega arith, omega arith, λ x a b. ground arith)

allocate_inode-Allocates_example :
    Allocates ranges 2 (some (200, 10102)) (allocate_inode ranges (some (200, 10102)) 2 10000)
allocate_inode-Allocates_example =
    allocate_inode-Allocates ranges 2 10000 ranges-IsSorted (omega arith) ranges_fit
      (some (200, 10102)) held

added : Added allocator "a" 2
unfolding owner Table.first_ge get_by_right lookup
added = record {
  sorted = ranges-IsSorted;
  root_of = refl;
  arena_of = refl;
  not_global = omega arith;
  first_global = refl;
  roots_global = λ x other g. ground arith;
  held = held;
}

arena_for_inode-allocated_example :
    (s' : InodeAllocator) × (inode : Inode) × (allocate_arena_inode allocator "a"
      ≡ some (s', inode))
    × (arena_for_inode s' inode ≡ owned_by "a")
    × (IsTaken ranges 2 (lookup "a" allocator.arena_ranges) inode → ⊥)
    × ((x : Inode) → owner ranges x ≡ some 2 → arena_for_inode s' x ≡ owned_by "a")
    × Added s' "a" 2
arena_for_inode-allocated_example = arena_for_inode-allocated allocator "a" 2 added ranges_fit
