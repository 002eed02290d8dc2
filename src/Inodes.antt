-- ===== src/Inodes.antt =====
-- `InodeAllocator` of crate/realize-storage/src/global/inode_allocator.rs: ranges of inodes are given to
-- the arenas, and single inodes are taken from the current range of an arena. The global database and
-- the tables of the arenas that hold their current ranges are one record.
pub mod Ranges
pub mod Fresh
pub mod Lookup
pub mod Adding
use realize.Prelude.{
  ℕ, ◌-◌, Bool, true, false, Option, none, some, List, [], ◌∷◌, ltb, ◌==◌, if◌then◌else◌,
}
use realize.Prelude.Table
use realize.Prelude.Table.{Table}
use realize.Prelude.Eq.{string_eq, Assoc, lookup, put, delete}
use realize.ByteRange.{add64}
use realize.Data.{Arena}

abbrev pub Inode : Type 0
Inode = ℕ

abbrev pub root_inode : Inode
root_inode = 1

-- `BiMap<Arena, Inode>`.
unfoldable pub get_by_right : Inode → Assoc Arena Inode → Option Arena
get_by_right inode [] = none
get_by_right inode ((arena, root) ∷ roots) =
    let rest = get_by_right inode roots in if root == inode then some arena else rest

unfoldable pub remove_by_right : Inode → Assoc Arena Inode → Assoc Arena Inode
remove_by_right inode [] = []
remove_by_right inode ((arena, root) ∷ roots) =
    let rest = remove_by_right inode roots in if root == inode then rest else (arena, root) ∷ rest

-- Both the pair of the arena and the pair of the inode are replaced.
unfoldable pub bimap_insert : Arena → Inode → Assoc Arena Inode → Assoc Arena Inode
unfolding remove_by_right
bimap_insert arena inode roots = (arena, inode) ∷ remove_by_right inode (delete arena roots)

-- A current range: the last inode taken, and the end of the range.
abbrev pub CurrentRange : Type 0
CurrentRange = Option (Inode × Inode)

pub record InodeAllocator : Type 0 where
  -- `inode_range_allocation_table`, from the last inode of a range to the root it is assigned to
  pub ranges : Table Inode
  -- `arena_table`
  pub arenas : Assoc Arena Inode
  pub arena_roots : Assoc Arena Inode
  -- `current_inode_range_table` of the global database, and of the database of each arena
  pub global_range : CurrentRange
  pub arena_ranges : Assoc Arena (Inode × Inode)

unfoldable pub last_end : Table Inode → Inode
last_end ranges = elim (Table.last ranges) [ none ↦ 1 | some (key, root) ↦ key ]

-- The new table, and the start and the end of the range.
unfoldable pub do_alloc_inode_range : Table Inode → Inode → ℕ → Table Inode × (Inode × Inode)
unfolding last_end
do_alloc_inode_range ranges assigned_root range_size =
    let start = add64 (last_end ranges) 1 in
    let end = add64 start range_size in (Table.insert (end - 1) assigned_root ranges, (start, end))

-- What `allocate_inode` leaves.
pub record Allocation : Type 0 where
  pub table : Table Inode
  pub current : Inode × Inode
  pub inode : Inode

-- A new range is taken where the current one has no inode left.
unfoldable pub new_range : Table Inode → Inode → ℕ → Allocation
unfolding do_alloc_inode_range
new_range ranges root range_size =
    let (table, (start, end)) = do_alloc_inode_range ranges root range_size in
    record { table = table; current = (start, end); inode = start }

-- `allocate_inode`, with the range allocation function of the range assigned to `root`.
unfoldable pub allocate_inode : Table Inode → CurrentRange → Inode → ℕ → Allocation
unfolding new_range
allocate_inode ranges none root range_size = new_range ranges root range_size
allocate_inode ranges (some (current, end)) root range_size =
    if ltb (add64 current 1) end
    then record { table = ranges; current = (add64 current 1, end); inode = add64 current 1 }
    else new_range ranges root range_size

unfoldable pub allocate_global_inode : InodeAllocator → InodeAllocator × Inode
unfolding allocate_inode
allocate_global_inode s =
    let a = allocate_inode s.ranges s.global_range root_inode 100 in
    (record s { ranges = a.table; global_range = some a.current }, a.inode)

-- The range allocation function fails on an unknown arena; it is only called for a new range.
unfoldable pub needs_range : CurrentRange → Bool
needs_range none = true
needs_range (some (current, end)) = if ltb (add64 current 1) end then false else true

-- `none` is `StorageError::UnknownArena`. The root of an unknown arena is not used then.
unfoldable pub allocate_arena_inode : InodeAllocator → Arena → Option (InodeAllocator × Inode)
unfolding allocate_inode needs_range
allocate_arena_inode s arena =
    let current = lookup arena s.arena_ranges in
    let allocated : Inode → Option (InodeAllocator × Inode) = λ root.
      let a = allocate_inode s.ranges current root 10000 in
      some (
        record s { ranges = a.table; arena_ranges = put arena a.current s.arena_ranges },
        a.inode,
      ) in
    elim (lookup arena s.arena_roots) [
      | some root ↦ allocated root
      | none ↦ if needs_range current then none else allocated root_inode
    ]

unfoldable pub add_arena : InodeAllocator → Arena → InodeAllocator
unfolding allocate_global_inode bimap_insert
add_arena s arena = elim (lookup arena s.arenas) [
  | some inode ↦ record s { arena_roots = bimap_insert arena inode s.arena_roots }
  | none ↦
      let (s', inode) = allocate_global_inode s in
      record s' {
        arenas = put arena inode s'.arenas;
        arena_roots = bimap_insert arena inode s'.arena_roots;
      }
]

-- `InodeAllocator::new`, on the tables of the databases.
unfoldable pub add_arenas : InodeAllocator → List Arena → InodeAllocator
unfolding add_arena
add_arenas s [] = s
add_arenas s (arena ∷ arenas) = add_arenas (add_arena s arena) arenas

-- `Result<Option<Arena>>`.
pub data Owner : Type 0 where
  global not_found : Owner
  owned_by : Arena → Owner

-- The loop of `arena_for_inode`, over the ranges that end at the inode or later.
unfoldable pub owner_loop : Assoc Arena Inode → Table Inode → Owner
unfolding get_by_right
owner_loop roots [] = not_found
owner_loop roots ((key, root) ∷ ranges) =
    let rest = owner_loop roots ranges in
    if root == root_inode
    then global
    else elim (get_by_right root roots) [ some arena ↦ owned_by arena | none ↦ rest ]

unfoldable pub arena_for_inode : InodeAllocator → Inode → Owner
unfolding owner_loop get_by_right
arena_for_inode s inode =
    if inode == root_inode then global else elim (get_by_right inode s.arena_roots) [
      | some arena ↦ owned_by arena
      | none ↦ owner_loop s.arena_roots (Table.range_from inode s.ranges)
    ]
