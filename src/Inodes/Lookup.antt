-- ===== src/Inodes/Lookup.antt =====
-- `arena_for_inode` against the ranges.
use realize.Prelude.{
  ◌+◌, ◌<◌, ◌≡◌, ◌≢◌, refl, sym, ap, ◌∙◌, none, some, [], ◌∷◌, arith, inl, inr, Option-cases,
}
use mathlib.Core.Path.{subst}
use realize.Prelude.Table
use realize.Prelude.Table.{Table, IsSorted}
use realize.Prelude.Eq.{string_eq, Assoc, lookup, put, lookup-put}
use realize.ByteRange.{u64_mod}
use realize.Data.{Arena}
use realize.Inodes.{
  Inode, root_inode, InodeAllocator, Owner, global, owned_by, get_by_right, owner_loop,
  arena_for_inode, last_end, allocate_inode, allocate_arena_inode,
}
use realize.Inodes.Fresh.{Holds, IsTaken, allocate_inode-Allocates}
use realize.Inodes.Ranges.{owner}

-- What a known root says.
Known : Assoc Arena Inode → Inode → Owner → Type 0
Known roots root o =
    (root ≡ root_inode → o ≡ global)
    × (root ≢ root_inode
        → (arena : Arena) → get_by_right root roots ≡ some arena
        → o ≡ owned_by arena)

owner_loop-Known :
    (roots : Assoc Arena Inode) (t : Table Inode) (x root : Inode)
    → owner t x ≡ some root
    → Known roots root (owner_loop roots (Table.range_from x t))
unfolding owner owner_loop Table.first_ge Table.range_from Known
owner_loop-Known roots [] x root e = cc
owner_loop-Known roots ((k, v) ∷ t) x root e = ground (arith, owner_loop-Known roots t x root)

module _ (s : InodeAllocator) (x root : Inode) (d : x ≢ root_inode)
    (n : get_by_right x s.arena_roots ≡ none) (e : owner s.ranges x ≡ some root) where
  -- An inode that is neither the root nor the root of an arena, in a range assigned to the root, is
  -- global.
  pub arena_for_inode-global : root ≡ root_inode → arena_for_inode s x ≡ global
  unfolding arena_for_inode Known
  arena_for_inode-global r = ground (arith, (owner_loop-Known s.arena_roots s.ranges x root e).0)

  in_range-owned :
      (arena : Arena)
      → root ≢ root_inode
      → get_by_right root s.arena_roots ≡ some arena
      → arena_for_inode s x ≡ owned_by arena
  unfolding arena_for_inode Known
  in_range-owned arena r g =
      ground (arith, (owner_loop-Known s.arena_roots s.ranges x root e).1 r arena g)

-- The arena was added with the root: the table of the roots has it in both directions, the first range
-- is one of the global inodes, as are the ranges that the roots of arenas were taken from, and the
-- current range of the arena lies within its ranges.
pub record Added (s : InodeAllocator) (arena : Arena) (root : Inode) : Type 0 where
  pub sorted : IsSorted 0 s.ranges
  pub root_of : lookup arena s.arena_roots ≡ some root
  pub arena_of : get_by_right root s.arena_roots ≡ some arena
  pub not_global : root ≢ root_inode
  pub first_global : owner s.ranges root_inode ≡ some root_inode
  pub roots_global :
      (x : Inode) (other : Arena)
      → get_by_right x s.arena_roots ≡ some other
      → owner s.ranges x ≡ some root_inode
  pub held : Holds s.ranges root (lookup arena s.arena_ranges)

-- Every inode of a range of the arena belongs to the arena.
Added-owned :
    (s : InodeAllocator) (arena : Arena) (root x : Inode)
    → Added s arena root
    → owner s.ranges x ≡ some root
    → arena_for_inode s x ≡ owned_by arena
Added-owned s arena root x v o =
    let apart : x ≢ root_inode = λ e.
      let first : owner s.ranges root_inode ≡ some root = ap (owner s.ranges) (sym e) ∙ o in
      let both : some root_inode ≡ some root = sym v.first_global ∙ first in
      let same : root ≡ root_inode = cc in v.not_global same in
    elim (Option-cases (get_by_right x s.arena_roots)) [
      | inl n ↦ in_range-owned s x root apart n o arena v.not_global v.arena_of
      | inr (other, g) ↦
          let both : some root_inode ≡ some root = sym (v.roots_global x other g) ∙ o in
          let same : root ≡ root_inode = cc in let no : ⊥ = v.not_global same in elim no [ ]
    ]

module _ (s : InodeAllocator) (arena : Arena) (root : Inode) (v : Added s arena root)
    (fits : last_end s.ranges + 1 + 10000 < u64_mod) where
  -- If the arena was added and there are inodes left, taking an inode for it succeeds, and
  -- `arena_for_inode` finds the arena of that inode and of every inode that its ranges had before. The
  -- inode was not taken before, and the same holds for the next call.
  pub arena_for_inode-allocated :
      (s' : InodeAllocator) × (inode : Inode) × (allocate_arena_inode s arena ≡ some (s', inode))
      × (arena_for_inode s' inode ≡ owned_by arena)
      × (IsTaken s.ranges root (lookup arena s.arena_ranges) inode → ⊥)
      × ((x : Inode) → owner s.ranges x ≡ some root → arena_for_inode s' x ≡ owned_by arena)
      × Added s' arena root
  unfolding allocate_arena_inode
  arena_for_inode-allocated =
      let current = lookup arena s.arena_ranges in
      let a = allocate_inode s.ranges current root 10000 in
      let al =
        allocate_inode-Allocates s.ranges root 10000 v.sorted (omega arith) fits current v.held in
      let s' : InodeAllocator = record s {
        ranges = a.table;
        arena_ranges = put arena a.current s.arena_ranges;
      } in
      let found : lookup arena (put arena a.current s.arena_ranges) ≡ some a.current =
        ground
          (arith, lookup-put arena arena a.current s.arena_ranges, string_eq.beq_iff arena arena) in
      let w : Added s' arena root = record {
        sorted = al.sorted;
        root_of = v.root_of;
        arena_of = v.arena_of;
        not_global = v.not_global;
        first_global = al.kept root_inode root_inode v.first_global;
        roots_global = λ x other g. al.kept x root_inode (v.roots_global x other g);
        held = subst (Holds a.table root) (sym found) al.holds;
      } in
      (
        s',
        a.inode,
        rw (allocate_arena_inode, v.root_of) refl,
        Added-owned s' arena root a.inode w al.taken.0,
        al.fresh,
        (λ x o. Added-owned s' arena root x w (al.kept x root o)),
        w,
      )

-- An inode whose range is assigned to the root of an arena that was not added is reported to belong
-- to the arena of the range that follows.
pub arena_for_inode_removed :
    (s : InodeAllocator) (x last last' root root' : Inode) (t : Table Inode) (arena : Arena)
    → x ≢ root_inode
    → get_by_right x s.arena_roots ≡ none
    → Table.range_from x s.ranges ≡ (last, root) ∷ (last', root') ∷ t
    → root ≢ root_inode
    → get_by_right root s.arena_roots ≡ none
    → root' ≢ root_inode
    → get_by_right root' s.arena_roots ≡ some arena
    → arena_for_inode s x ≡ owned_by arena
unfolding arena_for_inode owner_loop
arena_for_inode_removed s x last last' root root' t arena d n e f g f' g' =
    let found : owner_loop s.arena_roots ((last, root) ∷ (last', root') ∷ t) ≡ owned_by arena =
      ground arith in
    ground (arith, e, found)
