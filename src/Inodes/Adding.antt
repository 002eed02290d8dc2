-- ===== src/Inodes/Adding.antt =====
-- What `add_arena` leaves: an arena that inodes can be taken for.
use realize.Prelude.{
  suc, ltb, Bool-cases, false, ◌==◌, ◌+◌, ◌<◌, ◌≡◌, ◌≢◌, refl, sym, ap, ◌∙◌, none, some, [], ◌∷◌,
  arith, ◌⊎◌, inl, inr, Option-cases,
}
use mathlib.Core.Path.{subst}
use realize.Prelude.Table
use realize.Prelude.Table.{Table, IsSorted}
use realize.Prelude.Eq.{string_eq, Assoc, lookup, delete}
use realize.ByteRange.{add64, u64_mod}
use realize.Data.{Arena}
use realize.Inodes.{
  Inode, root_inode, CurrentRange, InodeAllocator, last_end, allocate_inode, new_range,
  do_alloc_inode_range, get_by_right, remove_by_right, bimap_insert, allocate_global_inode,
  add_arena,
}
use realize.Inodes.Ranges.{owner}
use realize.Inodes.Fresh.{Holds, IsTaken, pending, Allocates, allocate_inode-Allocates}
use realize.Inodes.Lookup.{Added}

-- The current range of the global inodes is after the root.
abbrev IsAfterRoot : CurrentRange → Type 0
IsAfterRoot none = Unit
IsAfterRoot (some (current, end)) = 0 < current

-- The global inodes: the first range is one of them unless there is no range at all.
record GlobalValid (s : InodeAllocator) : Type 0 where
  sorted : IsSorted 0 s.ranges
  first_global :
      ((s.ranges ≡ []) × (s.global_range ≡ none)) ⊎ (owner s.ranges root_inode ≡ some root_inode)
  roots_global :
      (x : Inode) (other : Arena)
      → get_by_right x s.arena_roots ≡ some other
      → owner s.ranges x ≡ some root_inode
  held : Holds s.ranges root_inode s.global_range
  after_root : IsAfterRoot s.global_range

none-delete :
    (x : Inode) (arena : Arena) (roots : Assoc Arena Inode)
    → get_by_right x roots ≡ none
    → get_by_right x (delete arena roots) ≡ none
unfolding get_by_right delete
none-delete x arena [] h = refl
none-delete x arena ((a, r) ∷ roots) h = ground (arith, none-delete x arena roots)

none-remove_by_right :
    (x inode : Inode) (roots : Assoc Arena Inode)
    → get_by_right x roots ≡ none
    → get_by_right x (remove_by_right inode roots) ≡ none
unfolding get_by_right remove_by_right
none-remove_by_right x inode [] h = refl
none-remove_by_right x inode ((a, r) ∷ roots) h = ground (arith, none-remove_by_right x inode roots)

-- What the first allocation of the global inodes gives, and any other.
abbrev Begins : Table Inode → CurrentRange → Type 0
Begins ranges current =
    let a = allocate_inode ranges current root_inode 100 in
    (a.inode ≢ root_inode)
    × (owner a.table root_inode ≡ some root_inode)
    × IsAfterRoot (some a.current)

first-Begins : Begins [] none
unfolding allocate_inode new_range do_alloc_inode_range last_end Table.last Table.insert owner
    Table.first_ge
first-Begins = (omega arith, refl, omega arith)

root_taken : (current : CurrentRange) → IsAfterRoot current → pending current root_inode ≡ false
unfolding pending
root_taken none r = refl
root_taken (some (current, end)) r = ground arith

-- The last inode of the current range that is left is above zero.
module _ (ranges : Table Inode) (fits : last_end ranges + 1 + 100 < u64_mod) where
  new_above : 0 < (new_range ranges root_inode 100).current.0
  unfolding new_range do_alloc_inode_range
  new_above = omega (arith, fits)

  next_above :
      (current : CurrentRange)
      → Holds ranges root_inode current
      → 0 < (allocate_inode ranges current root_inode 100).current.0
  unfolding allocate_inode
  next_above none h = new_above
  next_above (some (current, end)) h =
      let next : add64 current 1 ≡ suc current = ground (arith, h.0, h.1) in
      rw (next) (elim (Bool-cases (ltb (suc current) end)) [
        | inl l ↦ rw (l) (omega arith)
        | inr l ↦ rw (l) new_above
      ])

next-Begins :
    (ranges : Table Inode) (current : CurrentRange)
    → last_end ranges + 1 + 100 < u64_mod
    → Holds ranges root_inode current
    → owner ranges root_inode ≡ some root_inode
    → IsAfterRoot current
    → Allocates ranges root_inode current (allocate_inode ranges current root_inode 100)
    → Begins ranges current
next-Begins ranges current fits h o r al = (
  (λ e. al.fresh (subst (IsTaken ranges root_inode current) (sym e) (o, root_taken current r))),
  al.kept root_inode root_inode o,
  next_above ranges fits current h,
)

global-Begins :
    (s : InodeAllocator)
    → GlobalValid s
    → last_end s.ranges + 1 + 100 < u64_mod
    → Begins s.ranges s.global_range
global-Begins s v fits = elim v.first_global [
  | inl (e, g) ↦
      subst (λ c. Begins s.ranges c) (sym g) (subst (λ t. Begins t none) (sym e) first-Begins)
  | inr o ↦ next-Begins s.ranges s.global_range fits v.held o v.after_root (
      allocate_inode-Allocates s.ranges root_inode 100 v.sorted (omega arith) fits s.global_range
        v.held)
]

-- An arena that is added for the first time gets a root of its own, and inodes can be taken for it
-- afterwards. The tables of the global inodes stay valid. There are inodes left for a range.
add_arena-Added :
    (s : InodeAllocator) (arena : Arena)
    → GlobalValid s
    → last_end s.ranges + 1 + 100 < u64_mod
    → lookup arena s.arenas ≡ none
    → lookup arena s.arena_ranges ≡ none
    → (root : Inode) × Added (add_arena s arena) arena root × GlobalValid (add_arena s arena)
unfolding add_arena allocate_global_inode bimap_insert lookup get_by_right
add_arena-Added s arena v fits new unused =
    let a = allocate_inode s.ranges s.global_range root_inode 100 in
    let al =
      allocate_inode-Allocates s.ranges root_inode 100 v.sorted (omega arith) fits s.global_range
        v.held in
    let (apart, first, above) = global-Begins s v fits in
    let roots : (x : Inode) (other : Arena)
        → get_by_right x (bimap_insert arena a.inode s.arena_roots) ≡ some other
        → owner a.table x ≡ some root_inode =
      λ x other g. elim (Bool-cases (a.inode == x)) [
        | inl q ↦ (let e : a.inode ≡ x = ground arith in ap (owner a.table) (sym e) ∙ al.taken.0)
        | inr q ↦ elim (Option-cases (get_by_right x s.arena_roots)) [
          | inl n ↦
              let rest =
                none-remove_by_right x a.inode (delete arena s.arena_roots)
                  (none-delete x arena s.arena_roots n) in
              let gone : get_by_right x (bimap_insert arena a.inode s.arena_roots) ≡ none =
                ground (arith, q, rest) in
              cc
          | inr (o, h) ↦ al.kept x root_inode (v.roots_global x o h)
        ]
      ] in
    rw (add_arena, new)
      (
        a.inode,
        (record {
          sorted = al.sorted;
          root_of = ground (arith, string_eq.beq_iff arena arena);
          arena_of = ground arith;
          not_global = apart;
          first_global = first;
          roots_global = roots;
          held = subst (Holds a.table a.inode) (sym unused) tt;
        }),
        (record {
          sorted = al.sorted;
          first_global = inr first;
          roots_global = roots;
          held = al.holds;
          after_root = above;
        }),
      )
