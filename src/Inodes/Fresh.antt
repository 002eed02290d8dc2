-- ===== src/Inodes/Fresh.antt =====
-- Taking inodes one by one from a current range.
use realize.Prelude.{
  ℕ, suc, ◌+◌, ◌<◌, ◌≤◌, Bool, false, ◌&&◌, ◌≡◌, none, some, arith, ltb, inl, inr, Bool-cases,
}
use realize.Prelude.Table.{Table, IsSorted}
use realize.ByteRange.{add64, u64_mod}
use realize.Inodes.{
  Inode, CurrentRange, last_end, do_alloc_inode_range, Allocation, new_range, allocate_inode,
}
use realize.Inodes.Ranges.{owner, do_alloc_inode_range_lem}

-- The inodes of the current range that are not taken yet.
unfoldable pub pending : CurrentRange → Inode → Bool
pending none x = false
pending (some (current, end)) x = ltb current x && ltb x end

-- An inode of the root that was taken, or lost with a range that was given up.
abbrev pub IsTaken : Table Inode → Inode → CurrentRange → Inode → Type 0
IsTaken ranges root current x = (owner ranges x ≡ some root) × (pending current x ≡ false)

-- The current range lies within the ranges of the root.
abbrev pub Holds : Table Inode → Inode → CurrentRange → Type 0
Holds ranges root none = Unit
Holds ranges root (some (current, end)) =
    (current < end)
    × (end < u64_mod)
    × ((x : Inode) → current ≤ x → x < end → owner ranges x ≡ some root)

-- What an allocation promises.
pub record Allocates (ranges : Table Inode) (root : Inode) (current : CurrentRange) (a : Allocation)
    : Type 0 where
  pub sorted : IsSorted 0 a.table
  pub holds : Holds a.table root (some a.current)
  pub kept : (x r : Inode) → owner ranges x ≡ some r → owner a.table x ≡ some r
  pub fresh : IsTaken ranges root current a.inode → ⊥
  pub taken : IsTaken a.table root (some a.current) a.inode
  pub still_taken :
      (x : Inode) → IsTaken ranges root current x → IsTaken a.table root (some a.current) x

add64_lt : (a b : ℕ) → add64 a b < u64_mod
add64_lt a b = omega arith

module _ (ranges : Table Inode) (root : Inode) (size : ℕ) (s : IsSorted 0 ranges) (h : 0 < size)
    (b : last_end ranges + 1 + size < u64_mod) where
  new_range-Allocates :
      (current : CurrentRange) → Allocates ranges root current (new_range ranges root size)
  unfolding new_range pending do_alloc_inode_range
  new_range-Allocates current =
      let (sorted, length, added, kept) = do_alloc_inode_range_lem ranges root size s h b in
      let start = (do_alloc_inode_range ranges root size).1.0 in
      let first = added start (omega arith) (omega (arith, length, h)) in
      record {
        sorted = sorted;
        holds = (omega (arith, length, h), add64_lt _ size, λ x a c. (added x a c).1);
        kept = kept;
        fresh = λ t. cc (first.0, t.0);
        taken = (first.1, ground arith);
        still_taken = λ x t. (kept x root t.0, ground (arith, t.0, added x));
      }

  -- The next inode of a current range.
  next-Allocates :
      (current end : Inode)
      → Holds ranges root (some (current, end))
      → suc current < end
      → Allocates ranges root
          (some (current, end))
          (record { table = ranges; current = (suc current, end); inode = suc current })
  unfolding pending
  next-Allocates current end held l = record {
    sorted = s;
    holds = (l, held.1, λ x a c. held.2 x (omega arith) c);
    kept = λ x r o. o;
    fresh = λ t. ground (arith, t.1);
    taken = (held.2 (suc current) (omega arith) l, ground arith);
    still_taken = λ x t. (t.0, ground (arith, t.1));
  }

  -- An inode is allocated from the current range of a root, or from a new range of it: the inode
  -- belongs to the root and was not taken before, every inode taken before stays taken, no inode
  -- changes its root, and the current range left lies within the ranges of the root. The ranges are
  -- sorted, the size is positive and the inodes fit in a `u64`.
  pub allocate_inode-Allocates :
      (current : CurrentRange)
      → Holds ranges root current
      → Allocates ranges root current (allocate_inode ranges current root size)
  unfolding allocate_inode
  allocate_inode-Allocates none held = new_range-Allocates none
  allocate_inode-Allocates (some (current, end)) held =
      let next : add64 current 1 ≡ suc current = ground (arith, held.0, held.1) in
      rw next (elim (Bool-cases (ltb (suc current) end)) [
        | inl l ↦ rw l (next-Allocates current end held (ground arith))
        | inr l ↦ rw l (new_range-Allocates (some (current, end)))
      ])
