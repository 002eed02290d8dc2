-- ===== src/Inodes/Ranges.antt =====
-- Inode ranges never overlap, and no inode is given out twice.
use mathlib.Core.Option as OptionLib
use realize.Prelude.{
  ℕ, suc, ◌+◌, ◌-◌, ◌<◌, ◌≤◌, ◌≡◌, refl, ap, ◌∙◌, Option, none, some, [], ◌∷◌, ◌++◌, arith, ltb,
  if◌then◌else◌,
}
use realize.Prelude.Table
use realize.Prelude.Table.{Table, IsSorted, Below, Below-mono, insert-IsSorted, insert_above}
use realize.ByteRange.{add64, u64_mod}
use realize.Inodes.{Inode, last_end, do_alloc_inode_range}

-- The root that the inode is assigned to: that of the first range that ends at it or later.
unfoldable pub owner : Table Inode → Inode → Option Inode
owner ranges x = OptionLib.map (λ e. e.1) (Table.first_ge x ranges)

last-Below : (lo : ℕ) (t : Table Inode) → IsSorted lo t → Below (suc (last_end t)) t
unfolding last_end Table.last
last-Below lo [] s = tt
last-Below lo ((k, v) ∷ []) s = (omega arith, tt)
last-Below lo ((k, v) ∷ (j, w) ∷ t) s =
    let rest = last-Below (suc k) ((j, w) ∷ t) s.1 in (omega (arith, rest.0, s.1.0), rest)

first_ge_above : (x : ℕ) (t : Table Inode) → Below x t → Table.first_ge x t ≡ none
unfolding Table.first_ge
first_ge_above x [] b = refl
first_ge_above x ((k, v) ∷ t) b = ground (arith, first_ge_above x t b.1)

first_ge-snoc :
    (x k : ℕ) (v : Inode) (t : Table Inode)
    → Table.first_ge x (t ++ (k, v) ∷ []) ≡ (elim (Table.first_ge x t) [
      | some e ↦ some e
      | none ↦ if ltb k x then none else some (k, v)
    ])
unfolding Table.first_ge
first_ge-snoc x k v [] = ground arith
first_ge-snoc x k v ((j, w) ∷ t) = ground (arith, first_ge-snoc x k v t)

-- A range added at the end.
owner-snoc :
    (x k : ℕ) (v : Inode) (t : Table Inode)
    → owner (t ++ (k, v) ∷ []) x
      ≡ (elim (owner t x) [ some r ↦ some r | none ↦ if ltb k x then none else some v ])
unfolding owner
owner-snoc x k v t = ground (arith, first_ge-snoc x k v t)

-- A new range starts after the last inode of every range before: none of its inodes was assigned,
-- all of them are assigned to the root, and no other inode changes its root. It has as many inodes as
-- asked for. This is for a positive size and inodes that fit in a `u64`.
pub do_alloc_inode_range_lem :
    (ranges : Table Inode) (root : Inode) (size : ℕ)
    → IsSorted 0 ranges
    → 0 < size
    → last_end ranges + 1 + size < u64_mod
    → let (table, (start, end)) = do_alloc_inode_range ranges root size in
      IsSorted 0 table
      × (end ≡ start + size)
      × ((x : Inode) → start ≤ x → x < end → (owner ranges x ≡ none) × (owner table x ≡ some root))
      × ((x r : Inode) → owner ranges x ≡ some r → owner table x ≡ some r)
unfolding do_alloc_inode_range
do_alloc_inode_range_lem ranges root size s h b =
    let l = last_end ranges in
    let starts : add64 l 1 ≡ suc l = ground arith in
    let ends : add64 (suc l) size ≡ suc l + size = ground arith in
    let key = suc l + size - 1 in
    let before = last-Below 0 ranges s in
    let added : Table.insert key root ranges ≡ ranges ++ (key, root) ∷ [] =
      insert_above key root ranges (Below-mono (suc l) key ranges (omega (arith, h)) before) in
    rw (starts, ends)
      (
        insert-IsSorted key 0 root ranges (omega arith) s,
        refl,
        (λ x a c.
            let unowned : owner ranges x ≡ none =
              unfold owner in
              ap (OptionLib.map (λ e. e.1))
                (first_ge_above x ranges (Below-mono (suc l) x ranges a before)) in
            (
              unowned,
              ap (λ t. owner t x) added
                  ∙ owner-snoc x key root ranges
                  ∙ (rw unowned (ground arith)),
            )),
        λ x r o. ap (λ t. owner t x) added ∙ owner-snoc x key root ranges ∙ (rw o refl),
      )
