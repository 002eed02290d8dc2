-- ===== src/Marks/Marking/Setting.antt =====
-- Setting a mark: no path has another mark than before, or the cached files under the path get dirty.
use realize.Prelude.{
  ℕ, ◌≤◌, ◌≡◌, refl, ap, ◌∙◌, Bool, true, false, Option, ◌⊎◌, inl, inr, Bool-cases,
}
use realize.Prelude.Eq.{nat_eq, list_eq}
use realize.FilePath.{Text, FilePath}
use realize.Engine.{Mark}
use realize.Inodes.{Inode}
use realize.Storage.{ok}
use realize.Index.Removal.{dirty_key}
use realize.Cache.{ArenaCache, InodeAssignment, do_lookup_path}
use realize.Cache.Marking.Loops.{shown_at}
use realize.Cache.Marking.Reach.{mark_dirty_recursive_lem, Grows, ShownUnder}
use realize.Marks.{MarkTable, set_mark_or_root, do_get_mark}
use realize.Marks.Inheritance.{set_mark_or_root_unchanged}
use realize.Marks.Marking.{PathMarks, mark_index, mark_dirty, apply, set_mark}

-- Every file of the cache at the inode or under it is dirty, in the index as in the cache.
abbrev pub AllDirty : ArenaCache → Inode → PathMarks → Type 0
AllDirty c inode m =
    (k : Text)
    → (shown_at c.files inode k ≡ true) ⊎ ShownUnder c.directories c.files inode k
    → (dirty_key m.cache.tables k ≡ true) × (dirty_key m.index.tables k ≡ true)

module _ (fuel bound : ℕ) (m : PathMarks) (path : Option FilePath) (inode : Inode)
    (a : InodeAssignment)
    (found : do_lookup_path m.cache.directories m.cache.arena_root path ≡ ok (inode, a))
    (grows : Grows bound m.cache.directories) (enough : bound ≤ fuel) where
  mark_dirty_lem :
      (marks : MarkTable)
      → (m' : PathMarks) × (mark_dirty fuel (record m { marks = marks }) path ≡ ok m')
        × (m'.marks ≡ marks)
        × AllDirty m.cache inode m'
  unfolding mark_dirty
  mark_dirty_lem marks =
      let index = mark_index m.index path in
      let start : ArenaCache = record m.cache { tables = index.tables } in
      let (c, q, d) = mark_dirty_recursive_lem start path inode a bound fuel found grows enough in
      (
        record { marks = marks; index = record index { tables = c.tables }; cache = c },
        rw (q) refl,
        refl,
        λ k h. ((d k).1 (inr h), (d k).1 (inr h)),
      )

  applied :
      (marks : MarkTable) (b : Bool)
      → (m' : PathMarks) × (apply fuel m path (marks, b) ≡ ok m')
        × (m'.marks ≡ marks)
        × (b ≡ true → AllDirty m.cache inode m')
  unfolding apply
  applied marks true = let (m', q, s, d) = mark_dirty_lem marks in (m', q, s, λ h. d)
  applied marks false = (record m { marks = marks }, refl, refl, λ h. cc)

  -- If the path of a mark leads to an inode of the cache, the inodes of entries grow from directories
  -- to their entries and are below a bound, and the fuel is at least the bound, then setting the mark
  -- succeeds, and either every path has the mark it had, or every cached file under the path is dirty.
  pub set_mark_lem :
      (mark : Mark)
      → (m' : PathMarks) × (set_mark fuel m path mark ≡ ok m')
        × (((q : Option FilePath) → do_get_mark m'.marks q ≡ do_get_mark m.marks q)
            ⊎ AllDirty m.cache inode m')
  unfolding set_mark
  set_mark_lem mark =
      let r = set_mark_or_root m.marks path mark in
      let (m', e, s, d) = applied r.0 r.1 in
      elim (Bool-cases r.1) [
        | inl h ↦ (m', e, inr (d h))
        | inr h ↦ (
          m',
          e,
          inl (λ q. ap (λ t. do_get_mark t q) s ∙ set_mark_or_root_unchanged m.marks path mark q h),
        )
      ]
