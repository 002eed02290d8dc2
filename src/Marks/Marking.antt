-- ===== src/Marks/Marking.antt =====
-- `PathMarks::mark_dirty` of crate/realize-storage/src/arena/mark.rs, and setting and clearing a mark
-- with it: what changes in the index and in the cache of the arena.
pub mod Setting
use realize.Prelude.{ℕ, Bool, true, false, Option, none, some}
use realize.FilePath.{FilePath}
use realize.Engine.{Mark}
use realize.Storage.{Result, ok, err, ◌>>=◌}
use realize.Index.{RealIndex}
use realize.Index as RealIndexes
use realize.Cache.{ArenaCache}
use realize.Cache.Marking as CacheMarking
use realize.Marks.{MarkTable, set_mark_or_root, clear_mark}

-- The tables of an arena. The index and the cache share the dirty tables, which both hold.
pub record PathMarks : Type 0 where
  pub marks : MarkTable
  pub index : RealIndex
  pub cache : ArenaCache

-- The index, or all of it, and then the cache, which goes on with the dirty tables of the index.
unfoldable pub mark_index : RealIndex → Option FilePath → RealIndex
mark_index i none = RealIndexes.make_all_dirty i
mark_index i (some path) = RealIndexes.mark_dirty_recursive i path

unfoldable pub mark_dirty : ℕ → PathMarks → Option FilePath → Result PathMarks
unfolding mark_index
mark_dirty fuel m path =
    let index = mark_index m.index path in
    CacheMarking.mark_dirty_recursive fuel (record m.cache { tables = index.tables }) path
    >>= λ cache. ok (record m { index = record index { tables = cache.tables }; cache = cache })

-- The transaction is committed, or nothing changes.
unfoldable pub apply : ℕ → PathMarks → Option FilePath → MarkTable × Bool → Result PathMarks
unfolding mark_dirty
apply fuel m path (marks, true) = mark_dirty fuel (record m { marks = marks }) path
apply fuel m path (marks, false) = ok (record m { marks = marks })

unfoldable pub set_mark : ℕ → PathMarks → Option FilePath → Mark → Result PathMarks
unfolding apply set_mark_or_root
set_mark fuel m path mark = apply fuel m path (set_mark_or_root m.marks path mark)

unfoldable pub unset_mark : ℕ → PathMarks → FilePath → Result PathMarks
unfolding apply clear_mark
unset_mark fuel m path = apply fuel m (some path) (clear_mark m.marks path)
