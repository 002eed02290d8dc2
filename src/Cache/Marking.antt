-- ===== src/Cache/Marking.antt =====
-- `mark_dirty_recursive` of crate/realize-storage/src/arena/arena_cache.rs. The recursion over the
-- directories is on fuel: `fuel` bounds how deep it goes.
pub mod Loops
pub mod Reach
use realize.Prelude.{
  ℕ, zero, suc, ◌+◌, ◌<◌, ◌≤◌, Bool, true, false, ◌||◌, ◌≡◌, ◌↔◌, ◌∙◌, sym, ap, refl, Option, none,
  some, List, [], ◌∷◌, arith, ◌⊎◌, inl, inr, Option-cases, Bool-cases,
}
use mathlib.Core.Path.{subst}
use realize.Prelude.Eq.{nat_eq, list_eq, list_beq, list_beq_iff, pair_eq, lookup}
use realize.Dirty.{DirtyTables, mark_dirty}
use realize.FilePath.{Text, FilePath}
use realize.Index.Removal.{dirty_key, dirty_key-mark_dirty}
use realize.Inodes.{Inode}
use realize.Storage.{StorageError, Result, ok, err, not_found, FileTableEntry}
use realize.Cache.{
  ArenaCache, DirTable, FileTable, key_eq, InodeAssignment, ReadDirEntry, do_readdir,
  do_lookup_path,
}
use realize.Cache.Files.{default_key}

unfoldable pub mark_file_dirty : FileTable → Inode → DirtyTables → DirtyTables
mark_file_dirty files inode t = elim (lookup (inode, default_key) files) [
  | none ↦ t
  | some e ↦ (mark_dirty t e.content.path).0
]

-- One entry of a directory; `go` does a directory.
unfoldable pub entry_dirty :
    (Inode → DirtyTables → DirtyTables)
    → FileTable
    → InodeAssignment
    → Inode
    → DirtyTables
    → DirtyTables
unfolding mark_file_dirty
entry_dirty go files InodeAssignment.file inode t = mark_file_dirty files inode t
entry_dirty go files InodeAssignment.directory inode t = go inode t

-- The loop over the entries of a directory.
unfoldable pub mark_entries :
    (Inode → DirtyTables → DirtyTables)
    → FileTable
    → List (Text × ReadDirEntry)
    → DirtyTables
    → DirtyTables
unfolding entry_dirty
mark_entries go files [] t = t
mark_entries go files ((s, e) ∷ entries) t =
    mark_entries go files entries (entry_dirty go files e.assignment e.inode t)

unfoldable pub mark_dir_dirty : ℕ → DirTable → FileTable → Inode → DirtyTables → DirtyTables
unfolding mark_entries do_readdir
mark_dir_dirty zero dirs files inode t = t
mark_dir_dirty (suc fuel) dirs files inode t =
    mark_entries (mark_dir_dirty fuel dirs files) files (do_readdir dirs inode) t

-- A path that is not there is no error.
unfoldable pub unless_not_found : ArenaCache → StorageError → Result ArenaCache
unless_not_found c StorageError.not_found = ok c
unless_not_found c e = err e

unfoldable pub mark_dirty_recursive : ℕ → ArenaCache → Option FilePath → Result ArenaCache
unfolding mark_file_dirty mark_dir_dirty unless_not_found do_lookup_path
mark_dirty_recursive fuel c path = elim (do_lookup_path c.directories c.arena_root path) [
  | ok (inode, assignment) ↦
      let tables = mark_file_dirty c.files inode c.tables in
      ok (record c { tables = mark_dir_dirty fuel c.directories c.files inode tables })
  | err e ↦ unless_not_found c e
]
