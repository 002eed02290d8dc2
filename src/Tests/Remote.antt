-- ===== src/Tests/Remote.antt =====
-- Runs of crate/realize-storage/src/arena/arena_cache.rs on the notifications of one peer.
use realize.Prelude.{Option, ℕ, true, ◌≡◌, ◌↔◌, ◌⊎◌, refl, some, List, [], ◌∷◌, arith, All}
use realize.Prelude.Eq.{nat_eq, list_eq, list_beq_iff, lookup, put}
use realize.Prelude.Order
use realize.Prelude.Order.{nat_order, text_order, pair_order}
use realize.Data.{Hash, Hash_eq}
use realize.Dirty.{empty_tables}
use realize.FilePath.{Text, FilePath, components, parent, name, rfind, split, cons_first, last_or}
use realize.Inodes.{Inode, InodeAllocator, allocate_arena_inode}
use realize.Inodes
use realize.Notifications.{Notification}
use realize.Storage.{Result, ok, err, not_found, FileTableEntry, new_file_entry}
use realize.Engine.{keep}
use realize.Marks.{do_get_mark}
use realize.Marks.Marking.{PathMarks, set_mark}
use realize.Marks.Marking.Setting.{AllDirty, set_mark_lem}
use realize.Cache.Marking.{mark_dirty_recursive}
use realize.Cache.Marking.Reach.{mark_dirty_recursive_lem, ShownUnder}
use realize.Cache.Marking.Loops.{shown_at}
use realize.Index.Removal.{dirty_key}
use realize.Cache.{
  regular, InodeAssignment, do_lookup_path, lookup_loop, ArenaCache, key_eq, do_create_file,
  do_mkdirs, mkdirs_loop, enter, enter_file, make_entry, allocate_inode, get_dir_entry,
  into_readdir_entry, add_dir_entry,
}
use realize.Cache.Files.{
  Env, default_key, do_write_file_entry, do_write_default_file_entry, do_file_availability,
}
use realize.Cache.Updates.{update, do_update_last_seen_notification, catchup_entry}
use realize.Cache.Defaults.{Shown, IsPeer, first-Shown, empty-Shown}
use realize.Cache.Visibility.{update-Shown}
use realize.Cache.Directories.{IsName}
use realize.Cache.Creation.{Created, do_create_file-Created}
use realize.Cache.Catchup.{catchup_entry-unavailable}

abbrev env : Env
env = record { now = 5; hash_order = λ m. m }

abbrev peer : List ℕ
peer = b'p' ∷ []

abbrev one : Hash
one = record { bytes = 1 ∷ [] }

abbrev two : Hash
two = record { bytes = 2 ∷ [] }

-- `d/x`
abbrev path : FilePath
path = record { chars = b'd' ∷ b'/' ∷ b'x' ∷ [] }

abbrev allocator : InodeAllocator
allocator = record {
  ranges = (101, 1) ∷ (10101, 2) ∷ [];
  arenas = ("a", 2) ∷ [];
  arena_roots = ("a", 2) ∷ [];
  global_range = some (2, 102);
  arena_ranges = ("a", (102, 10102)) ∷ [];
}

abbrev empty_cache : ArenaCache
empty_cache = record {
  arena = "a";
  arena_root = 2;
  allocator = allocator;
  directories = [];
  files = [];
  pending_catchup = [];
  last_seen = [];
  peers = [];
  blobs = record { blob_table = []; files = [] };
  tables = empty_tables;
}

abbrev created_or : Result (ArenaCache × (Inode × Inode)) → ArenaCache × (Inode × Inode)
created_or (ok r) = r
created_or (err e) = (empty_cache, (0, 0))

abbrev made : ArenaCache × (Inode × Inode)
made = created_or (do_create_file 5 empty_cache path)

made_ok : do_create_file 5 empty_cache path ≡ ok (made.0, (made.1.0, made.1.1))
unfolding do_create_file do_mkdirs mkdirs_loop enter enter_file make_entry allocate_inode
    get_dir_entry into_readdir_entry add_dir_entry lookup Order.insert put components parent name
    rfind split cons_first last_or allocate_arena_inode Inodes.needs_range Inodes.allocate_inode
made_ok = refl

names : All IsName (components (some path))
unfolding components split cons_first
names = (refl, (refl, tt))

do_create_file-Created_example : Created empty_cache made.0 path made.1.0 made.1.1
do_create_file-Created_example =
    do_create_file-Created 5 empty_cache path made.0 made.1.0 made.1.1 names made_ok

abbrev cache_or : Result ArenaCache → ArenaCache
cache_or (ok c) = c
cache_or (err e) = empty_cache

abbrev added : Notification
added = Notification.add "a" 1 path 0 10 one

abbrev with_file : ArenaCache
with_file = cache_or (update env empty_cache peer added)

added_ok : update env empty_cache peer added ≡ ok with_file
unfolding update do_update_last_seen_notification do_create_file do_mkdirs mkdirs_loop enter
    enter_file make_entry allocate_inode get_dir_entry into_readdir_entry add_dir_entry lookup
    Order.insert put components parent name rfind split cons_first last_or allocate_arena_inode
    Inodes.needs_range Inodes.allocate_inode
added_ok = refl

update-Shown_example : Shown with_file.files
update-Shown_example = update-Shown env empty_cache peer added with_file refl empty-Shown added_ok

-- The file with the version that the peer had first.
abbrev first_version : FileTableEntry
first_version = new_file_entry path 10 0 one 103

abbrev one_file : ArenaCache
one_file =
    do_write_default_file_entry (do_write_file_entry empty_cache 104 peer first_version) 104
      first_version

one_file-Shown : Shown one_file.files
unfolding do_write_default_file_entry do_write_file_entry
one_file-Shown = first-Shown empty_cache.files empty-Shown 104 peer first_version first_version refl

only_peer :
    (s : List ℕ) (f : FileTableEntry)
    → IsPeer s
    → lookup (104, s) one_file.files ≡ some f
    → s ≡ peer
unfolding do_write_default_file_entry do_write_file_entry Order.insert lookup
only_peer [] f p h = cc
only_peer (c ∷ cs) f p h = ground (arith, list_beq_iff peer (c ∷ cs))

catchup_entry-unavailable_example :
    let files = (catchup_entry one_file 104 peer (new_file_entry path 11 5 two 103)).files in
    (lookup (104, default_key) files ≡ some first_version)
    × (do_file_availability files 104 "a" ≡ err not_found)
catchup_entry-unavailable_example =
    catchup_entry-unavailable one_file 104 peer (new_file_entry path 11 5 two 103) first_version "a"
      refl one_file-Shown
      (unfold do_write_default_file_entry do_write_file_entry Order.insert lookup in refl) only_peer
      (unfold new_file_entry in refl)

-- The directory `d` has the inode 3, the file `d/x` in it the inode 4.
abbrev marked_cache : ArenaCache
marked_cache = record empty_cache {
  directories =
      ((2, b'd' ∷ []), regular (record { inode = 3; assignment = InodeAssignment.directory }))
      ∷ ((3, b'x' ∷ []), regular (record { inode = 4; assignment = InodeAssignment.file }))
      ∷ [];
  files = ((4, default_key), new_file_entry path 10 0 one 3) ∷ [];
}

abbrev dir : FilePath
dir = record { chars = b'd' ∷ [] }

dir_found : do_lookup_path marked_cache.directories 2 (some dir) ≡ ok (3, InodeAssignment.directory)
unfolding do_lookup_path lookup_loop get_dir_entry into_readdir_entry lookup components split
    cons_first
dir_found = refl

mark_dirty_recursive_lem_example :
    (c' : ArenaCache) × (mark_dirty_recursive 5 marked_cache (some dir) ≡ ok c')
    × ((k : Text)
        → (dirty_key c'.tables k ≡ true) ↔ (
            (dirty_key marked_cache.tables k ≡ true)
            ⊎ ((shown_at marked_cache.files 3 k ≡ true)
                ⊎ ShownUnder marked_cache.directories marked_cache.files 3 k)))
mark_dirty_recursive_lem_example =
    mark_dirty_recursive_lem marked_cache (some dir) 3 InodeAssignment.directory 5 5 dir_found
      (omega arith) (omega arith)

abbrev path_marks : PathMarks
path_marks = record {
  marks = [];
  index = record { arena = "a"; files = []; history = []; tables = empty_tables };
  cache = marked_cache;
}

set_mark_lem_example :
    (m' : PathMarks) × (set_mark 5 path_marks (some dir) keep ≡ ok m')
    × (((q : Option FilePath) → do_get_mark m'.marks q ≡ do_get_mark path_marks.marks q)
        ⊎ AllDirty marked_cache 3 m')
set_mark_lem_example =
    set_mark_lem 5 5 path_marks (some dir) 3 InodeAssignment.directory dir_found (omega arith)
      (omega arith) keep
