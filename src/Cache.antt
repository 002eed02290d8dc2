-- ===== src/Cache.antt =====
-- `ArenaCache` of crate/realize-storage/src/arena/arena_cache.rs: the directories and files that the
-- peers of an arena report. This file has the state, the directories and the paths; an operation that
-- fails gives no state, as its transaction is dropped.
pub mod Files
pub mod Updates
pub mod Content
pub mod Marking
pub mod Entries
pub mod Defaults
pub mod Visibility
pub mod Directories
pub mod Creation
pub mod Catchup
use mathlib.Core.Option as OptionLib
use realize.Prelude.{
  ℕ, suc, ◌+◌, Bool, true, false, not, ◌&&◌, ◌||◌, Option, none, some, List, [], ◌∷◌, ltb, leb,
  ◌==◌, if◌then◌else◌,
}
use realize.Prelude.Eq.{Eq, nat_eq, list_eq, pair_eq, Assoc, lookup, delete}
use realize.Prelude.Order
use realize.Prelude.Order.{nat_order, text_order, pair_order}
use realize.Blobs.{Blobstore}
use realize.Data.{Arena}
use realize.Dirty.{DirtyTables, UnixTime}
use realize.FilePath.{Text, FilePath, components, name, parent, dot}
use realize.Inodes.{Inode, InodeAllocator, allocate_arena_inode}
use realize.Notifications.{Uuid, Progress}
use realize.Storage.{
  Result, ok, err, ◌>>=◌, ok_or, not_found, not_a_directory, is_a_directory, unknown_arena, Peer,
  FileTableEntry,
}

pub data InodeAssignment : Type 0 where
  file directory : InodeAssignment

pub record ReadDirEntry : Type 0 where
  pub inode : Inode
  pub assignment : InodeAssignment

pub data DirTableEntry : Type 0 where
  regular : ReadDirEntry → DirTableEntry
  dot_entry : UnixTime → DirTableEntry

unfoldable pub into_readdir_entry : DirTableEntry → Inode → ReadDirEntry
into_readdir_entry (regular e) inode = e
into_readdir_entry (dot_entry mtime) inode = record {
  inode = inode;
  assignment = InodeAssignment.directory;
}

-- `(inode, name)`, and `(inode, peer)` with an empty text for the default entry of a file.
abbrev pub Key : Type 0
Key = Inode × Text

instance abbrev pub key_eq : Eq Key
key_eq = pair_eq ⦃a = nat_eq⦄ ⦃b = list_eq⦄

abbrev pub DirTable : Type 0
DirTable = Assoc Key DirTableEntry

abbrev pub FileTable : Type 0
FileTable = Assoc Key FileTableEntry

pub record ArenaCache : Type 0 where
  pub arena : Arena
  pub arena_root : Inode
  pub allocator : InodeAllocator
  pub directories : DirTable
  pub files : FileTable
  -- from a peer and an inode to the inode of the containing directory
  pub pending_catchup : Assoc (Text × Inode) Inode
  pub last_seen : Assoc Text ℕ
  pub peers : Assoc Text Uuid
  pub blobs : Blobstore
  pub tables : DirtyTables

-- `range((inode, "")..(inode.plus(1), ""))`: the entries of an inode.
unfoldable pub entries_of {ℓ} : {V : Type ℓ} → Inode → Assoc Key V → Assoc Text V
entries_of inode [] = []
entries_of inode (((i, s), v) ∷ m) =
    let rest = entries_of inode m in if i == inode then (s, v) ∷ rest else rest

unfoldable pub get_dir_entry : DirTable → Inode → Text → Option ReadDirEntry
unfolding into_readdir_entry
get_dir_entry dirs parent_inode s =
    OptionLib.map (λ e. into_readdir_entry e parent_inode) (lookup (parent_inode, s) dirs)

unfoldable pub do_lookup : DirTable → Inode → Text → Result ReadDirEntry
unfolding get_dir_entry
do_lookup dirs parent_inode s = ok_or not_found (get_dir_entry dirs parent_inode s)

unfoldable pub regular_entries : Assoc Text DirTableEntry → List (Text × ReadDirEntry)
regular_entries [] = []
regular_entries ((s, regular e) ∷ m) = (s, e) ∷ regular_entries m
regular_entries ((s, dot_entry t) ∷ m) = regular_entries m

unfoldable pub do_readdir : DirTable → Inode → List (Text × ReadDirEntry)
unfolding regular_entries entries_of
do_readdir dirs inode = regular_entries (entries_of inode dirs)

abbrev pub dot_name : Text
dot_name = dot ∷ []

unfoldable pub do_dir_mtime : DirTable → Inode → Inode → Result UnixTime
do_dir_mtime dirs inode root = elim (lookup (inode, dot_name) dirs) [
  | some (dot_entry mtime) ↦ ok mtime
  | some (regular e) ↦ err not_found
  | none ↦ if inode == root then ok 0 else err not_found
]

-- The clock reads `now`.
unfoldable pub add_dir_entry :
    UnixTime → DirTable → Inode → Inode → Text → InodeAssignment → DirTable
add_dir_entry now dirs parent_inode new_inode s assignment =
    let entry = regular (record { inode = new_inode; assignment = assignment }) in
    let named = Order.insert (parent_inode, s) entry dirs in
    let dotted = Order.insert (parent_inode, dot_name) (dot_entry now) named in
    elim assignment [
      | InodeAssignment.directory ↦ Order.insert (new_inode, dot_name) (dot_entry now) dotted
      | InodeAssignment.file ↦ dotted
    ]

-- The loop of `do_lookup_path`.
unfoldable pub lookup_loop :
    DirTable → Inode × InodeAssignment → List Text → Result (Inode × InodeAssignment)
unfolding get_dir_entry
lookup_loop dirs current [] = ok current
lookup_loop dirs (inode, InodeAssignment.file) (s ∷ ss) = err not_a_directory
lookup_loop dirs (inode, InodeAssignment.directory) (s ∷ ss) = elim (get_dir_entry dirs inode s) [
  | none ↦ err not_found
  | some e ↦ lookup_loop dirs (e.inode, e.assignment) ss
]

unfoldable pub do_lookup_path :
    DirTable → Inode → Option FilePath → Result (Inode × InodeAssignment)
unfolding lookup_loop
do_lookup_path dirs root path = lookup_loop dirs (root, InodeAssignment.directory) (components path)

-- The allocator keeps its tables in the global database.
unfoldable pub allocate_inode : InodeAllocator → Arena → Result (InodeAllocator × Inode)
allocate_inode allocator arena = ok_or (unknown_arena arena) (allocate_arena_inode allocator arena)

-- What creating directories leaves, and the inode they end in.
pub record Made : Type 0 where
  pub allocator : InodeAllocator
  pub directories : DirTable
  pub inode : Inode

-- A new entry of a directory with a new inode.
unfoldable pub make_entry :
    UnixTime → Arena → InodeAllocator → DirTable → Inode → Text → InodeAssignment → Result Made
unfolding allocate_inode add_dir_entry
make_entry now arena allocator dirs parent_inode s assignment = do
  (allocator', new_inode) ← allocate_inode allocator arena
  ok (record {
    allocator = allocator';
    directories = add_dir_entry now dirs parent_inode new_inode s assignment;
    inode = new_inode;
  })

-- The directory of a component: the one that is there, or a new one.
unfoldable pub enter : UnixTime → Arena → Made → Text → Result Made
unfolding get_dir_entry make_entry
enter now arena m s = elim (get_dir_entry m.directories m.inode s) [
  | none ↦ make_entry now arena m.allocator m.directories m.inode s InodeAssignment.directory
  | some e ↦ elim e.assignment [
    | InodeAssignment.directory ↦ ok (record m { inode = e.inode })
    | InodeAssignment.file ↦ err not_a_directory
  ]
]

unfoldable pub mkdirs_loop : UnixTime → Arena → Made → List Text → Result Made
unfolding enter
mkdirs_loop now arena m [] = ok m
mkdirs_loop now arena m (s ∷ ss) = enter now arena m s >>= λ m'. mkdirs_loop now arena m' ss

unfoldable pub do_mkdirs :
    UnixTime → Arena → InodeAllocator → DirTable → Inode → Option FilePath → Result Made
unfolding mkdirs_loop
do_mkdirs now arena allocator dirs root path =
    mkdirs_loop now arena (record { allocator = allocator; directories = dirs; inode = root })
      (components path)

-- The file of a directory: the one that is there, or a new one.
unfoldable pub enter_file : UnixTime → Arena → Made → Text → Result Made
unfolding get_dir_entry make_entry
enter_file now arena m s = elim (get_dir_entry m.directories m.inode s) [
  | none ↦ make_entry now arena m.allocator m.directories m.inode s InodeAssignment.file
  | some e ↦ elim e.assignment [
    | InodeAssignment.directory ↦ err is_a_directory
    | InodeAssignment.file ↦ ok (record m { inode = e.inode })
  ]
]

-- The cache, and the inodes of the parent and of the file.
unfoldable pub do_create_file :
    UnixTime → ArenaCache → FilePath → Result (ArenaCache × (Inode × Inode))
unfolding do_mkdirs enter_file
do_create_file now c path = do
  dir ← do_mkdirs now c.arena c.allocator c.directories c.arena_root (parent path)
  made ← enter_file now c.arena dir (name path)
  ok (
    record c { allocator = made.allocator; directories = made.directories },
    (dir.inode, made.inode),
  )
