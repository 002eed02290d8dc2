-- ===== src/Cache/Files.antt =====
-- The file table of `ArenaCache`, crate/realize-storage/src/arena/arena_cache.rs: for every file an
-- entry for each peer that has it, and the default entry, which is what the outside world sees.
use realize.Prelude.{
  Bool, true, false, not, ◌&&◌, Option, none, some, List, [], ◌∷◌, ltb, ◌==◌, any, if◌then◌else◌,
}
use realize.Prelude.Eq.{nat_eq, list_eq, list_beq, pair_eq, Assoc, lookup, delete}
use realize.Prelude.Order
use realize.Prelude.Order.{nat_order, text_order, pair_order}
use realize.Blobs.{Blobstore, delete_blob}
use realize.Data.{Arena, Hash, Hash_eq}
use realize.Dirty.{DirtyTables, UnixTime, mark_dirty}
use realize.FilePath.{Text, FilePath}
use realize.Inodes.{Inode}
use realize.Storage.{Result, ok, err, ok_or, not_found, Peer, FileMetadata, FileTableEntry}
use realize.Cache.{
  ArenaCache, DirTable, DirTableEntry, FileTable, key_eq, regular, dot_entry, dot_name, entries_of,
}

abbrev pub default_key : Text
default_key = []

-- The clock, and the order in which a `HashMap` gives its entries.
pub record Env : Type 0 where
  pub now : UnixTime
  pub hash_order : Assoc Text FileTableEntry → Assoc Text FileTableEntry

-- `none` in place of the peer is the default entry.
unfoldable pub get_file_entry : FileTable → Inode → Option Peer → Option FileTableEntry
get_file_entry files inode none = lookup (inode, default_key) files
get_file_entry files inode (some peer) = lookup (inode, peer) files

unfoldable pub get_default_entry : FileTable → Inode → Result FileTableEntry
get_default_entry files inode = ok_or not_found (lookup (inode, default_key) files)

unfoldable pub do_write_file_entry : ArenaCache → Inode → Peer → FileTableEntry → ArenaCache
do_write_file_entry c inode peer entry = record c {
  files = Order.insert (inode, peer) entry c.files;
}

-- The blob of an entry that is there is deleted.
unfoldable pub delete_blob_of : Option FileTableEntry → Blobstore → Blobstore
delete_blob_of none s = s
delete_blob_of (some e) s = elim e.content.blob [ none ↦ s | some blob_id ↦ delete_blob s blob_id ]

unfoldable pub do_write_default_file_entry : ArenaCache → Inode → FileTableEntry → ArenaCache
unfolding delete_blob_of
do_write_default_file_entry c inode entry = record c {
  blobs = delete_blob_of (lookup (inode, default_key) c.files) c.blobs;
  tables = (mark_dirty c.tables entry.content.path).0;
  files = Order.insert (inode, default_key) entry c.files;
}

-- `retain_in` on the entries of the directory: those that name the inode go.
unfoldable pub names_inode : Inode → DirTableEntry → Bool
names_inode inode (regular e) = e.inode == inode
names_inode inode (dot_entry t) = false

unfoldable pub retain_in : Inode → Inode → DirTable → DirTable
unfolding names_inode
retain_in parent_inode inode [] = []
retain_in parent_inode inode (((i, s), v) ∷ dirs) =
    let rest = retain_in parent_inode inode dirs in
    if i == parent_inode && names_inode inode v then rest else ((i, s), v) ∷ rest

unfoldable pub first_path : Assoc Text FileTableEntry → Option FilePath
first_path [] = none
first_path ((s, e) ∷ entries) = some e.content.path

unfoldable pub mark_path : DirtyTables → Option FilePath → DirtyTables
mark_path t none = t
mark_path t (some path) = (mark_dirty t path).0

-- The last peer of the file is gone: the default entry and the directory entry go as well.
unfoldable pub forget_file : UnixTime → ArenaCache → Inode → Inode → Option FilePath → ArenaCache
unfolding mark_path delete_blob_of retain_in
forget_file now c parent_inode inode path = record c {
  tables = mark_path c.tables path;
  blobs = delete_blob_of (lookup (inode, default_key) c.files) c.blobs;
  files = delete (inode, default_key) c.files;
  directories =
      Order.insert (parent_inode, dot_name) (dot_entry now)
        (retain_in parent_inode inode c.directories);
}

unfoldable pub some_hash : Option Hash → Assoc Text FileTableEntry → Bool
some_hash none entries = false
some_hash (some h) entries = any (λ e. Hash_eq.beq e.1.content.hash h) entries

-- `reduce`: a later entry is kept if it is more recent.
unfoldable pub most_recent_of : FileTableEntry → Assoc Text FileTableEntry → FileTableEntry
most_recent_of a [] = a
most_recent_of a ((s, b) ∷ entries) =
    most_recent_of (if ltb a.metadata.mtime b.metadata.mtime then b else a) entries

unfoldable pub most_recent : Assoc Text FileTableEntry → Option FileTableEntry
unfolding most_recent_of
most_recent [] = none
most_recent ((s, e) ∷ entries) = some (most_recent_of e entries)

-- The default entry once a peer has left and others remain, `entries`.
unfoldable pub choose_default :
    Env → ArenaCache → Inode → Option Hash → Assoc Text FileTableEntry → ArenaCache
unfolding some_hash most_recent do_write_default_file_entry
choose_default env c inode default_hash entries =
    if some_hash default_hash entries then c else elim (most_recent (env.hash_order entries)) [
      | none ↦ c
      | some e ↦ do_write_default_file_entry c inode e
    ]

unfoldable pub hash_of : Option FileTableEntry → Option Hash
hash_of none = none
hash_of (some e) = some e.content.hash

-- `is_empty`
unfoldable pub no_entries : Assoc Text FileTableEntry → Bool
no_entries [] = true
no_entries (e ∷ entries) = false

-- The removal of the entry of a peer that has one.
unfoldable pub rm_peer_entry :
    Env → ArenaCache → Inode → Inode → Peer → Assoc Text FileTableEntry → ArenaCache
unfolding first_path no_entries forget_file choose_default hash_of
rm_peer_entry env c parent_inode inode peer entries =
    let c' = record c { files = delete (inode, peer) c.files } in
    let left = delete peer entries in
    let others = delete default_key left in
    if no_entries others
    then forget_file env.now c' parent_inode inode (first_path entries)
    else choose_default env c' inode (hash_of (lookup default_key left)) others

-- An old hash that is given must be the one that the peer has.
unfoldable pub other_version : Option Hash → Hash → Bool
other_version none h = false
other_version (some old_hash) h = not (Hash_eq.beq h old_hash)

unfoldable pub do_rm_file_entry : Env → ArenaCache → Inode → Inode → Peer → Option Hash → ArenaCache
unfolding entries_of rm_peer_entry other_version
do_rm_file_entry env c parent_inode inode peer old_hash =
    let entries = entries_of inode c.files in
    elim (lookup peer entries) [
      | none ↦ c
      | some e ↦
          if other_version old_hash e.content.hash
          then c
          else rm_peer_entry env c parent_inode inode peer entries
    ]

pub record FileAvailability : Type 0 where
  pub arena : Arena
  pub path : FilePath
  pub metadata : FileMetadata
  pub hash : Hash
  pub peers : List Peer

unfoldable pub peers_with : Hash → Assoc Text FileTableEntry → List Peer
peers_with h [] = []
peers_with h ((peer, e) ∷ entries) =
    let rest = peers_with h entries in if Hash_eq.beq e.content.hash h then peer ∷ rest else rest

-- The default entry `e` and the peers that have its hash.
unfoldable pub availability_of_default :
    Arena → FileTableEntry → List Peer → Result FileAvailability
availability_of_default arena e [] = err not_found
availability_of_default arena e (p ∷ ps) = ok (record {
  arena = arena;
  path = e.content.path;
  metadata = e.metadata;
  hash = e.content.hash;
  peers = p ∷ ps;
})

-- The entries of an inode, in the order of their keys.
unfoldable pub availability_in : Arena → Assoc Text FileTableEntry → Result FileAvailability
unfolding availability_of_default peers_with
availability_in arena [] = err not_found
availability_in arena ((s, e) ∷ entries) =
    if not (list_beq s default_key)
    then err not_found
    else availability_of_default arena e (peers_with e.content.hash entries)

unfoldable pub do_file_availability : FileTable → Inode → Arena → Result FileAvailability
unfolding entries_of availability_in
do_file_availability files inode arena = availability_in arena (entries_of inode files)
