-- ===== src/Cache/Updates.antt =====
-- `ArenaCache::update` of crate/realize-storage/src/arena/arena_cache.rs: what the notifications of a
-- peer change in the cache.
use mathlib.Core.Option as OptionLib
use realize.Prelude.{
  ℕ, Bool, true, false, not, Option, none, some, List, [], ◌∷◌, ◌==◌, if◌then◌else◌,
}
use realize.Prelude.Eq.{Eq, nat_eq, list_eq, list_beq, pair_eq, Assoc, lookup, delete}
use realize.Prelude.Order
use realize.Prelude.Order.{nat_order, text_order, pair_order}
use realize.Data.{Hash, Hash_eq}
use realize.FilePath.{Text, FilePath, name, parent}
use realize.Inodes.{Inode}
use realize.Notifications.{Notification, Progress, Uuid}
use realize.Storage.{
  Result, ok, err, ◌>>=◌, ok_or, not_found, not_a_directory, is_a_directory, Peer, FileTableEntry,
  new_file_entry,
}
use realize.Cache.{
  ArenaCache, InodeAssignment, FileTable, key_eq, get_dir_entry, do_lookup_path, do_create_file,
}
use realize.Cache.Files.{
  Env, get_file_entry, do_write_file_entry, do_write_default_file_entry, do_rm_file_entry,
}

-- `(peer, inode)`
instance abbrev pub catchup_eq : Eq (Text × Inode)
catchup_eq = pair_eq ⦃a = list_eq⦄ ⦃b = nat_eq⦄

unfoldable pub do_update_last_seen_notification : ArenaCache → Peer → ℕ → ArenaCache
do_update_last_seen_notification c peer index = record c {
  last_seen = Order.insert peer index c.last_seen;
}

unfoldable pub do_peer_progress : ArenaCache → Peer → Option Progress
do_peer_progress c peer = elim (lookup peer c.peers) [
  | none ↦ none
  | some uuid ↦
      OptionLib.map (λ last_seen. record { uuid = uuid; last_seen = last_seen })
        (lookup peer c.last_seen)
]

unfoldable pub is_directory : InodeAssignment → Bool
is_directory InodeAssignment.directory = true
is_directory InodeAssignment.file = false

unfoldable pub do_unlink : Env → ArenaCache → Peer → FilePath → Hash → Result ArenaCache
unfolding do_rm_file_entry is_directory
do_unlink env c peer path old_hash = do
  (parent_inode, parent_assignment) ← do_lookup_path c.directories c.arena_root (parent path)
  if not (is_directory parent_assignment)
      then err not_a_directory
      else (ok_or not_found (get_dir_entry c.directories parent_inode (name path)) >>= λ e.
          if is_directory e.assignment
          then err is_a_directory
          else ok (do_rm_file_entry env c parent_inode e.inode peer (some old_hash)))

unfoldable pub mark_loop :
    Peer → FileTable → Assoc (Text × Inode) Inode → Assoc (Text × Inode) Inode
mark_loop peer [] pending = pending
mark_loop peer (((inode, s), e) ∷ files) pending =
    mark_loop peer files
      (if not (list_beq s peer) then pending else Order.insert (peer, inode) e.parent_inode pending)

unfoldable pub do_mark_peer_files : ArenaCache → Peer → ArenaCache
unfolding mark_loop
do_mark_peer_files c peer = record c { pending_catchup = mark_loop peer c.files c.pending_catchup }

unfoldable pub do_unmark_peer_file : ArenaCache → Peer → Inode → ArenaCache
do_unmark_peer_file c peer inode = record c {
  pending_catchup = delete (peer, inode) c.pending_catchup;
}

-- `extract_from_if` on the range of the peer: the inodes with their parents, and what stays.
unfoldable pub marked : Peer → Assoc (Text × Inode) Inode → List (Inode × Inode)
marked peer [] = []
marked peer (((s, inode), parent_inode) ∷ pending) =
    let rest = marked peer pending in if list_beq s peer then (inode, parent_inode) ∷ rest else rest

unfoldable pub unmarked : Peer → Assoc (Text × Inode) Inode → Assoc (Text × Inode) Inode
unmarked peer [] = []
unmarked peer (((s, inode), parent_inode) ∷ pending) =
    let rest = unmarked peer pending in
    if list_beq s peer then rest else ((s, inode), parent_inode) ∷ rest

unfoldable pub rm_loop : Env → Peer → List (Inode × Inode) → ArenaCache → ArenaCache
rm_loop env peer [] c = c
rm_loop env peer ((inode, parent_inode) ∷ files) c =
    rm_loop env peer files (do_rm_file_entry env c parent_inode inode peer none)

unfoldable pub do_delete_marked_files : Env → ArenaCache → Peer → ArenaCache
unfolding marked unmarked rm_loop
do_delete_marked_files env c peer =
    rm_loop env peer (marked peer c.pending_catchup)
      (record c { pending_catchup = unmarked peer c.pending_catchup })

-- The end of `Add` and of `Catchup`: the default entry is written if there is none.
unfoldable pub with_default : ArenaCache → Inode → FileTableEntry → ArenaCache
unfolding get_file_entry do_write_default_file_entry
with_default c inode entry = elim (get_file_entry c.files inode none) [
  | some e ↦ c
  | none ↦ do_write_default_file_entry c inode entry
]

unfoldable pub add_entry : ArenaCache → Inode → Peer → FileTableEntry → ArenaCache
unfolding get_file_entry do_write_file_entry with_default
add_entry c inode peer entry = elim (get_file_entry c.files inode (some peer)) [
  | some e ↦ c
  | none ↦ with_default (do_write_file_entry c inode peer entry) inode entry
]

unfoldable pub entry_has_hash : Option FileTableEntry → Hash → Bool
entry_has_hash none h = false
entry_has_hash (some e) h = Hash_eq.beq e.content.hash h

unfoldable pub replace_entry : ArenaCache → Inode → Peer → FileTableEntry → Hash → ArenaCache
unfolding get_file_entry do_write_file_entry do_write_default_file_entry entry_has_hash
replace_entry c inode peer entry old_hash =
    if entry_has_hash (get_file_entry c.files inode none) old_hash
    then do_write_default_file_entry (do_write_file_entry c inode peer entry) inode entry
    else if entry_has_hash (get_file_entry c.files inode (some peer)) old_hash
    then do_write_file_entry c inode peer entry
    else c

unfoldable pub catchup_entry : ArenaCache → Inode → Peer → FileTableEntry → ArenaCache
unfolding do_unmark_peer_file do_write_file_entry with_default
catchup_entry c inode peer entry =
    with_default (do_write_file_entry (do_unmark_peer_file c peer inode) inode peer entry) inode
      entry

unfoldable pub same_uuid : Option Uuid → Uuid → Bool
same_uuid none uuid = false
same_uuid (some u) uuid = u == uuid

unfoldable pub connect : ArenaCache → Peer → Uuid → ArenaCache
unfolding same_uuid
connect c peer uuid =
    if same_uuid (lookup peer c.peers) uuid
    then c
    else record c { peers = Order.insert peer uuid c.peers; last_seen = delete peer c.last_seen }

unfoldable pub update : Env → ArenaCache → Peer → Notification → Result ArenaCache
unfolding do_update_last_seen_notification do_create_file add_entry replace_entry do_unlink
    do_mark_peer_files catchup_entry do_delete_marked_files connect
update env c peer (Notification.add a index path mtime size hash) = do
  (c', (parent_inode, inode)) ←
      do_create_file env.now (do_update_last_seen_notification c peer index) path
  ok (add_entry c' inode peer (new_file_entry path size mtime hash parent_inode))
update env c peer (Notification.replace a index path mtime size hash old_hash) = do
  (c', (parent_inode, inode)) ←
      do_create_file env.now (do_update_last_seen_notification c peer index) path
  ok (replace_entry c' inode peer (new_file_entry path size mtime hash parent_inode) old_hash)
update env c peer (Notification.remove a index path old_hash) =
    do_unlink env (do_update_last_seen_notification c peer index) peer path old_hash
update env c peer (Notification.drop a index path old_hash) =
    do_unlink env (do_update_last_seen_notification c peer index) peer path old_hash
update env c peer (Notification.catchup_start a) = ok (do_mark_peer_files c peer)
update env c peer (Notification.catchup a path mtime size hash) = do
  (c', (parent_inode, inode)) ← do_create_file env.now c path
  ok (catchup_entry c' inode peer (new_file_entry path size mtime hash parent_inode))
update env c peer (Notification.catchup_complete a index) =
    ok (do_update_last_seen_notification (do_delete_marked_files env c peer) peer index)
update env c peer (Notification.connected a uuid) = ok (connect c peer uuid)
