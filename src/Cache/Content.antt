-- ===== src/Cache/Content.antt =====
-- The content of cached files, crate/realize-storage/src/arena/arena_cache.rs: the default entry of a
-- file with its blob in the `Blobstore`.
use realize.Prelude.{ℕ, not, Option, none, some, List, if◌then◌else◌}
use realize.Prelude.Eq.{nat_eq, list_eq, pair_eq, lookup}
use realize.Prelude.Order
use realize.Prelude.Order.{nat_order, text_order, pair_order}
use realize.Blobs
use realize.Blobs.{Blob, Blobstore}
use realize.Data.{Hash, Hash_eq}
use realize.Engine.{LocalAvailability}
use realize.FilePath.{FilePath}
use realize.Inodes.{Inode}
use realize.Storage.{
  Result, ok, err, ◌>>=◌, ok_or, not_found, is_a_directory, BlobId, FileTableEntry, FileMetadata,
}
use realize.Cache.{ArenaCache, key_eq, do_lookup_path}
use realize.Cache.Files.{default_key, get_default_entry}
use realize.Cache.Updates.{is_directory}

unfoldable pub set_blob :
    ArenaCache → Blobstore → Inode → FileTableEntry → Option BlobId → ArenaCache
set_blob c blobs inode e blob = record c {
  blobs = blobs;
  files =
      Order.insert (inode, default_key) (record e { content = record e.content { blob = blob } })
        c.files;
}

-- With no other transaction between the two of `open_file`.
unfoldable pub open_file : ArenaCache → Inode → Result (ArenaCache × Blob)
unfolding get_default_entry set_blob
open_file c inode = do
  file_entry ← get_default_entry c.files inode
  elim file_entry.content.blob [
    | some blob_id ↦ do
      (blobs, blob) ← Blobs.open_blob c.blobs file_entry blob_id
      ok (record c { blobs = blobs }, blob)
    | none ↦ do
      (blobs, blob) ← Blobs.create_blob c.blobs file_entry
      ok (set_blob c blobs inode file_entry (some blob.blob_id), blob)
  ]

-- The bytes that are moved out, if they are.
unfoldable pub move_blob_if_matches :
    ArenaCache → FilePath → Hash → Result (ArenaCache × Option (List ℕ))
unfolding get_default_entry set_blob
move_blob_if_matches c path hash = do
  (inode, assignment) ← do_lookup_path c.directories c.arena_root (some path)
  file_entry ← get_default_entry c.files inode
  if not (Hash_eq.beq file_entry.content.hash hash)
      then ok (c, none)
      else (ok_or not_found file_entry.content.blob >>= λ blob_id.
          Blobs.move_blob_if_matches c.blobs blob_id hash >>= λ moved. elim moved.1 [
            | none ↦ ok (c, none)
            | some bytes ↦ ok (set_blob c moved.0 inode file_entry none, some bytes)
          ])

-- The blob to write to, if the hash is the one of the file.
unfoldable pub move_into_file : ArenaCache → Inode → Hash → Result (ArenaCache × Option BlobId)
unfolding get_default_entry set_blob
move_into_file c inode hash = do
  file_entry ← get_default_entry c.files inode
  if not (Hash_eq.beq file_entry.content.hash hash)
      then ok (c, none)
      else (Blobs.move_into_blob c.blobs file_entry.content.blob file_entry.metadata.size
          >>= λ moved. ok (set_blob c moved.0 inode file_entry (some moved.1), some moved.1))

-- A path that is not there is no error.
unfoldable pub move_into_blob_if_matches :
    ArenaCache → FilePath → Hash → Result (ArenaCache × Option BlobId)
unfolding move_into_file
move_into_blob_if_matches c path hash =
    elim (do_lookup_path c.directories c.arena_root (some path)) [
      | ok found ↦ move_into_file c found.0 hash
      | err not_found ↦ ok (c, none)
      | err e ↦ err e
    ]

unfoldable pub local_availability : ArenaCache → Inode → Result LocalAvailability
unfolding get_default_entry
local_availability c inode = do
  file_entry ← get_default_entry c.files inode
  Blobs.local_availability c.blobs.blob_table file_entry

unfoldable pub file_metadata : ArenaCache → Inode → Result FileMetadata
unfolding get_default_entry
file_metadata c inode = do file_entry ← get_default_entry c.files inode; ok file_entry.metadata

unfoldable pub get_file_entry_for_path : ArenaCache → FilePath → Result FileTableEntry
unfolding is_directory
get_file_entry_for_path c path = do
  (inode, assignment) ← do_lookup_path c.directories c.arena_root (some path)
  if is_directory assignment
      then err is_a_directory
      else ok_or not_found (lookup (inode, default_key) c.files)
