-- ===== src/Blobs.antt =====
-- `Blobstore` and `Blob` of crate/realize-storage/src/arena/blob.rs: partly downloaded content, kept as
-- one file for each blob together with an entry that says which bytes of it were written.
pub mod Handle
pub mod Invariant
pub mod Bytes
pub mod Reporting
pub mod Verifying
pub mod Requests
pub mod Serving
pub mod Histories
pub mod Availability
pub mod Reading
pub mod Moving
use realize.Prelude.{
  ℕ, zero, suc, ◌-◌, min, Bool, true, false, not, ◌&&◌, ◌||◌, Option, none, some, List, [], ◌∷◌,
  length, ltb, leb, ◌==◌, if◌then◌else◌,
}
use realize.Prelude.Table
use realize.Prelude.Table.{Table}
use realize.ByteRange
use realize.ByteRange.{ByteRange, add64}
use realize.ByteRanges
use realize.ByteRanges.{ByteRanges, Point, same_point}
use realize.Data.{Hash, Hash_eq}
use realize.Engine.{LocalAvailability, missing, complete, verified, partial}
use realize.Storage.{not_found, io, Result, ok, err, ◌>>=◌, ok_or, BlobId, FileTableEntry}

pub record BlobTableEntry : Type 0 where
  pub written_areas : ByteRanges
  pub content_hash : Option Hash

pub record Blobstore : Type 0 where
  pub blob_table : Table BlobTableEntry
  -- the files of `blob_dir`, as their bytes
  pub files : Table (List ℕ)

pub record Blob : Type 0 where
  pub blob_id : BlobId
  pub size : ℕ
  pub hash : Hash
  pub available_ranges : ByteRanges
  pub pending_ranges : ByteRanges
  pub offset : ℕ

unfoldable pub get_blob_entry : Table BlobTableEntry → BlobId → Result BlobTableEntry
get_blob_entry table blob_id = ok_or not_found (Table.get blob_id table)

unfoldable pub new_blob : BlobId → FileTableEntry → BlobTableEntry → Blob
new_blob blob_id file_entry blob_entry = record {
  blob_id = blob_id;
  size = file_entry.metadata.size;
  hash = file_entry.content.hash;
  available_ranges = blob_entry.written_areas;
  pending_ranges = ByteRanges.new;
  offset = 0;
}

-- `File::set_len`: cuts the file, or extends it with zeros.
unfoldable pub set_len : ℕ → List ℕ → List ℕ
set_len zero bytes = []
set_len (suc n) [] = 0 ∷ set_len n []
set_len (suc n) (b ∷ bytes) = b ∷ set_len n bytes

-- `create(true)` with `truncate(new_file)`.
unfoldable pub open_file : Bool → Option (List ℕ) → List ℕ
open_file true file = []
open_file false none = []
open_file false (some bytes) = bytes

unfoldable pub open_blob_file : Blobstore → BlobId → ℕ → Bool → Blobstore
unfolding open_file set_len
open_blob_file s blob_id file_size new_file =
    let file = open_file new_file (Table.get blob_id s.files) in
    let sized = if not (file_size == length file) then set_len file_size file else file in
    record s { files = Table.insert blob_id sized s.files }

unfoldable pub open_blob : Blobstore → FileTableEntry → BlobId → Result (Blobstore × Blob)
unfolding get_blob_entry open_blob_file new_blob
open_blob s file_entry blob_id = do
  blob_entry ← get_blob_entry s.blob_table blob_id
  ok (
    open_blob_file s blob_id file_entry.metadata.size false,
    new_blob blob_id file_entry blob_entry,
  )

unfoldable pub next_blob_id : Table BlobTableEntry → BlobId
next_blob_id table = elim (Table.last table) [ none ↦ 1 | some (k, v) ↦ add64 k 1 ]

abbrev pub empty_entry : BlobTableEntry
empty_entry = record { written_areas = ByteRanges.new; content_hash = none }

unfoldable pub do_create_blob_entry :
    Table BlobTableEntry → Table BlobTableEntry × (BlobId × BlobTableEntry)
unfolding next_blob_id
do_create_blob_entry table =
    (Table.insert (next_blob_id table) empty_entry table, (next_blob_id table, empty_entry))

-- The entry of the blob of a file, created if the file has none: the first lines of `create_blob`
-- and of `move_into_blob`.
unfoldable pub existing_or_new :
    Table BlobTableEntry → Option BlobId → Result (Table BlobTableEntry × (BlobId × BlobTableEntry))
unfolding get_blob_entry do_create_blob_entry
existing_or_new table none = ok (do_create_blob_entry table)
existing_or_new table (some blob_id) = do
  entry ← get_blob_entry table blob_id
  ok (table, (blob_id, entry))

unfoldable pub create_blob : Blobstore → FileTableEntry → Result (Blobstore × Blob)
unfolding existing_or_new open_blob_file new_blob
create_blob s file_entry = do
  (table, (blob_id, blob_entry)) ← existing_or_new s.blob_table file_entry.content.blob
  ok (
    open_blob_file (record s { blob_table = table }) blob_id file_entry.metadata.size true,
    new_blob blob_id file_entry blob_entry,
  )

unfoldable pub delete_blob : Blobstore → BlobId → Blobstore
delete_blob s blob_id = record {
  blob_table = Table.remove blob_id s.blob_table;
  files = Table.remove blob_id s.files;
}

-- The entry read, changed and written back in one transaction.
unfoldable pub update_entry :
    (BlobTableEntry → BlobTableEntry) → Blobstore → BlobId → Result Blobstore
unfolding get_blob_entry
update_entry f s blob_id = do
  blob_entry ← get_blob_entry s.blob_table blob_id
  ok (record s { blob_table = Table.insert blob_id (f blob_entry) s.blob_table })

unfoldable pub extend_local_availability : Blobstore → BlobId → ByteRanges → Result Blobstore
unfolding update_entry
extend_local_availability s blob_id new_range =
    update_entry (λ e. record e { written_areas = ByteRanges.union e.written_areas new_range }) s
      blob_id

unfoldable pub set_content_hash : Blobstore → BlobId → Hash → Result Blobstore
unfolding update_entry
set_content_hash s blob_id hash =
    update_entry (λ e. record e { content_hash = some hash }) s blob_id

unfoldable pub has_hash : Option Hash → Hash → Bool
has_hash none h = false
has_hash (some g) h = Hash_eq.beq g h

-- The bytes of the file that `std::fs::rename` gives to `dest`; `none` is the result false.
unfoldable pub move_blob_if_matches :
    Blobstore → BlobId → Hash → Result (Blobstore × Option (List ℕ))
unfolding get_blob_entry has_hash delete_blob
move_blob_if_matches s blob_id content_hash = do
  blob_entry ← get_blob_entry s.blob_table blob_id
  if not (has_hash blob_entry.content_hash content_hash)
      then ok (s, none)
      else (ok_or io (Table.get blob_id s.files) >>= λ bytes.
          ok (delete_blob s blob_id, some bytes))

-- The path to write to is the one of the blob that is returned.
unfoldable pub move_into_blob : Blobstore → Option BlobId → ℕ → Result (Blobstore × BlobId)
unfolding existing_or_new
move_into_blob s blob_id size = do
  (table, (id, entry)) ← existing_or_new s.blob_table blob_id
  ok (
    record s {
      blob_table =
          Table.insert id (record entry { written_areas = ByteRanges.single 0 size }) table;
    },
    id,
  )

-- The derived `==` on `ByteRanges`.
unfoldable pub same_points : Table Point → Table Point → Bool
same_points [] [] = true
same_points ((j, p) ∷ s) ((k, q) ∷ t) = (j == k && same_point p q) && same_points s t
same_points _ _ = false

-- The part of `local_availability` that follows the lookup of the entry.
unfoldable pub availability_of : ℕ → Hash → BlobTableEntry → LocalAvailability
unfolding same_points has_hash
availability_of size hash entry =
    let file_range = ByteRanges.single 0 size in
    if same_points file_range.btree (ByteRanges.intersection file_range entry.written_areas).btree
    then (if has_hash entry.content_hash hash then verified else complete)
    else if ByteRanges.is_empty entry.written_areas
    then missing
    else partial size entry.written_areas

unfoldable pub local_availability : Table BlobTableEntry → FileTableEntry → Result LocalAvailability
unfolding get_blob_entry availability_of
local_availability table file_entry = elim file_entry.content.blob [
  | none ↦ ok missing
  | some blob_id ↦ do
    blob_entry ← get_blob_entry table blob_id
    ok (availability_of file_entry.metadata.size file_entry.content.hash blob_entry)
]
