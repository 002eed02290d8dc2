-- ===== src/Tests/Content.antt =====
-- Runs of crate/realize-storage/src/arena/blob.rs on one blob of ten bytes.
use realize.Prelude.{ℕ, true, false, ◌≡◌, refl, none, some, List, [], ◌∷◌, arith}
use realize.Prelude.Table
use realize.ByteRange
use realize.ByteRange.{ByteRange, u64_mod}
use realize.ByteRanges
use realize.ByteRanges.{ByteRanges}
use realize.ByteRanges.Covers.{covers, IsValid}
use realize.Data.{Hash}
use realize.Storage.{ok, FileTableEntry}
use realize.Blobs.{
  BlobTableEntry, Blobstore, Blob, availability_of, create_blob, set_len, move_blob_if_matches,
  get_blob_entry, has_hash, delete_blob,
}
use realize.Blobs.Handle.{joined, not_joined, ready, readable_length, update_db}
use realize.Blobs.Invariant.{StoreValid}
use realize.Blobs.Bytes.{Valid}
use realize.Blobs.Reporting.{Reported, update_db_lem}
use realize.Blobs.Requests.{Request, write, update, other_handle}
use realize.Blobs.Availability.{Tells, availability_of-Tells}
use realize.Blobs.Reading.{Answers, readable_length-Answers}
use realize.Blobs.Moving.{
  Moved, Created, move_blob_if_matches-Moved, create_blob-Created, create_blob-existing,
}

abbrev content_hash : Hash
content_hash = record { bytes = 7 ∷ [] }

abbrev remote_file : FileTableEntry
remote_file = record {
  metadata = record { size = 10; mtime = 0 };
  content = record { path = record { chars = b'a' ∷ [] }; hash = content_hash; blob = none };
  parent_inode = 1;
}

abbrev first_half : BlobTableEntry
first_half = record {
  written_areas = record { btree = (0, ByteRanges.Point.start) ∷ (5, ByteRanges.Point.end) ∷ [] };
  content_hash = some content_hash;
}

abbrev store : Blobstore
store = record { blob_table = (1, first_half) ∷ []; files = (1, 3 ∷ []) ∷ [] }

abbrev handle : Blob
handle = record {
  blob_id = 1;
  size = 10;
  hash = content_hash;
  available_ranges = first_half.written_areas;
  pending_ranges = record { btree = [] };
  offset = 4;
}

store-StoreValid : StoreValid store
unfolding Table.get
store-StoreValid = record {
  sorted = ground arith;
  files_sorted = ground arith;
  entries = λ id e h. ground arith;
}

handle-Valid : Valid handle store
unfolding covers
handle-Valid = record {
  handle = record {
    available = ground arith;
    unreported = refl;
    reported_later = λ x h. (unfold ByteRanges.Covers.covers_from in cc);
  };
  store = store-StoreValid;
}

-- Three bytes are written, the report fails, another handle reports two ranges, the report succeeds;
-- then two more are written and lost with their task.
abbrev requests : List Request
requests =
    write (ready 3)
    ∷ update false joined
    ∷ other_handle (ByteRange.new 6 9 ∷ ByteRange.new 1 2 ∷ [])
    ∷ update true joined
    ∷ write (ready 2)
    ∷ update true (not_joined false)
    ∷ []

update_db_lem_example :
    Reported true joined handle store
      (update_db true joined handle store).0.0
      (update_db true joined handle store).0.1
      (update_db true joined handle store).1
update_db_lem_example = update_db_lem true joined handle store handle-Valid

availability_of-Tells_example :
    Tells 10 content_hash first_half (availability_of 10 content_hash first_half)
availability_of-Tells_example = availability_of-Tells 10 content_hash first_half (ground arith)

readable_length-Answers_example : Answers handle 3 4 (readable_length handle 3 4)
readable_length-Answers_example = readable_length-Answers handle 3 4 (ground arith) (omega arith)

moved : move_blob_if_matches store 1 content_hash ≡ ok (delete_blob store 1, some (3 ∷ []))
unfolding move_blob_if_matches get_blob_entry has_hash Table.get
moved = refl

move_blob_if_matches-Moved_example :
    Moved store 1 content_hash (delete_blob store 1) (some (3 ∷ []))
move_blob_if_matches-Moved_example =
    move_blob_if_matches-Moved store 1 content_hash (delete_blob store 1) (some (3 ∷ []))
      store-StoreValid moved

create_blob-Created_example :
    (s' : Blobstore) × (b : Blob) × (create_blob store remote_file ≡ ok (s', b))
    × Created store remote_file s' b
create_blob-Created_example =
    create_blob-Created store remote_file store-StoreValid
      (λ k v h. unfold Table.last in (ground arith)) refl

abbrev local_file : FileTableEntry
local_file = record remote_file {
  content = record { path = record { chars = b'a' ∷ [] }; hash = content_hash; blob = some 1 };
}

create_blob-existing_example :
    let id : ℕ = 1 in
    (s' : Blobstore) × (b : Blob) × (create_blob store local_file ≡ ok (s', b))
    × (b.available_ranges ≡ first_half.written_areas)
    × (Table.get id s'.files ≡ some (set_len 10 []))
create_blob-existing_example =
    create_blob-existing store local_file 1 first_half refl (unfold Table.get in refl)
