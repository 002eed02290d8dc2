-- ===== src/Blobs/Requests.antt =====
-- The calls on a handle, and what should happen to the bytes of the blob.
use realize.Prelude.{any, if◌then◌else◌, ℕ, Bool, false, ◌||◌, ◌&&◌, some, List, [], ◌∷◌, ltb}
use realize.ByteRange
use realize.ByteRange.{ByteRange, add64}
use realize.ByteRanges
use realize.ByteRanges.{ByteRanges}
use realize.Storage.{BlobId, Result, ok, err}
use realize.Blobs.{Blobstore, Blob, delete_blob, move_into_blob, extend_local_availability}
use realize.Blobs.Handle.{
  Task, or_same, Poll, ready, poll_read, poll_write, poll_complete, update_db, mark_verified,
}
use realize.Blobs.Bytes.{Bytes, nothing, updated}

-- A call on the handle with what the file answers and what becomes of its tasks; or, in between, what
-- happens to the blob elsewhere: another handle reports the ranges it wrote, the blob is deleted, or a
-- file of some size is moved into it.
pub data Request : Type 0 where
  read : ℕ → (ℕ → Poll ℕ) → Request
  write : Poll ℕ → Request
  seek : Poll ℕ → Request
  update : Bool → Task → Request
  verify_content : Bool → Task → Task → Request
  other_handle : List ByteRange → Request
  delete : Request
  move_into : ℕ → Request

abbrev pub moved_or_same : Blobstore → Result (Blobstore × BlobId) → Blobstore
moved_or_same s (ok (s', id)) = s'
moved_or_same s (err e) = s

unfoldable pub serve : Request → Blob × Blobstore → Blob × Blobstore
serve (read remaining filled) (b, s) = ((poll_read b remaining filled).0, s)
serve (write res) (b, s) = ((poll_write b res).0, s)
serve (seek res) (b, s) = ((poll_complete b res).0, s)
serve (update synced task) (b, s) = (update_db synced task b s).0
serve (verify_content synced task hash_task) (b, s) = (mark_verified synced task hash_task b s).0
serve (other_handle ranges) (b, s) =
    (b, or_same s (extend_local_availability s b.blob_id (ByteRanges.from_ranges ranges)))
serve delete (b, s) = (b, delete_blob s b.blob_id)
serve (move_into size) (b, s) = (b, moved_or_same s (move_into_blob s (some b.blob_id) size))

unfoldable pub run : List Request → Blob × Blobstore → Blob × Blobstore
unfolding serve
run [] st = st
run (r ∷ rs) st = run rs (serve r st)

-- What a request does to the bytes of the blob, where the handle is at an offset.
unfoldable pub effect : Request → ℕ → Bytes → Bytes
effect (write (ready len)) offset y = record y {
  pending = λ x.
      y.pending x || (ltb 0 len && ByteRange.contains (ByteRange.new offset (add64 offset len)) x);
}
effect (update synced task) offset y = updated synced task y
effect (verify_content synced task hash_task) offset y = updated synced task y
effect (other_handle ranges) offset y =
    if y.exists
    then record y { recorded = λ x. y.recorded x || any (λ r. ByteRange.contains r x) ranges }
    else y
effect delete offset y = record y { exists = false; recorded = nothing }
effect (move_into size) offset y = if y.exists then record y { recorded = λ x. ltb x size } else y
effect _ offset y = y

unfoldable pub effects : List Request → Blob × Blobstore → Bytes → Bytes
unfolding effect serve
effects [] st y = y
effects (r ∷ rs) st y = effects rs (serve r st) (effect r st.0.offset y)
