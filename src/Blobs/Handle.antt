-- ===== src/Blobs/Handle.antt =====
-- `Blob` of crate/realize-storage/src/arena/blob.rs: reading and writing a blob, and reporting what
-- was written to the `Blobstore`.
use realize.Prelude.{
  ℕ, zero, suc, ◌-◌, min, Bool, true, false, not, ◌||◌, Option, none, some, ltb, leb, ◌==◌,
  if◌then◌else◌,
}
use realize.ByteRange
use realize.ByteRange.{ByteRange, add64}
use realize.ByteRanges
use realize.ByteRanges.{ByteRanges}
use realize.Storage.{StorageError, io, join_error, Result, ok, err}
use realize.Blobs.{Blobstore, Blob, extend_local_availability, set_content_hash}

-- `usize` has 64 bits.
unfoldable pub readable_length : Blob → ℕ → ℕ → Option ℕ
readable_length b offset requested_len =
    if requested_len == 0 || leb b.size offset
    then some 0
    else elim (ByteRanges.containing_range b.available_ranges offset) [
      | none ↦ none
      | some r ↦ some (min requested_len (r.end - offset))
    ]

pub data IoError : Type 0 where
  blob_incomplete other_error : IoError

-- `Poll<std::io::Result<A>>`
pub data Poll {ℓ} (A : Type ℓ) : Type ℓ where
  ready : A → Poll A
  failed : IoError → Poll A
  pending : Poll A

-- `filled` is what reading that many bytes from the file gives. The result is the number of bytes
-- added to the buffer.
unfoldable pub poll_read : Blob → ℕ → (ℕ → Poll ℕ) → Blob × Poll ℕ
unfolding readable_length
poll_read b remaining filled = elim (readable_length b b.offset remaining) [
  | none ↦ (b, failed blob_incomplete)
  | some zero ↦ (b, ready 0)
  | some (suc adjusted) ↦ elim (filled (suc adjusted)) [
    | ready n ↦ (record b { offset = add64 b.offset n }, ready n)
    | failed e ↦ (b, failed e)
    | pending ↦ (b, pending)
  ]
]

-- `res` is what the file answers to the seek.
unfoldable pub poll_complete : Blob → Poll ℕ → Blob × Poll ℕ
poll_complete b (ready pos) = (record b { offset = pos }, ready pos)
poll_complete b (failed e) = (b, failed e)
poll_complete b pending = (b, pending)

-- `len` bytes were written at the offset.
unfoldable pub wrote : Blob → ℕ → Blob
wrote b len =
    let end = add64 b.offset len in
    let range = ByteRange.new b.offset end in
    record b {
      available_ranges = ByteRanges.add b.available_ranges range;
      pending_ranges = ByteRanges.add b.pending_ranges range;
      offset = end;
    }

-- `res` is what writing to the file gives.
unfoldable pub poll_write : Blob → Poll ℕ → Blob × Poll ℕ
unfolding wrote
poll_write b (ready len) = ((if ltb 0 len then wrote b len else b), ready len)
poll_write b (failed e) = (b, failed e)
poll_write b pending = (b, pending)

-- What becomes of the transaction that a call runs in a task of its own: it runs, or the database
-- fails, and the task is joined; or the task is not joined, and its transaction may have run.
pub data Task : Type 0 where
  joined : Task
  database_failed : StorageError → Task
  not_joined : Bool → Task

-- `or_same s res` is the store that the transaction leaves.
abbrev pub or_same : Blobstore → Result Blobstore → Blobstore
or_same s (ok s') = s'
or_same s (err e) = s

-- The ranges are taken out of the handle, and put back if the transaction fails. They are not put
-- back if the task is not joined.
unfoldable pub report :
    Task → Blob → Result Blobstore → Blobstore → (Blob × Blobstore) × Result (Unit {0})
report joined b (ok s') s = ((record b { pending_ranges = ByteRanges.new }, s'), ok tt)
report joined b (err e) s =
    ((record b { pending_ranges = ByteRanges.extend ByteRanges.new b.pending_ranges }, s), err e)
report (database_failed e) b res s =
    ((record b { pending_ranges = ByteRanges.extend ByteRanges.new b.pending_ranges }, s), err e)
report (not_joined true) b res s =
    ((record b { pending_ranges = ByteRanges.new }, or_same s res), err join_error)
report (not_joined false) b res s =
    ((record b { pending_ranges = ByteRanges.new }, s), err join_error)

-- `synced` is whether the file could be flushed and synced.
unfoldable pub update_db : Bool → Task → Blob → Blobstore → (Blob × Blobstore) × Result (Unit {0})
unfolding extend_local_availability report
update_db synced task b s =
    if ByteRanges.is_empty b.pending_ranges
    then ((b, s), ok tt)
    else if not synced
    then ((b, s), err io)
    else report task b (extend_local_availability s b.blob_id b.pending_ranges) s

-- `set_content_hash` after `update_db` succeeded.
unfoldable pub verify :
    Task → Blob → Result Blobstore → Blobstore → (Blob × Blobstore) × Result (Unit {0})
verify joined b (ok s') s = ((b, s'), ok tt)
verify joined b (err e) s = ((b, s), err e)
verify (database_failed e) b res s = ((b, s), err e)
verify (not_joined true) b res s = ((b, or_same s res), err join_error)
verify (not_joined false) b res s = ((b, s), err join_error)

unfoldable pub verify_after :
    Task → (Blob × Blobstore) × Result (Unit {0}) → (Blob × Blobstore) × Result (Unit {0})
unfolding set_content_hash verify
verify_after task (st, err e) = (st, err e)
verify_after task ((b, s), ok u) = verify task b (set_content_hash s b.blob_id b.hash) s

-- The tasks of `update_db` and of `set_content_hash`.
unfoldable pub mark_verified :
    Bool → Task → Task → Blob → Blobstore → (Blob × Blobstore) × Result (Unit {0})
unfolding update_db verify_after
mark_verified synced task hash_task b s = verify_after hash_task (update_db synced task b s)
