-- ===== src/Blobs/Verifying.antt =====
-- `mark_verified` once `update_db` is done.
use realize.Prelude.{true, false, ◌≡◌, refl, some, arith, inl, inr}
use realize.Prelude.Table
use realize.Prelude.Table.{Table, IsSorted}
use realize.Blobs.{BlobTableEntry, Blobstore, Blob, set_content_hash}
use realize.Blobs.Handle.{Task, joined, database_failed, not_joined, verify}
use realize.Blobs.Invariant.{update_entry-cases, insert-StoreValid}
use realize.Blobs.Bytes.{bytes_of, Bytes-eq, Valid}

-- Verifying a blob changes no byte of it.
hashed-bytes :
    (b : Blob) (s : Blobstore) (e : BlobTableEntry)
    → Table.get b.blob_id s.blob_table ≡ some e
    → let f : BlobTableEntry = record e { content_hash = some b.hash } in
      bytes_of b (record s { blob_table = Table.insert b.blob_id f s.blob_table }) ≡ bytes_of b s
unfolding bytes_of
hashed-bytes b s e g =
    let f : BlobTableEntry = record e { content_hash = some b.hash } in
    let s' : Blobstore = record s { blob_table = Table.insert b.blob_id f s.blob_table } in
    Bytes-eq (bytes_of b s') (bytes_of b s)
      (ground (arith, Table.get-insert b.blob_id b.blob_id f s.blob_table))
      (λ x. ground (arith, Table.get-insert b.blob_id b.blob_id f s.blob_table)) (λ x. refl)

-- The handle is the same, and so are the bytes.
pub record Verified (b : Blob) (s : Blobstore) (b' : Blob) (s' : Blobstore) : Type 0 where
  pub valid : Valid b' s'
  pub bytes : bytes_of b' s' ≡ bytes_of b s

idle-Verified : (b : Blob) (s : Blobstore) → Valid b s → Verified b s b s
idle-Verified b s v = record { valid = v; bytes = refl }

hashed-Verified :
    (b : Blob) (s : Blobstore) (e : BlobTableEntry)
    → Table.get b.blob_id s.blob_table ≡ some e
    → Valid b s
    → let f : BlobTableEntry = record e { content_hash = some b.hash } in
      Verified b s b (record s { blob_table = Table.insert b.blob_id f s.blob_table })
hashed-Verified b s e g v =
    let f : BlobTableEntry = record e { content_hash = some b.hash } in
    record {
      valid = record {
        handle = v.handle;
        store = insert-StoreValid s b.blob_id f v.store (v.store.entries b.blob_id e g);
      };
      bytes = hashed-bytes b s e g;
    }

pub verify-Verified :
    (task : Task) (b : Blob) (s : Blobstore)
    → Valid b s
    → let ((b', s'), res) = verify task b (set_content_hash s b.blob_id b.hash) s in
      Verified b s b' s'
unfolding verify set_content_hash
verify-Verified (database_failed e) b s v = idle-Verified b s v
verify-Verified (not_joined false) b s v = idle-Verified b s v
verify-Verified (not_joined true) b s v =
    elim (update_entry-cases (λ e. record e { content_hash = some b.hash }) s b.blob_id) [
      | inl (g, q) ↦ rw (verify, set_content_hash, q) (idle-Verified b s v)
      | inr (e, g, q) ↦ rw (verify, set_content_hash, q) (hashed-Verified b s e g v)
    ]
verify-Verified joined b s v =
    elim (update_entry-cases (λ e. record e { content_hash = some b.hash }) s b.blob_id) [
      | inl (g, q) ↦ rw (verify, set_content_hash, q) (idle-Verified b s v)
      | inr (e, g, q) ↦ rw (verify, set_content_hash, q) (hashed-Verified b s e g v)
    ]
