-- ===== src/Blobs/Bytes.antt =====
-- What a handle and the store know of the bytes of a blob, and what `update_db` should do to them.
use realize.Prelude.{
  ℕ, Bool, true, false, if◌then◌else◌, ◌||◌, ◌≡◌, refl, none, some, arith, ◌⊎◌, inl, inr,
}
use mathlib.Core.Path.{fun_ext}
use realize.Prelude.Table
use realize.Prelude.Table.{Table, IsSorted}
use realize.ByteRanges
use realize.ByteRanges.{ByteRanges, Point}
use realize.ByteRanges.Covers.{covers, IsValid}
use realize.ByteRanges.SetOps.{union_lem}
use realize.Storage.{ok, err, BlobId, not_found}
use realize.Blobs.{BlobTableEntry, Blobstore, Blob, extend_local_availability}
use realize.Blobs.Handle.{Task, joined, database_failed, not_joined}
use realize.Blobs.Invariant.{StoreValid, HandleValid, update_entry-cases, insert-StoreValid}

-- Whether the entry of a blob has a byte.
unfoldable pub recorded : Blobstore → BlobId → ℕ → Bool
recorded s id x = elim (Table.get id s.blob_table) [
  | none ↦ false
  | some e ↦ covers e.written_areas x
]

abbrev pub has_entry : Blobstore → BlobId → Bool
has_entry s id = elim (Table.get id s.blob_table) [ none ↦ false | some e ↦ true ]

-- What a handle and the store know of a blob: whether it exists, the bytes that are recorded, and the
-- bytes that the handle has yet to report.
pub record Bytes : Type 0 where
  pub exists : Bool
  pub recorded : ℕ → Bool
  pub pending : ℕ → Bool

unfoldable pub bytes_of : Blob → Blobstore → Bytes
unfolding recorded
bytes_of b s = record {
  exists = has_entry s b.blob_id;
  recorded = recorded s b.blob_id;
  pending = covers b.pending_ranges;
}

-- Whether a byte is recorded or yet to be reported.
abbrev pub kept : Bytes → ℕ → Bool
kept y x = y.recorded x || y.pending x

abbrev pub nothing : ℕ → Bool
nothing x = false

-- The bytes that are yet to be reported become recorded, if the blob exists.
abbrev pub reported : Bytes → Bytes
reported y = if y.exists then record y { recorded = kept y; pending = nothing } else y

abbrev pub forgotten : Bytes → Bytes
forgotten y = record y { pending = nothing }

-- What `update_db` does to the bytes. A task that is not joined loses those that it did not record.
abbrev pub updated : Bool → Task → Bytes → Bytes
updated false task y = y
updated true joined y = reported y
updated true (database_failed e) y = y
updated true (not_joined true) y = forgotten (reported y)
updated true (not_joined false) y = forgotten y

pub Bytes-eq :
    (y z : Bytes)
    → y.exists ≡ z.exists
    → ((x : ℕ) → y.recorded x ≡ z.recorded x)
    → ((x : ℕ) → y.pending x ≡ z.pending x)
    → y ≡ z
Bytes-eq y z e r p = λ i. record { exists = e i; recorded = fun_ext r i; pending = fun_ext p i }

pub record Valid (b : Blob) (s : Blobstore) : Type 0 where
  pub handle : HandleValid b
  pub store : StoreValid s

pub record Extended (s : Blobstore) (id : BlobId) (r : ByteRanges) (s' : Blobstore) : Type 0 where
  pub valid : StoreValid s'
  pub known : (e : BlobTableEntry) × (Table.get id s.blob_table ≡ some e)
  pub there : has_entry s' id ≡ true
  pub same : (x : ℕ) → recorded s' id x ≡ (recorded s id x || covers r x)

inserted-Extended :
    (s : Blobstore) (id : BlobId) (r : ByteRanges) (e : BlobTableEntry)
    → StoreValid s
    → IsValid r
    → Table.get id s.blob_table ≡ some e
    → Extended s id r (record s {
      blob_table =
          Table.insert id
            (record e { written_areas = ByteRanges.union e.written_areas r })
            s.blob_table;
    })
unfolding recorded
inserted-Extended s id r e v w g =
    let u = union_lem e.written_areas r (v.entries id e g) w in
    let f : BlobTableEntry = record e { written_areas = ByteRanges.union e.written_areas r } in
    record {
      valid = insert-StoreValid s id f v u.valid;
      known = (e, g);
      there = ground (arith, Table.get-insert id id f s.blob_table);
      same = λ x. ground (arith, Table.get-insert id id f s.blob_table, u.same x);
    }

pub extend-cases :
    (s : Blobstore) (id : BlobId) (r : ByteRanges)
    → StoreValid s
    → IsValid r
    → ((Table.get id s.blob_table ≡ none) × (extend_local_availability s id r ≡ err not_found))
      ⊎ ((s' : Blobstore) × (extend_local_availability s id r ≡ ok s') × Extended s id r s')
unfolding extend_local_availability
extend-cases s id r v w =
    elim (update_entry-cases (λ e. record e { written_areas = ByteRanges.union e.written_areas r })
      s id) [ inl c ↦ inl c | inr (e, g, q) ↦ inr (_, q, inserted-Extended s id r e v w g) ]

pub has_entry-some :
    (s : Blobstore) (id : BlobId) (e : BlobTableEntry)
    → Table.get id s.blob_table ≡ some e
    → has_entry s id ≡ true
has_entry-some s id e g = rw (has_entry, g) refl

pub has_entry-none :
    (s : Blobstore) (id : BlobId) → Table.get id s.blob_table ≡ none → has_entry s id ≡ false
has_entry-none s id g = rw (has_entry, g) refl

pub reported_there :
    (y : Bytes) → y.exists ≡ true → reported y ≡ record y { recorded = kept y; pending = nothing }
reported_there y h = rw (h) refl

pub reported_gone : (y : Bytes) → y.exists ≡ false → reported y ≡ y
reported_gone y h = rw (h) refl
