-- ===== src/Blobs/Invariant.antt =====
-- What the entries of a `Blobstore` and the handles on its blobs always satisfy: ranges are well
-- formed, a key stands once, and a handle has every range that it has yet to report.
use realize.Prelude.{ℕ, true, ◌≡◌, refl, sym, ◌∙◌, none, some, arith, ◌⊎◌, inl, inr, Option-cases}
use mathlib.Core.Path.{subst}
use realize.Prelude.Table
use realize.Prelude.Table.{Table, IsSorted}
use realize.ByteRange
use realize.ByteRange.{ByteRange, add64}
use realize.ByteRanges.Covers.{covers, IsValid}
use realize.ByteRanges.Add.{add_lem}
use realize.Storage.{ok, err, BlobId, not_found}
use realize.Blobs.{BlobTableEntry, Blobstore, Blob, update_entry, get_blob_entry}
use realize.Blobs.Handle.{wrote}

-- Every entry is well formed.
abbrev pub EntriesValid : Table BlobTableEntry → Type 0
EntriesValid t =
    (id : BlobId) (e : BlobTableEntry) → Table.get id t ≡ some e → IsValid e.written_areas

pub record StoreValid (s : Blobstore) : Type 0 where
  pub sorted : IsSorted 0 s.blob_table
  pub files_sorted : IsSorted 0 s.files
  pub entries : EntriesValid s.blob_table

pub EntriesValid-insert :
    (t : Table BlobTableEntry) (id : BlobId) (e : BlobTableEntry)
    → EntriesValid t
    → IsValid e.written_areas
    → EntriesValid (Table.insert id e t)
EntriesValid-insert t id e v w j f h = ground (arith, Table.get-insert id j e t, v j f)

pub EntriesValid-remove :
    (t : Table BlobTableEntry) (id : BlobId)
    → IsSorted 0 t
    → EntriesValid t
    → EntriesValid (Table.remove id t)
EntriesValid-remove t id s v j f h = ground (arith, Table.get-remove id j 0 t s, v j f)

pub insert-StoreValid :
    (s : Blobstore) (id : BlobId) (e : BlobTableEntry)
    → StoreValid s
    → IsValid e.written_areas
    → StoreValid (record s { blob_table = Table.insert id e s.blob_table })
insert-StoreValid s id e v w = record {
  sorted = Table.insert-IsSorted id 0 e s.blob_table (omega arith) v.sorted;
  files_sorted = v.files_sorted;
  entries = EntriesValid-insert s.blob_table id e v.entries w;
}

ok-injective : (s t : Blobstore) → ok s ≡ ok t → s ≡ t
ok-injective s t h = cc

-- A change of one entry: the operations that read an entry and write it back.
pub update_entry-cases :
    (f : BlobTableEntry → BlobTableEntry) (s : Blobstore) (id : BlobId)
    → ((Table.get id s.blob_table ≡ none) × (update_entry f s id ≡ err not_found))
      ⊎ ((e : BlobTableEntry) × (Table.get id s.blob_table ≡ some e)
          × (update_entry f s id
              ≡ ok (record s { blob_table = Table.insert id (f e) s.blob_table })))
unfolding update_entry get_blob_entry
update_entry-cases f s id = elim (Option-cases (Table.get id s.blob_table)) [
  | inl e ↦ inl (e, (rw e refl))
  | inr (e, h) ↦ inr (e, h, (rw h refl))
]

pub update_entry-StoreValid :
    (f : BlobTableEntry → BlobTableEntry) (s : Blobstore) (id : BlobId) (s' : Blobstore)
    → StoreValid s
    → ((e : BlobTableEntry) → IsValid e.written_areas → IsValid (f e).written_areas)
    → update_entry f s id ≡ ok s'
    → StoreValid s'
update_entry-StoreValid f s id s' v w h = elim (update_entry-cases f s id) [
  | inl (e, q) ↦ cc
  | inr (e, g, q) ↦
      let same =
        ok-injective (record s { blob_table = Table.insert id (f e) s.blob_table }) s'
          (sym q ∙ h) in
      subst (λ t. StoreValid t) same (insert-StoreValid s id (f e) v (w e (v.entries id e g)))
]

-- A handle: both sets are well formed.
pub record HandleValid (b : Blob) : Type 0 where
  pub available : IsValid b.available_ranges
  pub unreported : IsValid b.pending_ranges
  pub reported_later :
      (x : ℕ) → covers b.pending_ranges x ≡ true → covers b.available_ranges x ≡ true

pub wrote-HandleValid : (b : Blob) (len : ℕ) → HandleValid b → HandleValid (wrote b len)
unfolding wrote
wrote-HandleValid b len v =
    let range = ByteRange.new b.offset (add64 b.offset len) in
    let a = add_lem b.available_ranges range v.available in
    let p = add_lem b.pending_ranges range v.unreported in
    record {
      available = a.valid;
      unreported = p.valid;
      reported_later = λ x h. ground (arith, a.same x, p.same x, v.reported_later x);
    }
