-- ===== src/Blobs/Moving.antt =====
-- Creating, filling and giving away blobs, against the entries and the files of the store.
use realize.Prelude.{
  ℕ, zero, suc, ◌+◌, ◌≤◌, ◌<◌, true, false, ◌≡◌, refl, ap, ◌∙◌, Option, none, some, List, [], ◌∷◌,
  length, arith, if◌then◌else◌, inl, inr, Option-cases, Bool-cases, ◌==◌,
}
use mathlib.Core.Path.{subst}
use realize.Prelude.Table
use realize.Prelude.Table.{Table, IsSorted}
use realize.ByteRange.{u64_mod, add64}
use realize.ByteRanges
use realize.ByteRanges.{ByteRanges}
use realize.ByteRanges.Add.{single_lem}
use realize.Data.{Hash}
use realize.Storage.{ok, Result-cases, BlobId, FileTableEntry}
use realize.Blobs.{
  BlobTableEntry, Blobstore, Blob, get_blob_entry, next_blob_id, do_create_blob_entry,
  existing_or_new, create_blob, open_blob_file, open_file, new_blob, empty_entry, set_len, has_hash,
  delete_blob, move_blob_if_matches, move_into_blob,
}
use realize.Blobs.Invariant.{StoreValid}
use realize.Blobs.Availability.{Holds, has_hash_iff}

first_le :
    (lo k : ℕ) (v : BlobTableEntry) (t : Table BlobTableEntry)
    → IsSorted lo t
    → Table.last t ≡ some (k, v)
    → lo ≤ k
unfolding Table.last
first_le lo k v [] s h = cc
first_le lo k v (e ∷ []) s h = let same : e.0 ≡ k = cc in ground arith
first_le lo k v ((i, w) ∷ f ∷ t) s h = let below = first_le (suc i) k v (f ∷ t) s.1 h in omega arith

-- Every id above the last one is free.
above_last :
    (lo k : ℕ) (v : BlobTableEntry) (j : ℕ) (t : Table BlobTableEntry)
    → IsSorted lo t
    → Table.last t ≡ some (k, v)
    → k < j
    → Table.get j t ≡ none
unfolding Table.get Table.last
above_last lo k v j [] s h l = refl
above_last lo k v j (e ∷ []) s h l = let same : e.0 ≡ k = cc in ground arith
above_last lo k v j ((i, w) ∷ f ∷ t) s h l =
    let rest = above_last (suc i) k v j (f ∷ t) s.1 h l in
    let below = first_le (suc i) k v (f ∷ t) s.1 h in ground arith

last_some {ℓ} :
    {A : Type ℓ} (f : ℕ × BlobTableEntry) (t : Table BlobTableEntry) → Table.last (f ∷ t) ≡ none → A
unfolding Table.last
last_some f [] h = cc
last_some f (g ∷ t) h = last_some g t h

no_last : (j : ℕ) (t : Table BlobTableEntry) → Table.last t ≡ none → Table.get j t ≡ none
unfolding Table.get Table.last
no_last j [] h = refl
no_last j (e ∷ []) h = cc
no_last j (e ∷ f ∷ t) h = last_some f t h

-- The id given to a new blob is free, as long as ids fit in 64 bits.
next_blob_id-get :
    (t : Table BlobTableEntry)
    → IsSorted 0 t
    → ((k : BlobId) (v : BlobTableEntry) → Table.last t ≡ some (k, v) → k + 1 < u64_mod)
    → Table.get (next_blob_id t) t ≡ none
unfolding next_blob_id
next_blob_id-get t s b = elim (Option-cases (Table.last t)) [
  | inl e ↦ rw (next_blob_id, e) (no_last 1 t e)
  | inr ((k, v), e) ↦
      rw (next_blob_id, e) (above_last 0 k v (add64 k 1) t s e (ground (arith, b k v e)))
]

-- Zeros up to the given length.
length-set_len : (n : ℕ) (bytes : List ℕ) → length (set_len n bytes) ≡ n
unfolding set_len
length-set_len zero bytes = refl
length-set_len (suc n) [] = ap suc (length-set_len n [])
length-set_len (suc n) (b ∷ bytes) = ap suc (length-set_len n bytes)

-- What `move_blob_if_matches` leaves and gives.
pub record Moved (s : Blobstore) (id : BlobId) (h : Hash) (s' : Blobstore) (bytes : Option (List ℕ))
    : Type 0 where
  pub given :
      (file : List ℕ)
      → bytes ≡ some file
      → ((e : BlobTableEntry) × (Table.get id s.blob_table ≡ some e) × (e.content_hash ≡ some h))
        × (Table.get id s.files ≡ some file)
        × (Table.get id s'.blob_table ≡ none)
        × (Table.get id s'.files ≡ none)
  pub refused : bytes ≡ none → s' ≡ s
  pub others :
      (j : BlobId)
      → (id == j) ≡ false
      → (Table.get j s'.blob_table ≡ Table.get j s.blob_table)
        × (Table.get j s'.files ≡ Table.get j s.files)

delete_blob-others :
    (s : Blobstore) (id j : BlobId)
    → StoreValid s
    → (id == j) ≡ false
    → (Table.get j (delete_blob s id).blob_table ≡ Table.get j s.blob_table)
      × (Table.get j (delete_blob s id).files ≡ Table.get j s.files)
unfolding delete_blob
delete_blob-others s id j v d = ground (
  arith,
  Table.get-remove id j 0 s.blob_table v.sorted,
  Table.get-remove id j 0 s.files v.files_sorted,
)

delete_blob-gone :
    (s : Blobstore) (id : BlobId)
    → StoreValid s
    → (Table.get id (delete_blob s id).blob_table ≡ none)
      × (Table.get id (delete_blob s id).files ≡ none)
unfolding delete_blob
delete_blob-gone s id v = ground (
  arith,
  Table.get-remove id id 0 s.blob_table v.sorted,
  Table.get-remove id id 0 s.files v.files_sorted,
)

given-Moved :
    (s : Blobstore) (id : BlobId) (h : Hash) (e : BlobTableEntry) (file : List ℕ)
    → StoreValid s
    → Table.get id s.blob_table ≡ some e
    → e.content_hash ≡ some h
    → Table.get id s.files ≡ some file
    → Moved s id h (delete_blob s id) (some file)
given-Moved s id h e file v g m f = record {
  given = λ bytes q. let gone = delete_blob-gone s id v in ((e, g, m), (f ∙ q), gone.0, gone.1);
  refused = λ q. cc;
  others = λ j d. delete_blob-others s id j v d;
}

refused-Moved : (s : Blobstore) (id : BlobId) (h : Hash) → Moved s id h s none
refused-Moved s id h = record {
  given = λ bytes q. cc;
  refused = λ q. refl;
  others = λ j d. (refl, refl);
}

-- Where it is no error, moving a blob away gives bytes only for the hash that the content was verified
-- to have; these are the bytes of its file, and the blob is gone. If it gives none, nothing changes.
-- Other blobs are never touched.
pub move_blob_if_matches-Moved :
    (s : Blobstore) (id : BlobId) (h : Hash) (s' : Blobstore) (bytes : Option (List ℕ))
    → StoreValid s
    → move_blob_if_matches s id h ≡ ok (s', bytes)
    → Moved s id h s' bytes
unfolding move_blob_if_matches get_blob_entry
move_blob_if_matches-Moved s id h s' bytes v q = elim (Option-cases (Table.get id s.blob_table)) [
  | inl e ↦ cc
  | inr (e, g) ↦ elim (Bool-cases (has_hash e.content_hash h)) [
    | inr m ↦
        let out : ◌≡◌ {A = Blobstore × Option (List ℕ)} (s, none) (s', bytes) = cc in
        subst (λ p. Moved s id h p.0 p.1) out (refused-Moved s id h)
    | inl m ↦ elim (Option-cases (Table.get id s.files)) [
      | inl f ↦ cc
      | inr (file, f) ↦
          let out : ◌≡◌ {A = Blobstore × Option (List ℕ)} (delete_blob s id, some file)
              (s', bytes) =
            cc in
          let match = (has_hash_iff e.content_hash h).0 m in
          subst (λ p. Moved s id h p.0 p.1) out (given-Moved s id h e file v g match f)
    ]
  ]
]

-- A new blob: its id was free, nothing of it is available, its file has the size of the remote file,
-- and no other blob is touched.
pub record Created (s : Blobstore) (f : FileTableEntry) (s' : Blobstore) (b : Blob) : Type 0 where
  pub free : Table.get b.blob_id s.blob_table ≡ none
  pub entry : Table.get b.blob_id s'.blob_table ≡ some empty_entry
  pub nothing : b.available_ranges ≡ ByteRanges.new
  pub file : Table.get b.blob_id s'.files ≡ some (set_len f.metadata.size [])
  pub others :
      (j : BlobId)
      → (b.blob_id == j) ≡ false
      → (Table.get j s'.blob_table ≡ Table.get j s.blob_table)
        × (Table.get j s'.files ≡ Table.get j s.files)

-- The file of a blob after a truncating `open_blob_file`.
truncated :
    (s : Blobstore) (id j : BlobId) (size : ℕ)
    → Table.get j (open_blob_file s id size true).files
      ≡ (if id == j then some (set_len size []) else Table.get j s.files)
unfolding open_blob_file open_file
truncated s id j zero = Table.get-insert id j [] s.files
truncated s id j (suc n) =
    let differ : (suc n == 0) ≡ false = ground arith in
    rw differ (Table.get-insert id j (set_len (suc n) []) s.files)

-- While ids fit in 64 bits, `create_blob` gives a file without a blob a new one: its id was free, its
-- entry and its handle have nothing, its file has the size of the remote file, and no other blob
-- changes.
pub create_blob-Created :
    (s : Blobstore) (f : FileTableEntry)
    → StoreValid s
    → ((k : BlobId) (v : BlobTableEntry) → Table.last s.blob_table ≡ some (k, v) → k + 1 < u64_mod)
    → f.content.blob ≡ none
    → (s' : Blobstore) × (b : Blob) × (create_blob s f ≡ ok (s', b)) × Created s f s' b
unfolding create_blob existing_or_new do_create_blob_entry new_blob
create_blob-Created s f v l n =
    let id = next_blob_id s.blob_table in
    let table = Table.insert id empty_entry s.blob_table in
    let s1 : Blobstore = record s { blob_table = table } in
    let made : Created s f (open_blob_file s1 id f.metadata.size true) (new_blob id f empty_entry) =
      record {
        free = next_blob_id-get s.blob_table v.sorted l;
        entry = ground (arith, Table.get-insert id id empty_entry s.blob_table);
        nothing = refl;
        file = ground (arith, truncated s1 id id f.metadata.size);
        others = λ j d. ground (
          arith,
          Table.get-insert id j empty_entry s.blob_table,
          truncated s1 id j f.metadata.size,
        );
      } in
    (_, _, (rw n refl), made)

-- For a file that has a blob, the file of the blob is truncated and filled with zeros while the
-- handle has every byte as available that the entry of the blob had.
pub create_blob-existing :
    (s : Blobstore) (f : FileTableEntry) (id : BlobId) (e : BlobTableEntry)
    → f.content.blob ≡ some id
    → Table.get id s.blob_table ≡ some e
    → (s' : Blobstore) × (b : Blob) × (create_blob s f ≡ ok (s', b))
      × (b.available_ranges ≡ e.written_areas)
      × (Table.get id s'.files ≡ some (set_len f.metadata.size []))
unfolding create_blob existing_or_new new_blob get_blob_entry
create_blob-existing s f id e n g = (
  open_blob_file s id f.metadata.size true,
  new_blob id f e,
  (rw (n, g) refl),
  refl,
  ground (arith, truncated s id id f.metadata.size),
)

stored_whole :
    (table : Table BlobTableEntry) (id : BlobId) (e : BlobTableEntry) (size : ℕ)
    → let whole : BlobTableEntry = record e { written_areas = ByteRanges.single 0 size } in
      (Table.get id (Table.insert id whole table) ≡ some whole) × Holds size whole
stored_whole table id e size =
    let whole : BlobTableEntry = record e { written_areas = ByteRanges.single 0 size } in
    let bytes = single_lem 0 size in
    (ground (arith, Table.get-insert id id whole table), λ x l. ground (arith, bytes.same x))

-- After `move_into_blob` every byte of the file is recorded, whatever the entry was before.
pub move_into_blob-Holds :
    (s : Blobstore) (blob : Option BlobId) (size : ℕ) (s' : Blobstore) (id : BlobId)
    → move_into_blob s blob size ≡ ok (s', id)
    → (e : BlobTableEntry) × (Table.get id s'.blob_table ≡ some e) × Holds size e
unfolding move_into_blob
move_into_blob-Holds s blob size s' id q = elim (Result-cases (existing_or_new s.blob_table blob)) [
  | inr (e, g) ↦ cc
  | inl ((table, (j, e)), g) ↦
      let whole : BlobTableEntry = record e { written_areas = ByteRanges.single 0 size } in
      let out : ◌≡◌ {A = Blobstore × BlobId}
          (record s { blob_table = Table.insert j whole table }, j) (s', id) =
        cc in
      let stored = stored_whole table j e size in
      subst (λ p. (e : BlobTableEntry) × (Table.get p.1 p.0.blob_table ≡ some e) × Holds size e) out
        (whole, stored.0, stored.1)
]
