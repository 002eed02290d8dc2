-- ===== src/Blobs/Serving.antt =====
-- What each call on a handle does to the bytes of the blob.
use realize.Prelude.{
  ap, sym, any, leb, if◌then◌else◌, ℕ, zero, suc, Bool, true, false, ◌||◌, ◌&&◌, ◌≡◌, refl, ◌∙◌,
  none, some, List, arith, ltb, inl, inr, Option-cases, or_false,
}
use realize.Prelude.Table
use realize.ByteRange
use realize.ByteRange.{ByteRange, add64}
use realize.ByteRanges
use realize.ByteRanges.{ByteRanges}
use realize.ByteRanges.Covers.{covers}
use realize.ByteRanges.Add.{add_lem, single_lem, from_ranges_lem}
use realize.Storage.{BlobId, not_found, Result, ok, err}
use realize.Blobs.{
  Blobstore, Blob, BlobTableEntry, delete_blob, move_into_blob, existing_or_new, get_blob_entry,
  extend_local_availability,
}
use realize.Blobs.Handle.{
  Task, or_same, Poll, ready, failed, pending, wrote, poll_read, poll_write, poll_complete,
  readable_length, update_db, mark_verified, verify_after,
}
use realize.Blobs.Invariant.{wrote-HandleValid, EntriesValid-remove, insert-StoreValid}
use realize.Blobs.Bytes.{
  has_entry-some, has_entry-none, has_entry, recorded, Bytes, Bytes-eq, bytes_of, Valid,
  extend-cases,
}
use realize.Blobs.Reporting.{Reported, update_db_lem}
use realize.Blobs.Verifying.{verify-Verified}
use realize.Blobs.Requests.{
  Request, moved_or_same, serve, effect, read, write, seek, update, verify_content, other_handle,
  delete, move_into,
}

abbrev bytes_in : Blob × Blobstore → Bytes
bytes_in st = bytes_of st.0 st.1

pub record Served (r : Request) (st st' : Blob × Blobstore) : Type 0 where
  pub valid : Valid st'.0 st'.1
  pub bytes : bytes_in st' ≡ effect r st.0.offset (bytes_in st)

-- A call that only moves the offset.
moved-Served :
    (r : Request) (b : Blob) (s : Blobstore) (o : ℕ)
    → Valid b s
    → ((y : Bytes) → effect r b.offset y ≡ y)
    → Served r (b, s) ((record b { offset = o }), s)
unfolding bytes_of
moved-Served r b s o v h = record {
  valid = record {
    handle = record {
      available = v.handle.available;
      unreported = v.handle.unreported;
      reported_later = v.handle.reported_later;
    };
    store = v.store;
  };
  bytes = sym (h (bytes_of b s));
}

idle-Served :
    (r : Request) (b : Blob) (s : Blobstore)
    → Valid b s
    → ((y : Bytes) → effect r b.offset y ≡ y)
    → Served r (b, s) (b, s)
idle-Served r b s v h = record { valid = v; bytes = sym (h (bytes_of b s)) }

poll_write_some :
    (b : Blob) (n : ℕ) → poll_write b (ready (suc n)) ≡ (wrote b (suc n), ready (suc n))
unfolding poll_write
poll_write_some b n = ground arith

wrote-Served :
    (n : ℕ) (b : Blob) (s : Blobstore)
    → Valid b s
    → Served (write (ready (suc n))) (b, s) (wrote b (suc n), s)
unfolding effect wrote bytes_of
wrote-Served n b s v =
    let range = ByteRange.new b.offset (add64 b.offset (suc n)) in
    let p = add_lem b.pending_ranges range v.handle.unreported in
    record {
      valid = record { handle = wrote-HandleValid b (suc n) v.handle; store = v.store };
      bytes =
          Bytes-eq (bytes_of (wrote b (suc n)) s)
            (effect (write (ready (suc n))) b.offset (bytes_of b s)) refl (λ x. refl)
            (λ x. ground (arith, p.same x));
    }

write-Served :
    (res : Poll ℕ) (b : Blob) (s : Blobstore)
    → Valid b s
    → Served (write res) (b, s) ((poll_write b res).0, s)
unfolding effect
write-Served (failed e) b s v =
    (unfold poll_write in idle-Served (write (failed e)) b s v (λ y. refl))
write-Served pending b s v = (unfold poll_write in idle-Served (write pending) b s v (λ y. refl))
write-Served (ready zero) b s v =
    (unfold poll_write in
      idle-Served (write (ready zero)) b s v (λ y.
        Bytes-eq (effect (write (ready zero)) b.offset y) y refl (λ x. refl)
          (λ x. sym (or_false (y.pending x)))))
write-Served (ready (suc n)) b s v = rw (poll_write_some b n) (wrote-Served n b s v)

seek-Served :
    (res : Poll ℕ) (b : Blob) (s : Blobstore)
    → Valid b s
    → Served (seek res) (b, s) ((poll_complete b res).0, s)
unfolding poll_complete effect
seek-Served (ready pos) b s v = moved-Served (seek (ready pos)) b s pos v (λ y. refl)
seek-Served (failed e) b s v = idle-Served (seek (failed e)) b s v (λ y. refl)
seek-Served pending b s v = idle-Served (seek pending) b s v (λ y. refl)

-- What a read of the file answers moves the offset at most.
answered-Served :
    (r : Request) (b : Blob) (s : Blobstore) (answer : Poll ℕ)
    → Valid b s
    → ((y : Bytes) → effect r b.offset y ≡ y)
    → Served r
        (b, s)
        (
          (elim answer as (λ _. Blob × Poll ℕ) [
            | ready n ↦ (record b { offset = add64 b.offset n }, ready n)
            | failed e ↦ (b, failed e)
            | pending ↦ (b, pending)
          ]).0,
          s,
        )
answered-Served r b s (ready n) v h = moved-Served r b s (add64 b.offset n) v h
answered-Served r b s (failed e) v h = idle-Served r b s v h
answered-Served r b s pending v h = idle-Served r b s v h

read-Served :
    (remaining : ℕ) (filled : ℕ → Poll ℕ) (b : Blob) (s : Blobstore)
    → Valid b s
    → Served (read remaining filled) (b, s) ((poll_read b remaining filled).0, s)
unfolding effect poll_read
read-Served remaining filled b s v =
    let r = read remaining filled in
    elim (Option-cases (readable_length b b.offset remaining)) [
      | inl e ↦ rw (poll_read, e) (idle-Served r b s v (λ y. refl))
      | inr (zero, e) ↦ rw (poll_read, e) (idle-Served r b s v (λ y. refl))
      | inr (suc n, e) ↦ rw (poll_read, e) (answered-Served r b s (filled (suc n)) v (λ y. refl))
    ]

pub chosen : (c : Bool) (y z : Bytes) → c ≡ true → (if c then y else z) ≡ y
chosen c y z h = rw (h) refl

pub not_chosen : (c : Bool) (y z : Bytes) → c ≡ false → (if c then y else z) ≡ z
not_chosen c y z h = rw (h) refl

other-Served :
    (ranges : List ByteRange) (b : Blob) (s : Blobstore)
    → Valid b s
    → Served
        (other_handle ranges)
        (b, s)
        (b, or_same s (extend_local_availability s b.blob_id (ByteRanges.from_ranges ranges)))
unfolding effect bytes_of
other-Served ranges b s v =
    let other = from_ranges_lem ranges in
    elim (extend-cases s b.blob_id (ByteRanges.from_ranges ranges) v.store other.valid) [
      | inl (g, q) ↦
          let gone = has_entry-none s b.blob_id g in
          rw (q) (record { valid = v; bytes = rw (gone) refl })
      | inr (s', q, x) ↦
          let there = has_entry-some s b.blob_id x.known.0 x.known.1 in
          rw (q) (record {
            valid = record { handle = v.handle; store = x.valid };
            bytes =
                Bytes-eq (bytes_of b s')
                  (record (bytes_of b s) {
                    recorded =
                        λ y. recorded s b.blob_id y || any (λ r. ByteRange.contains r y) ranges;
                  })
                  (x.there ∙ sym there)
                  (λ y. x.same y ∙ ap (λ c. recorded s b.blob_id y || c) (other.same y)) (λ y. refl)
                ∙ sym (chosen (has_entry s b.blob_id) _ _ there);
          })
    ]

delete-Served :
    (b : Blob) (s : Blobstore) → Valid b s → Served delete (b, s) (b, delete_blob s b.blob_id)
unfolding effect bytes_of delete_blob recorded
delete-Served b s v =
    let gone = Table.get-remove b.blob_id b.blob_id 0 s.blob_table v.store.sorted in
    record {
      valid = record {
        handle = v.handle;
        store = record {
          sorted = Table.remove-IsSorted b.blob_id 0 s.blob_table v.store.sorted;
          files_sorted = Table.remove-IsSorted b.blob_id 0 s.files v.store.files_sorted;
          entries = EntriesValid-remove s.blob_table b.blob_id v.store.sorted v.store.entries;
        };
      };
      bytes =
          Bytes-eq (bytes_of b (delete_blob s b.blob_id)) (effect delete b.offset (bytes_of b s))
            (ground (arith, gone)) (λ x. ground (arith, gone)) (λ x. refl);
    }

recorded-some :
    (s : Blobstore) (id : BlobId) (e : BlobTableEntry) (x : ℕ)
    → Table.get id s.blob_table ≡ some e
    → recorded s id x ≡ covers e.written_areas x
unfolding recorded
recorded-some s id e x g = rw (recorded, g) refl

from_zero : (x size : ℕ) → (leb 0 x && ltb x size) ≡ ltb x size
from_zero x size = ground arith

moved_nowhere :
    (s : Blobstore) (id : BlobId) (size : ℕ)
    → Table.get id s.blob_table ≡ none
    → move_into_blob s (some id) size ≡ err not_found
unfolding move_into_blob existing_or_new get_blob_entry
moved_nowhere s id size g = rw (g) refl

moved_there :
    (s : Blobstore) (id : BlobId) (size : ℕ) (e : BlobTableEntry)
    → Table.get id s.blob_table ≡ some e
    → move_into_blob s (some id) size
      ≡ ok (
        record s {
          blob_table =
              Table.insert id (record e { written_areas = ByteRanges.single 0 size }) s.blob_table;
        },
        id,
      )
unfolding move_into_blob existing_or_new get_blob_entry
moved_there s id size e g = rw (g) refl

move-Served :
    (size : ℕ) (b : Blob) (s : Blobstore)
    → Valid b s
    → Served (move_into size) (b, s) (b, moved_or_same s (move_into_blob s (some b.blob_id) size))
unfolding effect bytes_of
move-Served size b s v = elim (Option-cases (Table.get b.blob_id s.blob_table)) [
  | inl g ↦
      let gone = has_entry-none s b.blob_id g in
      let q = moved_nowhere s b.blob_id size g in
      rw (q) (record {
        valid = v;
        bytes = sym (not_chosen (has_entry s b.blob_id) _ (bytes_of b s) gone);
      })
  | inr (e, g) ↦
      let there = has_entry-some s b.blob_id e g in
      let all = single_lem 0 size in
      let f : BlobTableEntry = record e { written_areas = ByteRanges.single 0 size } in
      let s' : Blobstore = record s { blob_table = Table.insert b.blob_id f s.blob_table } in
      let q = moved_there s b.blob_id size e g in
      let now : Table.get b.blob_id s'.blob_table ≡ some f =
        ground (arith, Table.get-insert b.blob_id b.blob_id f s.blob_table) in
      rw (q) (record {
        valid = record {
          handle = v.handle;
          store = insert-StoreValid s b.blob_id f v.store all.valid;
        };
        bytes =
            Bytes-eq (bytes_of b s') (record (bytes_of b s) { recorded = λ x. ltb x size })
              (has_entry-some s' b.blob_id f now ∙ sym there)
              (λ x. recorded-some s' b.blob_id f x now ∙ all.same x ∙ from_zero x size) (λ x. refl)
            ∙ sym (chosen (has_entry s b.blob_id) _ (bytes_of b s) there);
      })
]

update-Served :
    (synced : Bool) (task : Task) (b : Blob) (s : Blobstore)
    → Valid b s
    → Served (update synced task) (b, s) (update_db synced task b s).0
unfolding effect
update-Served synced task b s v =
    let u = update_db_lem synced task b s v in record { valid = u.valid; bytes = u.bytes }

verified-Served :
    (synced : Bool) (task hash_task : Task) (b : Blob) (s : Blobstore)
    (st : (Blob × Blobstore) × Result (Unit {0}))
    → Reported synced task b s st.0.0 st.0.1 st.1
    → Served (verify_content synced task hash_task) (b, s) (verify_after hash_task st).0
unfolding verify_after effect
verified-Served synced task hash_task b s (st, err e) u = record {
  valid = u.valid;
  bytes = u.bytes;
}
verified-Served synced task hash_task b s ((b', s'), ok t) u =
    let c = verify-Verified hash_task b' s' u.valid in
    record { valid = c.valid; bytes = c.bytes ∙ u.bytes }

pub serve-Served :
    (r : Request) (b : Blob) (s : Blobstore) → Valid b s → Served r (b, s) (serve r (b, s))
unfolding serve mark_verified
serve-Served (read remaining filled) b s v = read-Served remaining filled b s v
serve-Served (write res) b s v = write-Served res b s v
serve-Served (seek res) b s v = seek-Served res b s v
serve-Served (update synced task) b s v = update-Served synced task b s v
serve-Served (verify_content synced task hash_task) b s v =
    verified-Served synced task hash_task b s (update_db synced task b s)
      (update_db_lem synced task b s v)
serve-Served (other_handle ranges) b s v = other-Served ranges b s v
serve-Served delete b s v = delete-Served b s v
serve-Served (move_into size) b s v = move-Served size b s v
