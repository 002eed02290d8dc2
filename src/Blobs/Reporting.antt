-- ===== src/Blobs/Reporting.antt =====
-- `update_db`: what it does to the bytes that are recorded in the entry of a blob and to those that a
-- handle has yet to report.
use realize.Prelude.{
  ℕ, Bool, true, false, ◌||◌, ◌≡◌, refl, sym, ◌∙◌, none, arith, ◌⊎◌, inl, inr, Bool-cases, or_false,
}
use mathlib.Core.Path.{ap}
use realize.Prelude.Table
use realize.Prelude.Table.{Table, IsSorted}
use realize.ByteRanges
use realize.ByteRanges.{ByteRanges, Point}
use realize.ByteRanges.Covers.{covers}
use realize.ByteRanges.SetOps.{Represents}
use realize.ByteRanges.Add.{new-Represents}
use realize.ByteRanges.Canonical.{extend_lem}
use realize.ByteRanges.Emptiness.{is_empty-covers}
use realize.Storage.{Result, ok, err, StorageError, io, join_error, not_found}
use realize.Blobs.{Blobstore, Blob, extend_local_availability}
use realize.Blobs.Handle.{Task, joined, database_failed, not_joined, update_db, report}
use realize.Blobs.Invariant.{StoreValid, HandleValid}
use realize.Blobs.Bytes.{
  recorded, Bytes, bytes_of, kept, nothing, reported, forgotten, updated, Bytes-eq, Valid, Extended,
  extend-cases, has_entry-some, has_entry-none, reported_there, reported_gone,
}

-- What `update_db` does on every branch.
pub record Reported (synced : Bool) (task : Task) (b : Blob) (s : Blobstore) (b' : Blob)
    (s' : Blobstore) (res : Result (Unit {0})) : Type 0 where
  pub valid : Valid b' s'
  pub same_blob : b'.blob_id ≡ b.blob_id
  pub bytes : bytes_of b' s' ≡ updated synced task (bytes_of b s)
  pub same : ((x : ℕ) → kept (bytes_of b' s') x ≡ kept (bytes_of b s) x) ⊎ (res ≡ err join_error)
  pub complete : res ≡ ok tt → (x : ℕ) → recorded s' b.blob_id x ≡ kept (bytes_of b s) x
  pub unchanged : (e : StorageError) → res ≡ err e → (s' ≡ s) ⊎ (e ≡ join_error)

-- The ranges are where they were.
put_back-Reported :
    (synced : Bool) (task : Task) (b : Blob) (s : Blobstore) (p : ByteRanges) (e : StorageError)
    → Valid b s
    → Represents p (covers b.pending_ranges)
    → updated synced task (bytes_of b s) ≡ bytes_of b s
    → Reported synced task b s (record b { pending_ranges = p }) s (err e)
unfolding bytes_of
put_back-Reported synced task b s p e v q u =
    let same : bytes_of (record b { pending_ranges = p }) s ≡ bytes_of b s =
      Bytes-eq (bytes_of (record b { pending_ranges = p }) s) (bytes_of b s) refl (λ x. refl)
        q.same in
    record {
      valid = record {
        handle = record {
          available = v.handle.available;
          unreported = q.valid;
          reported_later = λ x h. v.handle.reported_later x (sym (q.same x) ∙ h);
        };
        store = v.store;
      };
      same_blob = refl;
      bytes = same ∙ sym u;
      same = inl (λ x. ap (λ y. kept y x) same);
      complete = λ h. cc;
      unchanged = λ f h. inl refl;
    }

emptied-Valid :
    (b : Blob) (s : Blobstore)
    → HandleValid b
    → StoreValid s
    → Valid (record b { pending_ranges = ByteRanges.new }) s
emptied-Valid b s v w = record {
  handle = record {
    available = v.available;
    unreported = new-Represents.valid;
    reported_later = λ y h. ground (arith, new-Represents.same y);
  };
  store = w;
}

grown-bytes :
    (b : Blob) (s s' : Blobstore)
    → Extended s b.blob_id b.pending_ranges s'
    → bytes_of (record b { pending_ranges = ByteRanges.new }) s' ≡ reported (bytes_of b s)
unfolding bytes_of
grown-bytes b s s' x =
    let there = has_entry-some s b.blob_id x.known.0 x.known.1 in
    Bytes-eq (bytes_of (record b { pending_ranges = ByteRanges.new }) s')
      (record (bytes_of b s) { recorded = kept (bytes_of b s); pending = nothing })
      (x.there ∙ sym there) x.same new-Represents.same
    ∙ sym (reported_there (bytes_of b s) there)

grown-Reported :
    (b : Blob) (s s' : Blobstore)
    → Valid b s
    → Extended s b.blob_id b.pending_ranges s'
    → Reported true joined b s (record b { pending_ranges = ByteRanges.new }) s' (ok tt)
unfolding bytes_of
grown-Reported b s s' v x = record {
  valid = emptied-Valid b s' v.handle x.valid;
  same_blob = refl;
  bytes = grown-bytes b s s' x;
  same = inl (λ y. ground (arith, new-Represents.same y, x.same y));
  complete = λ h y. x.same y;
  unchanged = λ e h. cc;
}

-- The task is not joined.
lost-Reported :
    (ran : Bool) (b : Blob) (s s' : Blobstore)
    → Valid b s
    → StoreValid s'
    → bytes_of (record b { pending_ranges = ByteRanges.new }) s'
      ≡ updated true (not_joined ran) (bytes_of b s)
    → Reported true
        (not_joined ran)
        b
        s
        (record b { pending_ranges = ByteRanges.new })
        s'
        (err join_error)
lost-Reported ran b s s' v w q = record {
  valid = emptied-Valid b s' v.handle w;
  same_blob = refl;
  bytes = q;
  same = inr refl;
  complete = λ h. cc;
  unchanged = λ e h. inr cc;
}

forgotten-bytes :
    (b : Blob) (s : Blobstore)
    → bytes_of (record b { pending_ranges = ByteRanges.new }) s ≡ forgotten (bytes_of b s)
unfolding bytes_of
forgotten-bytes b s =
    Bytes-eq (bytes_of (record b { pending_ranges = ByteRanges.new }) s) (forgotten (bytes_of b s))
      refl (λ x. refl) new-Represents.same

taken :
    (b : Blob)
    → HandleValid b
    → Represents (ByteRanges.extend ByteRanges.new b.pending_ranges) (covers b.pending_ranges)
taken b v =
    let x = extend_lem ByteRanges.new b.pending_ranges new-Represents.valid v.unreported in
    record { valid = x.valid; same = λ y. ground (arith, x.same y, new-Represents.same y) }

reported_missing :
    (b : Blob) (s : Blobstore)
    → Table.get b.blob_id s.blob_table ≡ none
    → reported (bytes_of b s) ≡ bytes_of b s
unfolding bytes_of
reported_missing b s g = reported_gone (bytes_of b s) (has_entry-none s b.blob_id g)

grown_forgotten :
    (b : Blob) (s s' : Blobstore)
    → Extended s b.blob_id b.pending_ranges s'
    → bytes_of (record b { pending_ranges = ByteRanges.new }) s'
      ≡ forgotten (reported (bytes_of b s))
unfolding bytes_of
grown_forgotten b s s' x =
    let there = has_entry-some s b.blob_id x.known.0 x.known.1 in
    grown-bytes b s s' x
    ∙ reported_there (bytes_of b s) there
    ∙ ap forgotten (sym (reported_there (bytes_of b s) there))

report-Reported :
    (task : Task) (b : Blob) (s : Blobstore)
    → Valid b s
    → let ((b', s'), res) =
        report task b (extend_local_availability s b.blob_id b.pending_ranges) s in
      Reported true task b s b' s' res
unfolding report
report-Reported (database_failed e) b s v =
    put_back-Reported true (database_failed e) b s _ e v (taken b v.handle) refl
report-Reported (not_joined false) b s v = lost-Reported false b s s v v.store (forgotten-bytes b s)
report-Reported (not_joined true) b s v =
    elim (extend-cases s b.blob_id b.pending_ranges v.store v.handle.unreported) [
      | inl (g, q) ↦
          rw (report, q)
            (lost-Reported true b s s v v.store
              (forgotten-bytes b s ∙ ap forgotten (sym (reported_missing b s g))))
      | inr (s', q, x) ↦
          rw (report, q) (lost-Reported true b s s' v x.valid (grown_forgotten b s s' x))
    ]
report-Reported joined b s v =
    elim (extend-cases s b.blob_id b.pending_ranges v.store v.handle.unreported) [
      | inl (g, q) ↦
          rw (report, q)
            (put_back-Reported true joined b s (ByteRanges.extend ByteRanges.new b.pending_ranges)
              not_found v (taken b v.handle) (reported_missing b s g))
      | inr (s', q, x) ↦ rw (report, q) (grown-Reported b s s' v x)
    ]

-- With nothing to report, nothing changes.
module _ (y : Bytes) (h : (x : ℕ) → y.pending x ≡ false) where
  reported_idle : reported y ≡ y
  reported_idle = elim (Bool-cases y.exists) [
    | inl e ↦
        reported_there y e
        ∙ Bytes-eq (record y { recorded = kept y; pending = nothing }) y refl
            (λ x. ap (λ p. y.recorded x || p) (h x) ∙ sym (or_false (y.recorded x)))
            (λ x. sym (h x))
    | inr e ↦ reported_gone y e
  ]

  forgotten_idle : forgotten y ≡ y
  forgotten_idle = Bytes-eq (forgotten y) y refl (λ x. refl) (λ x. sym (h x))

  updated_idle : (synced : Bool) (task : Task) → updated synced task y ≡ y
  updated_idle false task = refl
  updated_idle true joined = reported_idle
  updated_idle true (database_failed e) = refl
  updated_idle true (not_joined false) = forgotten_idle
  updated_idle true (not_joined true) = ap forgotten reported_idle ∙ forgotten_idle

-- `update_db` on a well-formed handle and store keeps them well formed. Either no byte that is recorded
-- or pending is lost, or the result is that the task was not joined: then the pending bytes are
-- forgotten unless its transaction ran and found the entry of the blob. When it succeeds, the entry of
-- the blob has all of them, and when it fails in another way, the store is unchanged.
pub update_db_lem :
    (synced : Bool) (task : Task) (b : Blob) (s : Blobstore)
    → Valid b s
    → let ((b', s'), res) = update_db synced task b s in Reported synced task b s b' s' res
unfolding update_db bytes_of
update_db_lem synced task b s v = elim (Bool-cases (ByteRanges.is_empty b.pending_ranges)) [
  | inl h ↦
      rw (update_db, h)
        (record {
          valid = v;
          same_blob = refl;
          bytes =
              sym (
                updated_idle (bytes_of b s) (λ x. is_empty-covers b.pending_ranges x h) synced
                  task);
          same = inl (λ x. refl);
          complete = λ q x. ground (arith, is_empty-covers b.pending_ranges x h);
          unchanged = λ e q. inl refl;
        })
  | inr h ↦ elim (Bool-cases synced) [
    | inl t ↦ rw (update_db, h, t) (report-Reported task b s v)
    | inr f ↦
        rw (update_db, h, f)
          (put_back-Reported false task b s b.pending_ranges io v
            (record { valid = v.handle.unreported; same = λ x. refl }) refl)
  ]
]
