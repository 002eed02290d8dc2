-- ===== src/Index/Removal.antt =====
-- `remove_file_or_dir`: what removing a file or a directory does.
use realize.Prelude.{
  ℕ, suc, ◌+◌, ◌≡◌, ◌∙◌, ◌↔◌, ◌⊎◌, inl, inr, refl, Bool, true, false, ◌&&◌, ◌||◌, none, some, [],
  ◌∷◌, arith, Bool-cases, if◌then◌else◌, length,
}
use realize.Prelude.Eq.{nat_eq, list_eq, list_beq, list_beq_iff, Assoc, lookup, Unique, lookup-put}
use realize.Prelude.Order.{text_order, Ascending-Unique}
use realize.ByteRange.{add64}
use realize.Dirty.{DirtyTables, mark_dirty, last_counter}
use realize.FilePath.{Text, FilePath, parse}
use realize.Storage.{ok}
use realize.Index.{
  IndexedFileTableEntry, HistoryTableEntry, RealIndex, log_change, accept, extracted, retained,
  remove_loop, remove_file_or_dir,
}
use realize.Index.Invariant.{
  IsValid, Logged, Room, Room-mono, has, after, log_change-Logged, refile-Logged, relog-Logged,
}
use realize.Index.Prefix.{
  not-AtOrBelow, selected-accept, AtOrBelow, accept-AtOrBelow, AtOrBelow-accept, lookup-extracted,
  lookup-retained, extracted-Ascending, retained-Ascending, extracted-length,
}

abbrev pub dirty_key : DirtyTables → Text → Bool
dirty_key t k = elim (lookup k t.dirty) [ none ↦ false | some c ↦ true ]

pub dirty_key-mark_dirty :
    (t : DirtyTables) (path : FilePath) (k : Text)
    → dirty_key (mark_dirty t path).0 k ≡ (list_beq path.chars k || dirty_key t k)
unfolding mark_dirty
dirty_key-mark_dirty t path k =
    ground (arith, lookup-put path.chars k (add64 (last_counter t) 1) t.dirty)

-- What the loop over the extracted entries does.
record Removed (entries : Assoc Text IndexedFileTableEntry) (i i' : RealIndex) (n : ℕ)
    : Type 0 where
  files : i'.files ≡ i.files
  logged : Logged i' (has i.files)
  room : Room i' n
  dirty : (k : Text) → dirty_key i'.tables k ≡ (has entries k || dirty_key i.tables k)

-- What the loop needs: the history still has the entries, and the files do not.
record Removable (entries : Assoc Text IndexedFileTableEntry) (i : RealIndex) (n : ℕ) : Type 0 where
  logged : Logged i (λ k. has i.files k || has entries k)
  room : Room i (length entries + n)
  once : Unique entries
  apart : (k : Text) → has entries k ≡ true → has i.files k ≡ false
  paths : (k : Text) → has entries k ≡ true → parse k ≡ some (record { chars = k })

has-cons :
    (k : Text) (e : IndexedFileTableEntry) (entries : Assoc Text IndexedFileTableEntry) (j : Text)
    → has ((k, e) ∷ entries) j ≡ (list_beq k j || has entries j)
unfolding lookup
has-cons k e entries j = ground arith

none-has :
    (k : Text) (entries : Assoc Text IndexedFileTableEntry)
    → lookup k entries ≡ none
    → has entries k ≡ false
none-has k entries h = rw (has, h) refl

-- One round of the loop.
module _ (k : Text) (e : IndexedFileTableEntry) (entries : Assoc Text IndexedFileTableEntry)
    (i : RealIndex) (n : ℕ) (v : Removable ((k, e) ∷ entries) i n) where
  round : RealIndex
  unfolding log_change
  round =
      log_change i (record { chars = k }) (HistoryTableEntry.remove (record { chars = k }) e.hash)

  round-Removable : Removable entries round n
  unfolding log_change round
  round-Removable =
      let path : FilePath = record { chars = k } in
      let ev = HistoryTableEntry.remove path e.hash in
      let f : Text → Bool = λ j. has i.files j || has ((k, e) ∷ entries) j in
      let g : Text → Bool = λ j. has i.files j || has entries j in
      let step =
        log_change-Logged i path ev f (length entries + n) v.logged (
          Room-mono i (suc (length entries) + n) (suc (length entries + n)) (omega arith) v.room) in
      let here : has ((k, e) ∷ entries) k ≡ true =
        ground (arith, has-cons k e entries k, list_beq_iff k k) in
      let gone = none-has k entries v.once.0 in
      let same : (j : Text) → after ev j (f j) ≡ g j =
        λ j. ground (arith, has-cons k e entries j, list_beq_iff k j, gone, v.apart k here) in
      record {
        logged = relog-Logged round (λ j. after ev j (f j)) g step.0 same;
        room = step.1;
        once = v.once.1;
        apart = λ j h. v.apart j (ground (arith, has-cons k e entries j));
        paths = λ j h. v.paths j (ground (arith, has-cons k e entries j));
      }

  round_parse : parse k ≡ some (record { chars = k })
  round_parse = v.paths k (ground (arith, has-cons k e entries k, list_beq_iff k k))

  Removed-round : (i' : RealIndex) → Removed entries round i' n → Removed ((k, e) ∷ entries) i i' n
  unfolding log_change round
  Removed-round i' r =
      let path : FilePath = record { chars = k } in
      record {
        files = r.files;
        logged = r.logged;
        room = r.room;
        dirty = λ j.
            ground (arith, r.dirty j, dirty_key-mark_dirty i.tables path j, has-cons k e entries j);
      }

remove_loop-Removed :
    (entries : Assoc Text IndexedFileTableEntry) (i : RealIndex) (n : ℕ)
    → Removable entries i n
    → (i' : RealIndex) × (remove_loop entries i ≡ ok i') × Removed entries i i' n
unfolding remove_loop lookup round
remove_loop-Removed [] i n v = (
  i,
  refl,
  (record {
    files = refl;
    logged = relog-Logged i _ (has i.files) v.logged (λ k. ground arith);
    room = Room-mono i (0 + n) n (omega arith) v.room;
    dirty = λ k. refl;
  }),
)
remove_loop-Removed ((k, e) ∷ entries) i n v =
    let (i', q, r) =
      remove_loop-Removed entries (round k e entries i n v) n (round-Removable k e entries i n v) in
    (i', (rw (remove_loop, round_parse k e entries i n v) q), Removed-round k e entries i n v i' r)

extracted-Removable :
    (i : RealIndex) (p : Text)
    → IsValid i
    → Room i (length i.files)
    → Removable (extracted p i.files) (record i { files = retained p i.files }) 0
extracted-Removable i p v r =
    let both : (k : Text)
        → has i.files k ≡ (has (retained p i.files) k || has (extracted p i.files) k) =
      λ k. ground (arith, lookup-extracted p k i.files, lookup-retained p k i.files) in
    let files = retained p i.files in
    record {
      logged = refile-Logged i files (has i.files) _ v.logged both;
      room =
          let r' =
            Room-mono i (length i.files) (length (extracted p i.files) + 0)
              (omega (arith, extracted-length p i.files)) r in
          record { counters = r'.counters; indexes = r'.indexes };
      once = Ascending-Unique _ (extracted-Ascending p i.files v.files_sorted);
      apart = λ k h. ground (arith, lookup-extracted p k i.files, lookup-retained p k i.files);
      paths = λ k h. v.paths k (both k ∙ ground (arith, h));
    }

removed_accepted :
    (i : RealIndex) (path : FilePath)
    → IsValid i
    → Room i (length i.files)
    → (i' : RealIndex) × (remove_file_or_dir i path ≡ ok i')
      × IsValid i'
      × ((k : Text) → lookup k i'.files ≡ (if accept path.chars k then none else lookup k i.files))
      × ((k : Text)
          → dirty_key i'.tables k
            ≡ ((accept path.chars k && has i.files k) || dirty_key i.tables k))
unfolding remove_file_or_dir
removed_accepted i path v r =
    let files = retained path.chars i.files in
    let start : RealIndex = record i { files = files } in
    let (i', q, d) =
      remove_loop-Removed (extracted path.chars i.files) start 0
        (extracted-Removable i path.chars v r) in
    let found : (k : Text)
        → lookup k files ≡ (if accept path.chars k then none else lookup k i.files) =
      λ k. ground (arith, lookup-retained path.chars k i.files, selected-accept path.chars k) in
    (
      i',
      q,
      (record {
        files_sorted = rw d.files (retained-Ascending path.chars i.files v.files_sorted);
        paths = λ k h. v.paths k (ground (arith, d.files, found k));
        logged = rw d.files d.logged;
      }),
      (λ k. rw d.files (found k)),
      λ k.
          ground
            (arith, d.dirty k, lookup-extracted path.chars k i.files, selected-accept path.chars k),
    )

-- With numbers left for all its files, removing a path succeeds: the index loses exactly the file
-- whose path it is and those whose path continues it with a slash. Dirty afterwards are exactly the
-- paths that were dirty and those that are lost. The history still replays to the paths of the table.
pub remove_file_or_dir_lem :
    (i : RealIndex) (path : FilePath)
    → IsValid i
    → Room i (length i.files)
    → (i' : RealIndex) × (remove_file_or_dir i path ≡ ok i')
      × IsValid i'
      × ((k : Text) → AtOrBelow path.chars k → lookup k i'.files ≡ none)
      × ((k : Text) → ¬ (AtOrBelow path.chars k) → lookup k i'.files ≡ lookup k i.files)
      × ((k : Text)
          → (dirty_key i'.tables k ≡ true)
            ↔ ((dirty_key i.tables k ≡ true) ⊎ (AtOrBelow path.chars k × (has i.files k ≡ true))))
remove_file_or_dir_lem i path v r =
    let (i', q, w, gone, dirty) = removed_accepted i path v r in
    (
      i',
      q,
      w,
      (λ k b. ground (arith, gone k, AtOrBelow-accept path.chars k b)),
      (λ k n. ground (arith, gone k, not-AtOrBelow path.chars k n)),
      λ k. (
        (λ d. elim (Bool-cases (dirty_key i.tables k)) [
          | inl b ↦ inl b
          | inr b ↦
              let lost : (accept path.chars k ≡ true) × (has i.files k ≡ true) =
                ground (arith, dirty k, d, b) in
              inr (accept-AtOrBelow path.chars k lost.0, lost.1)
        ]),
        λ o. elim o [
          | inl b ↦ ground (arith, dirty k, b)
          | inr (b, h) ↦ ground (arith, dirty k, AtOrBelow-accept path.chars k b, h)
        ],
      ),
    )
