-- ===== src/Index/Steps.antt =====
-- The index from its creation on: what any sequence of changes keeps, and what adding a file does.
use realize.Prelude.{
  ℕ, suc, ◌≡◌, ◌≢◌, ◌∙◌, ap, refl, true, false, inl, inr, Bool-cases, Option, none, some, [], ◌∷◌,
  ◌++◌, arith, length,
}
use mathlib.Core.Path.{subst}
use realize.Prelude.Eq.{nat_eq, list_eq, list_beq, list_beq_iff, lookup}
use realize.Prelude.Order
use realize.Prelude.Order.{text_order, lookup-insert}
use mathlib.Core.Option as OptionLib
use realize.Data.{JobStatus, Arena, Hash, Hash_eq}
use realize.Dirty.{empty_tables, UnixTime, job_finished}
use realize.Dirty.Invariant as DirtyLaws
use realize.FilePath.{Text, FilePath, parse}
use realize.Notifications.{Notification}
use realize.Storage.{ok}
use realize.Index.{
  HistoryTableEntry, IndexedFileTableEntry, RealIndex, last_history_index, log_change, add_file,
  same_hash, change_of, drop_file_if_matches, update, remove_file_or_dir, get_file, Metadata,
}
use realize.Index.Invariant.{IsValid, Room, replay, has, log_change-Logged}
use realize.Index.Changes.{add_file-IsValid, drop_file-IsValid, update-IsValid}
use realize.Index.Removal.{remove_file_or_dir_lem, dirty_key, dirty_key-mark_dirty}

unfoldable pub new_index : Arena → RealIndex
new_index a = record { arena = a; files = []; history = []; tables = empty_tables }

-- One change of the index. A new path is one that `Path::parse` gives, and a change that is logged
-- needs a number that is left.
pub data Step (i : RealIndex) : RealIndex → Type 0 where
  adds :
      (path : FilePath) (size : ℕ) (mtime : UnixTime) (hash : Hash)
      → parse path.chars ≡ some path
      → Room i 1
      → Step i (add_file i path size mtime hash)
  removes :
      (path : FilePath) (i' : RealIndex)
      → Room i (length i.files)
      → remove_file_or_dir i path ≡ ok i'
      → Step i i'
  drops :
      (path : FilePath) (hash : Hash) (file : Metadata)
      → Room i 1
      → Step i (drop_file_if_matches i path hash file).0
  updates :
      (file : FilePath → Metadata) (notification : Notification)
      → Step i (update file i notification).0
  -- the engine finishes a job
  finishes :
      (strategy : ℕ → Option ℕ) (now : UnixTime) (job_id : ℕ) (status : Option JobStatus)
      → Step i (record i { tables = job_finished strategy now i.tables job_id status })

-- What a sequence of changes makes of a new index.
pub data Reached (a : Arena) : RealIndex → Type 0 where
  created : Reached a (new_index a)
  changed : (i i' : RealIndex) → Reached a i → Step i i' → Reached a i'

pub new_index-IsValid : (a : Arena) → IsValid (new_index a)
unfolding new_index lookup replay
new_index-IsValid a = record {
  files_sorted = tt;
  paths = λ k h. cc;
  logged = record {
    history_sorted = tt;
    tables_valid = DirtyLaws.empty-IsValid;
    replayed = λ k. refl;
  };
}

finished-IsValid :
    (strategy : ℕ → Option ℕ) (now : UnixTime) (i : RealIndex) (job_id : ℕ)
    (status : Option JobStatus)
    → IsValid i
    → IsValid (record i { tables = job_finished strategy now i.tables job_id status })
finished-IsValid strategy now i job_id status v = record {
  files_sorted = v.files_sorted;
  paths = v.paths;
  logged = record {
    history_sorted = v.logged.history_sorted;
    tables_valid =
        DirtyLaws.job_finished-IsValid strategy now i.tables job_id status v.logged.tables_valid;
    replayed = v.logged.replayed;
  };
}

pub Step-IsValid : (i i' : RealIndex) → Step i i' → IsValid i → IsValid i'
Step-IsValid i i' (adds path size mtime hash p r) v =
    add_file-IsValid i path size mtime hash 0 v r p
Step-IsValid i i' (removes path i'' r q) v =
    let (i1, q1, w, gone, others, dirty) = remove_file_or_dir_lem i path v r in
    let same : i1 ≡ i'' = cc in subst IsValid same w
Step-IsValid i i' (drops path hash file r) v = drop_file-IsValid i path hash file 0 v r
Step-IsValid i i' (updates file notification) v = update-IsValid file i notification v
Step-IsValid i i' (finishes strategy now job_id status) v =
    finished-IsValid strategy now i job_id status v

-- In every index that is reached from a new one, whatever the changes were, replaying the history from
-- nothing gives exactly the paths that have a file, and the tables are well formed.
pub Reached-IsValid : (a : Arena) (i : RealIndex) → Reached a i → IsValid i
Reached-IsValid a i created = new_index-IsValid a
Reached-IsValid a i (changed i0 i1 r s) = Step-IsValid i0 i1 s (Reached-IsValid a i0 r)

-- The entry that `add_file` stores, and the hash that was there.
abbrev pub stored_entry : ℕ → UnixTime → Hash → IndexedFileTableEntry
stored_entry size mtime hash = record {
  hash = hash;
  mtime = mtime;
  size = size;
  outdated_by = none;
}

abbrev pub hash_before : RealIndex → FilePath → Option Hash
hash_before i path =
    OptionLib.map (λ (e : IndexedFileTableEntry). e.hash) (lookup path.chars i.files)

added_files :
    (i : RealIndex) (path : FilePath) (size : ℕ) (mtime : UnixTime) (hash : Hash)
    → (add_file i path size mtime hash).files
      ≡ Order.insert path.chars (stored_entry size mtime hash) i.files
unfolding add_file log_change
added_files i path size mtime hash = ground arith

logged_add :
    (i : RealIndex) (path : FilePath) (size : ℕ) (mtime : UnixTime) (hash : Hash)
    → IsValid i
    → Room i 1
    → same_hash (hash_before i path) hash ≡ false
    → let i' = add_file i path size mtime hash in
      (i'.history
        ≡ i.history
          ++ (suc (last_history_index i.history), change_of path (hash_before i path)) ∷ [])
      × (dirty_key i'.tables path.chars ≡ true)
unfolding add_file
logged_add i path size mtime hash v r h =
    let ev = change_of path (hash_before i path) in
    let done = log_change-Logged i path ev (has i.files) 0 v.logged r in
    rw (add_file, h)
      (
        (unfold log_change in done.2),
        (unfold log_change in
            ground (
              arith,
              dirty_key-mark_dirty i.tables path path.chars,
              list_beq_iff path.chars path.chars,
            )),
      )

logged_change :
    (i : RealIndex) (path : FilePath) (size : ℕ) (mtime : UnixTime) (hash : Hash)
    (before : Option Hash)
    → hash_before i path ≡ before
    → same_hash before hash ≡ false
    → IsValid i
    → Room i 1
    → let i' = add_file i path size mtime hash in
      (i'.history ≡ i.history ++ (suc (last_history_index i.history), change_of path before) ∷ [])
      × (dirty_key i'.tables path.chars ≡ true)
logged_change i path size mtime hash before q h v r =
    let out = logged_add i path size mtime hash v r (ap (λ o. same_hash o hash) q ∙ h) in
    subst
      (λ o.
        ((add_file i path size mtime hash).history
          ≡ i.history ++ (suc (last_history_index i.history), change_of path o) ∷ [])
        × (dirty_key (add_file i path size mtime hash).tables path.chars ≡ true))
      q out

same_hash_refl : (h : Hash) → same_hash (some h) h ≡ true
unfolding same_hash
same_hash_refl h = (Hash_eq.beq_iff h h).1 refl

same_hash_other : (g h : Hash) → g ≢ h → same_hash (some g) h ≡ false
unfolding same_hash
same_hash_other g h d = elim (Bool-cases (list_beq g.bytes h.bytes)) [
  | inl q ↦ let no : ⊥ = d ((Hash_eq.beq_iff g h).0 q) in elim no [ ]
  | inr q ↦ q
]

unchanged_add :
    (i : RealIndex) (path : FilePath) (size : ℕ) (mtime : UnixTime) (hash : Hash)
    (e : IndexedFileTableEntry)
    → lookup path.chars i.files ≡ some e
    → e.hash ≡ hash
    → let i' = add_file i path size mtime hash in (i'.history ≡ i.history) × (i'.tables ≡ i.tables)
unchanged_add i path size mtime hash e g h =
    let same : same_hash (hash_before i path) hash ≡ true =
      ap (λ o. same_hash (OptionLib.map (λ (e : IndexedFileTableEntry). e.hash) o) hash) g
      ∙ ap (λ x. same_hash (some x) hash) h
      ∙ same_hash_refl hash in
    unfold add_file in (ground (arith, same))

-- Adding a file stores its entry and leaves every other path alone. If the file had the same hash,
-- neither the history nor the dirty paths change. If there was no file, the history gets the addition
-- of the path at the next index, and if the file had another hash, the replacement of that hash; in
-- both cases the path is dirty. The index is valid and has a number left.
pub add_file_lem :
    (i : RealIndex) (path : FilePath) (size : ℕ) (mtime : UnixTime) (hash : Hash)
    → IsValid i
    → Room i 1
    → let i' = add_file i path size mtime hash in
      (get_file i' path ≡ some (stored_entry size mtime hash))
      × ((q : FilePath) → list_beq path.chars q.chars ≡ false → get_file i' q ≡ get_file i q)
      × ((e : IndexedFileTableEntry)
          → get_file i path ≡ some e
          → e.hash ≡ hash
          → (i'.history ≡ i.history) × (i'.tables ≡ i.tables))
      × (get_file i path ≡ none
          → (i'.history
              ≡ i.history ++ (suc (last_history_index i.history), HistoryTableEntry.add path) ∷ [])
            × (dirty_key i'.tables path.chars ≡ true))
      × ((e : IndexedFileTableEntry)
          → get_file i path ≡ some e
          → e.hash ≢ hash
          → (i'.history
              ≡ i.history
                ++ (suc (last_history_index i.history), HistoryTableEntry.replace path e.hash) ∷ [])
            × (dirty_key i'.tables path.chars ≡ true))
unfolding get_file change_of
add_file_lem i path size mtime hash v r =
    let files = added_files i path size mtime hash in
    let found = λ (k : Text). lookup-insert path.chars k (stored_entry size mtime hash) i.files in
    (
      ground (arith, files, found path.chars, list_beq_iff path.chars path.chars),
      (λ q d. ground (arith, files, found q.chars)),
      (λ e g h. unchanged_add i path size mtime hash e g h),
      (λ g.
          logged_change i path size mtime hash none
            (ap (OptionLib.map (λ (e : IndexedFileTableEntry). e.hash)) g)
            (unfold same_hash in refl) v r),
      λ e g d.
          logged_change i path size mtime hash (some e.hash)
            (ap (OptionLib.map (λ (e : IndexedFileTableEntry). e.hash)) g)
            (same_hash_other e.hash hash d) v r,
    )
