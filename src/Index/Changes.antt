-- ===== src/Index/Changes.antt =====
-- `add_file`, `drop_file_if_matches` and `update` against the history and the dirty paths.
use realize.Prelude.{
  ℕ, suc, ◌≡◌, ◌∙◌, sym, refl, Bool, true, not, ◌&&◌, ◌||◌, none, some, arith, inl, inr,
  Option-cases, Bool-cases,
}
use mathlib.Core.Path.{subst}
use realize.Prelude.Eq.{
  nat_eq, list_eq, list_beq, list_beq_iff, Assoc, lookup, delete, lookup-delete, string_eq,
}
use realize.Prelude.Order
use realize.Prelude.Order.{
  text_order, Ascending, lookup-insert, insert-Ascending, delete-Ascending, Ascending-Unique,
}
use realize.Data.{Arena, Hash, Hash_eq}
use realize.FilePath.{Text, FilePath, parse}
use realize.Notifications.{Notification}
use realize.Index.{
  IndexedFileTableEntry, HistoryTableEntry, RealIndex, log_change, add_file, same_hash, change_of,
  drop_file_if_matches, file_matches_index, update, replaces, Metadata,
}
use realize.Index.Invariant.{
  IsValid, Room, has, after, same_key, log_change-Logged, refile-Logged, relog-Logged,
}

pub has-insert :
    (k : Text) (e : IndexedFileTableEntry) (files : Assoc Text IndexedFileTableEntry) (j : Text)
    → has (Order.insert k e files) j ≡ (list_beq k j || has files j)
has-insert k e files j = ground (arith, lookup-insert k j e files)

pub has-delete :
    (k : Text) (files : Assoc Text IndexedFileTableEntry) (j : Text)
    → Ascending files
    → has (delete k files) j ≡ (not (list_beq k j) && has files j)
has-delete k files j s = ground (arith, lookup-delete k j files (Ascending-Unique files s))

-- The paths stay paths when one is added.
insert-paths :
    (path : FilePath) (e : IndexedFileTableEntry) (i : RealIndex)
    → IsValid i
    → parse path.chars ≡ some path
    → (k : Text) → has (Order.insert path.chars e i.files) k ≡ true
    → parse k ≡ some (record { chars = k })
insert-paths path e i v p k h = elim (Bool-cases (list_beq path.chars k)) [
  | inl s ↦ subst (λ j. parse j ≡ some (record { chars = j })) ((list_beq_iff path.chars k).0 s) p
  | inr s ↦ v.paths k (ground (arith, has-insert path.chars e i.files k))
]

-- Another entry for a path that has one.
rewritten-IsValid :
    (i : RealIndex) (path : FilePath) (e d : IndexedFileTableEntry)
    → IsValid i
    → lookup path.chars i.files ≡ some d
    → IsValid (record i { files = Order.insert path.chars e i.files })
rewritten-IsValid i path e d v h =
    let same : (k : Text) → has i.files k ≡ has (Order.insert path.chars e i.files) k =
      λ k. ground (arith, has-insert path.chars e i.files k, list_beq_iff path.chars k) in
    record {
      files_sorted = insert-Ascending path.chars e i.files v.files_sorted;
      paths = λ k g. v.paths k (same k ∙ g);
      logged = refile-Logged i (Order.insert path.chars e i.files) (has i.files) _ v.logged same;
    }

added-IsValid :
    (i : RealIndex) (path : FilePath) (e : IndexedFileTableEntry) (ev : HistoryTableEntry) (n : ℕ)
    → IsValid i
    → Room i (suc n)
    → parse path.chars ≡ some path
    → ((k : Text) (b : Bool) → after ev k b ≡ (list_beq path.chars k || b))
    → IsValid (log_change (record i { files = Order.insert path.chars e i.files }) path ev)
unfolding log_change
added-IsValid i path e ev n v r p h =
    let files = Order.insert path.chars e i.files in
    let i' : RealIndex = record i { files = files } in
    let kept = refile-Logged i files (has i.files) (has i.files) v.logged (λ k. refl) in
    let done =
      log_change-Logged i' path ev (has i.files) n kept
        (record { counters = r.counters; indexes = r.indexes }) in
    record {
      files_sorted = insert-Ascending path.chars e i.files v.files_sorted;
      paths = insert-paths path e i v p;
      logged =
          relog-Logged (log_change i' path ev) _ (has files) done.0
            (λ k. h k (has i.files k) ∙ sym (has-insert path.chars e i.files k));
    }

dropped-IsValid :
    (i : RealIndex) (path : FilePath) (hash : Hash) (n : ℕ)
    → IsValid i
    → Room i (suc n)
    → IsValid (
        log_change
          (record i { files = delete path.chars i.files })
          path
          (HistoryTableEntry.drop path hash))
unfolding log_change
dropped-IsValid i path hash n v r =
    let files = delete path.chars i.files in
    let ev = HistoryTableEntry.drop path hash in
    let i' : RealIndex = record i { files = files } in
    let kept = refile-Logged i files (has i.files) (has i.files) v.logged (λ k. refl) in
    let done =
      log_change-Logged i' path ev (has i.files) n kept
        (record { counters = r.counters; indexes = r.indexes }) in
    let gone : (k : Text) → has files k ≡ (not (same_key path k) && has i.files k) =
      λ k. has-delete path.chars i.files k v.files_sorted in
    record {
      files_sorted = delete-Ascending path.chars i.files v.files_sorted;
      paths = λ k g. v.paths k (ground (arith, gone k));
      logged = relog-Logged (log_change i' path ev) _ (has files) done.0 (λ k. sym (gone k));
    }

pub add_file-IsValid :
    (i : RealIndex) (path : FilePath) (size : ℕ) (mtime : ℕ) (hash : Hash) (n : ℕ)
    → IsValid i
    → Room i (suc n)
    → parse path.chars ≡ some path
    → IsValid (add_file i path size mtime hash)
unfolding add_file same_hash change_of
add_file-IsValid i path size mtime hash n v r p =
    let entry : IndexedFileTableEntry = record {
      hash = hash;
      mtime = mtime;
      size = size;
      outdated_by = none;
    } in
    elim (Option-cases (lookup path.chars i.files)) [
      | inl e ↦
          rw (add_file, e)
            (added-IsValid i path entry (HistoryTableEntry.add path) n v r p (λ k b. refl))
      | inr (d, e) ↦ elim (Bool-cases (Hash_eq.beq d.hash hash)) [
        | inl s ↦ rw (add_file, e, s) (rewritten-IsValid i path entry d v e)
        | inr s ↦
            rw (add_file, e, s)
              (added-IsValid i path entry (HistoryTableEntry.replace path d.hash) n v r p
                (λ k b. refl))
      ]
    ]

pub drop_file-IsValid :
    (i : RealIndex) (path : FilePath) (hash : Hash) (file : Metadata) (n : ℕ)
    → IsValid i
    → Room i (suc n)
    → IsValid (drop_file_if_matches i path hash file).0
unfolding drop_file_if_matches
drop_file-IsValid i path hash file n v r = elim (Option-cases (lookup path.chars i.files)) [
  | inl e ↦ rw (drop_file_if_matches, e) v
  | inr (d, e) ↦ elim (Bool-cases (Hash_eq.beq d.hash hash && file_matches_index d file)) [
    | inl m ↦ rw (drop_file_if_matches, e, m) (dropped-IsValid i path hash n v r)
    | inr m ↦ rw (drop_file_if_matches, e, m) v
  ]
]

replace-IsValid :
    (file : FilePath → Metadata) (i : RealIndex) (a : Arena) (index : ℕ) (path : FilePath)
    (mtime size : ℕ) (hash old_hash : Hash)
    → IsValid i
    → IsValid (update file i (Notification.replace a index path mtime size hash old_hash)).0
unfolding update
replace-IsValid file i a index path mtime size hash old_hash v =
    elim (Bool-cases (string_eq.beq a i.arena)) [
      | inr o ↦ rw (update, o) v
      | inl o ↦ elim (Option-cases (lookup path.chars i.files)) [
        | inl e ↦ rw (update, o, e) v
        | inr (d, e) ↦ elim (Bool-cases (replaces d old_hash)) [
          | inl m ↦
              rw (update, o, e, m)
                (rewritten-IsValid i path (record d { outdated_by = some hash }) d v e)
          | inr m ↦ rw (update, o, e, m) v
        ]
      ]
    ]

-- A notification of a removal changes nothing in the index.
pub update-remove :
    (file : FilePath → Metadata) (i : RealIndex) (a : Arena) (index : ℕ) (path : FilePath)
    (old_hash : Hash)
    → (update file i (Notification.remove a index path old_hash)).0 ≡ i
unfolding update
update-remove file i a index path old_hash = ground arith

pub update-IsValid :
    (file : FilePath → Metadata) (i : RealIndex) (notification : Notification)
    → IsValid i
    → IsValid (update file i notification).0
unfolding update
update-IsValid file i (Notification.add a x p t z h) v = v
update-IsValid file i (Notification.replace a x p t z h g) v =
    replace-IsValid file i a x p t z h g v
update-IsValid file i (Notification.remove a x p g) v = rw (update-remove file i a x p g) v
update-IsValid file i (Notification.drop a x p g) v = v
update-IsValid file i (Notification.catchup_start a) v = v
update-IsValid file i (Notification.catchup a p t z h) v = v
update-IsValid file i (Notification.catchup_complete a x) v = v
update-IsValid file i (Notification.connected a u) v = v
