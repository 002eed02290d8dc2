-- ===== src/Index/Invariant.antt =====
-- The history against the file table: replaying the history gives the paths that are in the table.
use realize.Prelude.{
  ℕ, suc, ◌+◌, ◌≤◌, ◌<◌, ◌≡◌, ◌∙◌, refl, Bool, true, false, not, ◌&&◌, ◌||◌, none, some, [], ◌∷◌,
  ◌++◌, arith,
}
use realize.Prelude.Table
use realize.Prelude.Table.{Table, IsSorted, Below, insert_above, insert-IsSorted}
use realize.Prelude.Eq.{nat_eq, list_eq, list_beq, Assoc, lookup}
use realize.Prelude.Order.{text_order, Ascending}
use realize.ByteRange.{u64_mod}
use realize.Dirty.{DirtyTables, last_counter, mark_dirty}
use realize.Dirty.Invariant as DirtyLaws
use realize.FilePath.{Text, FilePath, parse}
use realize.Index.{
  IndexedFileTableEntry, HistoryTableEntry, RealIndex, last_history_index, allocate_history_index,
  log_change,
}

abbrev pub same_key : FilePath → Text → Bool
same_key path k = list_beq path.chars k

-- Whether a path has a file after a change, if `before` says whether it had one.
abbrev pub after : HistoryTableEntry → Text → Bool → Bool
after (HistoryTableEntry.add path) k before = same_key path k || before
after (HistoryTableEntry.replace path h) k before = same_key path k || before
after (HistoryTableEntry.remove path h) k before = not (same_key path k) && before
after (HistoryTableEntry.drop path h) k before = not (same_key path k) && before

-- What a reader of the history knows of a path in the end.
unfoldable pub replay : Table HistoryTableEntry → Text → Bool → Bool
replay [] k before = before
replay ((n, ev) ∷ history) k before = replay history k (after ev k before)

abbrev pub has : Assoc Text IndexedFileTableEntry → Text → Bool
has files k = elim (lookup k files) [ none ↦ false | some e ↦ true ]

replay-append :
    (history : Table HistoryTableEntry) (n : ℕ) (ev : HistoryTableEntry) (k : Text) (b : Bool)
    → replay (history ++ (n, ev) ∷ []) k b ≡ after ev k (replay history k b)
unfolding replay
replay-append [] n ev k b = refl
replay-append ((m, e) ∷ history) n ev k b = replay-append history n ev k (after e k b)

pub last-Below :
    (lo : ℕ) (history : Table HistoryTableEntry)
    → IsSorted lo history
    → Below (suc (last_history_index history)) history
unfolding last_history_index Table.last
last-Below lo [] s = tt
last-Below lo ((k, v) ∷ []) s = (omega arith, tt)
last-Below lo ((k, v) ∷ (j, w) ∷ t) s =
    let rest = last-Below (suc k) ((j, w) ∷ t) s.1 in (omega (arith, rest.0, s.1.0), rest)

last-append :
    (k : ℕ) (v : HistoryTableEntry) (history : Table HistoryTableEntry)
    → last_history_index (history ++ (k, v) ∷ []) ≡ k
unfolding last_history_index Table.last
last-append k v [] = refl
last-append k v (e ∷ []) = refl
last-append k v (e ∷ f ∷ t) = last-append k v (f ∷ t)

pub next_index :
    (history : Table HistoryTableEntry)
    → last_history_index history + 1 < u64_mod
    → allocate_history_index history ≡ suc (last_history_index history)
unfolding allocate_history_index
next_index history h = ground arith

last_counter-mark_dirty :
    (t : DirtyTables) (path : FilePath)
    → last_counter t + 1 < u64_mod
    → last_counter (mark_dirty t path).0 ≡ suc (last_counter t)
unfolding mark_dirty
last_counter-mark_dirty t path h = (unfold last_counter in DirtyLaws.next_counter t h)

-- The history, the dirty tables, and `f`, the paths that a reader of the history knows.
pub record Logged (i : RealIndex) (f : Text → Bool) : Type 0 where
  pub history_sorted : IsSorted 0 i.history
  pub tables_valid : DirtyLaws.IsValid i.tables
  pub replayed : (k : Text) → replay i.history k false ≡ f k

-- There are numbers left for `n` changes.
pub record Room (i : RealIndex) (n : ℕ) : Type 0 where
  pub counters : last_counter i.tables + n < u64_mod
  pub indexes : last_history_index i.history + n < u64_mod

pub Room-mono : (i : RealIndex) (m n : ℕ) → n ≤ m → Room i m → Room i n
Room-mono i m n h r = record {
  counters = omega (arith, r.counters);
  indexes = omega (arith, r.indexes);
}

pub log_change-Logged :
    (i : RealIndex) (path : FilePath) (ev : HistoryTableEntry) (f : Text → Bool) (n : ℕ)
    → Logged i f
    → Room i (suc n)
    → Logged (log_change i path ev) (λ k. after ev k (f k))
      × Room (log_change i path ev) n
      × ((log_change i path ev).history
          ≡ i.history ++ (suc (last_history_index i.history), ev) ∷ [])
unfolding log_change
log_change-Logged i path ev f n v r =
    let next = suc (last_history_index i.history) in
    let number = next_index i.history (omega (arith, r.indexes)) in
    let added = insert_above next ev i.history (last-Below 0 i.history v.history_sorted) in
    let room : last_counter i.tables + 1 < u64_mod = omega (arith, r.counters) in
    let counter = last_counter-mark_dirty i.tables path room in
    rw number (
      (record {
        history_sorted = insert-IsSorted next 0 ev i.history (omega arith) v.history_sorted;
        tables_valid = DirtyLaws.mark_dirty-IsValid i.tables path room v.tables_valid;
        replayed = λ k. rw (added, replay-append i.history next ev k false, v.replayed k) refl;
      }),
      (record {
        counters = omega (arith, counter, r.counters);
        indexes = rw (added, last-append next ev i.history) (omega (arith, r.indexes));
      }),
      added,
    )

pub record IsValid (i : RealIndex) : Type 0 where
  pub files_sorted : Ascending i.files
  pub paths : (k : Text) → has i.files k ≡ true → parse k ≡ some (record { chars = k })
  pub logged : Logged i (has i.files)

-- Other files under the same history.
pub refile-Logged :
    (i : RealIndex) (files : Assoc Text IndexedFileTableEntry) (f g : Text → Bool)
    → Logged i f
    → ((k : Text) → f k ≡ g k)
    → Logged (record i { files = files }) g
refile-Logged i files f g v h = record {
  history_sorted = v.history_sorted;
  tables_valid = v.tables_valid;
  replayed = λ k. v.replayed k ∙ h k;
}

pub relog-Logged :
    (i : RealIndex) (f g : Text → Bool) → Logged i f → ((k : Text) → f k ≡ g k) → Logged i g
relog-Logged i f g v h = refile-Logged i i.files f g v h
