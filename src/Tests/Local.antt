-- ===== src/Tests/Local.antt =====
-- Runs of crate/realize-storage/src/arena/index.rs on a directory with two files.
use realize.Prelude.{
  ◌≢◌, ◌↔◌, ◌⊎◌, suc, true, false, ◌≡◌, refl, Option, none, some, inr, [], ◌∷◌, ◌++◌, arith, length,
}
use realize.Prelude.Table
use realize.Prelude.Eq.{nat_eq, list_eq, list_beq, lookup}
use realize.Prelude.Order
use realize.Data.{Hash, Hash_eq}
use realize.Dirty.{empty_tables, last_counter, mark_dirty}
use realize.FilePath.{Text, FilePath, parse, split, cons_first, bad_part}
use realize.Storage.{ok}
use realize.Index.{
  IndexedFileTableEntry, HistoryTableEntry, RealIndex, add_file, get_file, log_change,
  last_history_index, allocate_history_index, same_hash, remove_file_or_dir,
}
use realize.Index.Invariant.{IsValid, Room, has}
use realize.Index.Prefix.{AtOrBelow}
use realize.Index.Removal.{dirty_key, remove_file_or_dir_lem}
use realize.Notifications.{Progress}
use realize.Notifier.{subscribe, last_seen_of}
use realize.Notifier.Learning.{learn_all, known}
use realize.Notifier.CatchingUp.{subscribe-learnt}
use realize.Index.Steps.{
  new_index, new_index-IsValid, Step-IsValid, Reached, created, changed, adds, Reached-IsValid,
  add_file_lem, stored_entry,
}

abbrev dir : FilePath
dir = record { chars = b'd' ∷ [] }

-- `d/x`
abbrev inner : FilePath
inner = record { chars = b'd' ∷ b'/' ∷ b'x' ∷ [] }

abbrev one : Hash
one = record { bytes = 1 ∷ [] }

abbrev two : Hash
two = record { bytes = 2 ∷ [] }

abbrev i0 : RealIndex
i0 = new_index "arena"

abbrev i1 : RealIndex
i1 = add_file i0 inner 10 0 one

numbers0 : Room i0 1
unfolding new_index last_counter empty_tables last_history_index Table.last
numbers0 = record { counters = omega arith; indexes = omega arith }

inner-parse : parse inner.chars ≡ some inner
unfolding parse split cons_first bad_part
inner-parse = refl

reached1 : Reached "arena" i1
reached1 = changed i0 i1 created (adds inner 10 0 one inner-parse numbers0)

Reached-IsValid_example : IsValid i1
Reached-IsValid_example = Reached-IsValid "arena" i1 reached1

-- The same state, once more, for the tests that follow.
valid1 : IsValid i1
valid1 = Step-IsValid i0 i1 (adds inner 10 0 one inner-parse numbers0) (new_index-IsValid "arena")

numbers1 : Room i1 1
unfolding new_index last_counter empty_tables last_history_index Table.last add_file lookup
    same_hash log_change mark_dirty allocate_history_index Table.insert
numbers1 = record { counters = omega arith; indexes = omega arith }

numbers_left : Room i1 (length i1.files)
unfolding new_index last_counter empty_tables last_history_index Table.last add_file lookup
    same_hash log_change mark_dirty allocate_history_index Table.insert Order.insert
numbers_left = record { counters = omega arith; indexes = omega arith }

remove_file_or_dir_lem_example :
    (i' : RealIndex) × (remove_file_or_dir i1 dir ≡ ok i')
    × IsValid i'
    × ((k : Text) → AtOrBelow dir.chars k → lookup k i'.files ≡ none)
    × ((k : Text) → ¬ (AtOrBelow dir.chars k) → lookup k i'.files ≡ lookup k i1.files)
    × ((k : Text)
        → (dirty_key i'.tables k ≡ true)
          ↔ ((dirty_key i1.tables k ≡ true) ⊎ (AtOrBelow dir.chars k × (has i1.files k ≡ true))))
remove_file_or_dir_lem_example = remove_file_or_dir_lem i1 dir valid1 numbers_left

add_file_lem_example :
    let i' = add_file i1 inner 11 5 two in
    (get_file i' inner ≡ some (stored_entry 11 5 two))
    × ((q : FilePath) → list_beq inner.chars q.chars ≡ false → get_file i' q ≡ get_file i1 q)
    × ((e : IndexedFileTableEntry)
        → get_file i1 inner ≡ some e
        → e.hash ≡ two
        → (i'.history ≡ i1.history) × (i'.tables ≡ i1.tables))
    × (get_file i1 inner ≡ none
        → (i'.history
            ≡ i1.history ++ (suc (last_history_index i1.history), HistoryTableEntry.add inner) ∷ [])
          × (dirty_key i'.tables inner.chars ≡ true))
    × ((e : IndexedFileTableEntry)
        → get_file i1 inner ≡ some e
        → e.hash ≢ two
        → (i'.history
            ≡ i1.history
              ++ (suc (last_history_index i1.history), HistoryTableEntry.replace inner e.hash) ∷ [])
          × (dirty_key i'.tables inner.chars ≡ true))
add_file_lem_example = add_file_lem i1 inner 11 5 two valid1 numbers1

abbrev elsewhere : Option Progress
elsewhere = some (record { uuid = 6; last_seen = 9 })

unseen1 : last_seen_of 5 elsewhere ≡ 0
unfolding last_seen_of
unseen1 = refl

last1 : last_history_index i1.history ≡ 1
unfolding new_index empty_tables last_history_index Table.last add_file lookup same_hash log_change
    mark_dirty allocate_history_index Table.insert
last1 = refl

-- A subscriber of another store, which knows nothing and is in the middle of a catchup.
subscribe-learnt_example :
    learn_all inner.chars (subscribe i1 5 elsewhere) (record { present = false; marked = true })
    ≡ known (has i1.files inner.chars)
subscribe-learnt_example =
    subscribe-learnt i1 5 elsewhere inner.chars (record { present = false; marked = true }) valid1
      numbers1.indexes (omega (arith, unseen1)) (inr (unseen1, omega (arith, last1)))
