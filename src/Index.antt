-- ===== src/Index.antt =====
-- `RealIndexBlocking` of crate/realize-storage/src/arena/index.rs: the files of the local store with
-- their hashes, and the history of their changes.
pub mod Invariant
pub mod Changes
pub mod Prefix
pub mod Removal
pub mod Steps
use mathlib.Core.Option as OptionLib
use realize.Prelude.{
  ℕ, Bool, true, false, not, ◌&&◌, ◌||◌, Option, none, some, List, [], ◌∷◌, ◌++◌, ◌==◌,
  if◌then◌else◌,
}
use realize.Prelude.Table
use realize.Prelude.Table.{Table}
use realize.Prelude.Eq.{nat_eq, list_eq, string_eq, Assoc, lookup, delete}
use realize.Prelude.Order
use realize.Prelude.Order.{text_order, text_lt}
use realize.ByteRange.{add64}
use realize.Data.{Arena, Hash, Hash_eq}
use realize.Dirty.{DirtyTables, UnixTime, mark_dirty}
use realize.FilePath.{Text, FilePath, parse, strip_prefix, at_boundary}
use realize.Notifications.{Notification}
use realize.Storage.{Result, ok, err, byte_conversion}

pub record IndexedFileTableEntry : Type 0 where
  pub hash : Hash
  pub mtime : UnixTime
  pub size : ℕ
  pub outdated_by : Option Hash

pub data HistoryTableEntry : Type 0 where
  add : FilePath → HistoryTableEntry
  replace remove drop : FilePath → Hash → HistoryTableEntry

pub record RealIndex : Type 0 where
  pub arena : Arena
  -- `index_file_table`
  pub files : Assoc Text IndexedFileTableEntry
  -- `index_history_table`
  pub history : Table HistoryTableEntry
  pub tables : DirtyTables

unfoldable pub last_history_index : Table HistoryTableEntry → ℕ
last_history_index history = elim (Table.last history) [ none ↦ 0 | some (k, v) ↦ k ]

unfoldable pub allocate_history_index : Table HistoryTableEntry → ℕ
unfolding last_history_index
allocate_history_index history = add64 (last_history_index history) 1

unfoldable pub get_file : RealIndex → FilePath → Option IndexedFileTableEntry
get_file i path = lookup path.chars i.files

unfoldable pub has_file : RealIndex → FilePath → Bool
unfolding get_file
has_file i path = elim (get_file i path) [ none ↦ false | some e ↦ true ]

unfoldable pub has_matching_file : RealIndex → FilePath → ℕ → UnixTime → Bool
unfolding get_file
has_matching_file i path size mtime = elim (get_file i path) [
  | none ↦ false
  | some e ↦ e.size == size && e.mtime == mtime
]

-- The path is marked dirty, and an entry is added to the history at the next index.
unfoldable pub log_change : RealIndex → FilePath → HistoryTableEntry → RealIndex
unfolding allocate_history_index
log_change i path ev = record i {
  history = Table.insert (allocate_history_index i.history) ev i.history;
  tables = (mark_dirty i.tables path).0;
}

unfoldable pub same_hash : Option Hash → Hash → Bool
same_hash none h = false
same_hash (some g) h = Hash_eq.beq g h

unfoldable pub change_of : FilePath → Option Hash → HistoryTableEntry
change_of path none = HistoryTableEntry.add path
change_of path (some old_hash) = HistoryTableEntry.replace path old_hash

unfoldable pub add_file : RealIndex → FilePath → ℕ → UnixTime → Hash → RealIndex
unfolding log_change same_hash change_of
add_file i path size mtime hash =
    let old_hash =
      OptionLib.map (λ (e : IndexedFileTableEntry). e.hash) (lookup path.chars i.files) in
    let entry : IndexedFileTableEntry = record {
      hash = hash;
      mtime = mtime;
      size = size;
      outdated_by = none;
    } in
    let stored = record i { files = Order.insert path.chars entry i.files } in
    if not (same_hash old_hash hash)
    then log_change stored path (change_of path old_hash)
    else stored

-- Entries whose key is no path are left out.
unfoldable pub all_files :
    Assoc Text IndexedFileTableEntry → List (FilePath × IndexedFileTableEntry)
all_files [] = []
all_files ((k, e) ∷ files) =
    let rest = all_files files in elim (parse k) [ none ↦ rest | some path ↦ (path, e) ∷ rest ]

-- `PathPrefix::range`: from the path up to the path with `0`, the character after the slash.
abbrev pub zero_char : ℕ
zero_char = b'0'

unfoldable pub in_range : Text → Text → Bool
in_range prefix key = not (text_lt key prefix) && text_lt key (prefix ++ zero_char ∷ [])

-- `PathPrefix::accept`
unfoldable pub accept : Text → Text → Bool
accept prefix key = elim (strip_prefix prefix key) [ none ↦ false | some rest ↦ at_boundary rest ]

unfoldable pub selected : Text → Text → Bool
unfolding in_range accept
selected prefix key = in_range prefix key && accept prefix key

-- `extract_from_if`: the entries that are taken out, and those that stay.
unfoldable pub extracted :
    Text → Assoc Text IndexedFileTableEntry → Assoc Text IndexedFileTableEntry
unfolding selected
extracted prefix [] = []
extracted prefix ((k, e) ∷ files) =
    let rest = extracted prefix files in if selected prefix k then (k, e) ∷ rest else rest

unfoldable pub retained : Text → Assoc Text IndexedFileTableEntry → Assoc Text IndexedFileTableEntry
unfolding selected
retained prefix [] = []
retained prefix ((k, e) ∷ files) =
    let rest = retained prefix files in if selected prefix k then rest else (k, e) ∷ rest

-- The loop of `remove_file_or_dir` on the entries that were taken out.
unfoldable pub remove_loop : Assoc Text IndexedFileTableEntry → RealIndex → Result RealIndex
unfolding log_change
remove_loop [] i = ok i
remove_loop ((k, e) ∷ entries) i = elim (parse k) [
  | none ↦ err byte_conversion
  | some path ↦ remove_loop entries (log_change i path (HistoryTableEntry.remove path e.hash))
]

unfoldable pub remove_file_or_dir : RealIndex → FilePath → Result RealIndex
unfolding extracted retained remove_loop
remove_file_or_dir i path =
    remove_loop (extracted path.chars i.files) (record i { files = retained path.chars i.files })

-- What `std::fs::metadata` gives: the modification time and the length, or nothing for an error.
abbrev pub Metadata : Type 0
Metadata = Option (UnixTime × ℕ)

unfoldable pub file_matches_index : IndexedFileTableEntry → Metadata → Bool
file_matches_index e none = false
file_matches_index e (some (mtime, len)) = mtime == e.mtime && len == e.size

unfoldable pub drop_file_if_matches : RealIndex → FilePath → Hash → Metadata → RealIndex × Bool
unfolding log_change file_matches_index
drop_file_if_matches i path hash file = elim (lookup path.chars i.files) [
  | none ↦ (i, false)
  | some e ↦
      if Hash_eq.beq e.hash hash && file_matches_index e file
      then (
        log_change (record i { files = delete path.chars i.files }) path
            (HistoryTableEntry.drop path hash),
        true,
      )
      else (i, false)
]

-- Whether replacing `old_hash` replaces the entry.
unfoldable pub replaces : IndexedFileTableEntry → Hash → Bool
unfolding same_hash
replaces e old_hash = Hash_eq.beq e.hash old_hash || same_hash e.outdated_by old_hash

-- The index, and the path of the local file that is removed, if one is. `file` gives the metadata of
-- the local file of a path.
unfoldable pub update :
    (FilePath → Metadata) → RealIndex → Notification → RealIndex × Option FilePath
unfolding replaces file_matches_index
update file i (Notification.replace a n path t s hash old_hash) =
    if not (string_eq.beq a i.arena) then (i, none) else elim (lookup path.chars i.files) [
      | none ↦ (i, none)
      | some e ↦
          if replaces e old_hash
          then (
            record i {
              files = Order.insert path.chars (record e { outdated_by = some hash }) i.files;
            },
            none,
          )
          else (i, none)
    ]
update file i (Notification.remove a n path old_hash) =
    if not (string_eq.beq a i.arena) then (i, none) else elim (lookup path.chars i.files) [
      | none ↦ (i, none)
      | some e ↦
          if replaces e old_hash && file_matches_index e (file path)
          then (i, some path)
          else (i, none)
    ]
update file i _ = (i, none)

-- `exists` is whether there is a local file; the result is whether its path is returned.
unfoldable pub get_indexed_file : RealIndex → FilePath → Option Hash → Metadata → Bool → Bool
unfolding file_matches_index
get_indexed_file i path (some hash) file exists = elim (lookup path.chars i.files) [
  | none ↦ false
  | some e ↦ Hash_eq.beq e.hash hash && file_matches_index e file
]
get_indexed_file i path none file exists = elim (lookup path.chars i.files) [
  | none ↦ not exists
  | some e ↦ false
]

-- The keys of the file table, in order, that are paths.
unfoldable pub mark_loop : Assoc Text IndexedFileTableEntry → DirtyTables → DirtyTables
mark_loop [] t = t
mark_loop ((k, e) ∷ files) t =
    let skipped = mark_loop files t in
    elim (parse k) [ none ↦ skipped | some path ↦ mark_loop files (mark_dirty t path).0 ]

unfoldable pub mark_dirty_recursive : RealIndex → FilePath → RealIndex
unfolding extracted mark_loop
mark_dirty_recursive i path = record i {
  tables = mark_loop (extracted path.chars i.files) i.tables;
}

unfoldable pub make_all_dirty : RealIndex → RealIndex
unfolding mark_loop
make_all_dirty i = record i { tables = mark_loop i.files i.tables }
