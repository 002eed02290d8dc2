-- ===== src/Engine.antt =====
-- The jobs of `Engine`, crate/realize-storage/src/arena/engine.rs, built from the dirty path tables.
pub mod Jobs
pub mod Build
pub mod Backoff
pub mod Rounds
use mathlib.Core.Option as OptionLib
use realize.Prelude.{
  ℕ, suc, Bool, true, false, not, Option, none, some, List, [], ◌∷◌, ◌++◌, ltb, leb, if◌then◌else◌,
}
use realize.Prelude.Table
use realize.Prelude.Table.{Table}
use realize.Prelude.Eq.{nat_eq, list_eq, lookup}
use realize.ByteRanges.{ByteRanges}
use realize.Data.{Hash, Hash_eq, Job, download, realize_file, unrealize}
use realize.FilePath.{Text, FilePath, parse}
use realize.Dirty.{DirtyTables, FailedJobTableEntry, UnixTime, unix_time_max, delete_range}

pub data Mark : Type 0 where
  watch keep own : Mark

pub data LocalAvailability : Type 0 where
  missing complete verified : LocalAvailability
  partial : ℕ → ByteRanges → LocalAvailability

unfoldable pub is_verified : LocalAvailability → Bool
is_verified verified = true
is_verified _ = false

-- The fields of `IndexedFileTableEntry` that the engine reads.
pub record IndexedFile : Type 0 where
  pub hash : Hash
  pub outdated_by : Option Hash

-- What the other tables of the arena say in one read transaction: `mark::get_mark`, the hash in
-- `arena_cache::get_file_entry_for_path` (`none` for an error, such as a missing file),
-- `index::get_file_entry` (`none` for an error too) and `blob::local_availability`.
pub record ArenaView : Type 0 where
  pub get_mark : FilePath → Mark
  pub cached : FilePath → Option Hash
  pub indexed : FilePath → Option IndexedFile
  pub availability : FilePath → LocalAvailability

unfoldable pub same_hash : Hash → Option IndexedFile → Bool
same_hash h none = false
same_hash h (some file) = Hash_eq.beq h file.hash

unfoldable pub outdated_by : Hash → IndexedFile → Bool
outdated_by h file = elim file.outdated_by [ none ↦ false | some g ↦ Hash_eq.beq g h ]

-- The three arms of `build_job`, for a cached file with the hash `h`.
unfoldable pub cached_job :
    Mark → FilePath → Hash → Option IndexedFile → LocalAvailability → Option Job
unfolding same_hash outdated_by is_verified
cached_job watch path h indexed av = if same_hash h indexed then some (unrealize path h) else none
cached_job keep path h indexed av =
    if same_hash h indexed
    then some (unrealize path h)
    else if not (is_verified av)
    then some (download path h)
    else none
cached_job own path h none av = some (realize_file path h none)
cached_job own path h (some file) av =
    if outdated_by h file then some (realize_file path h (some file.hash)) else none

unfoldable pub build_job : ArenaView → FilePath → ℕ → Option (ℕ × Job)
unfolding cached_job
build_job view path counter = elim (view.cached path) [
  | none ↦ none
  | some h ↦
      OptionLib.map (λ job. (counter, job))
        (cached_job (view.get_mark path) path h (view.indexed path) (view.availability path))
]

unfoldable pub build_job_with_counter : ArenaView → DirtyTables → ℕ → Option (ℕ × Job)
unfolding build_job
build_job_with_counter view t counter = elim (Table.get counter t.dirty_log) [
  | none ↦ none
  | some text ↦ elim (parse text) [ none ↦ none | some path ↦ build_job view path counter ]
]

unfoldable pub job_for_path : ArenaView → DirtyTables → FilePath → Option (ℕ × Job)
unfolding build_job
job_for_path view t path = elim (lookup path.chars t.dirty) [
  | none ↦ none
  | some counter ↦ build_job view path counter
]

-- The body of the loop of `next_job`: a path that does not parse is skipped.
unfoldable pub entry_job : ArenaView → ℕ → Text → Option (ℕ × Job)
unfolding build_job
entry_job view counter text = elim (parse text) [
  | none ↦ none
  | some path ↦ build_job view path counter
]

-- The loop of `next_job`; `last` is `last_counter`.
unfoldable pub next_loop : ArenaView → Table Text → Option ℕ → Option (ℕ × Job) × Option ℕ
unfolding entry_job
next_loop view [] last = (none, last)
next_loop view ((counter, text) ∷ log) last =
    let rest = next_loop view log (some counter) in
    elim (entry_job view counter text) [ none ↦ rest | some job ↦ (some job, some counter) ]

unfoldable pub next_job : ArenaView → DirtyTables → ℕ → Option (ℕ × Job) × Option ℕ
unfolding next_loop
next_job view t start_counter = next_loop view (Table.range_from start_counter t.dirty_log) none

-- The first part of a round of `build_jobs`: the job, the tables without the uninteresting entries
-- before it, and the counter to start from in the next round.
pub record Collected : Type 0 where
  pub job : Option (ℕ × Job)
  pub tables : DirtyTables
  pub start_counter : ℕ

unfoldable pub collect : ArenaView → DirtyTables → ℕ → Collected
unfolding next_job
collect view t start_counter =
    let (job, last_counter) = next_job view t start_counter in
    elim last_counter [
      | none ↦ record { job = job; tables = t; start_counter = start_counter }
      | some last ↦ record {
        job = job;
        tables = if ltb start_counter last then delete_range t start_counter last else t;
        start_counter = suc last;
      }
    ]

-- The loop over the failed jobs of `wait_until_next_backoff`, from the state of `earliest_backoff`
-- and `counters`.
unfoldable pub backoff_loop :
    Option UnixTime → Table FailedJobTableEntry → UnixTime → List ℕ → UnixTime × List ℕ
backoff_loop lower [] earliest counters = (earliest, counters)
backoff_loop lower ((counter, entry) ∷ failed) earliest counters =
    let at = entry.backoff_until in
    let skipped = backoff_loop lower failed earliest counters in
    let earlier = backoff_loop lower failed at (counter ∷ []) in
    let same = backoff_loop lower failed earliest (counters ++ counter ∷ []) in
    if elim lower [ none ↦ false | some bound ↦ leb at bound ]
    then skipped
    else if ltb earliest at
    then skipped
    else if ltb at earliest
    then earlier
    else same

-- What `wait_until_next_backoff` waits for.
unfoldable pub next_backoff : DirtyTables → Option UnixTime → Option (UnixTime × List ℕ)
unfolding backoff_loop
next_backoff t lower =
    let (earliest, counters) = backoff_loop lower t.failed_job unix_time_max [] in
    if ltb earliest unix_time_max then some (earliest, counters) else none
