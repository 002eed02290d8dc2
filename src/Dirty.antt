-- ===== src/Dirty.antt =====
-- The dirty path tables of an arena, crate/realize-storage/src/arena/engine.rs: which paths are dirty,
-- in which order they became so, and which of their jobs failed. One function for each transaction;
-- a table is read as one snapshot and written as a whole, as a committed transaction is.
pub mod Invariant
pub mod Marking
pub mod Ranges
pub mod Taking
use realize.Prelude.{
  ℕ, zero, suc, ◌+◌, ◌-◌, ◌*◌, ◌/◌, ◌%◌, ◌^◌, min, Bool, true, false, Option, none, some, List, [],
  ◌∷◌, leb, if◌then◌else◌,
}
use realize.Prelude.Table
use realize.Prelude.Table.{Table}
use realize.Prelude.Eq.{Eq, nat_eq, list_eq, Assoc, lookup, put, delete}
use realize.ByteRange.{add64}
use realize.Data.{JobStatus, done, abandoned}
use realize.FilePath.{Text, FilePath, parse}
use mathlib.Core.Option as OptionLib

-- A time since the epoch, in nanoseconds.
abbrev pub UnixTime : Type 0
UnixTime = ℕ

abbrev pub nanos : ℕ
nanos = 10 ^ 9

-- `Duration::MAX`: 2^64 - 1 seconds and all the nanoseconds that fit.
abbrev pub unix_time_max : UnixTime
unix_time_max = 2 ^ 64 * nanos - 1

pub record FailedJobTableEntry : Type 0 where
  pub failure_count : ℕ
  pub backoff_until : UnixTime

pub record DirtyTables : Type 0 where
  -- `dirty_table`, from a path to its counter
  pub dirty : Assoc Text ℕ
  -- `dirty_log_table`, from a counter to its path
  pub dirty_log : Table Text
  -- `dirty_counter_table`
  pub dirty_counter : Option ℕ
  -- `failed_job_table`, from a counter to its failures
  pub failed_job : Table FailedJobTableEntry

unfoldable pub empty_tables : DirtyTables
empty_tables = record { dirty = []; dirty_log = []; dirty_counter = none; failed_job = [] }

unfoldable pub last_counter : DirtyTables → ℕ
last_counter t = elim t.dirty_counter [ none ↦ 0 | some v ↦ v ]

-- `backoff_until` is stored in whole seconds.
unfoldable pub stored_time : UnixTime → UnixTime
stored_time t = t / nanos * nanos

-- The new tables, and the counter that is sent to the watchers.
unfoldable pub mark_dirty : DirtyTables → FilePath → DirtyTables × ℕ
unfolding last_counter
mark_dirty t path =
    let counter = add64 (last_counter t) 1 in
    let log = Table.insert counter path.chars t.dirty_log in
    let prev = lookup path.chars t.dirty in
    (
      record {
        dirty = put path.chars counter t.dirty;
        dirty_log = elim prev [ none ↦ log | some c ↦ Table.remove c log ];
        dirty_counter = some counter;
        failed_job = elim prev [ none ↦ t.failed_job | some c ↦ Table.remove c t.failed_job ];
      },
      counter,
    )

-- The three removals of `job_done`, of a job without retries and of one round of `delete_range`,
-- where the log has the counter with the path `path`.
unfoldable pub forget : DirtyTables → ℕ → Text → DirtyTables
forget t counter path = record t {
  dirty = delete path t.dirty;
  dirty_log = Table.remove counter t.dirty_log;
  failed_job = Table.remove counter t.failed_job;
}

unfoldable pub job_done : DirtyTables → ℕ → DirtyTables
unfolding forget
job_done t job_id = elim (Table.get job_id t.dirty_log) [
  | none ↦ t
  | some removed ↦ forget t job_id removed
]

-- The failure count of a failing job, a `u32`.
unfoldable pub next_failure : DirtyTables → ℕ → ℕ
next_failure t counter = elim (Table.get counter t.failed_job) [
  | none ↦ 1
  | some existing ↦ (existing.failure_count + 1) % 2 ^ 32
]

-- `strategy` is `job_retry_strategy`, and `now` the clock. The result is the time of the next try.
unfoldable pub job_failed :
    (ℕ → Option ℕ) → UnixTime → DirtyTables → ℕ → DirtyTables × Option UnixTime
unfolding forget next_failure stored_time
job_failed strategy now t job_id = elim (Table.get job_id t.dirty_log) [
  | none ↦ (t, none)
  | some path ↦ elim (strategy (next_failure t job_id)) [
    | none ↦ (forget t job_id path, none)
    | some delay ↦ (
      record t {
        failed_job =
            Table.insert job_id
              (record {
                failure_count = next_failure t job_id;
                backoff_until = stored_time (now + delay);
              })
              t.failed_job;
      },
      some (now + delay),
    )
  ]
]

-- The status of a job is `none` if processing it returned an error.
unfoldable pub job_finished :
    (ℕ → Option ℕ) → UnixTime → DirtyTables → ℕ → Option JobStatus → DirtyTables
unfolding job_done job_failed
job_finished strategy now t job_id (some done) = job_done t job_id
job_finished strategy now t job_id (some abandoned) = job_done t job_id
job_finished strategy now t job_id none = (job_failed strategy now t job_id).0

-- One round of the loop of `delete_range`.
unfoldable pub delete_counter : DirtyTables → ℕ → DirtyTables
unfolding forget
delete_counter t counter = elim (Table.get counter t.dirty_log) [
  | none ↦ record t { failed_job = Table.remove counter t.failed_job }
  | some prev ↦ forget t counter prev
]

-- `n` rounds from the counter `beg`.
unfoldable pub delete_loop : ℕ → ℕ → DirtyTables → DirtyTables
unfolding delete_counter
delete_loop zero beg t = t
delete_loop (suc n) beg t = delete_loop n (suc beg) (delete_counter t beg)

unfoldable pub delete_range : DirtyTables → ℕ → ℕ → DirtyTables
unfolding delete_loop
delete_range t beg end = delete_loop (end - beg) beg t

unfoldable pub clear_dirty : DirtyTables → FilePath → DirtyTables
unfolding forget
clear_dirty t path = elim (lookup path.chars t.dirty) [
  | none ↦ t
  | some counter ↦ forget t counter path.chars
]

abbrev pub get_dirty : DirtyTables → FilePath → Option ℕ
get_dirty t path = lookup path.chars t.dirty

unfoldable pub is_dirty : DirtyTables → FilePath → Bool
is_dirty t path = elim (lookup path.chars t.dirty) [ none ↦ false | some c ↦ true ]

unfoldable pub is_failed : DirtyTables → ℕ → Bool
is_failed t job_id = elim (Table.get job_id t.failed_job) [ none ↦ false | some e ↦ true ]

-- The loop of `take_dirty` on the log and the dirty table.
unfoldable pub take_loop :
    Table Text → Assoc Text ℕ → (Table Text × Assoc Text ℕ) × Option (FilePath × ℕ)
take_loop [] dirty = (([], dirty), none)
take_loop ((counter, text) ∷ log) dirty =
    let rest = take_loop log (delete text dirty) in
    elim (parse text) [ some path ↦ ((log, delete text dirty), some (path, counter)) | none ↦ rest ]

unfoldable pub take_dirty : DirtyTables → DirtyTables × Option (FilePath × ℕ)
unfolding take_loop
take_dirty t =
    let ((log, dirty), taken) = take_loop t.dirty_log t.dirty in
    (record t { dirty = dirty; dirty_log = log }, taken)

abbrev pub current_path_counter : DirtyTables → FilePath → Option ℕ
current_path_counter t path = lookup path.chars t.dirty

-- The loop of `next_retry`; `best` is `ret`.
unfoldable pub next_retry_loop :
    Table FailedJobTableEntry → Option (UnixTime × ℕ) → Option (UnixTime × ℕ)
next_retry_loop [] best = best
next_retry_loop ((counter, entry) ∷ failed) best =
    let later = next_retry_loop failed best in
    let sooner = next_retry_loop failed (some (entry.backoff_until, counter)) in
    if elim best [ none ↦ false | some (at, c) ↦ leb at entry.backoff_until ] then later else sooner

unfoldable pub next_retry : DirtyTables → Option (UnixTime × ℕ)
unfolding next_retry_loop
next_retry t = next_retry_loop t.failed_job none
