-- ===== src/Tests/Queue.antt =====
-- Runs of crate/realize-storage/src/arena/engine.rs on two paths.
use realize.Prelude.{
  ℕ, ◌+◌, ◌<◌, ◌≤◌, true, ◌&&◌, ◌≡◌, ◌≢◌, refl, Option, none, some, List, [], ◌∷◌, arith, leb, ltb,
  if◌then◌else◌,
}
use realize.Prelude.Table
use realize.Prelude.Table.{Table}
use realize.Prelude.Eq.{nat_eq, list_eq, list_beq, lookup, put}
use realize.ByteRange.{u64_mod}
use realize.Data.{Hash, Job, done, download}
use realize.FilePath.{Text, FilePath, parse, split, cons_first, bad_part}
use realize.Dirty.{
  DirtyTables, FailedJobTableEntry, UnixTime, empty_tables, last_counter, mark_dirty, job_failed,
  job_finished, delete_range, get_dirty, unix_time_max,
}
use realize.Dirty.Invariant.{IsValid, empty-IsValid, mark_dirty-IsValid, job_finished-IsValid}
use realize.Dirty.Marking.{mark_dirty_lem, mark_dirty-job_finished}
use realize.Dirty.Ranges.{without, delete_range_lem}
use realize.Engine.{
  ArenaView, keep, missing, is_verified, same_hash, cached_job, build_job, entry_job, next_job,
  next_backoff,
}
use realize.Engine.Build.{IsFor, build_job_lem}
use realize.Engine.Jobs.{next_job_lem}
use realize.Engine.Rounds.{dirty, build_round, build_round_keeps}
use realize.Engine.Backoff.{after, ending_at, next_backoff_lem}

abbrev a : FilePath
a = record { chars = b'a' ∷ [] }

abbrev b : FilePath
b = record { chars = b'b' ∷ [] }

abbrev h : Hash
h = record { bytes = 7 ∷ [] }

abbrev one_dirty : DirtyTables
one_dirty = (mark_dirty empty_tables a).0

abbrev two_dirty : DirtyTables
two_dirty = (mark_dirty one_dirty b).0

no_counter : last_counter empty_tables + 1 < u64_mod
unfolding last_counter empty_tables
no_counter = omega arith

one_counter : last_counter one_dirty + 1 < u64_mod
unfolding last_counter empty_tables mark_dirty
one_counter = omega arith

one_dirty-IsValid : IsValid one_dirty
one_dirty-IsValid = mark_dirty-IsValid empty_tables a no_counter empty-IsValid

two_dirty-IsValid : IsValid two_dirty
two_dirty-IsValid = mark_dirty-IsValid one_dirty b one_counter one_dirty-IsValid

a_dirty : get_dirty one_dirty a ≡ some 1
unfolding last_counter empty_tables mark_dirty lookup put
a_dirty = refl

a_dirty_too : get_dirty two_dirty a ≡ some 1
unfolding last_counter empty_tables mark_dirty lookup put
a_dirty_too = refl

-- Only `b` is in the cache.
abbrev view : ArenaView
view = record {
  get_mark = λ p. keep;
  cached = λ p. if list_beq p.chars b.chars then some h else none;
  indexed = λ p. none;
  availability = λ p. missing;
}

b_job : build_job view b 2 ≡ some (2, download b h)
unfolding build_job cached_job same_hash is_verified
b_job = refl

-- One retry after three seconds and a half.
abbrev strategy : ℕ → Option ℕ
strategy n = if leb n 1 then some 3500000000 else none

mark_dirty-IsValid_example : IsValid (mark_dirty two_dirty a).0
mark_dirty-IsValid_example =
    mark_dirty-IsValid two_dirty a (unfold last_counter empty_tables mark_dirty in omega arith)
      two_dirty-IsValid

job_finished-IsValid_example : IsValid (job_finished strategy 100 two_dirty 1 none)
job_finished-IsValid_example = job_finished-IsValid strategy 100 two_dirty 1 none two_dirty-IsValid

mark_dirty_lem_example :
    let (t', counter) = mark_dirty one_dirty a in
    (last_counter one_dirty < counter)
    × (get_dirty t' a ≡ some counter)
    × (Table.get counter t'.failed_job ≡ none)
    × ((q : FilePath) → q.chars ≢ a.chars → get_dirty t' q ≡ get_dirty one_dirty q)
mark_dirty_lem_example = mark_dirty_lem one_dirty a one_counter one_dirty-IsValid

mark_dirty-job_finished_example :
    job_finished strategy 100 (mark_dirty one_dirty a).0 1 (some done) ≡ (mark_dirty one_dirty a).0
mark_dirty-job_finished_example =
    mark_dirty-job_finished strategy 100 (some done) one_dirty a 1 one_counter one_dirty-IsValid
      a_dirty

delete_range_lem_example :
    get_dirty (delete_range two_dirty 1 2) a
    ≡ without (λ c. leb 1 c && ltb c 2) (get_dirty two_dirty a)
delete_range_lem_example = delete_range_lem two_dirty 1 2 a two_dirty-IsValid

build_job_lem_example :
    let id : ℕ = 2 in
    (id ≡ 2) × (g : Hash) × (view.cached b ≡ some g) × IsFor keep b g none missing (download b h)
build_job_lem_example = build_job_lem view b 2 (2, download b h) b_job

next_job_lem_example :
    ((job : ℕ × Job)
      → (next_job view two_dirty 1).0 ≡ some job
      → ((next_job view two_dirty 1).1 ≡ some job.0)
        × (1 ≤ job.0)
        × (p : Text) × (Table.get job.0 two_dirty.dirty_log ≡ some p)
        × (entry_job view job.0 p ≡ some job)
        × ((c : ℕ) (q : Text)
            → 1 ≤ c
            → c < job.0
            → Table.get c two_dirty.dirty_log ≡ some q
            → entry_job view c q ≡ none))
    × ((next_job view two_dirty 1).0 ≡ none
        → (c : ℕ) (q : Text) → 1 ≤ c
        → Table.get c two_dirty.dirty_log ≡ some q
        → entry_job view c q ≡ none)
next_job_lem_example = next_job_lem view two_dirty 1 two_dirty-IsValid

next_backoff_lem_example :
    let t = (job_failed strategy 100 two_dirty 1).0 in
    ((at : UnixTime) (counters : List ℕ)
      → next_backoff t (some 50) ≡ some (at, counters)
      → (after (some 50) at ≡ true)
        × (counters ≡ ending_at (some 50) at t.failed_job)
        × ((c : ℕ) × (rest : List ℕ) × (counters ≡ c ∷ rest))
        × ((c : ℕ) (entry : FailedJobTableEntry)
            → Table.get c t.failed_job ≡ some entry
            → after (some 50) entry.backoff_until ≡ true
            → at ≤ entry.backoff_until))
    × (next_backoff t (some 50) ≡ none
        → (c : ℕ) (entry : FailedJobTableEntry) → Table.get c t.failed_job ≡ some entry
        → after (some 50) entry.backoff_until ≡ true
        → unix_time_max ≤ entry.backoff_until)
next_backoff_lem_example = next_backoff_lem (job_failed strategy 100 two_dirty 1).0 (some 50)

build_round_keeps_example :
    IsValid (build_round view two_dirty 1 none dirty).tables
    × (get_dirty (build_round view two_dirty 1 none dirty).tables b ≡ some 2)
build_round_keeps_example =
    build_round_keeps view two_dirty 1 2 none dirty b (2, download b h) two_dirty-IsValid
      (unfold last_counter empty_tables mark_dirty lookup put in refl)
      (unfold entry_job build_job cached_job same_hash is_verified parse split cons_first
          bad_part in
        refl)
