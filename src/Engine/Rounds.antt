-- ===== src/Engine/Rounds.antt =====
-- The loop of `build_jobs`, one round at a time: `Engine::build_jobs` of
-- crate/realize-storage/src/arena/engine.rs with the stream of jobs as a list. Within one round the tables
-- change by the round alone; other transactions stand between rounds.
use realize.Prelude.{
  ℕ, ◌≡◌, refl, Option, none, some, List, [], ◌∷◌, inl, inr, Option-cases, if◌then◌else◌,
}
use realize.Prelude.Eq.{nat_eq}
use realize.Data.{Job}
use realize.FilePath.{FilePath}
use realize.Dirty.{DirtyTables, UnixTime, is_failed, get_dirty}
use realize.Dirty.Invariant.{IsValid}
use realize.Engine.{ArenaView, build_job_with_counter, entry_job, collect, next_backoff}
use realize.Engine.Jobs.{collect-IsValid, collect_keeps}

-- What wakes the loop when there is no job: a new dirty path, or the end of a backoff.
pub data Wake : Type 0 where
  dirty backoff : Wake

-- `start_counter` and `retry_lower_bound`, with the tables and the jobs sent by the round.
pub record Round : Type 0 where
  pub tables : DirtyTables
  pub start_counter : ℕ
  pub retry_lower_bound : Option UnixTime
  pub sent : List (ℕ × Job)

-- The jobs of the counters to retry that can still be built.
unfoldable pub retries : ArenaView → DirtyTables → List ℕ → List (ℕ × Job)
unfolding build_job_with_counter
retries view t [] = []
retries view t (counter ∷ counters) =
    let rest = retries view t counters in
    elim (build_job_with_counter view t counter) [ none ↦ rest | some job ↦ job ∷ rest ]

-- What the loop does when it was woken.
unfoldable pub wait : ArenaView → DirtyTables → ℕ → Option UnixTime → Wake → Round
unfolding next_backoff retries
wait view t start lower dirty = record {
  tables = t;
  start_counter = start;
  retry_lower_bound = lower;
  sent = [];
}
wait view t start lower backoff = elim (next_backoff t lower) [
  | none ↦ record { tables = t; start_counter = start; retry_lower_bound = lower; sent = [] }
  | some (at, counters) ↦ record {
    tables = t;
    start_counter = start;
    retry_lower_bound = some at;
    sent = retries view t counters;
  }
]

-- One round: a job that failed before is left for later.
unfoldable pub build_round : ArenaView → DirtyTables → ℕ → Option UnixTime → Wake → Round
unfolding collect wait is_failed
build_round view t start lower wake =
    let c = collect view t start in
    elim c.job [
      | none ↦ wait view c.tables c.start_counter lower wake
      | some (job_id, job) ↦ record {
        tables = c.tables;
        start_counter = c.start_counter;
        retry_lower_bound = lower;
        sent = if is_failed c.tables job_id then [] else (job_id, job) ∷ [];
      }
    ]

wait-tables :
    (view : ArenaView) (t : DirtyTables) (start : ℕ) (lower : Option UnixTime) (wake : Wake)
    → (wait view t start lower wake).tables ≡ t
unfolding wait
wait-tables view t start lower dirty = refl
wait-tables view t start lower backoff = elim (Option-cases (next_backoff t lower)) [
  | inl e ↦ rw (wait, e) refl
  | inr (b, e) ↦ rw (wait, e) refl
]

-- The tables after a round are those that collecting leaves.
round-tables :
    (view : ArenaView) (t : DirtyTables) (start : ℕ) (lower : Option UnixTime) (wake : Wake)
    → (build_round view t start lower wake).tables ≡ (collect view t start).tables
unfolding build_round
round-tables view t start lower wake = elim (Option-cases (collect view t start).job) [
  | inl e ↦
      rw (build_round, e)
        (wait-tables view (collect view t start).tables (collect view t start).start_counter lower
          wake)
  | inr (job, e) ↦ rw (build_round, e) refl
]

-- A round keeps the invariant of the tables, and every path with a job stays dirty with its counter,
-- whether or not the job was sent.
pub build_round_keeps :
    (view : ArenaView) (t : DirtyTables) (start c : ℕ) (lower : Option UnixTime) (wake : Wake)
    (path : FilePath) (job : ℕ × Job)
    → IsValid t
    → get_dirty t path ≡ some c
    → entry_job view c path.chars ≡ some job
    → IsValid (build_round view t start lower wake).tables
      × (get_dirty (build_round view t start lower wake).tables path ≡ some c)
build_round_keeps view t start c lower wake path job v e h =
    rw (round-tables view t start lower wake)
      (collect-IsValid view t start v, collect_keeps view t start c path job v e h)
