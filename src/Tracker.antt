-- ===== src/Tracker.antt =====
-- `JobInfoTracker` of crate/realize-core/src/consensus/tracker.rs, with the notifications of
-- crate/realize-core/src/consensus/types.rs.
pub mod Invariant
mod Trimming
pub mod Limit
pub mod Repeats
pub mod Updates
pub mod Counts
use Prim.Native.String.{String}
use realize.Prelude.{
  ℕ, Bool, true, false, not, ◌&&◌, Option, none, some, List, [], ◌∷◌, ◌++◌, ◌-◌, length, ltb, ◌==◌,
  if◌then◌else◌,
}
use realize.Prelude.Eq.{Assoc, lookup, put, delete}
use realize.Data.{Arena, Job, GlobalJobId, GlobalJobId_eq}

pub data JobProgress : Type 0 where
  pending running done abandoned cancelled : JobProgress
  failed : String → JobProgress

unfoldable pub is_finished : JobProgress → Bool
is_finished pending = false
is_finished running = false
is_finished done = true
is_finished abandoned = true
is_finished cancelled = true
is_finished (failed e) = true

unfoldable pub is_pending : JobProgress → Bool
is_pending pending = true
is_pending _ = false

unfoldable pub is_running : JobProgress → Bool
is_running running = true
is_running _ = false

pub data JobAction : Type 0 where
  download verify repair move : JobAction

pub data ChurtenNotification : Type 0 where
  new : Arena → ℕ → Job → ChurtenNotification
  start : Arena → ℕ → ChurtenNotification
  finish : Arena → ℕ → JobProgress → ChurtenNotification
  update_action : Arena → ℕ → ℕ → JobAction → ChurtenNotification
  update_byte_count : Arena → ℕ → ℕ → ℕ → ℕ → ChurtenNotification

unfoldable pub arena_of : ChurtenNotification → Arena
arena_of (new arena job_id job) = arena
arena_of (start arena job_id) = arena
arena_of (finish arena job_id progress) = arena
arena_of (update_action arena job_id index action) = arena
arena_of (update_byte_count arena job_id index current total) = arena

unfoldable pub job_id_of : ChurtenNotification → ℕ
job_id_of (new arena job_id job) = job_id
job_id_of (start arena job_id) = job_id
job_id_of (finish arena job_id progress) = job_id
job_id_of (update_action arena job_id index action) = job_id
job_id_of (update_byte_count arena job_id index current total) = job_id

unfoldable pub global_job_id : ChurtenNotification → GlobalJobId
unfolding arena_of job_id_of
global_job_id n = (arena_of n, job_id_of n)

pub record JobInfo : Type 0 where
  pub arena : Arena
  pub id : ℕ
  pub job : Job
  pub progress : JobProgress
  pub action : Option JobAction
  pub byte_progress : Option (ℕ × ℕ)
  pub notification_index : ℕ

pub record JobInfoTracker : Type 0 where
  pub limit : ℕ
  pub jobs : Assoc GlobalJobId JobInfo
  -- from the oldest to the newest
  pub finished : List GlobalJobId

unfoldable pub new_tracker : ℕ → JobInfoTracker
new_tracker limit = record { limit = limit; jobs = []; finished = [] }

unfoldable pub is_empty : JobInfoTracker → Bool
is_empty t = length t.jobs == 0

abbrev pub len : JobInfoTracker → ℕ
len t = length t.jobs

unfoldable pub active_len : JobInfoTracker → ℕ
active_len t = length t.jobs - length t.finished

unfoldable pub get : JobInfoTracker → GlobalJobId → Option JobInfo
get t id = lookup id t.jobs

-- The loop of `trim`: the front of `finished` goes while there are too many jobs.
unfoldable pub trim_loop :
    ℕ → Assoc GlobalJobId JobInfo → List GlobalJobId → Assoc GlobalJobId JobInfo × List GlobalJobId
trim_loop limit jobs [] = (jobs, [])
trim_loop limit jobs (key ∷ keys) =
    let rest = trim_loop limit (delete key jobs) keys in
    if ltb limit (length jobs) then rest else (jobs, key ∷ keys)

unfoldable pub trim : JobInfoTracker → JobInfoTracker
unfolding trim_loop
trim t =
    let (jobs, finished) = trim_loop t.limit t.jobs t.finished in
    record t { jobs = jobs; finished = finished }

-- One round of the loop of `init`.
unfoldable pub init_job : JobInfoTracker → JobInfo → JobInfoTracker
unfolding is_finished
init_job t job =
    let key : GlobalJobId = (job.arena, job.id) in
    record t {
      jobs = put key job t.jobs;
      finished = if is_finished job.progress then t.finished ++ key ∷ [] else t.finished;
    }

unfoldable pub init_loop : JobInfoTracker → List JobInfo → JobInfoTracker
unfolding init_job
init_loop t [] = t
init_loop t (job ∷ rest) = init_loop (init_job t job) rest

unfoldable pub init : JobInfoTracker → List JobInfo → JobInfoTracker
unfolding init_loop trim
init t jobs = trim (init_loop (record t { jobs = []; finished = [] }) jobs)

unfoldable pub fresh : Arena → ℕ → Job → JobInfo
fresh arena id job = record {
  arena = arena;
  id = id;
  job = job;
  progress = pending;
  action = none;
  byte_progress = none;
  notification_index = 0;
}

-- The arms of `update`, on the entry of the job that the notification names.
unfoldable pub update_entry :
    JobInfoTracker → GlobalJobId → Option JobInfo → ChurtenNotification → JobInfoTracker × Bool
unfolding trim is_finished is_pending is_running fresh
update_entry t id none (new arena job_id job) =
    (trim (record t { jobs = put id (fresh arena job_id job) t.jobs }), true)
update_entry t id none n = (t, false)
update_entry t id (some info) (new arena job_id job) = (t, false)
update_entry t id (some info) (start arena job_id) =
    if is_pending info.progress
    then (record t { jobs = put id (record info { progress = running }) t.jobs }, true)
    else (t, false)
update_entry t id (some info) (finish arena job_id progress) =
    if is_finished info.progress then (t, false) else (
      trim (record t {
        jobs = put id (record info { progress = progress; action = none }) t.jobs;
        finished = t.finished ++ id ∷ [];
      }),
      true,
    )
update_entry t id (some info) (update_action arena job_id index action) =
    if is_running info.progress && ltb info.notification_index index
    then (
      record t {
        jobs =
            put id
              (record info {
                notification_index = index;
                action = some action;
                byte_progress = none;
              })
              t.jobs;
      },
      true,
    )
    else (t, false)
update_entry t id (some info) (update_byte_count arena job_id index current total) =
    if is_running info.progress && ltb info.notification_index index
    then (
      record t {
        jobs =
            put id
              (record info { notification_index = index; byte_progress = some (current, total) })
              t.jobs;
      },
      true,
    )
    else (t, false)

-- The new state, and false for a notification that changed nothing.
unfoldable pub update : JobInfoTracker → ChurtenNotification → JobInfoTracker × Bool
unfolding update_entry global_job_id
update t n = update_entry t (global_job_id n) (lookup (global_job_id n) t.jobs) n

-- The values with unfinished progress.
unfoldable pub active_of : Assoc GlobalJobId JobInfo → List JobInfo
unfolding is_finished
active_of [] = []
active_of ((id, info) ∷ rest) =
    if is_finished info.progress then active_of rest else info ∷ active_of rest

unfoldable pub active : JobInfoTracker → List JobInfo
unfolding active_of
active t = active_of t.jobs
