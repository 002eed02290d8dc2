-- ===== src/Tracker/Limit.antt =====
-- The limit on the number of jobs.
use realize.Prelude.{
  ℕ, ◌≤◌, ◌&&◌, ◌≡◌, refl, ◌⊎◌, Option, none, some, List, [], ◌∷◌, arith, length, ltb, inl, inr,
  Bool-cases,
}
use realize.Prelude.Eq.{Assoc, lookup, put, delete, length-put_there}
use realize.Data.{GlobalJobId, GlobalJobId_eq}
use realize.Tracker.{
  is_finished, is_pending, is_running, JobInfo, JobInfoTracker, ChurtenNotification, new, start,
  finish, update_action, update_byte_count, trim_loop, trim, update, update_entry, global_job_id,
}

-- After trimming the limit holds, or only unfinished jobs are left.
abbrev pub WithinLimit : JobInfoTracker → Type 0
WithinLimit t = (length t.jobs ≤ t.limit) ⊎ (t.finished ≡ [])

trim_loop-limit :
    (limit : ℕ) (jobs : Assoc GlobalJobId JobInfo) (finished : List GlobalJobId)
    → (length (trim_loop limit jobs finished).0 ≤ limit) ⊎ ((trim_loop limit jobs finished).1 ≡ [])
unfolding trim_loop
trim_loop-limit limit jobs [] = inr refl
trim_loop-limit limit jobs (key ∷ keys) =
    ground (arith, trim_loop-limit limit (delete key jobs) keys)

trim-WithinLimit : (t : JobInfoTracker) → WithinLimit (trim t)
unfolding trim
trim-WithinLimit t = trim_loop-limit t.limit t.jobs t.finished

WithinLimit-put :
    (t : JobInfoTracker) (id : GlobalJobId) (info old : JobInfo)
    → lookup id t.jobs ≡ some old
    → WithinLimit t
    → WithinLimit (record t { jobs = put id info t.jobs })
WithinLimit-put t id info old e w = ground (arith, length-put_there id info old t.jobs)

entry-WithinLimit :
    (t : JobInfoTracker) (id : GlobalJobId) (o : Option JobInfo) (n : ChurtenNotification)
    → lookup id t.jobs ≡ o
    → WithinLimit t
    → WithinLimit (update_entry t id o n).0
unfolding update_entry
entry-WithinLimit t id none (new arena job_id job) e w = trim-WithinLimit _
entry-WithinLimit t id none (start arena job_id) e w = w
entry-WithinLimit t id none (finish arena job_id progress) e w = w
entry-WithinLimit t id none (update_action arena job_id index action) e w = w
entry-WithinLimit t id none (update_byte_count arena job_id index current total) e w = w
entry-WithinLimit t id (some info) (new arena job_id job) e w = w
entry-WithinLimit t id (some info) (start arena job_id) e w =
    elim (Bool-cases (is_pending info.progress)) [
      | inl h ↦ rw h (WithinLimit-put t id _ info e w)
      | inr h ↦ rw h w
    ]
entry-WithinLimit t id (some info) (finish arena job_id progress) e w =
    elim (Bool-cases (is_finished info.progress)) [
      | inl h ↦ rw h w
      | inr h ↦ rw h (trim-WithinLimit _)
    ]
entry-WithinLimit t id (some info) (update_action arena job_id index action) e w =
    elim (Bool-cases (is_running info.progress && ltb info.notification_index index)) [
      | inl h ↦ rw h (WithinLimit-put t id _ info e w)
      | inr h ↦ rw h w
    ]
entry-WithinLimit t id (some info) (update_byte_count arena job_id index current total) e w =
    elim (Bool-cases (is_running info.progress && ltb info.notification_index index)) [
      | inl h ↦ rw h (WithinLimit-put t id _ info e w)
      | inr h ↦ rw h w
    ]

-- The limit on the number of jobs holds after every notification if it held before it, unless no
-- finished job is left to be removed.
pub update-WithinLimit :
    (t : JobInfoTracker) (n : ChurtenNotification) → WithinLimit t → WithinLimit (update t n).0
unfolding update
update-WithinLimit t n w =
    entry-WithinLimit t (global_job_id n) (lookup (global_job_id n) t.jobs) n refl w
