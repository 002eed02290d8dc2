-- ===== src/Tracker/Updates.antt =====
-- What one notification does to the jobs: a refused one changes nothing, and active jobs stay.
use realize.Prelude.{
  false, ◌&&◌, ◌≡◌, refl, ap, ◌∙◌, Option, none, some, [], ◌∷◌, ◌++◌, arith, ltb, inl, inr,
  Bool-cases,
}
use realize.Prelude.Eq.{lookup, put, lookup-put, put-Unique, elem-snoc}
use realize.Data.{GlobalJobId, GlobalJobId_eq}
use realize.Tracker.{
  is_running, running, JobInfo, JobInfoTracker, ChurtenNotification, new, start, finish,
  update_action, update_byte_count, trim, update, update_entry, global_job_id,
}
use realize.Tracker.Invariant.{has_finished, finished_at, IsValid}
use realize.Tracker.Trimming.{lookup-trim}

pub entry_refused :
    (t : JobInfoTracker) (id : GlobalJobId) (o : Option JobInfo) (n : ChurtenNotification)
    → (update_entry t id o n).1 ≡ false
    → (update_entry t id o n).0 ≡ t
unfolding update_entry
entry_refused t id none (new arena job_id job) h = cc
entry_refused t id none n h = refl
entry_refused t id (some info) (new arena job_id job) h = refl
entry_refused t id (some info) n h = ground arith

-- A notification that is refused changes nothing.
pub update_refused :
    (t : JobInfoTracker) (n : ChurtenNotification) → (update t n).1 ≡ false → (update t n).0 ≡ t
unfolding update
update_refused t n h = entry_refused t (global_job_id n) (lookup (global_job_id n) t.jobs) n h

module _ (t : JobInfoTracker) (key id : GlobalJobId) (info : JobInfo) (v : IsValid t)
    (d : GlobalJobId_eq.beq key id ≡ false) (e : lookup id t.jobs ≡ some info)
    (h : has_finished info ≡ false) where
  put_other : (new_info : JobInfo) → lookup id (put key new_info t.jobs) ≡ some info
  put_other new_info = ground (arith, lookup-put key id new_info t.jobs)

  trim_other :
      (new_info : JobInfo)
      → lookup id (trim (record t { jobs = put key new_info t.jobs })).jobs ≡ some info
  trim_other new_info =
      lookup-trim (record t { jobs = put key new_info t.jobs }) id
        (put-Unique key new_info t.jobs v.tracks.keys_once)
        (v.tracks.queued id ∙ ap finished_at e ∙ h)
      ∙ put_other new_info

  trim_queued :
      (new_info : JobInfo)
      → lookup id
          (trim
            (record t { jobs = put key new_info t.jobs; finished = t.finished ++ key ∷ [] })).jobs
        ≡ some info
  trim_queued new_info =
      lookup-trim (record t { jobs = put key new_info t.jobs; finished = t.finished ++ key ∷ [] })
        id (put-Unique key new_info t.jobs v.tracks.keys_once)
        (elem-snoc id key t.finished ∙ ground (arith, v.tracks.queued id))
      ∙ put_other new_info

  entry_others :
      (o : Option JobInfo) (n : ChurtenNotification)
      → lookup id (update_entry t key o n).0.jobs ≡ some info
  unfolding update_entry
  entry_others none (new arena job_id job) = trim_other _
  entry_others none (start arena job_id) = e
  entry_others none (finish arena job_id progress) = e
  entry_others none (update_action arena job_id index action) = e
  entry_others none (update_byte_count arena job_id index current total) = e
  entry_others (some old) (new arena job_id job) = e
  entry_others (some old) (start arena job_id) =
      ground (arith, put_other (record old { progress = running }))
  entry_others (some old) (finish arena job_id progress) =
      ground (arith, trim_queued (record old { progress = progress; action = none }))
  entry_others (some old) (update_action arena job_id index action) =
      elim (Bool-cases (is_running old.progress && ltb old.notification_index index)) [
        | inl a ↦ rw a (put_other _)
        | inr a ↦ rw a e
      ]
  entry_others (some old) (update_byte_count arena job_id index current total) =
      elim (Bool-cases (is_running old.progress && ltb old.notification_index index)) [
        | inl a ↦ rw a (put_other _)
        | inr a ↦ rw a e
      ]

-- A job that is not finished and that the notification does not name stays as it is: only finished
-- jobs are ever removed.
pub update_others :
    (t : JobInfoTracker) (n : ChurtenNotification) (id : GlobalJobId) (info : JobInfo)
    → IsValid t
    → GlobalJobId_eq.beq (global_job_id n) id ≡ false
    → lookup id t.jobs ≡ some info
    → has_finished info ≡ false
    → lookup id (update t n).0.jobs ≡ some info
unfolding update
update_others t n id info v d e h =
    entry_others t (global_job_id n) id info v d e h (lookup (global_job_id n) t.jobs) n
