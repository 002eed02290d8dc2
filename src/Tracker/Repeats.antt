-- ===== src/Tracker/Repeats.antt =====
-- The same notification twice.
use realize.Prelude.{
  ℕ, Bool, true, false, not, ◌&&◌, ◌≡◌, refl, ap, ◌∙◌, Option, none, some, [], ◌∷◌, ◌++◌, arith,
  ltb, inl, inr, Bool-cases, not-true,
}
use realize.Prelude.Eq.{lookup, put, put-Unique}
use realize.Data.{Arena, GlobalJobId, GlobalJobId_eq}
use realize.Tracker.{
  JobProgress, is_finished, is_pending, is_running, running, fresh, JobInfo, JobInfoTracker,
  ChurtenNotification, new, start, finish, update_action, update_byte_count, trim, update,
  update_entry, global_job_id,
}
use realize.Tracker.Invariant.{has_finished, finished_at, IsValid, IsProper}
use realize.Tracker.Trimming.{lookup-put_self, lookup-trim, lookup-trim_cases}
use realize.Tracker.Updates.{entry_refused}

-- Whether an entry takes a notification: the flag that `update_entry` returns.
accepts : Option JobInfo → ChurtenNotification → Bool
accepts none (new arena job_id job) = true
accepts none n = false
accepts (some info) (new arena job_id job) = false
accepts (some info) (start arena job_id) = is_pending info.progress
accepts (some info) (finish arena job_id progress) = not (is_finished info.progress)
accepts (some info) (update_action arena job_id index action) =
    is_running info.progress && ltb info.notification_index index
accepts (some info) (update_byte_count arena job_id index current total) =
    is_running info.progress && ltb info.notification_index index

accepts_lem :
    (t : JobInfoTracker) (id : GlobalJobId) (o : Option JobInfo) (n : ChurtenNotification)
    → (update_entry t id o n).1 ≡ accepts o n
unfolding update_entry accepts
accepts_lem t id none (new arena job_id job) = refl
accepts_lem t id none n = refl
accepts_lem t id (some info) (new arena job_id job) = refl
accepts_lem t id (some info) n = ground arith

is_pending-running : is_pending running ≡ false
unfolding is_pending
is_pending-running = refl

-- The entry after an accepted notification refuses it.
after_new :
    (t : JobInfoTracker) (id : GlobalJobId) (info : JobInfo)
    → lookup id t.jobs ≡ none
    → IsValid t
    → lookup id (trim (record t { jobs = put id info t.jobs })).jobs ≡ some info
after_new t id info e v =
    lookup-trim (record t { jobs = put id info t.jobs }) id
      (put-Unique id info t.jobs v.tracks.keys_once) (v.tracks.queued id ∙ ap finished_at e)
    ∙ lookup-put_self id info t.jobs

after_finish :
    (t : JobInfoTracker) (id : GlobalJobId) (info : JobInfo) (arena : Arena) (job_id : ℕ)
    (progress : JobProgress)
    → has_finished info ≡ true
    → IsValid t
    → let t' = record t { jobs = put id info t.jobs; finished = t.finished ++ id ∷ [] } in
      accepts (lookup id (trim t').jobs) (finish arena job_id progress) ≡ false
unfolding accepts
after_finish t id info arena job_id progress h v =
    let t' : JobInfoTracker = record t {
      jobs = put id info t.jobs;
      finished = t.finished ++ id ∷ [];
    } in
    let cases = lookup-trim_cases t' id (put-Unique id info t.jobs v.tracks.keys_once) in
    ground (arith, cases, lookup-put_self id info t.jobs, h)

again :
    (t : JobInfoTracker) (id : GlobalJobId) (o : Option JobInfo) (n : ChurtenNotification)
    → lookup id t.jobs ≡ o
    → IsProper n
    → IsValid t
    → accepts o n ≡ true
    → accepts (lookup id (update_entry t id o n).0.jobs) n ≡ false
unfolding update_entry accepts
again t id none (new arena job_id job) e g v a = rw (after_new t id (fresh arena job_id job) e v)
again t id none (start arena job_id) e g v a = cc
again t id none (finish arena job_id progress) e g v a = cc
again t id none (update_action arena job_id index action) e g v a = cc
again t id none (update_byte_count arena job_id index current total) e g v a = cc
again t id (some info) (new arena job_id job) e g v a = cc
again t id (some info) (start arena job_id) e g v a =
    rw (a, lookup-put_self id (record info { progress = running }) t.jobs) is_pending-running
again t id (some info) (finish arena job_id progress) e g v a =
    rw (not-true (is_finished info.progress) a) (
      after_finish t id (record info { progress = progress; action = none }) arena job_id progress g
        v)
again t id (some info) (update_action arena job_id index action) e g v a =
    rw
      (
        a,
        lookup-put_self id
            (record info { notification_index = index; action = some action; byte_progress = none })
            t.jobs,
      )
      (ground arith)
again t id (some info) (update_byte_count arena job_id index current total) e g v a =
    rw
      (
        a,
        lookup-put_self id
            (record info { notification_index = index; byte_progress = some (current, total) })
            t.jobs,
      )
      (ground arith)

-- On a well-formed tracker, the same notification again is refused: the second call returns false. A
-- notification that a job finished has to carry a finished progress for that.
pub update_twice :
    (t : JobInfoTracker) (n : ChurtenNotification)
    → IsProper n
    → IsValid t
    → (update (update t n).0 n).1 ≡ false
unfolding update
update_twice t n g v =
    let id = global_job_id n in
    let o = lookup id t.jobs in
    let t' = (update_entry t id o n).0 in
    accepts_lem t' id (lookup id t'.jobs) n ∙ (elim (Bool-cases (accepts o n)) [
      | inl a ↦ again t id o n refl g v a
      | inr a ↦
          ap (λ (u : JobInfoTracker). accepts (lookup id u.jobs) n)
            (entry_refused t id o n (accepts_lem t id o n ∙ a))
          ∙ a
    ])
